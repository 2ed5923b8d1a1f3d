-- ===== src/Collections/SecondaryMap/Put.antt =====
-- src/collections/slot_map.rs, `SecondaryMap::get_mut`.
use doom_fish_utils.Base.{
  ℕ, ◌≡◌, refl, sym, ap, ◌∙◌, inl, inr, Option, some, not, ◌&&◌, ◌==◌, if◌then◌else◌, get_elem?,
  Bool-cases, Option-cases, ==→eq,
}
use doom_fish_utils.Collections.Key.{KeyData, key_eq}
use doom_fish_utils.Collections.SecondaryMap.Insert.{slot_at-set}
use doom_fish_utils.Collections.SecondaryMap.Remove.{slot_within}
use doom_fish_utils.Collections.SecondaryMap.{
  Entry, SecondaryMap, slot_at, found, put_at, put, get, is_none,
}

module _ {ℓ} {V : Type ℓ} where
  -- Who finds something beside a slot whose value was replaced.
  found_replaced :
      (k j : KeyData) (version : ℕ) (value : V) (o : Option (Entry V))
      → version ≡ k.version
      → (k.idx ≡ j.idx → (e : Entry V) × (o ≡ some e) × (e.version ≡ k.version))
      → found (if k.idx == j.idx then some (record { version = version; value = value }) else o) j
        ≡ (if key_eq k j then some value else found o j)
  unfolding key_eq
  found_replaced k j version value o v q = elim (Bool-cases (k.idx == j.idx)) [
    | inl same ↦
        let (e, f, g) = q (==→eq _ _ same) in
        elim (Bool-cases (k.version == j.version)) [
          | inl t ↦ rw (same, f, found, v, t) refl
          | inr t ↦ rw (same, f, found, v, g, t) refl
        ]
    | inr differs ↦ rw differs refl
  ]

  module _ (m : SecondaryMap V) (k : KeyData) (value : V) where
    -- A write through `get_mut` happens if the key stands for a value, and afterwards that key stands
    -- for the new one and all others for what they did.
    pub put_lem :
        ((put m k value).1 ≡ not (is_none (get m k)))
        × ((j : KeyData)
            → get (put m k value).0 j
              ≡ (if not (is_none (get m k)) && key_eq k j then some value else get m j))
    unfolding put get
    put_lem = elim (Option-cases (slot_at (get_elem? m.slots k.idx))) [
      | inl e ↦ (rw (e, put_at, found) refl, λ j. rw (e, put_at, found) refl)
      | inr (x, q) ↦ elim (Bool-cases (x.version == k.version)) [
        | inl same ↦ (
          rw (q, put_at, found) (rw same refl),
          λ j.
              rw (q, put_at, found)
                (rw
                  (
                    same,
                    slot_at-set m.slots k.idx j.idx
                        (some (record { version = x.version; value = value }))
                        (slot_within m.slots k.idx x q),
                  )
                  (found_replaced k j x.version value (slot_at (get_elem? m.slots j.idx))
                    (==→eq _ _ same)
                    (λ (here : k.idx ≡ j.idx). (
                      x,
                      ap (λ i. slot_at (get_elem? m.slots i)) (sym here) ∙ q,
                      ==→eq _ _ same,
                    )))),
        )
        | inr differs ↦
            (rw (q, put_at, found) (rw differs refl), λ j. rw (q, put_at, found) (rw differs refl))
      ]
    ]
