-- ===== src/Collections/SecondaryMap/Remove.antt =====
-- src/collections/slot_map.rs, `SecondaryMap::remove`.
use doom_fish_utils.Base.{
  ℕ, ◌<◌, ◌≡◌, refl, sym, ap, ◌∙◌, inl, inr, List, Option, none, some, Bool, true, false, ◌==◌,
  if◌then◌else◌, length, get_elem?, arith, Bool-cases, Option-cases, ==→eq, get_elem?_past, dec_lt,
}
use doom_fish_utils.Collections.Key.{KeyData, key_eq, key_eq→eq}
use doom_fish_utils.Collections.SecondaryMap.Insert.{slot_at-set}
use doom_fish_utils.Collections.SecondaryMap.{
  Entry, SecondaryMap, slot_at, found, remove_at, remove, get,
}

module _ {ℓ} {V : Type ℓ} where
  pub slot_within :
      (slots : List (Option (Entry V))) (i : ℕ) (e : Entry V)
      → slot_at (get_elem? slots i) ≡ some e
      → i < length slots
  slot_within slots i e q = elim (dec_lt i (length slots)) [
    | yes h ↦ h
    | no h ↦ cc (get_elem?_past slots i (omega arith))
  ]

  -- Who finds something beside a slot that has been emptied.
  found_emptied :
      (k j : KeyData) (e : Entry V) (o : Option (Entry V))
      → e.version ≡ k.version
      → (k.idx ≡ j.idx → o ≡ some e)
      → found (if k.idx == j.idx then none else o) j ≡ (if key_eq k j then none else found o j)
  unfolding key_eq
  found_emptied k j e o v q = elim (Bool-cases (k.idx == j.idx)) [
    | inl same ↦ rw (same, q (==→eq _ _ same), found) (rw v (emptied (k.version == j.version)))
    | inr differs ↦ rw differs
  ]
    where
      emptied : (b : Bool) → none ≡ (if b then none else if b then some e.value else none)
      emptied true = refl
      emptied false = refl

  module _ (m : SecondaryMap V) (k : KeyData) where
    found_missing :
        (j : KeyData) → get m k ≡ none → get m j ≡ (if key_eq k j then none else get m j)
    found_missing j e = elim (Bool-cases (key_eq k j)) [
      | inl same ↦ rw (same, ← key_eq→eq k j same, e)
      | inr differs ↦ rw differs
    ]

    remove_entry :
        (e : Entry V)
        → slot_at (get_elem? m.slots k.idx) ≡ some e
        → ((remove m k).1 ≡ get m k)
          × ((j : KeyData) → get (remove m k).0 j ≡ (if key_eq k j then none else get m j))
    unfolding remove get
    remove_entry e q = elim (Bool-cases (e.version == k.version)) [
      | inl same ↦ (
        rw (q, remove_at, found) (rw same),
        λ j.
            rw (q, remove_at)
              (rw (same, slot_at-set m.slots k.idx j.idx none (slot_within m.slots k.idx e q))
                (found_emptied k j e (slot_at (get_elem? m.slots j.idx)) (==→eq _ _ same)
                  (λ (here : k.idx ≡ j.idx).
                    ap (λ i. slot_at (get_elem? m.slots i)) (sym here) ∙ q))),
      )
      | inr differs ↦ (
        rw (q, remove_at, found) (rw differs),
        λ j. rw (q, remove_at) (rw differs (found_missing j (rw (q, found) (rw differs)))),
      )
    ]

    -- A removal returns what the key stood for, and afterwards that key alone stands for nothing.
    pub remove_lem :
        ((remove m k).1 ≡ get m k)
        × ((j : KeyData) → get (remove m k).0 j ≡ (if key_eq k j then none else get m j))
    unfolding remove get
    remove_lem = elim (Option-cases (slot_at (get_elem? m.slots k.idx))) [
      | inl e ↦ (rw (e, remove_at, found), λ j. rw (e, remove_at) (found_missing j (rw (e, found))))
      | inr (x, e) ↦ remove_entry x e
    ]
