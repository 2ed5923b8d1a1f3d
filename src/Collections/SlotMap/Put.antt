-- ===== src/Collections/SlotMap/Put.antt =====
-- src/collections/slot_map.rs, `SlotMap::get_mut` and `Index`: writing through a found reference.
use doom_fish_utils.Base.{
  ℕ, ◌≡◌, refl, ap, inl, inr, List, Option, some, none, true, false, ◌==◌, if◌then◌else◌, get_elem?,
  set, arith, if_same, Bool-cases, Option-cases, ==→eq, eq→==, length-set, get_elem?-set_ne,
  get_elem?-set_self, lt-length_of_some, ℕ_discrete,
}
use doom_fish_utils.Collections.Key.{KeyData, key_eq, key_eq→eq, version_ne}
use doom_fish_utils.Collections.SlotMap.Slots.{
  State, occupied, vacant, Slot, value_of, link_of, parity, AllSlots-get, AllSlots-set,
  occupied_count-set, pos_of_unlinked,
}
use doom_fish_utils.Collections.SlotMap.FreeList.{Chain-set, IsAbsent-of_unlinked}
use doom_fish_utils.Collections.SlotMap.Invariant.{IsSound, IsValid}
use doom_fish_utils.Collections.SlotMap.{SlotMap, put, get, found}

module _ {ℓ} {V : Type ℓ} where
  found_in :
      (s : Slot V) (t : State V) (version : ℕ) (v : V)
      → (if s.version == version then value_of t else none) ≡ some v
      → (s.version ≡ version) × (t ≡ occupied v)
  found_in s (occupied x) version v e = elim (Bool-cases (s.version == version)) [
    | inl same ↦ (==→eq _ _ same, cc same)
    | inr differs ↦ cc differs
  ]
  found_in s (vacant n) version v e = cc (if_same {A = Option V} (s.version == version) none)

  -- A key that is found stands for an occupied slot of its version.
  pub get-eq-some :
      (m : SlotMap V) (k : KeyData) (v : V)
      → get m k ≡ some v
      → (s : Slot V) × (get_elem? m.slots k.idx ≡ some s)
        × (s.version ≡ k.version)
        × (s.state ≡ occupied v)
  unfolding get
  get-eq-some m k v e = elim (Option-cases (get_elem? m.slots k.idx)) [
    | inl q ↦ cc q
    | inr (s, q) ↦ let (same, o) = found_in s s.state k.version v (rw q at e) in (s, q, same, o)
  ]

  abbrev pub rewritten : KeyData → V → Slot V
  rewritten k value = record { version = k.version; state = occupied value }

  -- A value is replaced in its slot.
  IsSound-rewrite :
      (ss : List (Slot V)) (head : ℕ) (free : List ℕ) (k : KeyData) (s : Slot V) (old value : V)
      → get_elem? ss k.idx ≡ some s
      → s.version ≡ k.version
      → s.state ≡ occupied old
      → IsSound ss head free
      → IsSound (set ss k.idx (rewritten k value)) head free
  IsSound-rewrite ss head free k s old value e same o v = record {
    chain =
        Chain-set ss head free k.idx t (IsAbsent-of_unlinked ss head free k.idx (rw (e, o)) v.chain)
          v.chain;
    distinct = v.distinct;
    counted =
        omega
          (arith, length-set ss k.idx t, occupied_count-set ss k.idx s t e, ap parity o, v.counted);
    each =
        AllSlots-set ss k.idx t v.each
          (omega (arith, AllSlots-get ss k.idx s v.each e, same, ap parity o));
    small = omega (arith, length-set ss k.idx t, v.small);
    sentinel =
        rw
          (get_elem?-set_ne ss k.idx 0 t
            (omega (arith, pos_of_unlinked ss k.idx s e (ap link_of o) v.sentinel)))
          v.sentinel;
  }
    where
      t : Slot V
      t = rewritten k value

  abbrev pub replaced : Option V → V → Option V
  replaced none value = none
  replaced (some old) value = some value

  module _ (m : SlotMap V) (k : KeyData) (value old : V) (e : get m k ≡ some old) where
    pub put-eq : put m k value ≡ (record m { slots = set m.slots k.idx (rewritten k value) }, true)
    unfolding put
    put-eq = rw (e, put)

    put-IsValid : IsValid m → IsValid (put m k value).0 × ((put m k value).0.len ≡ m.len)
    put-IsValid v =
        let (s, q, same, o) = get-eq-some m k old e in
        rw put-eq (
          record {
            free = v.free;
            sound = IsSound-rewrite m.slots m.free_head v.free k s old value q same o v.sound;
            len_counts = omega (
              arith,
              v.len_counts,
              ap parity o,
              occupied_count-set m.slots k.idx s (rewritten k value) q,
            );
          },
          refl,
        )

    get-put_self : get (put m k value).0 k ≡ some value
    unfolding get
    get-put_self =
        let (s, q, same, o) = get-eq-some m k old e in
        rw
          (
            put-eq,
            get_elem?-set_self m.slots k.idx (rewritten k value)
                (lt-length_of_some m.slots k.idx s q),
            found,
          )
          (rw (eq→== k.version k.version refl))

    get-put_other : (j : KeyData) → key_eq k j ≡ false → get (put m k value).0 j ≡ get m j
    unfolding get
    get-put_other j d =
        let (s, q, same, o) = get-eq-some m k old e in
        elim (ℕ_discrete k.idx j.idx) [
          | yes here ↦
              rw
                (
                  put-eq,
                  ← here,
                  get_elem?-set_self m.slots k.idx (rewritten k value)
                      (lt-length_of_some m.slots k.idx s q),
                  q,
                  found,
                )
                (rw (same, version_ne k j d here))
          | no differs ↦
              rw (put-eq, get_elem?-set_ne m.slots k.idx j.idx (rewritten k value) differs)
        ]

  pub put_missing :
      (m : SlotMap V) (k : KeyData) (value : V) → get m k ≡ none → put m k value ≡ (m, false)
  unfolding put
  put_missing m k value e = rw (e, put)

  -- Writing through `get_mut` on a valid map updates the finite map at a key that is found, and
  -- otherwise changes nothing; the map stays valid and its length is the same.
  pub put_lem :
      (m : SlotMap V) (k : KeyData) (value : V)
      → IsValid m
      → IsValid (put m k value).0
        × ((put m k value).0.len ≡ m.len)
        × ((j : KeyData)
            → get (put m k value).0 j ≡ (if key_eq k j then replaced (get m k) value else get m j))
  put_lem m k value v = elim (Option-cases (get m k)) [
    | inl e ↦ rw (put_missing m k value e) (
      v,
      refl,
      λ j. elim (Bool-cases (key_eq k j)) [
        | inl same ↦ rw (same, ← key_eq→eq k j same, e)
        | inr differs ↦ rw differs
      ],
    )
    | inr (old, e) ↦ (
      (put-IsValid m k value old e v).0,
      (put-IsValid m k value old e v).1,
      λ j. elim (Bool-cases (key_eq k j)) [
        | inl same ↦ rw (same, ← key_eq→eq k j same, e) (get-put_self m k value old e)
        | inr differs ↦ rw differs (get-put_other m k value old e j differs)
      ],
    )
  ]
