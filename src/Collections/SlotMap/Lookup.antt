-- ===== src/Collections/SlotMap/Lookup.antt =====
-- src/collections/slot_map.rs: a slot map against the finite map from keys to values that it stands
-- for, `get m`.
use doom_fish_utils.Base.{
  ℕ, ◌≡◌, refl, sym, ap, ◌∙◌, ◌⊎◌, inl, inr, ◌≢◌, List, [], ◌∷◌, ◌++◌, some, none, false, ◌==◌,
  if◌then◌else◌, length, get_elem?, set, arith, if_same, get_elem?-set, get_elem?-set_ne,
  get_elem?-set_self, get_elem?-append, get_elem?_past, lt-length_of_some, returned, bit_or,
  ℕ_discrete, Bool-cases,
}
use doom_fish_utils.Base.Bits.{bit_or-one}
use doom_fish_utils.Collections.Key.{KeyData, IsKey, new, key_eq, key_eq→eq, version_ne}
use doom_fish_utils.Collections.SlotMap.Slots.{Slot, value_of}
use doom_fish_utils.Collections.SlotMap.Invariant.{IsValid}
use doom_fish_utils.Collections.SlotMap.Insert.{Reuses, Grows, Refuses, insert_cases, filled, fresh}
use doom_fish_utils.Collections.SlotMap.Remove.{Hits, Misses, remove_cases}
use doom_fish_utils.Collections.SlotMap.{SlotMap, insert, remove, vacated, get, found}

module _ {ℓ} {V : Type ℓ} where
  -- Reading a slot that has just been written.
  get_written :
      (ss : List (Slot V)) (i : ℕ) (old t : Slot V) (j : KeyData)
      → get_elem? ss i ≡ some old
      → found (get_elem? (set ss i t) j.idx) j.version
        ≡ (if i == j.idx then found (some t) j.version else found (get_elem? ss j.idx) j.version)
  get_written ss i old t j e =
      ground (arith, get_elem?-set ss i j.idx t (lt-length_of_some ss i old e))

  -- Reading a vector that has just grown.
  get_appended :
      (ss : List (Slot V)) (t : Slot V) (j : KeyData)
      → found (get_elem? (ss ++ t ∷ []) j.idx) j.version ≡ (
          if length ss == j.idx
          then found (some t) j.version
          else found (get_elem? ss j.idx) j.version)
  get_appended ss t j = ground (arith, get_elem?-append ss j.idx t)

  module _ (m : SlotMap V) (value : V) (j : KeyData) where
    get-reuse :
        (r : Reuses m value)
        → get (insert m value).0 j
          ≡ (if key_eq (new m.free_head (bit_or r.slot.version 1)) j then some value else get m j)
    unfolding get key_eq new
    get-reuse r = rw r.result (
        ground (
          arith,
          get_written m.slots m.free_head r.slot (filled m value r.slot) j r.at_head,
          bit_or-one r.slot.version,
          bit_or-one (bit_or r.slot.version 1),
          r.at_head,
          r.is_vacant,
        ))

    get-grow :
        (g : Grows m value)
        → get (insert m value).0 j
          ≡ (if key_eq (new (length m.slots) 1) j then some value else get m j)
    unfolding get key_eq new
    get-grow g = rw g.result (
        ground (
          arith,
          get_appended m.slots (fresh m value) j,
          get_elem?_past m.slots (length m.slots) (omega arith),
        ))

    get-reuse_new : (r : Reuses m value) → get m (new m.free_head (bit_or r.slot.version 1)) ≡ none
    unfolding get new
    get-reuse_new r = rw (r.at_head, found) (rw (r.is_vacant, value_of) (if_same _ none))

    get-grow_new : get m (new (length m.slots) 1) ≡ none
    unfolding get new
    get-grow_new = rw (get_elem?_past m.slots (length m.slots) (omega arith))

  -- On a valid map, an insertion that returns is an update of the finite map at a key that stood
  -- for nothing.
  pub get-insert :
      (m : SlotMap V) (value : V) {m' : SlotMap V} {k : KeyData}
      → IsValid m
      → insert m value ≡ (m', returned k)
      → (get m k ≡ none) × ((j : KeyData) → get m' j ≡ (if key_eq k j then some value else get m j))
  get-insert m value {m'} {k} v e = updates (insert_cases m value v)
    where
      after : (insert m value).0 ≡ m'
      after = ap (λ r. r.0) e

      updates :
          Reuses m value ⊎ Grows m value ⊎ Refuses m value
          → (get m k ≡ none)
            × ((j : KeyData) → get m' j ≡ (if key_eq k j then some value else get m j))
      updates (inl r) =
          let key : new m.free_head (bit_or r.slot.version 1) ≡ k = cc r.result in
          (rw (← key) (get-reuse_new m value k r), λ j. rw (← after, ← key) (get-reuse m value j r))
      updates (inr (inl g)) =
          let key : new (length m.slots) 1 ≡ k = cc g.result in
          (rw (← key) (get-grow_new m value k), λ j. rw (← after, ← key) (get-grow m value j g))
      updates (inr (inr f)) = cc f.result

  -- The slot of a removed key is found by no key.
  get-remove_hit :
      (m : SlotMap V) (k j : KeyData) (h : Hits m k) → k.idx ≡ j.idx → get (remove m k).0 j ≡ none
  unfolding get
  get-remove_hit m k j h same =
      rw
        (
          h.result,
          ← same,
          get_elem?-set_self m.slots k.idx (vacated h.slot m.free_head)
              (lt-length_of_some m.slots k.idx h.slot h.at_idx),
          found,
        )
        (if_same _ none)

  -- Nor did a key of another version find it before.
  get-stale_version :
      (m : SlotMap V) (k j : KeyData) (h : Hits m k)
      → key_eq k j ≡ false
      → k.idx ≡ j.idx
      → get m j ≡ none
  unfolding get
  get-stale_version m k j h e same =
      rw (← same, h.at_idx, found) (rw (h.same, version_ne k j e same))

  get-remove_elsewhere :
      (m : SlotMap V) (k j : KeyData) (h : Hits m k)
      → k.idx ≢ j.idx
      → get (remove m k).0 j ≡ get m j
  unfolding get
  get-remove_elsewhere m k j h differs =
      rw (h.result, get_elem?-set_ne m.slots k.idx j.idx (vacated h.slot m.free_head) differs)

  get-remove_other :
      (m : SlotMap V) (k j : KeyData) (h : Hits m k)
      → key_eq k j ≡ false
      → get (remove m k).0 j ≡ get m j
  get-remove_other m k j h e = elim (ℕ_discrete k.idx j.idx) [
    | yes same ↦ get-remove_hit m k j h same ∙ sym (get-stale_version m k j h e same)
    | no differs ↦ get-remove_elsewhere m k j h differs
  ]

  -- On a valid map, the removal of a proper key clears the finite map at that key alone.
  pub get-remove :
      (m : SlotMap V) (k j : KeyData)
      → IsKey k
      → IsValid m
      → get (remove m k).0 j ≡ (if key_eq k j then none else get m j)
  get-remove m k j w v = elim (Bool-cases (key_eq k j)) [
    | inl e ↦ rw (e, ← key_eq→eq k j e) (cases_self (remove_cases m k w v))
    | inr e ↦ rw e (cases_other e (remove_cases m k w v))
  ]
    where
      cases_self : Hits m k ⊎ Misses m k → get (remove m k).0 k ≡ none
      cases_self (inl h) = get-remove_hit m k k h refl
      cases_self (inr n) = rw n.result n.not_found

      cases_other : key_eq k j ≡ false → Hits m k ⊎ Misses m k → get (remove m k).0 j ≡ get m j
      cases_other e (inl h) = get-remove_other m k j h e
      cases_other e (inr n) = rw n.result refl
