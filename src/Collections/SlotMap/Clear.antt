-- ===== src/Collections/SlotMap/Clear.antt =====
-- src/collections/slot_map.rs, `SlotMap::clear`: its loop, and the empty map that it leaves.
use doom_fish_utils.Base.{
  ℕ, zero, suc, ◌+◌, ◌-◌, ◌<◌, ◌≡◌, refl, sym, ap, List, ◌∷◌, Option, some, none, length, get_elem?,
  arith, ltb, if◌then◌else◌, lt-length_of_some, length-set, get_elem?-set, get_elem?-set_self,
  get_elem?_within, get_elem?_past, dec_lt, ℕ_discrete,
}
use doom_fish_utils.Collections.Key.{KeyData, u32_max, u32_mod}
use doom_fish_utils.Collections.SlotMap.Slots.{
  State, occupied, vacant, Slot, link_of, value_at, occupied_count-none, sentinel_valueless,
}
use doom_fish_utils.Collections.SlotMap.Invariant.{IsSound, IsValid, IsSound-vacate}
use doom_fish_utils.Collections.SlotMap.{
  SlotMap, vacated, clear, clear_loop, clear_at, clear_state, found, get,
}

module _ {ℓ} {V : Type ℓ} where
  -- What one round of `clear` has done, between the maps before and after it.
  record Round (m m' : SlotMap V) (index : ℕ) : Type ℓ where
    free : List ℕ
    sound : IsSound m'.slots m'.free_head free
    same_length : length m'.slots ≡ length m.slots
    gone : value_at (get_elem? m'.slots index) ≡ none
    kept : (j : ℕ) → value_at (get_elem? m.slots j) ≡ none → value_at (get_elem? m'.slots j) ≡ none

  clear_state-Round :
      (m : SlotMap V) (index : ℕ) (free : List ℕ) (s : Slot V) (t : State V)
      → get_elem? m.slots index ≡ some s
      → s.state ≡ t
      → IsSound m.slots m.free_head free
      → Round m (clear_state t s m index) index
  clear_state-Round m index free s (vacant n) e q v = record {
    free = free;
    sound = v;
    same_length = refl;
    gone = rw (e, q);
    kept = λ j h. h;
  }
  clear_state-Round m index free s (occupied x) e q v = record {
    free = index ∷ free;
    sound = rw (fits) (IsSound-vacate m.slots m.free_head index free s e (ap link_of q) v).1;
    same_length = length-set m.slots index (vacated s m.free_head);
    gone = rw (get_elem?-set_self m.slots index (vacated s m.free_head) inside);
    kept = λ j h. ground (arith, get_elem?-set m.slots index j (vacated s m.free_head) inside);
  }
    where
      inside : index < length m.slots
      inside = lt-length_of_some m.slots index s e

      fits : (if ltb index u32_mod then index else u32_max) ≡ index
      fits = ground (arith, inside, v.small)

  clear_at-Round :
      (m : SlotMap V) (index : ℕ) (free : List ℕ)
      → index < length m.slots
      → IsSound m.slots m.free_head free
      → Round m (clear_at (get_elem? m.slots index) m index) index
  clear_at-Round m index free h v =
      let (s, e) = get_elem?_within m.slots index h in
      rw e (clear_state-Round m index free s s.state e refl v)

  record Emptied (m : SlotMap V) : Type ℓ where
    free : List ℕ
    sound : IsSound m.slots m.free_head free
    gone : (j : ℕ) → value_at (get_elem? m.slots j) ≡ none

  clear_loop-Emptied :
      (left index : ℕ) (m : SlotMap V) (free : List ℕ)
      → left + index ≡ length m.slots
      → ((j : ℕ) → j < index → value_at (get_elem? m.slots j) ≡ none)
      → IsSound m.slots m.free_head free
      → Emptied (clear_loop left index m)
  unfolding clear_loop
  clear_loop-Emptied zero index m free h below v = record {
    free = free;
    sound = v;
    gone = λ j. elim (dec_lt j index) [
      | yes p ↦ below j p
      | no p ↦ rw (get_elem?_past m.slots j (omega arith))
    ];
  }
  clear_loop-Emptied (suc left) index m free h below v =
      let r = clear_at-Round m index free (omega arith) v in
      clear_loop-Emptied left (index + 1) (clear_at (get_elem? m.slots index) m index) r.free
        (omega (arith, r.same_length))
        (λ j p. elim (ℕ_discrete j index) [
          | yes e ↦ rw e r.gone
          | no ne ↦ r.kept j (below j (omega arith))
        ])
        r.sound

  found_valueless : (o : Option (Slot V)) (version : ℕ) → value_at o ≡ none → found o version ≡ none
  found_valueless none version e = refl
  found_valueless (some s) version e = ground arith

  -- Clearing a valid map leaves a valid map with no value and length 0.
  pub clear-IsValid :
      (m : SlotMap V)
      → IsValid m
      → IsValid (clear m) × ((clear m).len ≡ 0) × ((k : KeyData) → get (clear m) k ≡ none)
  unfolding clear get
  clear-IsValid m v =
      let e =
        clear_loop-Emptied (length m.slots - 1) 1 m v.free (omega (arith, v.sound.counted))
          (sentinel_valueless m.slots v.sound.sentinel) v.sound in
      (
        record { free = e.free; sound = e.sound; len_counts = sym (occupied_count-none _ e.gone) },
        refl,
        λ k. found_valueless _ k.version (e.gone k.idx),
      )
