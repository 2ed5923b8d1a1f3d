-- ===== src/Collections/SlotMap/Remove.antt =====
-- src/collections/slot_map.rs, `SlotMap::remove`: its branches, the invariant, and what it returns.
use doom_fish_utils.Base.{
  ℕ, ◌+◌, ◌-◌, ◌%◌, ◌≤◌, ◌≡◌, refl, sym, ap, ◌∙◌, ◌⊎◌, inl, inr, ◌∷◌, Option, some, none, get_elem?,
  set, arith, Option-cases, Bool-cases, ◌==◌, ==→eq,
}
use doom_fish_utils.Collections.Key.{KeyData, IsKey}
use doom_fish_utils.Collections.SlotMap.Slots.{
  State, occupied, vacant, Slot, IsSlot, AllSlots-get, occupied_count, occupied_count-set, link_of,
  parity, parity-le-occupied_count,
}
use doom_fish_utils.Collections.SlotMap.Invariant.{IsValid, IsSound-vacate}
use doom_fish_utils.Collections.SlotMap.{SlotMap, remove, vacated, usize_mod, found, get}

module _ {ℓ} {V : Type ℓ} where
  -- A slot whose version is odd holds a value.
  odd_occupied : (s : Slot V) → IsSlot s → s.version % 2 ≡ 1 → (v : V) × (s.state ≡ occupied v)
  odd_occupied s w o = state_occupied s.state (w.1 ∙ refl)
    where
      state_occupied : (t : State V) → s.version % 2 ≡ parity t → (v : V) × (t ≡ occupied v)
      state_occupied (occupied v) p = (v, refl)
      state_occupied (vacant n) p = absurd (omega arith)

  abbrev pub count_of : Option V → ℕ
  count_of none = 0
  count_of (some x) = 1

module _ {ℓ} {V : Type ℓ} (m : SlotMap V) (k : KeyData) where
  -- The key is current: its slot holds a value and is given up.
  pub record Hits : Type ℓ where
    pub slot : Slot V
    pub value : V
    pub at_idx : get_elem? m.slots k.idx ≡ some slot
    pub is_occupied : slot.state ≡ occupied value
    pub same : slot.version ≡ k.version
    pub found_lem : get m k ≡ some value
    pub result : remove m k ≡ (
      record {
        slots = set m.slots k.idx (vacated slot m.free_head);
        free_head = k.idx;
        len = (m.len + usize_mod - 1) % usize_mod;
      },
      some value,
    )

  pub record Misses : Type ℓ where
    pub not_found : get m k ≡ none
    pub result : remove m k ≡ (m, none)

  remove_found :
      IsKey k → IsValid m → (s : Slot V) → get_elem? m.slots k.idx ≡ some s → Hits ⊎ Misses
  unfolding remove get
  remove_found w v s e = elim (Bool-cases (s.version == k.version)) [
    | inl same ↦
        let (x, o) =
          odd_occupied s (AllSlots-get m.slots k.idx s v.sound.each e)
            (rw (==→eq _ _ same) w.odd) in
        inl (record {
          slot = s;
          value = x;
          at_idx = e;
          is_occupied = o;
          same = ==→eq _ _ same;
          found_lem = rw (e, found) (rw (same, o));
          result = rw (e, remove) (rw (same, o));
        })
    | inr differs ↦
        inr
          (record { not_found = rw (e, found) (rw differs); result = rw (e, remove) (rw differs) })
  ]

  pub remove_cases : IsKey k → IsValid m → Hits ⊎ Misses
  unfolding remove get
  remove_cases w v = elim (Option-cases (get_elem? m.slots k.idx)) [
    | inl e ↦ inr (record { not_found = rw (e, found); result = rw (e, remove) })
    | inr (s, e) ↦ remove_found w v s e
  ]

  hits-IsValid : IsValid m → Hits → IsValid (remove m k).0 × (m.len ≡ (remove m k).0.len + 1)
  hits-IsValid v h = rw h.result (
    record {
      free = k.idx ∷ v.free;
      sound =
          (IsSound-vacate m.slots m.free_head k.idx v.free h.slot h.at_idx
            (ap link_of h.is_occupied) v.sound).1;
      len_counts = omega (arith, v.len_counts, counts);
    },
    omega (arith, v.len_counts, v.sound.counted, v.sound.small, held),
  )
    where
      held : 1 ≤ occupied_count m.slots
      held =
          omega
            (arith, ap parity h.is_occupied, parity-le-occupied_count m.slots k.idx h.slot h.at_idx)

      counts :
          (m.len + usize_mod - 1) % usize_mod
          ≡ occupied_count (set m.slots k.idx (vacated h.slot m.free_head))
      counts = omega (
        arith,
        held,
        v.len_counts,
        v.sound.counted,
        v.sound.small,
        ap parity h.is_occupied,
        occupied_count-set m.slots k.idx h.slot (vacated h.slot m.free_head) h.at_idx,
      )

  -- A removal of a proper key keeps a valid map valid and returns what the key stood for; the
  -- length falls by one exactly if that was a value, and a key that stands for nothing leaves the
  -- map as it was.
  pub remove-IsValid :
      IsKey k
      → IsValid m
      → IsValid (remove m k).0
        × ((remove m k).1 ≡ get m k)
        × (m.len ≡ (remove m k).0.len + count_of (get m k))
        × (get m k ≡ none → (remove m k).0 ≡ m)
  remove-IsValid w v = cases (remove_cases w v)
    where
      cases :
          Hits ⊎ Misses
          → IsValid (remove m k).0
            × ((remove m k).1 ≡ get m k)
            × (m.len ≡ (remove m k).0.len + count_of (get m k))
            × (get m k ≡ none → (remove m k).0 ≡ m)
      cases (inl h) = (
        (hits-IsValid v h).0,
        ap (λ r. r.1) h.result ∙ sym h.found_lem,
        rw h.found_lem (hits-IsValid v h).1,
        λ n. cc (h.found_lem),
      )
      cases (inr n) = rw (n.result, n.not_found) (v, refl, omega arith, λ _. refl)
