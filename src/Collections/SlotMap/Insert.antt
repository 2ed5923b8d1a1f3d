-- ===== src/Collections/SlotMap/Insert.antt =====
-- src/collections/slot_map.rs, `SlotMap::insert`: its three branches, and the invariant.
use doom_fish_utils.Base.{
  ℕ, ◌+◌, ◌%◌, ◌<◌, ◌≡◌, refl, sym, ap, ◌∙◌, ◌⊎◌, inl, inr, List, [], ◌∷◌, ◌++◌, some, none, bit_or,
  length, get_elem?, set, arith, get_elem?_past, lt-length_of_some, subst, lt→ltb, not_lt→ltb,
  dec_lt, Outcome, returned, panicked, undefined,
}
use doom_fish_utils.Base.Bits.{bit_or-one}
use doom_fish_utils.Collections.Key.{KeyData, IsKey, new, new-IsKey, u32_max}
use doom_fish_utils.Collections.SlotMap.Slots.{
  occupied, vacant, Slot, IsSlot, AllSlots-get, occupied_count-set, occupied_count-append_last,
  parity,
}
use doom_fish_utils.Collections.SlotMap.FreeList.{link_at-eq-some}
use doom_fish_utils.Collections.SlotMap.Invariant.{IsSound, IsValid, IsSound-fill, IsSound-grow}
use doom_fish_utils.Collections.SlotMap.{SlotMap, insert, next_free, usize_mod}

module _ {ℓ} {V : Type ℓ} (m : SlotMap V) (value : V) where
  abbrev pub filled : Slot V → Slot V
  filled s = record { version = bit_or s.version 1; state = occupied value }

  abbrev pub fresh : Slot V
  fresh = record { version = 1; state = occupied value }

  -- The head of the free list is reused.
  pub record Reuses : Type ℓ where
    pub slot : Slot V
    pub next : ℕ
    pub rest : List ℕ
    pub at_head : get_elem? m.slots m.free_head ≡ some slot
    pub is_vacant : slot.state ≡ vacant next
    pub is_slot : IsSlot slot
    pub sound : IsSound m.slots m.free_head (m.free_head ∷ rest)
    pub result : insert m value ≡ (
      record {
        slots = set m.slots m.free_head (filled slot);
        free_head = next;
        len = (m.len + 1) % usize_mod;
      },
      returned (new m.free_head (bit_or slot.version 1)),
    )

  -- No slot is vacant, and the vector grows.
  pub record Grows : Type ℓ where
    pub room : length m.slots < u32_max
    pub sound : IsSound m.slots m.free_head []
    pub result : insert m value ≡ (
      record {
        slots = m.slots ++ fresh ∷ [];
        free_head = length m.slots + 1;
        len = (m.len + 1) % usize_mod;
      },
      returned (new (length m.slots) 1),
    )

  -- No slot is vacant, and the vector has its greatest length.
  pub record Refuses : Type ℓ where
    pub no_room : length m.slots ≡ u32_max
    pub sound : IsSound m.slots m.free_head []
    pub result :
        insert m value ≡ (record m { len = (m.len + 1) % usize_mod }, panicked "SlotMap is full")

  -- Which branch runs is decided by the free list.
  insert_cases_sound : (free : List ℕ) → IsSound m.slots m.free_head free → Reuses ⊎ Grows ⊎ Refuses
  unfolding insert
  insert_cases_sound [] v = elim (dec_lt (length m.slots) u32_max) [
    | yes room ↦ inr (
        inl (record { room = room; sound = v; result = rw (behind_last, insert, lt→ltb _ _ room) }))
    | no full ↦ inr (
        inr (record {
          no_room = omega (arith, v.small);
          sound = v;
          result = rw (behind_last, insert, not_lt→ltb _ _ full);
        }))
  ]
    where
      behind_last : get_elem? m.slots m.free_head ≡ none
      behind_last = get_elem?_past m.slots m.free_head (omega (arith, v.chain))
  insert_cases_sound (i ∷ rest) v =
      let (s, e, q) =
        link_at-eq-some (get_elem? m.slots m.free_head) v.chain.2 (rw v.chain.0 v.chain.3) in
      inl (record {
        slot = s;
        next = v.chain.2;
        rest = rest;
        at_head = e;
        is_vacant = q;
        is_slot = AllSlots-get m.slots m.free_head s v.each e;
        sound = subst (λ j. IsSound m.slots m.free_head (j ∷ rest)) (sym v.chain.0) v;
        result = rw (e, insert) (rw (q, next_free));
      })

  pub insert_cases : IsValid m → Reuses ⊎ Grows ⊎ Refuses
  insert_cases v = insert_cases_sound v.free v.sound

  -- What a call that returned has done to the map.
  abbrev Keeps : SlotMap V × Outcome KeyData → Type 0
  Keeps (m', returned k) = IsValid m' × IsKey k × (m'.len ≡ m.len + 1)
  Keeps (m', panicked message) = Unit {0}
  Keeps (m', undefined) = Unit {0}

  len_bound : IsValid m → m.len < u32_max
  len_bound v = omega (arith, v.len_counts, v.sound.counted, v.sound.small)

  head_bound : (s : Slot V) → get_elem? m.slots m.free_head ≡ some s → m.free_head < length m.slots
  head_bound s e = lt-length_of_some m.slots m.free_head s e

  reuses-Keeps : IsValid m → Reuses → Keeps (insert m value)
  reuses-Keeps v r = rw r.result (
    record {
      free = r.rest;
      sound =
          IsSound-fill m.slots m.free_head m.free_head r.next r.rest r.slot (filled r.slot)
            r.at_head r.is_vacant odd refl r.sound;
      len_counts = omega (
        arith,
        len_bound v,
        v.len_counts,
        ap parity r.is_vacant,
        occupied_count-set m.slots m.free_head r.slot (filled r.slot) r.at_head,
      );
    },
    new-IsKey _ _ (omega (arith, head_bound r.slot r.at_head, v.sound.small)) odd.0,
    omega (arith, len_bound v),
  )
    where
      odd : IsSlot (filled r.slot)
      odd = omega (arith, bit_or-one r.slot.version, r.is_slot.0)

  grows-Keeps : IsValid m → Grows → Keeps (insert m value)
  grows-Keeps v g = rw g.result (
    record {
      free = [];
      sound = IsSound-grow m.slots m.free_head fresh g.room (omega arith) refl g.sound;
      len_counts =
          omega (arith, len_bound v, v.len_counts, occupied_count-append_last m.slots fresh);
    },
    new-IsKey _ _ (omega (arith, g.room)) (omega arith),
    omega (arith, len_bound v),
  )

  -- An insertion that returns keeps the map valid, counts the value, and gives a proper key.
  pub insert-IsValid :
      {m' : SlotMap V} {k : KeyData}
      → IsValid m
      → insert m value ≡ (m', returned k)
      → IsValid m' × IsKey k × (m'.len ≡ m.len + 1)
  insert-IsValid v e = subst Keeps e (keeps (insert_cases v))
    where
      keeps : Reuses ⊎ Grows ⊎ Refuses → Keeps (insert m value)
      keeps (inl r) = reuses-Keeps v r
      keeps (inr (inl g)) = grows-Keeps v g
      keeps (inr (inr f)) = rw f.result tt

  -- On a valid map `insert` either returns a key, and the map holds fewer than 2^32 - 2 values, or it
  -- panics, and the map holds 2^32 - 2: a panic leaves the slots and the free list as they were, and the
  -- length counts the value that was not stored.
  pub insert_full_lem :
      IsValid m
      → ((m.len + 1 < u32_max)
          × (m' : SlotMap V) × (k : KeyData) × (insert m value ≡ (m', returned k)))
        ⊎ ((m.len + 1 ≡ u32_max)
            × (insert m value ≡ (record m { len = m.len + 1 }, panicked "SlotMap is full")))
  insert_full_lem v = elim (insert_cases v) [
    | inl r ↦ inl (
      omega (arith, r.sound.counted, v.len_counts, r.sound.small, head_bound r.slot r.at_head),
      _,
      _,
      r.result,
    )
    | inr (inl g) ↦ inl (omega (arith, g.sound.counted, v.len_counts, g.room), _, _, g.result)
    | inr (inr f) ↦ inr (
      omega (arith, f.sound.counted, v.len_counts, f.no_room),
      f.result
          ∙ ap (λ n. (record m { len = n }, panicked "SlotMap is full"))
              (let e : (m.len + 1) % usize_mod ≡ m.len + 1 = omega (arith, len_bound v) in e),
    )
  ]
