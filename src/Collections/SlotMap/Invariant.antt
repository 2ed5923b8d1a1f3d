-- ===== src/Collections/SlotMap/Invariant.antt =====
-- src/collections/slot_map.rs: what every operation of `SlotMap` keeps.
use doom_fish_utils.Base.{
  ℕ, ◌+◌, ◌≤◌, ◌<◌, ◌≡◌, refl, ap, List, [], ◌∷◌, ◌++◌, none, some, length, get_elem?, set, arith,
  length-set, length-append, get_elem?-set_ne, get_elem?-set_self, get_elem?-append_left,
  lt-length_of_some,
}
use doom_fish_utils.Collections.Key.{u32_max}
use doom_fish_utils.Collections.SlotMap.Slots.{
  vacant, Slot, link_of, link_at, parity, IsSlot, AllSlots, occupied_count, AllSlots-get,
  AllSlots-set, AllSlots-append_last, occupied_count-set, occupied_count-append_last,
  parity_unlinked, pos_of_unlinked,
}
use doom_fish_utils.Collections.SlotMap.FreeList.{
  IsAbsent, IsDistinct, Chain, Chain-set, IsAbsent-of_unlinked, Chain-uncons,
}
use doom_fish_utils.Collections.SlotMap.{SlotMap, vacated, with_capacity}

module _ {ℓ} {V : Type ℓ} where
  -- The slots, the head of the free list and the list of its indices fit together: slot 0 is vacant,
  -- a slot is occupied exactly if its version is odd, and the free list passes once through each
  -- other vacant slot.
  pub record IsSound (ss : List (Slot V)) (head : ℕ) (free : List ℕ) : Type 0 where
    pub chain : Chain ss head free
    pub distinct : IsDistinct free
    pub counted : length free + occupied_count ss + 1 ≡ length ss
    pub each : AllSlots ss
    pub small : length ss ≤ u32_max
    pub sentinel : link_at (get_elem? ss 0) ≡ some 0

  pub record IsValid (m : SlotMap V) : Type 0 where
    pub free : List ℕ
    pub sound : IsSound m.slots m.free_head free
    pub len_counts : m.len ≡ occupied_count m.slots

  -- A new map holds the vacant slot 0 alone.
  pub with_capacity-IsValid : IsValid with_capacity
  unfolding with_capacity
  with_capacity-IsValid = record {
    free = [];
    sound = record {
      chain = refl;
      distinct = tt;
      counted = refl;
      each = ((omega arith, refl), tt);
      small = omega arith;
      sentinel = refl;
    };
    len_counts = refl;
  }

  -- An occupied slot is given up: it becomes the head of the free list.
  pub IsSound-vacate :
      (ss : List (Slot V)) (head i : ℕ) (free : List ℕ) (s : Slot V)
      → get_elem? ss i ≡ some s
      → link_of s.state ≡ none
      → IsSound ss head free
      → (0 < i) × IsSound (set ss i (vacated s head)) i (i ∷ free)
  IsSound-vacate ss head i free s e n v = (
    pos,
    record {
      chain = (
        refl,
        pos,
        head,
        rw (get_elem?-set_self ss i (vacated s head) (lt-length_of_some ss i s e)),
        Chain-set ss head free i (vacated s head) absent v.chain,
      );
      distinct = (absent, v.distinct);
      counted = omega (
        arith,
        length-set ss i (vacated s head),
        occupied_count-set ss i s (vacated s head) e,
        parity_unlinked s.state n,
        v.counted,
      );
      each =
          AllSlots-set ss i (vacated s head) v.each
            (omega (arith, parity_unlinked s.state n, AllSlots-get ss i s v.each e));
      small = omega (arith, length-set ss i (vacated s head), v.small);
      sentinel = rw (get_elem?-set_ne ss i 0 (vacated s head) (omega (arith, pos))) v.sentinel;
    },
  )
    where
      pos : 0 < i
      pos = pos_of_unlinked ss i s e n v.sentinel

      absent : IsAbsent i free
      absent = IsAbsent-of_unlinked ss head free i (rw e n) v.chain

  -- The head of the free list is filled.
  pub IsSound-fill :
      (ss : List (Slot V)) (head i next : ℕ) (free : List ℕ) (s t : Slot V)
      → get_elem? ss head ≡ some s
      → s.state ≡ vacant next
      → IsSlot t
      → parity t.state ≡ 1
      → IsSound ss head (i ∷ free)
      → IsSound (set ss head t) next free
  IsSound-fill ss head i next free s t e q w p v = record {
    chain = Chain-set ss next free head t (rw behind.0 v.distinct.0) behind.2;
    distinct = v.distinct.1;
    counted =
        omega
          (arith, length-set ss head t, occupied_count-set ss head s t e, ap parity q, v.counted);
    each = AllSlots-set ss head t v.each w;
    small = omega (arith, length-set ss head t, v.small);
    sentinel = rw (get_elem?-set_ne ss head 0 t (omega (arith, behind.0, behind.1))) v.sentinel;
  }
    where
      behind : (head ≡ i) × (0 < i) × Chain ss next free
      behind = Chain-uncons ss head i next free s e q v.chain

  -- With an empty free list the vector grows by an occupied slot.
  pub IsSound-grow :
      (ss : List (Slot V)) (head : ℕ) (t : Slot V)
      → length ss < u32_max
      → IsSlot t
      → parity t.state ≡ 1
      → IsSound ss head []
      → IsSound (ss ++ t ∷ []) (length ss + 1) []
  IsSound-grow ss head t h w p v = record {
    chain = omega (arith, length-append ss (t ∷ []));
    distinct = tt;
    counted = omega (arith, length-append ss (t ∷ []), occupied_count-append_last ss t, v.counted);
    each = AllSlots-append_last ss t v.each w;
    small = omega (arith, length-append ss (t ∷ []));
    sentinel = rw (get_elem?-append_left ss (t ∷ []) 0 (omega (arith, v.counted))) v.sentinel;
  }
