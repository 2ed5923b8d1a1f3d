-- ===== src/Collections/SlotMap.antt =====
-- src/collections/slot_map.rs, `SlotMap`: a vector of versioned slots whose vacant ones form a free
-- list. Methods on `&mut self` give the state that they leave beside what they return.
pub mod Slots
pub mod FreeList
pub mod Invariant
pub mod Insert
pub mod Remove
pub mod Clear
pub mod Put
pub mod History
pub mod Stale
pub mod Iterate
pub mod Lookup
mod Examples
use Prim.Native.String.{String}
use doom_fish_utils.Base.{
  ℕ, zero, suc, ◌+◌, ◌-◌, ◌%◌, ◌^◌, bit_or, List, [], ◌∷◌, ◌++◌, Option, none, some, Bool, true,
  false, ◌==◌, ltb, if◌then◌else◌, length, get_elem?, set, Outcome, returned, panicked,
}
use doom_fish_utils.Collections.Key.{KeyData, new, u32_max, u32_mod}
use Slots.{State, occupied, vacant, Slot, value_of}

-- `usize` arithmetic.
abbrev pub usize_mod : ℕ
usize_mod = 2 ^ 64

pub record SlotMap {ℓ} (V : Type ℓ) : Type ℓ where
  pub slots : List (Slot V)
  pub free_head : ℕ
  pub len : ℕ

module _ {ℓ} {V : Type ℓ} where
  -- `free_head` after a slot with this state has been filled: a vacant state holds the next link.
  abbrev pub next_free : State V → ℕ → ℕ
  next_free (occupied v) head = head
  next_free (vacant next) head = next

  -- Slot 0 is a sentinel that stays vacant. The capacity only reserves memory.
  unfoldable pub with_capacity : SlotMap V
  with_capacity = record {
    slots = record { version = 0; state = vacant 0 } ∷ [];
    free_head = 1;
    len = 0;
  }

  -- `insert` behind its `get_mut(free_head)`.
  unfoldable pub insert_at : Option (Slot V) → SlotMap V → V → SlotMap V × Outcome KeyData
  insert_at (some slot) m value =
      let version = bit_or slot.version 1 in
      (
        record m {
          slots = set m.slots m.free_head (record { version = version; state = occupied value });
          free_head = next_free slot.state m.free_head;
        },
        returned (new m.free_head version),
      )
  insert_at none m value =
      if ltb (length m.slots) u32_max
      then (
        record m {
          slots = m.slots ++ record { version = 1; state = occupied value } ∷ [];
          free_head = length m.slots + 1;
        },
        returned (new (length m.slots) 1),
      )
      else (m, panicked "SlotMap is full")

  -- `self.len` is raised before the slot is looked for, so also where the call panics.
  unfoldable pub insert : SlotMap V → V → SlotMap V × Outcome KeyData
  unfolding insert_at
  insert m value =
      insert_at (get_elem? m.slots m.free_head) (record m { len = (m.len + 1) % usize_mod }) value

  -- A slot that is given up: the next version, linked before the free list.
  abbrev pub vacated : Slot V → ℕ → Slot V
  vacated slot head = record { version = (slot.version + 1) % u32_mod; state = vacant head }

  -- `remove` behind its `get_mut(data.idx)?`.
  unfoldable pub remove_at : Option (Slot V) → SlotMap V → KeyData → SlotMap V × Option V
  remove_at none m key = (m, none)
  remove_at (some slot) m key =
      if slot.version == key.version
      then (
        record {
          slots = set m.slots key.idx (vacated slot m.free_head);
          free_head = key.idx;
          len = (m.len + usize_mod - 1) % usize_mod;
        },
        value_of slot.state,
      )
      else (m, none)

  unfoldable pub remove : SlotMap V → KeyData → SlotMap V × Option V
  unfolding remove_at
  remove m key = remove_at (get_elem? m.slots key.idx) m key

  -- One round of the loop of `clear`; the index is in range, so the read does not panic, and an
  -- index that does not fit `u32` counts as `u32::MAX`.
  abbrev pub clear_state : State V → Slot V → SlotMap V → ℕ → SlotMap V
  clear_state (occupied v) slot m index = record m {
    slots = set m.slots index (vacated slot m.free_head);
    free_head = if ltb index u32_mod then index else u32_max;
  }
  clear_state (vacant next) slot m index = m

  abbrev pub clear_at : Option (Slot V) → SlotMap V → ℕ → SlotMap V
  clear_at none m index = m
  clear_at (some slot) m index = clear_state slot.state slot m index

  -- `for index in 1..self.slots.len()`, with the rounds that are left.
  unfoldable pub clear_loop : ℕ → ℕ → SlotMap V → SlotMap V
  clear_loop zero index m = m
  clear_loop (suc left) index m =
      clear_loop left (index + 1) (clear_at (get_elem? m.slots index) m index)

  unfoldable pub clear : SlotMap V → SlotMap V
  unfolding clear_loop
  clear m = record (clear_loop (length m.slots - 1) 1 m) { len = 0 }

  -- The match of `get` and `get_mut`.
  abbrev pub found : Option (Slot V) → ℕ → Option V
  found none version = none
  found (some slot) version = if slot.version == version then value_of slot.state else none

  unfoldable pub get : SlotMap V → KeyData → Option V
  get m key = found (get_elem? m.slots key.idx) key.version

  -- `get_mut` and a write through the reference; the flag says whether there was one.
  unfoldable pub put : SlotMap V → KeyData → V → SlotMap V × Bool
  unfolding get
  put m key value = elim (get m key) [
    | none ↦ (m, false)
    | some old ↦ (
      record m {
        slots = set m.slots key.idx (record { version = key.version; state = occupied value });
      },
      true,
    )
  ]

  -- `Index`.
  unfoldable pub index : SlotMap V → KeyData → Outcome V
  unfolding get
  index m key = elim (get m key) [
    | none ↦ panicked "invalid SlotMap key used"
    | some value ↦ returned value
  ]

  -- `keys` over the slots from an index on; an index beyond `u32` is passed over.
  abbrev pub keys_cons : State V → ℕ → ℕ → List KeyData → List KeyData
  keys_cons (occupied v) index version rest =
      if ltb index u32_mod then new index version ∷ rest else rest
  keys_cons (vacant next) index version rest = rest

  unfoldable pub keys_from : ℕ → List (Slot V) → List KeyData
  keys_from index [] = []
  keys_from index (s ∷ ss) = keys_cons s.state index s.version (keys_from (index + 1) ss)

  unfoldable pub keys : SlotMap V → List KeyData
  unfolding keys_from
  keys m = keys_from 0 m.slots

  abbrev pub values_cons : Option V → List V → List V
  values_cons none rest = rest
  values_cons (some v) rest = v ∷ rest

  unfoldable pub values_in : List (Slot V) → List V
  values_in [] = []
  values_in (s ∷ ss) = values_cons (value_of s.state) (values_in ss)

  unfoldable pub values : SlotMap V → List V
  unfolding values_in
  values m = values_in m.slots
