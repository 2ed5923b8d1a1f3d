-- ===== src/Spsc.antt =====
-- src/spsc.rs: the ring buffer between one producer and one consumer. The atomics are numbers, and an
-- operation runs alone: a weak exchange succeeds, since one that fails for no reason only starts the
-- round again, and a round that another thread would have to help answers `spinning`.
pub mod Positions
pub mod Places
pub mod Refine
pub mod Push
pub mod Pop
pub mod Overwrite
pub mod Count
pub mod Drop
pub mod Fresh
pub mod Sides
mod Examples
mod Tests
use doom_fish_utils.Base.{
  ℕ, zero, suc, ◌+◌, ◌-◌, ◌*◌, ◌/◌, ◌%◌, ◌^◌, bit_and, List, [], ◌∷◌, map, Option, none, some, Bool,
  true, false, not, ◌&&◌, ◌==◌, ltb, leb, if◌then◌else◌, length, get_elem?, set, Outcome, returned,
  panicked, undefined, Result, ok, err,
}
use doom_fish_utils.Future.{Poll, ready, pending}
use doom_fish_utils.Future.Waker.{AtomicWaker}

-- `value` is none while the memory holds no item.
pub record Slot {ℓ} (A : Type ℓ) : Type ℓ where
  pub stamp : ℕ
  pub value : Option A

pub record Ring {ℓ} (A : Type ℓ) : Type ℓ where
  pub slots : List (Slot A)
  pub lap : ℕ
  pub read : ℕ
  pub write : ℕ

-- `wrapping_add` and `wrapping_sub` on `usize`.
abbrev pub wrapping_add : ℕ → ℕ → ℕ
wrapping_add a b = (a + b) % 2 ^ 64

abbrev pub wrapping_sub : ℕ → ℕ → ℕ
wrapping_sub a b = (a + 2 ^ 64 - b) % 2 ^ 64

-- `usize::next_power_of_two`: `n` doublings of 1 reach at least `n`.
unfoldable pub power_loop : ℕ → ℕ → ℕ → ℕ
power_loop zero p n = p
power_loop (suc left) p n = let rest = power_loop left (p * 2) n in if leb n p then p else rest

abbrev pub next_power_of_two : ℕ → ℕ
unfolding power_loop
next_power_of_two n = power_loop n 1 n

-- How a round of a loop ends.
pub data Round {ℓ κ} (A : Type ℓ) (B : Type κ) : Type (ℓ ⊔ κ) where
  finished : Ring A → B → Round A B
  spinning : Round A B
  misread : Round A B

module _ {ℓ} {A : Type ℓ} where
  unfoldable pub new_slots : ℕ → ℕ → List (Slot A)
  new_slots zero index = []
  new_slots (suc left) index =
      record { stamp = index * 2; value = none } ∷ new_slots left (index + 1)

  unfoldable pub new : ℕ → Ring A
  unfolding new_slots next_power_of_two
  new capacity = record {
    slots = new_slots capacity 0;
    lap = next_power_of_two capacity * 2;
    read = 0;
    write = 0;
  }

  -- `(position & (self.lap - 1)) >> 1`.
  abbrev pub index : Ring A → ℕ → ℕ
  index r position = bit_and position (r.lap - 1) / 2

  unfoldable pub next : Ring A → ℕ → ℕ
  next r position =
      if index r position + 1 == length r.slots
      then wrapping_add (bit_and position (2 ^ 64 - r.lap)) r.lap
      else wrapping_add position 2

  abbrev pub stored : ℕ → A → Slot A
  stored position item = record { stamp = wrapping_add position 1; value = some item }

  -- The item that is displaced; the memory must hold one.
  abbrev displaced : Ring A → Option A → Round A (Result (Option A) A)
  displaced r none = misread
  displaced r (some old) = finished r (ok (some old))

  -- A round of `push` at the position that it loaded, on the slot there.
  unfoldable pub push_at : Ring A → ℕ → A → Bool → Option (Slot A) → Round A (Result (Option A) A)
  unfolding next
  push_at r position item overwrite none = misread
  push_at r position item overwrite (some slot) =
      let oldest = wrapping_sub position r.lap in
      let filled = set r.slots (index r position) (stored position item) in
      if slot.stamp == position
      then finished (record r { write = next r position; slots = filled }) (ok none)
      else if (slot.stamp == wrapping_add oldest 1) && (r.read == oldest)
      then (if not overwrite
          then finished r (err item)
          else displaced
              (record r { read = next r oldest; write = next r position; slots = filled })
              slot.value)
      else spinning

  unfoldable pub push : Ring A → A → Bool → Round A (Result (Option A) A)
  unfolding push_at
  push r item overwrite = push_at r r.write item overwrite (get_elem? r.slots (index r r.write))

  abbrev popped : Ring A → Option A → Round A (Option A)
  popped r none = misread
  popped r (some item) = finished r (some item)

  unfoldable pub pop_at : Ring A → ℕ → Option (Slot A) → Round A (Option A)
  unfolding next
  pop_at r position none = misread
  pop_at r position (some slot) =
      let freed =
        set r.slots (index r position)
          (record { stamp = wrapping_add position r.lap; value = none }) in
      if slot.stamp == wrapping_add position 1
      then popped (record r { read = next r position; slots = freed }) slot.value
      else if (slot.stamp == position) && (r.write == position)
      then finished r none
      else spinning

  unfoldable pub pop : Ring A → Round A (Option A)
  unfolding pop_at
  pop r = pop_at r r.read (get_elem? r.slots (index r r.read))

  unfoldable pub len : Ring A → ℕ
  len r =
      let read_index = index r r.read in
      let write_index = index r r.write in
      if r.read == r.write
      then 0
      else if ltb read_index write_index
      then write_index - read_index
      else length r.slots - read_index + write_index

  abbrev pub dropped : A → Option (List A) → Option (List A)
  dropped item none = none
  dropped item (some items) = some (item ∷ items)

  -- `Drop for Ring`: the items that are dropped, in this order. There are no more rounds than slots,
  -- and the one that finds the ring empty.
  abbrev pub drop_item : (Ring A → Option (List A)) → Round A (Option A) → Option (List A)
  drop_item rest (finished r none) = some []
  drop_item rest (finished r (some item)) = dropped item (rest r)
  drop_item rest spinning = none
  drop_item rest misread = none

  unfoldable pub drop_loop : ℕ → Ring A → Option (List A)
  unfolding pop
  drop_loop zero r = none
  drop_loop (suc left) r = drop_item (λ s. drop_loop left s) (pop r)

  unfoldable pub drop_ring : Ring A → Option (List A)
  unfolding drop_loop
  drop_ring r = drop_loop (length r.slots + 1) r

  -- `SpscRing::with_capacity`, where `maximum` is `N`.
  unfoldable pub with_capacity : ℕ → ℕ → Outcome (Ring A)
  unfolding new
  with_capacity maximum capacity =
      if not (ltb 0 maximum)
      then panicked "SpscRing capacity must be > 0"
      else if not (ltb 0 capacity)
      then panicked "SpscRing capacity must be > 0"
      else if not (leb capacity maximum)
      then panicked "SpscRing capacity exceeds type maximum"
      else returned (new capacity)
