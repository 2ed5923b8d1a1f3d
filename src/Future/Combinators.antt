-- ===== src/Future/Combinators.antt =====
-- src/future/mod.rs: `now_or_never`, `select` and `join_all`. A future is a state with the function
-- that polls it; a context is its waker, a number.
mod Joined
mod Rounds
mod Examples
use doom_fish_utils.Base.{
  ℕ, List, [], ◌∷◌, map, Option, none, some, Bool, true, false, ◌&&◌, not, if◌then◌else◌, Outcome,
  returned, panicked,
}
use doom_fish_utils.Future.{Poll, ready, pending}

pub data Either {ℓ κ} (A : Type ℓ) (B : Type κ) : Type (ℓ ⊔ κ) where
  left : A → Either A B
  right : B → Either A B

module _ {ℓ κ} {F : Type κ} {A : Type ℓ} (poll : F → ℕ → F × Poll A) where
  abbrev pub output_of : Poll A → Option A
  output_of (ready output) = some output
  output_of pending = none

  -- `now_or_never`: one poll with a waker that does nothing.
  unfoldable pub now_or_never : F → ℕ → Option A
  now_or_never future noop = output_of (poll future noop).1

module _ {ℓ κ μ ν} {L : Type κ} {R : Type ν} {A : Type ℓ} {B : Type μ}
    (poll_left : L → ℕ → L × Poll A) (poll_right : R → ℕ → R × Poll B) where
  -- `Select::poll` behind the poll of the right future, and behind that of the left one.
  abbrev right_polled : L → R × Poll B → Option (L × R) × Outcome (Poll (Either (A × R) (B × L)))
  right_polled l (r, ready output) = (none, returned (ready (right (output, l))))
  right_polled l (r, pending) = (some (l, r), returned pending)

  abbrev left_polled : R → ℕ → L × Poll A → Option (L × R) × Outcome (Poll (Either (A × R) (B × L)))
  left_polled r waker (l, ready output) = (none, returned (ready (left (output, r))))
  left_polled r waker (l, pending) = right_polled l (poll_right r waker)

  unfoldable pub poll_select :
      Option (L × R) → ℕ → Option (L × R) × Outcome (Poll (Either (A × R) (B × L)))
  poll_select none waker = (none, panicked "Select polled after completion")
  poll_select (some (l, r)) waker = left_polled r waker (poll_left l waker)

pub data Slot {ℓ κ} (F : Type κ) (A : Type ℓ) : Type (ℓ ⊔ κ) where
  waiting : F → Slot F A
  done : A → Slot F A

module _ {ℓ κ} {F : Type κ} {A : Type ℓ} (poll : F → ℕ → F × Poll A) where
  unfoldable pub join_all : List F → List (Slot F A)
  join_all futures = map waiting futures

  -- One slot in the loop, and whether it is done.
  abbrev pub slot_polled : F × Poll A → Slot F A × Bool
  slot_polled (future, ready output) = (done output, true)
  slot_polled (future, pending) = (waiting future, false)

  abbrev pub poll_slot : Slot F A → ℕ → Slot F A × Bool
  poll_slot (waiting future) waker = slot_polled (poll future waker)
  poll_slot (done output) waker = (done output, true)

  unfoldable pub poll_slots : List (Slot F A) → ℕ → List (Slot F A) × Bool
  poll_slots [] waker = ([], true)
  poll_slots (slot ∷ slots) waker =
      let (slot', finished) = poll_slot slot waker in
      let (slots', all_finished) = poll_slots slots waker in
      (slot' ∷ slots', finished && all_finished)

  -- `filter_map` over the slots.
  abbrev pub outputs : List (Slot F A) → List A
  outputs [] = []
  outputs (waiting future ∷ slots) = outputs slots
  outputs (done output ∷ slots) = output ∷ outputs slots

  -- `JoinAll::poll`.
  unfoldable pub poll_join : List (Slot F A) → ℕ → List (Slot F A) × Poll (List A)
  unfolding poll_slots
  poll_join slots waker =
      let (slots', finished) = poll_slots slots waker in
      if not finished then (slots', pending) else ([], ready (outputs slots'))
