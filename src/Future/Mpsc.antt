-- ===== src/Future/Mpsc.antt =====
-- src/future/mpsc.rs: a queue behind a mutex, with a bound, a count of senders and a waker for the
-- receiver. A method locks the mutex for a critical section, here a function on the state, and wakes
-- the receiver after it has been released, so the senders' and the receiver's sections interleave.
pub mod Fifo
pub mod World
pub mod Wake
pub mod Polling
mod Examples
use doom_fish_utils.Base.{
  ℕ, zero, suc, ◌+◌, ◌-◌, ◌%◌, ◌^◌, List, [], ◌∷◌, ◌++◌, Option, none, some, Bool, true, false, not,
  ◌&&◌, ◌==◌, ltb, leb, if◌then◌else◌, length, ◌≡◌, refl, ◌⊎◌, inl, inr, Result, ok, err,
}
use doom_fish_utils.Future.{Poll, ready, pending}
use doom_fish_utils.Future.Waker.{AtomicWaker}

pub record State {ℓ} (A : Type ℓ) : Type ℓ where
  pub queue : List A
  pub capacity : ℕ
  pub senders : ℕ
  pub is_open : Bool

pub record TrySendError {ℓ} (A : Type ℓ) : Type ℓ where
  pub value : A
  pub full : Bool

pub data TryRecvError : Type 0 where
  empty : TryRecvError
  closed : TryRecvError

-- `usize::MAX` and `usize::saturating_add`.
abbrev pub usize_max : ℕ
usize_max = 2 ^ 64 - 1

abbrev saturating_add : ℕ → ℕ → ℕ
saturating_add a b = if leb (a + b) usize_max then a + b else usize_max

module _ {ℓ} {A : Type ℓ} where
  unfoldable pub new : ℕ → State A
  new capacity = record { queue = []; capacity = capacity; senders = 1; is_open = true }

  -- The bounded channel and the unbounded one.
  unfoldable pub channel : ℕ → State A
  unfolding new
  channel buffer = new (saturating_add buffer 1)

  unfoldable pub unbounded : State A
  unfolding new
  unbounded = new usize_max

  -- The critical section of `send`; a success is followed by `receiver_waker.wake()`.
  unfoldable pub send : State A → A → State A × Result (Unit {0}) (TrySendError A)
  send s value =
      if not s.is_open
      then (s, err (record { value = value; full = false }))
      else if leb s.capacity (length s.queue)
      then (s, err (record { value = value; full = true }))
      else (record s { queue = s.queue ++ value ∷ [] }, ok tt)

  unfoldable pub try_recv : State A → State A × Result A TryRecvError
  try_recv s = elim s.queue [
    | [] ↦ (s, (if s.is_open && ltb 0 s.senders then err empty else err closed))
    | x ∷ xs ↦ (record s { queue = xs }, ok x)
  ]

  unfoldable pub close : State A → State A
  close s = record s { is_open = false }

  unfoldable pub is_closed : State A → Bool
  is_closed s = not s.is_open

  -- `state.senders += 1`, on a `usize` that wraps around.
  unfoldable pub clone : State A → State A
  clone s = record s { senders = (s.senders + 1) % 2 ^ 64 }

  -- The critical section of `drop_sender`, and whether the receiver is woken after it.
  unfoldable pub drop_sender : State A → State A × Bool
  drop_sender s =
      let senders = (s.senders + usize_max) % 2 ^ 64 in
      (record s { senders = senders }, senders == 0)

  -- `drop_receiver`, with the values that it drops.
  unfoldable pub drop_receiver : State A → State A × List A
  drop_receiver s = (record s { queue = []; is_open = false }, s.queue)

  unfoldable pub into_inner : TrySendError A → A
  into_inner e = e.value

-- A channel, and its methods run with no other thread between their sections.
pub record Channel {ℓ} (A : Type ℓ) (W : AtomicWaker) : Type ℓ where
  pub state : State A
  pub receiver_waker : W.Cell

module _ {ℓ} {A : Type ℓ} (W : AtomicWaker) where
  abbrev of_result : State A × Result A TryRecvError → W.Cell → Channel A W × Poll (Option A)
  of_result (s, ok x) c = (record { state = s; receiver_waker = c }, ready (some x))
  of_result (s, err closed) c = (record { state = s; receiver_waker = c }, ready none)
  of_result (s, err empty) c = (record { state = s; receiver_waker = c }, pending)

  -- The queue is looked at again behind the registration.
  abbrev poll_again : State A × Result A TryRecvError → W.Cell → ℕ → Channel A W × Poll (Option A)
  poll_again (s, ok x) c waker = of_result (s, ok x) c
  poll_again (s, err closed) c waker = of_result (s, err closed) c
  poll_again (s, err empty) c waker = of_result (try_recv s) (W.register c waker)

  unfoldable pub poll_recv : Channel A W → ℕ → Channel A W × Poll (Option A)
  poll_recv ch waker = poll_again (try_recv ch.state) ch.receiver_waker waker

module _ {ℓ} {A : Type ℓ} where
  try_recv_at :
      (s : State A) (q : List A)
      → s.queue ≡ q
      → ((q ≡ [])
          × (try_recv s ≡ (s, (if s.is_open && ltb 0 s.senders then err empty else err closed))))
        ⊎ ((x : A) × (xs : List A) × (q ≡ x ∷ xs) × (try_recv s ≡ (record s { queue = xs }, ok x)))
  unfolding try_recv
  try_recv_at s [] e = inl (refl, rw e refl)
  try_recv_at s (x ∷ xs) e = inr (x, xs, refl, rw e refl)

  pub try_recv_cases :
      (s : State A)
      → ((s.queue ≡ [])
          × (try_recv s ≡ (s, (if s.is_open && ltb 0 s.senders then err empty else err closed))))
        ⊎ ((x : A) × (xs : List A) × (s.queue ≡ x ∷ xs)
            × (try_recv s ≡ (record s { queue = xs }, ok x)))
  try_recv_cases s = try_recv_at s s.queue refl
