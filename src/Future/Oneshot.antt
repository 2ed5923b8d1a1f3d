-- ===== src/Future/Oneshot.antt =====
-- src/future/oneshot.rs: one value from a sender to a receiver, which may each go away first. A
-- method locks the mutex for a critical section, here a function on the state; `poll` of either side
-- is a section, the registration of its waker, and the section again.
pub mod World
pub mod Wake
pub mod Delivery
mod Examples
use doom_fish_utils.Base.{ℕ, Option, none, some, Bool, true, false, if◌then◌else◌, Result, ok, err}
use doom_fish_utils.Future.{Poll, ready, pending}
use doom_fish_utils.Future.Waker.{AtomicWaker}

pub record State {ℓ} (A : Type ℓ) : Type ℓ where
  pub value : Option A
  pub sender_dropped : Bool
  pub receiver_dropped : Bool

pub data Canceled : Type 0 where
  canceled_error : Canceled

module _ {ℓ} {A : Type ℓ} where
  unfoldable pub channel : State A
  channel = record { value = none; sender_dropped = false; receiver_dropped = false }

  abbrev pub taken : Option A → State A → State A × Poll (Result A Canceled)
  taken (some value) s = (record s { value = none }, ready (ok value))
  taken none s = (s, if s.sender_dropped then ready (err canceled_error) else pending)

  unfoldable pub take : State A → State A × Poll (Result A Canceled)
  take s = taken s.value s

  unfoldable pub canceled : State A → Bool
  canceled s = s.receiver_dropped

  -- The section of `Sender::send`; the sender is dropped behind it in either case.
  unfoldable pub send : State A → A → State A × Result (Unit {0}) A
  send s value =
      if s.receiver_dropped then (s, err value) else (record s { value = some value }, ok tt)

  -- The section of `Sender::drop`, which is followed by `receiver_waker.wake()`.
  unfoldable pub drop_sender : State A → State A
  drop_sender s = record s { sender_dropped = true }

  -- The section of `Receiver::drop`, which is followed by `sender_waker.wake()`, and the value that
  -- it drops.
  unfoldable pub drop_receiver : State A → State A × Option A
  drop_receiver s = (record s { receiver_dropped = true; value = none }, s.value)

-- Both sides' wakers beside the state.
pub record Inner {ℓ} (A : Type ℓ) (W : AtomicWaker) : Type ℓ where
  pub state : State A
  pub receiver_waker : W.Cell
  pub sender_waker : W.Cell

module _ {ℓ} {A : Type ℓ} (W : AtomicWaker) where
  unfoldable pub poll_again :
      Inner A W → State A × Poll (Result A Canceled) → ℕ → Inner A W × Poll (Result A Canceled)
  unfolding take
  poll_again inner (s, ready r) waker = (record inner { state = s }, ready r)
  poll_again inner (s, pending) waker =
      let (t, r) = take s in
      (record inner { state = t; receiver_waker = W.register inner.receiver_waker waker }, r)

  -- `Receiver::poll`.
  unfoldable pub poll : Inner A W → ℕ → Inner A W × Poll (Result A Canceled)
  unfolding take poll_again
  poll inner waker = poll_again inner (take inner.state) waker

  -- `Cancellation::poll`.
  unfoldable pub poll_cancellation : Inner A W → ℕ → Inner A W × Poll (Unit {0})
  unfolding canceled
  poll_cancellation inner waker = if canceled inner.state then (inner, ready tt) else (
    record inner { sender_waker = W.register inner.sender_waker waker },
    if canceled inner.state then ready tt else pending,
  )
