-- ===== src/Stream.antt =====
-- src/stream.rs: a bounded stream that loses its oldest item when it is full. Each method is one
-- critical section on the shared state, followed by the wakes and the notifications that it gives. The
-- lock is poisoned by a panic inside a section, which later sections then meet.
pub mod Registry
pub mod Waiters
pub mod Polling
pub mod Order
pub mod Latest
pub mod Invariant
pub mod Wake
mod Examples
use doom_fish_utils.Base.{
  ℕ, zero, suc, ◌+◌, ◌-◌, ◌%◌, ◌^◌, List, [], ◌∷◌, ◌++◌, map, Option, none, some, Bool, true, false,
  not, ◌&&◌, ◌==◌, ltb, leb, if◌then◌else◌, length, get_elem?, set, take, drop, Outcome, returned,
  panicked, undefined, Result, ok, err,
}
use doom_fish_utils.Stream.Registry.{State, register_waiter, remove_waiter}
use doom_fish_utils.Future.{Poll, ready, pending}

pub record Shared {ℓ} (A : Type ℓ) : Type ℓ where
  pub state : State A
  pub capacity : ℕ
  pub poisoned : Bool

-- What `capacity_available` is told: nothing, `notify_one` or `notify_all`.
pub data Notice : Type 0 where
  nobody : Notice
  one : Notice
  everyone : Notice

module _ {ℓ} {A : Type ℓ} where
  -- `lock_state` and a section behind it.
  abbrev pub lock_state {κ} :
      {B : Type κ} → Shared A → (State A → Shared A × Outcome B) → Shared A × Outcome B
  lock_state sh f =
      if sh.poisoned then (sh, panicked "BoundedAsyncStream state mutex poisoned") else f sh.state

  -- `BoundedAsyncStream::new`, and the sender beside it.
  unfoldable pub new : ℕ → Outcome (Shared A)
  new capacity =
      if ltb 0 capacity
      then returned (record {
        capacity = capacity;
        poisoned = false;
        state = record {
          buffer = [];
          waiters = [];
          next_waiter = 1;
          closed = false;
          consumer_gone = false;
          sender_count = 1;
        };
      })
      else panicked "BoundedAsyncStream capacity must be > 0"

  -- `AsyncStreamSender::clone`, which panics with the lock held when the count overflows.
  unfoldable pub clone : Shared A → Shared A × Outcome (Unit {0})
  clone sh = lock_state sh (λ s.
      if ltb (s.sender_count + 1) (2 ^ 64)
      then (record sh { state = record s { sender_count = s.sender_count + 1 } }, returned tt)
      else (record sh { poisoned = true }, panicked "AsyncStreamSender count overflow"))

  abbrev pub popped : Shared A → State A → List A → Shared A × Outcome (Option A × Notice)
  popped sh s [] = (sh, returned (none, nobody))
  popped sh s (x ∷ xs) = (record sh { state = record s { buffer = xs } }, returned (some x, one))

  unfoldable pub try_next : Shared A → Shared A × Outcome (Option A × Notice)
  try_next sh = lock_state sh (λ s. popped sh s s.buffer)

  unfoldable pub is_closed : Shared A → Outcome Bool
  is_closed sh = (lock_state sh (λ s. (sh, returned s.closed))).1

  unfoldable pub buffered_count : Shared A → Outcome ℕ
  buffered_count sh = (lock_state sh (λ s. (sh, returned (length s.buffer)))).1

  -- With the items that it drops.
  unfoldable pub clear_buffer : Shared A → Shared A × Outcome (List A × Notice)
  clear_buffer sh =
      lock_state sh
        (λ s. (record sh { state = record s { buffer = [] } }, returned (s.buffer, everyone)))

-- The answer of a poll, with the future's `waiter` and what `capacity_available` is told.
pub record Answer {ℓ} (A : Type ℓ) : Type ℓ where
  pub poll : Poll (Option A)
  pub waiter : Option ℕ
  pub notice : Notice

-- How a section of `push_or_block` ends: the thread waits on `capacity_available` and runs it again, or
-- the item is handed back, or it is in the buffer and these wakers are called.
pub data Pushed {ℓ} (A : Type ℓ) : Type ℓ where
  blocked : Pushed A
  refused : A → Pushed A
  stored : List ℕ → Pushed A

abbrev pub wakers : List (ℕ × ℕ) → List ℕ
wakers ws = map (λ w. w.1) ws

module _ {ℓ} {A : Type ℓ} where
  -- A waiter that is let go, and the answer; a panic in the section poisons the lock.
  abbrev pub answer :
      Shared A
      → State A × Outcome (Option ℕ)
      → Poll (Option A)
      → Notice
      → Shared A × Outcome (Answer A)
  answer sh (s, returned _) poll notice =
      (record sh { state = s }, returned (record { poll = poll; waiter = none; notice = notice }))
  answer sh (s, panicked message) poll notice =
      (record sh { state = s; poisoned = true }, panicked message)
  answer sh (s, undefined) poll notice = (record sh { state = s }, undefined)

  abbrev pub pended : Shared A → State A × (ℕ × Option ℕ) → Shared A × Outcome (Answer A)
  pended sh (s, (id, released)) = (
    record sh { state = s },
    returned (record { poll = pending; waiter = some id; notice = nobody }),
  )

  unfoldable pub poll_buffer :
      Shared A → State A → List A → Option ℕ → ℕ → Shared A × Outcome (Answer A)
  unfolding remove_waiter register_waiter
  poll_buffer sh s (x ∷ xs) waiter waker =
      answer sh (remove_waiter (record s { buffer = xs }) waiter) (ready (some x)) one
  poll_buffer sh s [] waiter waker =
      if s.closed
      then answer sh (remove_waiter s waiter) (ready none) nobody
      else pended sh (register_waiter s waiter waker)

  unfoldable pub poll_next_item : Shared A → Option ℕ → ℕ → Shared A × Outcome (Answer A)
  unfolding poll_buffer
  poll_next_item sh waiter waker = lock_state sh (λ s. poll_buffer sh s s.buffer waiter waker)

  -- `BoundedAsyncStream::drop`, whose wakers are dropped and not called.
  unfoldable pub drop_stream : Shared A → Shared A × Notice
  drop_stream sh =
      (record sh { state = record sh.state { consumer_gone = true; waiters = [] } }, everyone)

  -- `push`, with the wakers that it calls and the item that it overwrites.
  unfoldable pub push : Shared A → A → Shared A × Outcome (List ℕ × List A)
  push sh item = lock_state sh (λ s.
      let full = leb sh.capacity (length s.buffer) in
      let kept = if full then drop 1 s.buffer else s.buffer in
      let overwritten = if full then take 1 s.buffer else [] in
      (
        record sh { state = record s { buffer = kept ++ item ∷ []; waiters = [] } },
        returned (wakers s.waiters, overwritten),
      ))

  unfoldable pub push_or_block : Shared A → A → Shared A × Outcome (Pushed A)
  push_or_block sh item = lock_state sh (λ s.
      if not s.consumer_gone && leb sh.capacity (length s.buffer)
      then (sh, returned blocked)
      else if s.consumer_gone
      then (sh, returned (refused item))
      else (
        record sh { state = record s { buffer = s.buffer ++ item ∷ []; waiters = [] } },
        returned (stored (wakers s.waiters)),
      ))

  unfoldable pub is_consumer_gone : Shared A → Outcome Bool
  is_consumer_gone sh = (lock_state sh (λ s. (sh, returned s.consumer_gone))).1

  -- `AsyncStreamSender::drop`, with the wakers that it calls; `usize` wraps around.
  unfoldable pub drop_sender : Shared A → Shared A × List ℕ
  drop_sender sh =
      let count = (sh.state.sender_count + (2 ^ 64 - 1)) % 2 ^ 64 in
      if count == 0
      then (
        record sh { state = record sh.state { sender_count = count; closed = true; waiters = [] } },
        wakers sh.state.waiters,
      )
      else (record sh { state = record sh.state { sender_count = count } }, [])

  -- `NextItem::drop`.
  unfoldable pub drop_next : Shared A → Option ℕ → Shared A
  unfolding remove_waiter
  drop_next sh waiter = record sh { state = (remove_waiter sh.state waiter).0 }
