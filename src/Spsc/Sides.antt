-- ===== src/Spsc/Sides.antt =====
-- src/spsc.rs: the producer and the consumer of a ring, and the waker between them. A call runs alone.
-- It has no answer where the ring's loop spins or would read a slot that holds no item.
pub mod Calls
pub mod Polling
pub mod Run
use doom_fish_utils.Base.{
  ℕ, Option, none, some, Bool, true, false, if◌then◌else◌, length, Result, ok, err, Outcome,
  returned, panicked, undefined,
}
use doom_fish_utils.Future.{Poll, ready, pending}
use doom_fish_utils.Future.Waker.{AtomicWaker}
use doom_fish_utils.Spsc.{Ring, Round, finished, spinning, misread, push, pop, len, with_capacity}

pub record Inner {ℓ} (A : Type ℓ) (W : AtomicWaker) : Type ℓ where
  pub queue : Ring A
  pub producer_closed : Bool
  pub waker : W.Cell

module _ {ℓ} {A : Type ℓ} (W : AtomicWaker) where
  -- The two sides that `SpscRing::with_capacity` makes share this.
  abbrev shared : Outcome (Ring A) → Outcome (Inner A W)
  shared (returned r) = returned (record { queue = r; producer_closed = false; waker = W.new })
  shared (panicked m) = panicked m
  shared undefined = undefined

  unfoldable pub sides : ℕ → ℕ → Outcome (Inner A W)
  sides maximum capacity = shared (with_capacity maximum capacity)

  -- A producer's call: what it leaves, the waker that it wakes, and its answer.
  abbrev woken {κ} : {B : Type κ} → Inner A W → B → Option (Inner A W × Option ℕ × B)
  woken s b = some (record s { waker = (W.take s.waker).0 }, (W.take s.waker).1, b)

  abbrev sent :
      Inner A W
      → Round A (Result (Option A) A)
      → Option (Inner A W × Option ℕ × Result (Unit {0}) A)
  sent s (finished q (ok old)) = woken (record s { queue = q }) (ok tt)
  sent s (finished q (err item)) = some (record s { queue = q }, none, err item)
  sent s spinning = none
  sent s misread = none

  -- `SpscProducer::push`.
  unfoldable pub send : Inner A W → A → Option (Inner A W × Option ℕ × Result (Unit {0}) A)
  send s item = sent s (push s.queue item false)

  -- A refusal is unreachable.
  abbrev sent_over :
      Inner A W → Round A (Result (Option A) A) → Option (Inner A W × Option ℕ × Option A)
  sent_over s (finished q (ok old)) = woken (record s { queue = q }) old
  sent_over s (finished q (err item)) = none
  sent_over s spinning = none
  sent_over s misread = none

  unfoldable pub push_overwrite : Inner A W → A → Option (Inner A W × Option ℕ × Option A)
  push_overwrite s item = sent_over s (push s.queue item true)

  unfoldable pub drop_producer : Inner A W → Inner A W × Option ℕ
  drop_producer s =
      (record s { producer_closed = true; waker = (W.take s.waker).0 }, (W.take s.waker).1)

  unfoldable pub buffered_count : Inner A W → ℕ
  buffered_count s = len s.queue

  unfoldable pub capacity : Inner A W → ℕ
  capacity s = length s.queue.slots

  abbrev received : Inner A W → Round A (Option A) → Option (Inner A W × Option A)
  received s (finished q item) = some (record s { queue = q }, item)
  received s spinning = none
  received s misread = none

  -- `SpscConsumer::pop`.
  unfoldable pub receive : Inner A W → Option (Inner A W × Option A)
  receive s = received s (pop s.queue)

  -- `Poll::Ready(self.pop())`.
  abbrev last_pop : Option (Inner A W × Option A) → Option (Inner A W × Poll (Option A))
  last_pop none = none
  last_pop (some (s, item)) = some (s, ready item)

  -- Behind the registration.
  abbrev poll_again : Option (Inner A W × Option A) → Option (Inner A W × Poll (Option A))
  poll_again none = none
  poll_again (some (s, some item)) = some (s, ready (some item))
  poll_again (some (s, none)) =
      if s.producer_closed then last_pop (receive s) else some (s, pending)

  abbrev poll_first : Option (Inner A W × Option A) → ℕ → Option (Inner A W × Poll (Option A))
  poll_first none waker = none
  poll_first (some (s, some item)) waker = some (s, ready (some item))
  poll_first (some (s, none)) waker =
      if s.producer_closed
      then last_pop (receive s)
      else poll_again (receive (record s { waker = W.register s.waker waker }))

  unfoldable pub poll_pop : Inner A W → ℕ → Option (Inner A W × Poll (Option A))
  unfolding receive
  poll_pop s waker = poll_first (receive s) waker
