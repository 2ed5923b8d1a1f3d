-- ===== src/Future/Oneshot/World.antt =====
-- src/future/oneshot.rs: the sender's thread and the receiver's task, one critical section at a time.
-- The mutex makes each section one step, and the waker is taken at its contract.
use doom_fish_utils.Base.{
  ℕ, ◌≡◌, ap, ◌∙◌, ◌⊎◌, inl, inr, Option, none, some, Option-cases, Bool, true, false, ◌||◌, ◌==◌,
  if◌then◌else◌, Bool-cases, Result, ok, err,
}
use doom_fish_utils.Future.{Poll, ready, pending}
use doom_fish_utils.Future.Waker.{AtomicWaker}
use doom_fish_utils.Future.Oneshot.{
  State, Canceled, canceled_error, channel, take, taken, send, drop_sender, drop_receiver,
}

-- The receiver: outside `poll`, behind its first look at the value, behind the registration of its
-- waker, back in the executor with `Pending`, ready, or dropped.
pub data Phase : Type 0 where
  idle : Phase
  looked : Phase
  registered : Phase
  parked : Phase
  answered : Phase
  gone : Phase

-- The sender: not used yet, behind the section of `send`, behind that of its drop, or done.
pub data Sender : Type 0 where
  holding : Sender
  leaving : Sender
  owing : Sender
  done : Sender

-- `offered` is the value that `send` was called with, and `answer` what a poll was ready with. `waker`
-- is the one that the receiver was last polled with, and `woken` says that it was called since.
pub record World {ℓ} (A : Type ℓ) (W : AtomicWaker) : Type ℓ where
  pub state : State A
  pub cell : W.Cell
  pub sender : Sender
  pub phase : Phase
  pub offered : Option A
  pub answer : Option (Result A Canceled)
  pub waker : ℕ
  pub woken : Bool

abbrev pub is_waker : Option ℕ → ℕ → Bool
is_waker none waker = false
is_waker (some k) waker = k == waker

module _ {ℓ} {A : Type ℓ} where
  abbrev pub is_pending : Poll (Result A Canceled) → Bool
  is_pending pending = true
  is_pending (ready r) = false

  abbrev pub phase_of : Poll (Result A Canceled) → Phase → Phase
  phase_of pending next = next
  phase_of (ready r) next = answered

  abbrev pub answer_of :
      Poll (Result A Canceled) → Option (Result A Canceled) → Option (Result A Canceled)
  answer_of pending a = a
  answer_of (ready r) a = some r

  pub take_cases :
      (s : State A)
      → ((v : A) × (s.value ≡ some v) × (take s ≡ (record s { value = none }, ready (ok v))))
        ⊎ ((s.value ≡ none)
            × (s.sender_dropped ≡ true)
            × (take s ≡ (s, ready (err canceled_error))))
        ⊎ ((s.value ≡ none) × (s.sender_dropped ≡ false) × (take s ≡ (s, pending)))
  unfolding take
  take_cases s = elim (Option-cases s.value) [
    | inr (v, e) ↦ inl (v, e, ap (λ o. taken o s) e)
    | inl e ↦ elim (Bool-cases s.sender_dropped) [
      | inl f ↦ inr (
          inl (
            e,
            f,
            ap (λ o. taken o s) e
                ∙ ap (λ b. (s, if b then ready (err canceled_error) else pending)) f,
          ))
      | inr f ↦ inr (
          inr (
            e,
            f,
            ap (λ o. taken o s) e
                ∙ ap (λ b. (s, if b then ready (err canceled_error) else pending)) f,
          ))
    ]
  ]

module _ {ℓ} {A : Type ℓ} (W : AtomicWaker) where
  unfoldable pub start : World A W
  unfolding channel
  start = record {
    state = channel;
    cell = W.new;
    sender = holding;
    phase = idle;
    offered = none;
    answer = none;
    waker = 0;
    woken = false;
  }

  -- The receiver looks for a value, and goes on to `next` if it must wait.
  abbrev pub look : World A W → Phase → World A W
  look w next = record w {
    state = (take w.state).0;
    phase = phase_of (take w.state).1 next;
    answer = answer_of (take w.state).1 w.answer;
  }

  pub data Step : World A W → World A W → Type ℓ where
    sends :
        (w : World A W) (value : A)
        → w.sender ≡ holding
        → Step w
            (record w { state = (send w.state value).0; sender = leaving; offered = some value })
    drops_sender :
        (w : World A W)
        → (w.sender ≡ holding) ⊎ (w.sender ≡ leaving)
        → Step w (record w { state = drop_sender w.state; sender = owing })
    wakes :
        (w : World A W)
        → w.sender ≡ owing
        → Step w (record w {
          cell = (W.take w.cell).0;
          sender = done;
          woken = w.woken || is_waker (W.take w.cell).1 w.waker;
        })
    polls :
        (w : World A W) (waker : ℕ)
        → (w.phase ≡ idle) ⊎ (w.phase ≡ parked)
        → Step w (look (record w { waker = waker; woken = false }) looked)
    registers :
        (w : World A W)
        → w.phase ≡ looked
        → Step w (record w { cell = W.register w.cell w.waker; phase = registered })
    looks_again : (w : World A W) → w.phase ≡ registered → Step w (look w parked)
    drops_receiver :
        (w : World A W)
        → (w.phase ≡ idle) ⊎ (w.phase ≡ parked) ⊎ (w.phase ≡ answered)
        → Step w (record w { state = (drop_receiver w.state).0; phase = gone })

  pub data Reach (w : World A W) : World A W → Type ℓ where
    here : Reach w w
    next : {v u : World A W} → Reach w v → Step v u → Reach w u
