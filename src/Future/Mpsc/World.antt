-- ===== src/Future/Mpsc/World.antt =====
-- src/future/mpsc.rs: the senders' threads and the receiver's task, one critical section at a time.
-- The mutex makes each section one step, and the waker is taken at its contract.
use doom_fish_utils.Base.{
  ℕ, suc, ◌+◌, ◌^◌, ◌<◌, ◌≡◌, ◌⊎◌, Option, none, some, Bool, true, false, ◌||◌, ◌==◌, if◌then◌else◌,
  Result, ok, err,
}
use doom_fish_utils.Future.Waker.{AtomicWaker}
use doom_fish_utils.Future.Mpsc.{
  State, TrySendError, TryRecvError, empty, closed, channel, send, try_recv, close, clone,
  drop_sender,
}

-- Where the receiver stands in `poll_recv`: outside it, behind the first look at the queue, behind the
-- registration of its waker, or back in the executor with `Pending`.
pub data Phase : Type 0 where
  idle : Phase
  looked : Phase
  registered : Phase
  parked : Phase

-- `owed` counts the calls of `wake` that follow a section which has ended. `waker` is the one that the
-- receiver was last polled with, and `woken` says that it was called since.
pub record World {ℓ} (A : Type ℓ) (W : AtomicWaker) : Type ℓ where
  pub state : State A
  pub cell : W.Cell
  pub phase : Phase
  pub owed : ℕ
  pub waker : ℕ
  pub woken : Bool

-- The waker that was taken is this one.
abbrev pub is_waker : Option ℕ → ℕ → Bool
is_waker none waker = false
is_waker (some k) waker = k == waker

module _ {ℓ} {A : Type ℓ} where
  abbrev pub is_pending : Result A TryRecvError → Bool
  is_pending (err empty) = true
  is_pending (err closed) = false
  is_pending (ok x) = false

  abbrev pub is_ok : Result (Unit {0}) (TrySendError A) → Bool
  is_ok (ok _) = true
  is_ok (err _) = false

module _ {ℓ} {A : Type ℓ} (W : AtomicWaker) where
  unfoldable pub start : ℕ → World A W
  start buffer = record {
    state = channel buffer;
    cell = W.new;
    phase = idle;
    owed = 0;
    waker = 0;
    woken = false;
  }

  -- The receiver looks at the queue, and goes on to `next` if it must wait.
  abbrev pub look : World A W → Phase → World A W
  look w next = record w {
    state = (try_recv w.state).0;
    phase = if is_pending (try_recv w.state).1 then next else idle;
  }

  pub data Step : World A W → World A W → Type ℓ where
    sends :
        (w : World A W) (value : A)
        → Step w (record w {
          state = (send w.state value).0;
          owed = if is_ok (send w.state value).1 then suc w.owed else w.owed;
        })
    clones :
        (w : World A W)
        → 0 < w.state.senders
        → w.state.senders + 1 < 2 ^ 64
        → Step w (record w { state = clone w.state })
    drops_sender :
        (w : World A W)
        → 0 < w.state.senders
        → Step w (record w {
          state = (drop_sender w.state).0;
          owed = if (drop_sender w.state).1 then suc w.owed else w.owed;
        })
    wakes :
        (w : World A W) (n : ℕ)
        → w.owed ≡ suc n
        → Step w (record w {
          cell = (W.take w.cell).0;
          owed = n;
          woken = w.woken || is_waker (W.take w.cell).1 w.waker;
        })
    polls :
        (w : World A W) (waker : ℕ)
        → (w.phase ≡ idle) ⊎ (w.phase ≡ parked)
        → Step w (look (record w { waker = waker; woken = false }) looked)
    registers :
        (w : World A W)
        → w.phase ≡ looked
        → Step w (record w { cell = W.register w.cell w.waker; phase = registered })
    looks_again : (w : World A W) → w.phase ≡ registered → Step w (look w parked)
    closes :
        (w : World A W)
        → (w.phase ≡ idle) ⊎ (w.phase ≡ parked)
        → Step w (record w { state = close w.state; phase = idle })

  pub data Reach (w : World A W) : World A W → Type ℓ where
    here : Reach w w
    next : {v u : World A W} → Reach w v → Step v u → Reach w u

  -- The waker is there to be called, or was called.
  abbrev pub IsArmed : World A W → Type 0
  IsArmed w = (W.held w.cell ≡ some w.waker) ⊎ (w.woken ≡ true)

  abbrev pub IsOwed : World A W → Type 0
  IsOwed w = (0 < w.owed) ⊎ (w.woken ≡ true)

  -- A receiver that waits is armed, and is owed a wake as soon as there is something to receive.
  pub record IsAwake (w : World A W) : Type 0 where
    pub counted : w.state.senders < 2 ^ 64
    pub registered_armed : w.phase ≡ registered → IsArmed w
    pub parked_armed : w.phase ≡ parked → IsArmed w
    pub parked_owed : w.phase ≡ parked → is_pending (try_recv w.state).1 ≡ false → IsOwed w
