-- ===== src/Completion/Polling.antt =====
-- src/completion.rs: a task that polls the future of a completion and the C code that calls it back,
-- one critical section at a time.
use doom_fish_utils.Base.{
  ℕ, ◌+◌, ◌<◌, ◌≡◌, ◌⊎◌, Bool, true, false, ◌||◌, ◌==◌, Option, none, some, if◌then◌else◌,
}
use doom_fish_utils.Future.Mpsc.World.{is_waker}
use doom_fish_utils.Completion.{
  Inner, AsyncState, Answer, create, drop_arc, swap_consumed, store_async, poll,
}

-- Where the call that won the flag stands: `waking` has the waker that it took under the lock.
pub data Phase {ℓ} (T : Type ℓ) : Type ℓ where
  idle : Phase T
  claimed : Answer T → Phase T
  waking : Option ℕ → Phase T
  woken : Phase T
  finished : Phase T

-- The future: not polled yet, pending with the waker of the last poll and whether that was called
-- since, ready, or dropped.
pub data Task {ℓ} (T : Type ℓ) : Type ℓ where
  fresh : Task T
  parked : ℕ → Bool → Task T
  done : Answer T → Task T
  gone : Task T

pub record World {ℓ} (T : Type ℓ) : Type ℓ where
  pub inner : Inner (AsyncState T)
  pub phase : Phase T
  pub task : Task T
  pub first : Option (Answer T)

module _ {ℓ} {T : Type ℓ} where
  unfoldable pub start : World T
  start = record { inner = create.0; phase = idle; task = fresh; first = none }

  abbrev pub wake : Option ℕ → Task T → Task T
  wake o fresh = fresh
  wake o (parked waker called) = parked waker (called || is_waker o waker)
  wake o (done r) = done r
  wake o gone = gone

  abbrev pub after_poll : ℕ → Option (Answer T) → Task T
  after_poll waker none = parked waker false
  after_poll waker (some r) = done r

  abbrev pub is_waiting : Task T → Bool
  is_waiting fresh = true
  is_waiting (parked waker called) = true
  is_waiting (done r) = false
  is_waiting gone = false

  abbrev pub of_task : Task T → ℕ
  of_task fresh = 1
  of_task (parked waker called) = 1
  of_task (done r) = 1
  of_task gone = 0

  abbrev pub of_callback : Phase T → ℕ
  of_callback idle = 1
  of_callback (claimed r) = 1
  of_callback (waking o) = 1
  of_callback woken = 1
  of_callback finished = 0

  abbrev pub is_stored : Phase T → Bool
  is_stored idle = false
  is_stored (claimed r) = false
  is_stored (waking o) = true
  is_stored woken = true
  is_stored finished = true

  abbrev pub admit : World T → Answer T → World T
  admit w r = record w {
    inner = (swap_consumed w.inner).1;
    phase = if w.inner.consumed then w.phase else claimed r;
    first = if w.inner.consumed then w.first else some r;
  }

  -- The callback is called any number of times, each time while the allocation is live. A future that
  -- was ready is not polled again.
  pub data Step : World T → World T → Type ℓ where
    calls : (w : World T) (r : Answer T) → 0 < w.inner.strong → Step w (admit w r)
    stores :
        (w : World T) (r : Answer T)
        → w.phase ≡ claimed r
        → Step w (record w {
          inner = (store_async r w.inner).1;
          phase = waking (store_async r w.inner).0;
        })
    wakes :
        (w : World T) (o : Option ℕ)
        → w.phase ≡ waking o
        → Step w (record w { phase = woken; task = wake o w.task })
    releases :
        (w : World T)
        → w.phase ≡ woken
        → Step w (record w { inner = (drop_arc w.inner).1; phase = finished })
    polls :
        (w : World T) (waker : ℕ)
        → is_waiting w.task ≡ true
        → Step w (record w {
          inner = (poll waker w.inner).1;
          task = after_poll waker (poll waker w.inner).0;
        })
    drops :
        (w : World T)
        → of_task w.task ≡ 1
        → Step w (record w { inner = (drop_arc w.inner).1; task = gone })

  pub data Reach (w : World T) : World T → Type ℓ where
    here : Reach w w
    next : {v u : World T} → Reach w v → Step v u → Reach w u

  pub record IsSound (a : Inner (AsyncState T)) (p : Phase T) (x : Task T) (f : Option (Answer T))
      : Type ℓ where
    pub counted : a.strong ≡ of_callback p + of_task x
    pub destroyed_once : a.destroyed ≡ (if a.strong == 0 then 1 else 0)
    pub unclaimed : a.consumed ≡ false → p ≡ idle
    pub unheard : a.consumed ≡ false → f ≡ none
    pub empty : is_stored p ≡ false → a.state.result ≡ none
    pub chosen : (r : Answer T) → p ≡ claimed r → f ≡ some r
    pub kept :
        is_stored p ≡ true
        → is_waiting x ≡ true
        → (r : Answer T) × (f ≡ some r) × (a.state.result ≡ some r)
    pub delivered : (r : Answer T) → x ≡ done r → f ≡ some r
    pub armed :
        (waker : ℕ) (called : Bool)
        → x ≡ parked waker called
        → is_stored p ≡ false
        → a.state.waker ≡ some waker
    pub owed :
        (waker : ℕ) (called : Bool)
        → x ≡ parked waker called
        → is_stored p ≡ true
        → (called ≡ true) ⊎ (p ≡ waking (some waker))
