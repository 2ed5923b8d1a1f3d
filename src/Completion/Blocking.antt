-- ===== src/Completion/Blocking.antt =====
-- src/completion.rs: a thread that waits for a completion and the C code that calls it back, one
-- critical section at a time.
use doom_fish_utils.Base.{
  ℕ, ◌+◌, ◌<◌, ◌≡◌, ◌⊎◌, Bool, true, false, ◌==◌, Option, none, some, if◌then◌else◌,
}
use doom_fish_utils.Completion.{
  Inner, SyncState, Answer, new, drop_arc, swap_consumed, store, take_result,
}

-- Where the call that won the flag stands.
pub data Phase {ℓ} (T : Type ℓ) : Type ℓ where
  idle : Phase T
  claimed : Answer T → Phase T
  stored : Phase T
  notified : Phase T
  finished : Phase T

-- The handle: its thread is about to look under the lock, sleeps on the condition variable, has
-- returned with an answer, or has gone without one.
pub data Waiter {ℓ} (T : Type ℓ) : Type ℓ where
  awake : Waiter T
  asleep : Waiter T
  done : Answer T → Waiter T
  gone : Waiter T

-- `first` is the answer that the first call of the callback gave.
pub record World {ℓ} (T : Type ℓ) : Type ℓ where
  pub inner : Inner (SyncState T)
  pub phase : Phase T
  pub waiter : Waiter T
  pub first : Option (Answer T)

module _ {ℓ} {T : Type ℓ} where
  unfoldable pub start : World T
  start = record { inner = new.0; phase = idle; waiter = awake; first = none }

  abbrev pub rouse : Waiter T → Waiter T
  rouse awake = awake
  rouse asleep = awake
  rouse (done r) = done r
  rouse gone = gone

  -- A look under the lock ends the wait, and gives up the handle, or goes to sleep.
  abbrev pub looked : World T → Option (Answer T) → World T
  looked w none = record w { inner = (take_result w.inner).1; waiter = asleep }
  looked w (some r) = record w { inner = (drop_arc (take_result w.inner).1).1; waiter = done r }

  abbrev pub look : World T → World T
  look w = looked w (take_result w.inner).0

  -- A call: it wins the flag, or it was not the first and is ignored.
  abbrev pub admit : World T → Answer T → World T
  admit w r = record w {
    inner = (swap_consumed w.inner).1;
    phase = if w.inner.consumed then w.phase else claimed r;
    first = if w.inner.consumed then w.first else some r;
  }

  -- The callback is called any number of times, each time while the allocation is live.
  pub data Step : World T → World T → Type ℓ where
    calls : (w : World T) (r : Answer T) → 0 < w.inner.strong → Step w (admit w r)
    stores :
        (w : World T) (r : Answer T)
        → w.phase ≡ claimed r
        → Step w (record w { inner = store r w.inner; phase = stored })
    notifies :
        (w : World T)
        → w.phase ≡ stored
        → Step w (record w { waiter = rouse w.waiter; phase = notified })
    releases :
        (w : World T)
        → w.phase ≡ notified
        → Step w (record w { inner = (drop_arc w.inner).1; phase = finished })
    looks : (w : World T) → w.waiter ≡ awake → Step w (look w)
    wakes : (w : World T) → w.waiter ≡ asleep → Step w (record w { waiter = awake })
    gives_up :
        (w : World T)
        → (w.waiter ≡ awake) ⊎ (w.waiter ≡ asleep)
        → Step w (record w { inner = (drop_arc w.inner).1; waiter = gone })

  pub data Reach (w : World T) : World T → Type ℓ where
    here : Reach w w
    next : {v u : World T} → Reach w v → Step v u → Reach w u

  -- The references that the two sides still hold.
  abbrev pub of_callback : Phase T → ℕ
  of_callback idle = 1
  of_callback (claimed r) = 1
  of_callback stored = 1
  of_callback notified = 1
  of_callback finished = 0

  abbrev pub of_handle : Waiter T → ℕ
  of_handle awake = 1
  of_handle asleep = 1
  of_handle (done r) = 0
  of_handle gone = 0

  abbrev pub is_stored : Phase T → Bool
  is_stored idle = false
  is_stored (claimed r) = false
  is_stored stored = true
  is_stored notified = true
  is_stored finished = true

  pub record IsSound (a : Inner (SyncState T)) (p : Phase T) (x : Waiter T) (f : Option (Answer T))
      : Type ℓ where
    pub counted : a.strong ≡ of_callback p + of_handle x
    pub destroyed_once : a.destroyed ≡ (if a.strong == 0 then 1 else 0)
    pub unclaimed : a.consumed ≡ false → p ≡ idle
    pub unheard : a.consumed ≡ false → f ≡ none
    pub empty : is_stored p ≡ false → a.state.result ≡ none
    pub chosen : (r : Answer T) → p ≡ claimed r → f ≡ some r
    pub kept :
        is_stored p ≡ true
        → of_handle x ≡ 1
        → (r : Answer T) × (f ≡ some r) × (a.state.result ≡ some r)
    pub delivered : (r : Answer T) → x ≡ done r → f ≡ some r
    pub roused : x ≡ asleep → is_stored p ≡ true → p ≡ stored
