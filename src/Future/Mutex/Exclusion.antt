-- ===== src/Future/Mutex/Exclusion.antt =====
-- src/future/mutex.rs: sections in any order, with the guards that are out.
use doom_fish_utils.Base.{
  ℕ, ◌+◌, ◌-◌, ◌<◌, ◌≡◌, refl, ap, ◌∙◌, Option, none, some, Bool, true, false, arith, Bool-cases,
  inl, inr,
}
use doom_fish_utils.Future.Mutex.{State, new, try_lock, drop_guard, poll, drop_future}

-- The lock, and how many guards its users hold.
pub record Guarded : Type 0 where
  pub state : State
  pub guards : ℕ

abbrev pub gained : Bool → ℕ
gained true = 1
gained false = 0

pub data Step : Guarded → Guarded → Type 0 where
  tries :
      (g : Guarded)
      → Step g
          (record { state = (try_lock g.state).0; guards = g.guards + gained (try_lock g.state).1 })
  polls :
      (g : Guarded) (waiter : Option ℕ) (waker : ℕ)
      → Step g (record {
        state = (poll g.state waiter waker).0;
        guards = g.guards + gained (poll g.state waiter waker).1.1;
      })
  drops_future :
      (g : Guarded) (waiter : Option ℕ)
      → Step g (record g { state = (drop_future g.state waiter).0 })
  drops_guard :
      (g : Guarded)
      → 0 < g.guards
      → Step g (record { state = (drop_guard g.state).0; guards = g.guards - 1 })

pub data Reach (g : Guarded) : Guarded → Type 0 where
  here : Reach g g
  next : {h k : Guarded} → Reach g h → Step h k → Reach g k

-- The lock is taken exactly while one guard is out.
abbrev IsExclusive : Guarded → Type 0
IsExclusive g = g.guards ≡ gained g.state.locked

poll-gained :
    (s : State) (waiter : Option ℕ) (waker : ℕ)
    → gained s.locked + gained (poll s waiter waker).1.1 ≡ gained (poll s waiter waker).0.locked
unfolding poll
poll-gained s none waker = elim (Bool-cases s.locked) [ inl f ↦ rw f refl | inr f ↦ rw f refl ]
poll-gained s (some id) waker = elim (Bool-cases s.locked) [ inl f ↦ rw f refl | inr f ↦ rw f refl ]

Step-IsExclusive : {g h : Guarded} → Step g h → IsExclusive g → IsExclusive h
unfolding try_lock poll drop_future drop_guard
Step-IsExclusive (tries g) e = elim (Bool-cases g.state.locked) [
  | inl f ↦ rw (e, f) refl
  | inr f ↦ rw (e, f) refl
]
Step-IsExclusive (polls g waiter waker) e = rw e (poll-gained g.state waiter waker)
Step-IsExclusive (drops_future g none) e = e
Step-IsExclusive (drops_future g (some id)) e = e
Step-IsExclusive (drops_guard g h) e = elim (Bool-cases g.state.locked) [
  | inl f ↦ let c : g.guards ≡ 1 = e ∙ ap gained f in omega arith
  | inr f ↦ let c : g.guards ≡ 0 = e ∙ ap gained f in omega arith
]

-- From a new lock on, whatever is polled, dropped and tried in any order, at most one guard is out, and
-- one is out exactly while the lock is taken.
pub lock_exclusive :
    {g : Guarded} → Reach (record { state = new; guards = 0 }) g → g.guards ≡ gained g.state.locked
unfolding new
lock_exclusive here = refl
lock_exclusive (next r s) = Step-IsExclusive s (lock_exclusive r)
