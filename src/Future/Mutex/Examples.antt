-- ===== src/Future/Mutex/Examples.antt =====
-- src/future/mutex.rs: a lock that is taken, waited for, given up and handed over.
use doom_fish_utils.Base.{◌≡◌, none, some, [], ◌∷◌, true, arith}
use doom_fish_utils.Future.Mutex.Exclusion.{
  Guarded, tries, polls, drops_guard, Reach, here, next, gained, lock_exclusive,
}
use doom_fish_utils.Future.Mutex.{new, try_lock, poll, insert, drop_guard, remove}

-- The first waiter has the lock, and the second waits.
abbrev handed_over : Guarded
handed_over = record {
  state = record { locked = true; next_waiter = 2; waiters = (2, 8) ∷ [] };
  guards = 1;
}

handed_over-Reach : Reach (record { state = new; guards = 0 }) handed_over
unfolding new try_lock poll insert remove drop_guard
handed_over-Reach =
    next
      (next (next (next (next here (tries _)) (polls _ none 7)) (polls _ none 8))
        (drops_guard _ (omega arith)))
      (polls _ (some 1) 7)

lock_exclusive_example : 1 ≡ gained handed_over.state.locked
lock_exclusive_example = lock_exclusive handed_over-Reach
