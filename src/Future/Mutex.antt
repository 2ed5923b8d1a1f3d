-- ===== src/Future/Mutex.antt =====
-- src/future/mutex.rs: a lock for futures. A method is one section of the inner standard mutex, here
-- a function on the state; the waker that it calls behind the section stands beside the result.
mod Exclusion
mod Examples
use doom_fish_utils.Base.{
  ℕ, ◌+◌, ◌%◌, ◌^◌, List, [], ◌∷◌, Option, none, some, Bool, true, false, not, ◌==◌, ltb,
  if◌then◌else◌,
}

-- `waiters` is the `BTreeMap`, in the order of its keys.
pub record State : Type 0 where
  pub locked : Bool
  pub next_waiter : ℕ
  pub waiters : List (ℕ × ℕ)

-- `BTreeMap::insert` and `remove`.
unfoldable pub insert : ℕ → ℕ → List (ℕ × ℕ) → List (ℕ × ℕ)
insert id waker [] = (id, waker) ∷ []
insert id waker ((i, k) ∷ ws) =
    let rest = insert id waker ws in
    if id == i
    then (id, waker) ∷ ws
    else if ltb id i
    then (id, waker) ∷ (i, k) ∷ ws
    else (i, k) ∷ rest

unfoldable pub remove : ℕ → List (ℕ × ℕ) → List (ℕ × ℕ)
remove id [] = []
remove id ((i, k) ∷ ws) = let rest = remove id ws in if id == i then ws else (i, k) ∷ rest

unfoldable pub new : State
new = record { locked = false; next_waiter = 0; waiters = [] }

-- `try_lock`, and whether it gives a guard.
unfoldable pub try_lock : State → State × Bool
try_lock s = (record s { locked = true }, not s.locked)

-- `wake_first_waiter`: the waker that is called.
abbrev pub first_waker : List (ℕ × ℕ) → Option ℕ
first_waker [] = none
first_waker ((i, k) ∷ ws) = some k

unfoldable pub wake_first_waiter : State → Option ℕ
wake_first_waiter s = first_waker s.waiters

-- `MutexGuard::drop`.
unfoldable pub drop_guard : State → State × Option ℕ
unfolding wake_first_waiter
drop_guard s = let t = record s { locked = false } in (t, wake_first_waiter t)

-- `self.waiter.take()` and the removal of its entry.
abbrev pub take_waiter : Option ℕ → List (ℕ × ℕ) → List (ℕ × ℕ)
unfolding remove
take_waiter none ws = ws
take_waiter (some id) ws = remove id ws

-- `get_or_insert_with`: the number of the waiter, a fresh one if there is none.
abbrev pub waiter_id : State → Option ℕ → State × ℕ
waiter_id s (some id) = (s, id)
waiter_id s none = let id = (s.next_waiter + 1) % 2 ^ 64 in (record s { next_waiter = id }, id)

-- `MutexLockFuture::poll`: the state, the future's `waiter`, and whether it gives a guard.
unfoldable pub poll : State → Option ℕ → ℕ → State × (Option ℕ × Bool)
unfolding insert
poll s waiter waker =
    let (t, id) = waiter_id s waiter in
    if not s.locked
    then (record s { locked = true; waiters = take_waiter waiter s.waiters }, (none, true))
    else (record t { waiters = insert id waker t.waiters }, (some id, false))

-- `MutexLockFuture::drop`, with the waker that it calls.
unfoldable pub drop_future : State → Option ℕ → State × Option ℕ
unfolding remove wake_first_waiter
drop_future s none = (s, none)
drop_future s (some id) =
    let t = record s { waiters = remove id s.waiters } in
    (t, if not s.locked then wake_first_waiter t else none)
