-- ===== src/Completion/Examples.antt =====
-- src/completion.rs on a completion of a number that is called back twice.
use doom_fish_utils.Base.{
  ℕ, zero, suc, ◌+◌, ◌<◌, ◌≤◌, Bool, ◌≡◌, refl, ◌⊎◌, true, false, ◌==◌, Option, none, some, [], ◌∷◌,
  ok, err, if◌then◌else◌, arith,
}
use doom_fish_utils.Base.Utf8.{is_utf8}
use doom_fish_utils.FfiString
use doom_fish_utils.PanicSafe
use doom_fish_utils.PanicSafe.{returned}
use doom_fish_utils.Completion.{
  Inner, SyncState, Answer, null_ptr, inner_ptr, new, create, drop_arc, swap_consumed, store,
  store_async, take_result, complete_with_result, poll, callback,
}
use doom_fish_utils.Completion.Waiting.{
  ended, wait, wait_timeout, timeout_loop, early_waits, Ends, wait_timeout-Ends,
}
use doom_fish_utils.Completion.Blocking.{
  awake, done, finished, World, start, look, calls, stores, notifies, releases, looks, Reach, here,
  next,
}
use doom_fish_utils.Completion.Delivery.{first_answer, no_lost_answer}
use doom_fish_utils.Completion.Callback.{
  duplicate_ends, run_whole, complete-Reach, readable, Says, failed, heard, left_by, callback_lem,
}
use doom_fish_utils.Completion.Polling
use doom_fish_utils.Completion.Ready.{pending_is_woken}

-- The thread has gone to sleep, and one call has run to its end.
abbrev called : World ℕ
called = record {
  inner = record {
    strong = 1;
    consumed = true;
    state = record { result = some (ok 7) };
    destroyed = 0;
  };
  phase = finished;
  waiter = awake;
  first = some (ok 7);
}

called-Reach : Reach start called
unfolding start new take_result swap_consumed store drop_arc
called-Reach =
    next
      (next
        (next (next (next here (looks _ refl)) (calls _ (ok 7) (omega arith)))
          (stores _ (ok 7) refl))
        (notifies _ refl))
      (releases _ refl)

-- A second call is ignored, and the thread looks again.
abbrev returned_world : World ℕ
returned_world = record {
  inner = record { strong = 0; consumed = true; state = record { result = none }; destroyed = 1 };
  phase = finished;
  waiter = done (ok 7);
  first = some (ok 7);
}

returned-Reach : Reach called returned_world
unfolding take_result swap_consumed drop_arc
returned-Reach = next (next here (calls _ (err []) (omega arith))) (looks _ refl)

first_answer_example : ◌≡◌ {A = Answer ℕ} (ok 7) (ok 7)
first_answer_example =
    first_answer called returned_world (ok 7) (ok 7) called-Reach refl returned-Reach refl

no_lost_answer_example :
    (called.waiter ≡ awake)
    × ((r : Answer ℕ) × (called.first ≡ some r) × ((look called).waiter ≡ done r))
no_lost_answer_example = no_lost_answer called called-Reach refl refl

abbrev fresh : Inner (SyncState ℕ)
fresh = record { strong = 2; consumed = false; state = record { result = none }; destroyed = 0 }

-- The answer comes in while the thread sleeps in round 1.
abbrev others : ℕ → Inner (SyncState ℕ) → Inner (SyncState ℕ)
others k a = if k == 1 then record a { strong = 1; state = record { result = some (ok 9) } } else a

-- The first wait ends at once for no reason, and the others are one tick too long.
abbrev early : ℕ → Bool
early k = k == 0

abbrev clock : ℕ → ℕ → ℕ → ℕ
clock k now remaining = if early k then now else now + remaining + 1

early-bound : (k : ℕ) → early_waits others clock 3 early k ≤ 1
early-bound zero = omega arith
early-bound (suc zero) = omega arith
early-bound (suc (suc k)) =
    let e : early (suc k) ≡ false = ground arith in rw e (early-bound (suc k))

clock-Lasts : (k now remaining : ℕ) → early k ≡ false → now + remaining < clock k now remaining
clock-Lasts k now remaining e = rw e (omega arith)

wait_timeout-Ends_example :
    (o : Option (Answer ℕ)) × (b : Inner (SyncState ℕ)) × (wait_timeout others clock 3 3 0 fresh
      ≡ ended o b)
    × Ends others clock 3 0 0 fresh o b
wait_timeout-Ends_example =
    wait_timeout-Ends others clock 3 early 1 3 0 fresh early-bound clock-Lasts (omega arith)

-- The answer is returned although the time has passed.
late_answer :
    wait_timeout others clock 3 3 0 fresh
    ≡ ended
        (some (ok 9))
        (record { strong = 0; consumed = false; state = record { result = none }; destroyed = 1 })
unfolding wait_timeout timeout_loop take_result drop_arc
late_answer = refl

waited :
    wait others 3 fresh
    ≡ ended
        (ok 9)
        (record { strong = 0; consumed = false; state = record { result = none }; destroyed = 1 })
unfolding wait take_result drop_arc
waited = refl

-- A second call, with stderr closed.
abbrev closed_stderr : PanicSafe.World (Inner (SyncState ℕ))
closed_stderr = record {
  user = fresh;
  stderr_closed = true;
  stderr = [];
  dropped = [];
  leaked = [];
}

complete-Reach_example :
    ((complete_with_result inner_ptr (err []) (record closed_stderr { user = called.inner })).0
      ≡ duplicate_ends true)
    × Reach called (
        run_whole called
          (err [])
          (complete_with_result inner_ptr
            (err [])
            (record closed_stderr { user = called.inner })).1.user
          true)
    × ((complete_with_result inner_ptr
          (err [])
          (record closed_stderr { user = called.inner })).1.user
        ≡ called.inner)
complete-Reach_example = complete-Reach called closed_stderr (err []) (omega arith)

abbrev live : PanicSafe.World (Inner (SyncState (Unit {0})))
live = record {
  user = record { strong = 2; consumed = false; state = record { result = none }; destroyed = 0 };
  stderr_closed = false;
  stderr = [];
  dropped = [];
  leaked = [];
}

message-Says : Says false (FfiString.ptr_to (110 ∷ 111 ∷ 0 ∷ [])) (err (110 ∷ 111 ∷ []))
unfolding is_utf8
message-Says = failed _ _ (readable (110 ∷ 111 ∷ []) [] refl refl)

callback_lem_example :
    ((callback inner_ptr false (FfiString.ptr_to (110 ∷ 111 ∷ 0 ∷ [])) live).0
      ≡ returned (heard false false))
    × ((callback inner_ptr false (FfiString.ptr_to (110 ∷ 111 ∷ 0 ∷ [])) live).1.user
        ≡ left_by 1 (err (110 ∷ 111 ∷ [])) false live.user)
    × ((callback null_ptr false (FfiString.ptr_to (110 ∷ 111 ∷ 0 ∷ [])) live).0
        ≡ returned (some false))
    × ((callback null_ptr false (FfiString.ptr_to (110 ∷ 111 ∷ 0 ∷ [])) live).1.user ≡ live.user)
callback_lem_example =
    callback_lem false (FfiString.ptr_to (110 ∷ 111 ∷ 0 ∷ [])) (err (110 ∷ 111 ∷ [])) 1 live
      message-Says (let e : 2 ≡ suc 1 = omega arith in e)

-- A future was polled with the waker 3, and a call has stored its answer.
abbrev stored_world : Polling.World ℕ
stored_world = record {
  inner = record {
    strong = 2;
    consumed = true;
    state = record { result = some (ok 7); waker = none };
    destroyed = 0;
  };
  phase = Polling.waking (some 3);
  task = Polling.parked 3 false;
  first = some (ok 7);
}

stored-Reach : Polling.Reach Polling.start stored_world
unfolding Polling.start create poll swap_consumed store_async
stored-Reach =
    Polling.next
      (Polling.next (Polling.next Polling.here (Polling.polls _ 3 refl))
        (Polling.calls _ (ok 7) (omega arith)))
      (Polling.stores _ (ok 7) refl)

pending_is_woken_example :
    ((r : Answer ℕ) × (stored_world.first ≡ some r) × ((poll 5 stored_world.inner).0 ≡ some r))
    × ((false ≡ true)
        ⊎ ((v : Polling.World ℕ) × Polling.Step stored_world v × (v.task ≡ Polling.parked 3 true)))
unfolding poll
pending_is_woken_example = pending_is_woken stored_world 3 false stored-Reach refl refl

abbrev ready_world : Polling.World ℕ
ready_world = record stored_world {
  inner = record stored_world.inner { state = record { result = none; waker = none } };
  task = Polling.done (ok 7);
}

ready-Reach : Polling.Reach stored_world ready_world
unfolding poll
ready-Reach = Polling.next Polling.here (Polling.polls _ 3 refl)
