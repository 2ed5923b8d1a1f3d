-- ===== src/Stream/Examples.antt =====
-- src/stream.rs: the theorems on streams with room for two items.
use mathlib.Core.List.{Mem}
use doom_fish_utils.Base.{
  ℕ, ◌≡◌, refl, inl, List, [], ◌∷◌, ◌++◌, none, some, false, arith, returned,
}
use doom_fish_utils.Stream.Order.{
  Op, pushes, tries_push, takes, polls, clears, clones, drops_sender, drops_next, drops_stream, run,
  run-order,
}
use doom_fish_utils.Stream.Latest.{latest, push_all, push_all-latest}
use doom_fish_utils.Stream.Invariant.{IsConsistent, run-IsConsistent}
use doom_fish_utils.Stream.Wake.{pushed_on_empty, poll-wakes}
use doom_fish_utils.Stream.{Shared, poll_next_item, push, push_or_block, drop_sender}

-- A new stream, and one that holds two items.
abbrev fresh : Shared ℕ
fresh = record {
  state = record {
    buffer = [];
    waiters = [];
    next_waiter = 1;
    closed = false;
    consumer_gone = false;
    sender_count = 1;
  };
  capacity = 2;
  poisoned = false;
}

abbrev packed : Shared ℕ
packed = record fresh { state = record fresh.state { buffer = 1 ∷ 2 ∷ [] } }

abbrev calls : List (Op ℕ)
calls =
    pushes 3
    ∷ takes
    ∷ polls none 9
    ∷ polls none 8
    ∷ drops_next (some 1)
    ∷ tries_push 4
    ∷ clones
    ∷ drops_sender
    ∷ clears
    ∷ drops_sender
    ∷ drops_stream
    ∷ []

packed-IsConsistent : IsConsistent packed
packed-IsConsistent =
    (omega arith, omega arith, inl refl, λ e. absurd (let gone : 1 ≡ 0 = e in omega arith))

run-IsConsistent_example : IsConsistent (run packed calls).0
run-IsConsistent_example = run-IsConsistent calls packed packed-IsConsistent

run-order_example :
    1 ∷ 2 ∷ (run packed calls).1.0 ≡ (run packed calls).1.1 ++ (run packed calls).0.state.buffer
run-order_example = run-order calls packed

push_all-latest_example :
    (push_all packed (3 ∷ 4 ∷ 5 ∷ [])).state.buffer ≡ latest 2 (1 ∷ 2 ∷ 3 ∷ 4 ∷ 5 ∷ [])
push_all-latest_example = push_all-latest (3 ∷ 4 ∷ 5 ∷ []) packed refl (omega arith) (omega arith)

poll-wakes_example :
    ((x : ℕ)
      → (woken : List ℕ) × (gone : List ℕ) × ((push (poll_next_item fresh none 9).0 x).1
          ≡ returned (woken, gone))
        × Mem 9 woken)
    × ((x : ℕ)
        → (woken : List ℕ) × ((push_or_block (poll_next_item fresh none 9).0 x).1
            ≡ returned (pushed_on_empty fresh x woken))
          × Mem 9 woken)
    × (fresh.state.sender_count ≡ 1 → Mem 9 (drop_sender (poll_next_item fresh none 9).0).1)
poll-wakes_example = poll-wakes fresh none 9 refl refl refl
