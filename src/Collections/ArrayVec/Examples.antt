-- ===== src/Collections/ArrayVec/Examples.antt =====
-- src/collections/array_vec.rs: the theorems on `ArrayVec` at a vector of two values with room for four.
use doom_fish_utils.Base.{
  ℕ, ◌+◌, ◌≡◌, refl, List, [], ◌∷◌, none, some, Bool, ltb, returned, panicked,
}
use doom_fish_utils.Collections.ArrayVec.Calls.{
  Op, pushes, pops, inserts, removes, truncates, extends, done, popped, removed, run, run_list,
}
use doom_fish_utils.Collections.ArrayVec.Run.{run-refines}
use doom_fish_utils.Collections.ArrayVec.Spec.{excluded, unbounded}
use doom_fish_utils.Collections.ArrayVec.Refine.{Holds}
use doom_fish_utils.Collections.ArrayVec.Drain.{Yields, drain-Holds}
use doom_fish_utils.Collections.ArrayVec.Retain.{retain_list, retain-Holds}
use doom_fish_utils.Collections.ArrayVec.{ArrayVec, IntoIter, cap, drain, retain}

abbrev two : ArrayVec ℕ
two = record { items = some 1 ∷ some 2 ∷ none ∷ none ∷ []; len = 2 }

abbrev full : ArrayVec ℕ
full = record { items = some 1 ∷ some 2 ∷ []; len = 2 }

two-Holds : Holds two (1 ∷ 2 ∷ [])
two-Holds = record { rest = none ∷ none ∷ []; items_eq = refl; len_eq = refl }

full-Holds : Holds full (1 ∷ 2 ∷ [])
full-Holds = record { rest = []; items_eq = refl; len_eq = refl }

-- A closure that counts its calls, doubles each value and keeps those below 3.
abbrev counting : ℕ → ℕ → ℕ × (ℕ × Bool)
counting calls x = (calls + 1, (x + x, ltb x 3))

drain-Holds_example :
    (it : IntoIter ℕ) × ((drain two unbounded (excluded 1)).1 ≡ returned it)
    × Yields it (1 ∷ [])
    × Holds (drain two unbounded (excluded 1)).0 (2 ∷ [])
    × (cap (drain two unbounded (excluded 1)).0 ≡ 4)
drain-Holds_example =
    drain-Holds two unbounded (excluded 1) [] (1 ∷ []) (2 ∷ []) two-Holds refl refl

retain-Holds_example :
    ((retain counting 0 two).1 ≡ returned tt)
    × ((retain counting 0 two).0.0 ≡ (retain_list counting 0 (1 ∷ 2 ∷ [])).0)
    × Holds (retain counting 0 two).0.1 (retain_list counting 0 (1 ∷ 2 ∷ [])).1
    × (cap (retain counting 0 two).0.1 ≡ 4)
retain-Holds_example = retain-Holds counting 0 two (1 ∷ 2 ∷ []) two-Holds

-- The third push finds the vector full, and so does the extension.
abbrev calls : List (Op ℕ)
calls =
    pushes 3 ∷ inserts 1 9 ∷ pushes 4 ∷ removes 0 ∷ extends (5 ∷ 6 ∷ []) ∷ pops ∷ truncates 2 ∷ []

run-refines_example :
    ((run calls two).1 ≡ (run_list 4 calls (1 ∷ 2 ∷ [])).1)
    × Holds (run calls two).0 (run_list 4 calls (1 ∷ 2 ∷ [])).0
    × (cap (run calls two).0 ≡ 4)
run-refines_example = run-refines calls two (1 ∷ 2 ∷ []) two-Holds

answered : run_list 4 calls (1 ∷ 2 ∷ []) ≡ (
  9 ∷ 2 ∷ [],
  done (returned tt)
      ∷ done (returned tt)
      ∷ done (panicked "ArrayVec is full")
      ∷ removed (returned 1)
      ∷ done (panicked "ArrayVec is full")
      ∷ popped (returned (some 5))
      ∷ done (returned tt)
      ∷ [],
)
unfolding run_list
answered = refl
