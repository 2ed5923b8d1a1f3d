-- ===== src/Spsc/Examples.antt =====
-- src/spsc.rs: a ring of three slots, filled, overwritten and drained.
use doom_fish_utils.Base.{ℕ, ◌≡◌, arith, List, [], ◌∷◌, some, returned}
use doom_fish_utils.Future.Waker.{last_waker}
use doom_fish_utils.Spsc.{Ring, new, drop_ring}
use doom_fish_utils.Spsc.Fresh.{new-Represents}
use doom_fish_utils.Spsc.Push.{pushed, pushed-Represents}
use doom_fish_utils.Spsc.Drop.{drop_ring-Represents}
use doom_fish_utils.Spsc.Sides.{Inner, sides}
use doom_fish_utils.Spsc.Sides.Calls.{
  Op, sends, overwrites, counts, drops, receives, polls, run, run_list, empty_queue,
}
use doom_fish_utils.Spsc.Sides.Run.{Holds, sides-run}

abbrev one_item : Ring ℕ
one_item = pushed (new 3) 10

drop_ring-Represents_example : drop_ring (pushed one_item 20) ≡ some (10 ∷ 20 ∷ [])
drop_ring-Represents_example = drop_ring-Represents (pushed one_item 20) 3 (10 ∷ 20 ∷ []) (
    pushed-Represents one_item 3 (10 ∷ []) 20
      (pushed-Represents (new 3) 3 [] 10 (new-Represents ℕ 3 (omega arith) (omega arith))
        (omega arith))
      (omega arith))

abbrev ops : List (Op ℕ)
ops =
    polls 7
    ∷ sends 1
    ∷ sends 2
    ∷ sends 3
    ∷ sends 4
    ∷ overwrites 5
    ∷ receives
    ∷ counts
    ∷ sends 6
    ∷ drops
    ∷ polls 8
    ∷ polls 8
    ∷ polls 8
    ∷ polls 8
    ∷ []

sides-run_example :
    (s t : Inner ℕ last_waker) × (sides last_waker 4 3 ≡ returned s)
    × (run last_waker ops s ≡ some (t, (run_list 3 ops empty_queue).1))
    × Holds last_waker t 3 (run_list 3 ops empty_queue).0
sides-run_example = sides-run last_waker 4 3 ops (omega arith) (omega arith) (omega arith)
