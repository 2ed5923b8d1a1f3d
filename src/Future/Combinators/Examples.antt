-- ===== src/Future/Combinators/Examples.antt =====
-- src/future/mod.rs: a join of futures that count down.
use doom_fish_utils.Base.{ℕ, ◌-◌, ◌≡◌, refl, List, [], ◌∷◌, map, ◌==◌, if◌then◌else◌}
use doom_fish_utils.Future.{Poll, ready, pending}
use doom_fish_utils.Future.Combinators.{Slot, waiting, done, join_all, poll_join, poll_slots}
use doom_fish_utils.Future.Combinators.Rounds.{all_some, finish, finish_join, finish-join_all}

abbrev count_down : ℕ → ℕ → ℕ × Poll ℕ
count_down n waker = if n == 0 then (n, ready waker) else (n - 1, pending)

abbrev slots : List (Slot ℕ ℕ)
slots = done 5 ∷ waiting 0 ∷ []

slots-poll_join : (poll_join count_down slots 9).1 ≡ ready (5 ∷ 9 ∷ [])
unfolding poll_join poll_slots
slots-poll_join = refl

finish-join_all_example :
    finish_join count_down (8 ∷ 9 ∷ []) (join_all count_down (1 ∷ 0 ∷ []))
    ≡ all_some (map (λ (f : ℕ). finish count_down (8 ∷ 9 ∷ []) f) (1 ∷ 0 ∷ []))
finish-join_all_example = finish-join_all count_down 8 (9 ∷ []) (1 ∷ 0 ∷ [])
