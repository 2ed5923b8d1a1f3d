-- ===== src/Spsc/Tests.antt =====
-- src/spsc.rs: a ring of three slots, whose laps are longer than its slots, through a wrap.
use doom_fish_utils.Base.{
  ℕ, ◌≡◌, refl, List, [], ◌∷◌, ◌++◌, Option, none, some, Bool, true, false, Result, ok, err,
}
use doom_fish_utils.Spsc.{
  Ring, finished, spinning, misread, new, new_slots, power_loop, next, push, push_at, pop, pop_at,
}

data Call : Type 0 where
  pushes : Bool → ℕ → Call
  pops : Call

abbrev pushed_items : Result (Option ℕ) ℕ → List ℕ
pushed_items (ok none) = []
pushed_items (ok (some old)) = old ∷ []
pushed_items (err item) = item ∷ []

abbrev popped_items : Option ℕ → List ℕ
popped_items none = 0 ∷ []
popped_items (some item) = item ∷ []

-- What the calls give, a refused item, a displaced one, a popped one, or 0 for an empty ring.
abbrev run : Ring ℕ → List Call → List ℕ
unfolding push pop
run r [] = []
run r (pushes overwrite item ∷ calls) = elim (push r item overwrite) [
  | finished r' result ↦ pushed_items result ++ run r' calls
  | spinning ↦ 100 ∷ []
  | misread ↦ 101 ∷ []
]
run r (pops ∷ calls) = elim (pop r) [
  | finished r' result ↦ popped_items result ++ run r' calls
  | spinning ↦ 100 ∷ []
  | misread ↦ 101 ∷ []
]

calls-run :
    run (new 3) (
      pushes false 1
      ∷ pushes false 2
      ∷ pushes false 3
      ∷ pushes false 4
      ∷ pushes true 5
      ∷ pops
      ∷ pops
      ∷ pushes false 6
      ∷ pops
      ∷ pops
      ∷ pops
      ∷ [])
    ≡ 4 ∷ 1 ∷ 2 ∷ 3 ∷ 5 ∷ 6 ∷ 0 ∷ []
unfolding run new new_slots power_loop push push_at pop pop_at next
calls-run = refl
