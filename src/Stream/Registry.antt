-- ===== src/Stream/Registry.antt =====
-- src/stream.rs: the state that the two sides share, and its list of waiting futures. A waker is a
-- number, and `will_wake` compares two. The counter of blocked producers exists in tests only.
use doom_fish_utils.Base.{
  ℕ, suc, ◌+◌, ◌-◌, ◌%◌, ◌^◌, List, [], ◌∷◌, ◌++◌, Option, none, some, Bool, ◌==◌, leb,
  if◌then◌else◌, length, get_elem?, set, take, Outcome, returned, panicked, undefined,
}

pub record State {ℓ} (A : Type ℓ) : Type ℓ where
  pub buffer : List A
  pub waiters : List (ℕ × ℕ)
  pub next_waiter : ℕ
  pub closed : Bool
  pub consumer_gone : Bool
  pub sender_count : ℕ

-- The first waiter with an id, and its place.
unfoldable pub find : ℕ → List (ℕ × ℕ) → Option ℕ
find id [] = none
find id ((i, k) ∷ ws) = if i == id then some k else find id ws

abbrev pub one_on : Option ℕ → Option ℕ
one_on none = none
one_on (some n) = some (suc n)

unfoldable pub position : ℕ → List (ℕ × ℕ) → Option ℕ
position id [] = none
position id ((i, k) ∷ ws) = if i == id then some 0 else one_on (position id ws)

-- `mem::replace` of the first waiter's waker.
unfoldable pub replace : ℕ → ℕ → List (ℕ × ℕ) → List (ℕ × ℕ)
replace id waker [] = []
replace id waker ((i, k) ∷ ws) = if i == id then (i, waker) ∷ ws else (i, k) ∷ replace id waker ws

-- `Vec::swap_remove`: the last item takes the place of the one that leaves.
abbrev pub swap_removed :
    Option (ℕ × ℕ) → Option (ℕ × ℕ) → List (ℕ × ℕ) → ℕ → List (ℕ × ℕ) × Outcome (ℕ × ℕ)
swap_removed (some w) (some last) ws index = (take (length ws - 1) (set ws index last), returned w)
swap_removed (some w) none ws index = (ws, panicked "swap_remove index should be < len")
swap_removed none last ws index = (ws, panicked "swap_remove index should be < len")

unfoldable pub swap_remove : List (ℕ × ℕ) → ℕ → List (ℕ × ℕ) × Outcome (ℕ × ℕ)
swap_remove ws index = swap_removed (get_elem? ws index) (get_elem? ws (length ws - 1)) ws index

module _ {ℓ} {A : Type ℓ} where
  -- `get_or_insert_with`: a fresh id skips zero when the counter wraps around.
  abbrev pub waiter_id : State A → Option ℕ → State A × ℕ
  waiter_id s (some id) = (s, id)
  waiter_id s none =
      let id = s.next_waiter in
      let next = (id + 1) % 2 ^ 64 in
      (record s { next_waiter = if leb 1 next then next else 1 }, id)

  -- The waker that is registered already, the one of this poll, and the one that is let go.
  abbrev pub registered : State A → ℕ → ℕ → Option ℕ → State A × Option ℕ
  registered s id current none = (record s { waiters = s.waiters ++ (id, current) ∷ [] }, none)
  registered s id current (some existing) =
      if existing == current
      then (s, none)
      else (record s { waiters = replace id current s.waiters }, some existing)

  -- `register_waiter`, called with `next_waker` a clone of `current`; also the caller's `waiter`.
  unfoldable pub register_waiter : State A → Option ℕ → ℕ → State A × (ℕ × Option ℕ)
  unfolding replace find
  register_waiter s waiter current =
      let (s', id) = waiter_id s waiter in
      let (t, released) = registered s' id current (find id s'.waiters) in (t, (id, released))

  abbrev pub removed : State A → List (ℕ × ℕ) × Outcome (ℕ × ℕ) → State A × Outcome (Option ℕ)
  removed s (ws, returned w) = (record s { waiters = ws }, returned (some w.1))
  removed s (ws, panicked message) = (s, panicked message)
  removed s (ws, undefined) = (s, undefined)

  abbrev pub remove_at : State A → Option ℕ → State A × Outcome (Option ℕ)
  remove_at s none = (s, returned none)
  remove_at s (some index) = removed s (swap_remove s.waiters index)

  unfoldable pub remove_waiter : State A → Option ℕ → State A × Outcome (Option ℕ)
  unfolding position swap_remove
  remove_waiter s none = (s, returned none)
  remove_waiter s (some waiter) = remove_at s (position waiter s.waiters)
