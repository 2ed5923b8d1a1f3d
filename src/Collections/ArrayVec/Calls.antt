-- ===== src/Collections/ArrayVec/Calls.antt =====
-- src/collections/array_vec.rs: calls of the vector, and the same calls on a list of bounded length.
use doom_fish_utils.Base.{
  ℕ, suc, ◌+◌, ◌-◌, List, [], ◌∷◌, ◌++◌, Option, none, some, ltb, leb, if◌then◌else◌, length, take,
  drop, get_elem?, Outcome, returned, panicked,
}
use doom_fish_utils.Collections.ArrayVec.{
  ArrayVec, push, pop, insert, remove, truncate, clear, extend,
}

pub data Op {ℓ} (A : Type ℓ) : Type ℓ where
  pushes : A → Op A
  pops : Op A
  inserts : ℕ → A → Op A
  removes : ℕ → Op A
  truncates : ℕ → Op A
  clears : Op A
  extends : List A → Op A

pub data Reply {ℓ} (A : Type ℓ) : Type ℓ where
  done : Outcome (Unit {0}) → Reply A
  popped : Outcome (Option A) → Reply A
  removed : Outcome A → Reply A

module _ {ℓ} {A : Type ℓ} where
  abbrev replied {κ} : {B : Type κ} → (B → Reply A) → ArrayVec A × B → ArrayVec A × Reply A
  replied f (v, b) = (v, f b)

  unfoldable pub perform : Op A → ArrayVec A → ArrayVec A × Reply A
  perform (pushes x) v = replied done (push v x)
  perform pops v = replied popped (pop v)
  perform (inserts i x) v = replied done (insert v i x)
  perform (removes i) v = replied removed (remove v i)
  perform (truncates n) v = replied done (truncate v n)
  perform clears v = replied done (clear v)
  perform (extends ys) v = replied done (extend v ys)

  abbrev pop_cons : A → List A × Option A → List A × Option A
  pop_cons x (ys, none) = ([], some x)
  pop_cons x (ys, some y) = (x ∷ ys, some y)

  unfoldable pub pop_list : List A → List A × Option A
  pop_list [] = ([], none)
  pop_list (x ∷ xs) = pop_cons x (pop_list xs)

  abbrev remove_list : ℕ → List A → Option A → List A × Reply A
  remove_list i xs none = (xs, removed (panicked "removal index is out of bounds"))
  remove_list i xs (some x) = (take i xs ++ drop (suc i) xs, removed (returned x))

  -- The same call on a list of at most `capacity` values.
  unfoldable pub perform_list : ℕ → Op A → List A → List A × Reply A
  unfolding pop_list
  perform_list capacity (pushes x) xs =
      if ltb (length xs) capacity
      then (xs ++ x ∷ [], done (returned tt))
      else (xs, done (panicked "ArrayVec is full"))
  perform_list capacity pops xs = ((pop_list xs).0, popped (returned (pop_list xs).1))
  perform_list capacity (inserts i x) xs =
      if leb i (length xs)
      then (if ltb (length xs) capacity
          then (take i xs ++ x ∷ drop i xs, done (returned tt))
          else (xs, done (panicked "ArrayVec is full")))
      else (xs, done (panicked "insertion index is out of bounds"))
  perform_list capacity (removes i) xs = remove_list i xs (get_elem? xs i)
  perform_list capacity (truncates n) xs = (take n xs, done (returned tt))
  perform_list capacity clears xs = ([], done (returned tt))
  perform_list capacity (extends ys) xs = (
    xs ++ take (capacity - length xs) ys,
    done
        (if leb (length xs + length ys) capacity then returned tt else panicked "ArrayVec is full"),
  )

  unfoldable pub run : List (Op A) → ArrayVec A → ArrayVec A × List (Reply A)
  unfolding perform
  run [] v = (v, [])
  run (op ∷ ops) v = ((run ops (perform op v).0).0, (perform op v).1 ∷ (run ops (perform op v).0).1)

  unfoldable pub run_list : ℕ → List (Op A) → List A → List A × List (Reply A)
  unfolding perform_list
  run_list capacity [] xs = (xs, [])
  run_list capacity (op ∷ ops) xs = (
    (run_list capacity ops (perform_list capacity op xs).0).0,
    (perform_list capacity op xs).1 ∷ (run_list capacity ops (perform_list capacity op xs).0).1,
  )
