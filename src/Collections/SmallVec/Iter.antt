-- ===== src/Collections/SmallVec/Iter.antt =====
-- src/collections/small_vec.rs: `IntoIter` and `Drain`, which give the values of either storage. The
-- iterators of `Vec` are the list of the values that are left.
use doom_fish_utils.Base.{
  ℕ, ◌-◌, List, [], ◌∷◌, ◌++◌, Option, none, some, ◌&&◌, leb, if◌then◌else◌, length, take, drop,
  Outcome, returned, panicked, undefined,
}
use doom_fish_utils.Collections.ArrayVec
use doom_fish_utils.Collections.ArrayVec.Spec.{Bound, start_of, end_of}
use doom_fish_utils.Collections.SmallVec.{SmallVec, inline, heap, new, vec_pop, extend}

-- `IntoIter` and `Drain` alike.
pub data Iter {ℓ} (A : Type ℓ) : Type ℓ where
  over_array : ArrayVec.IntoIter A → Iter A
  over_vec : List A → Iter A

module _ {ℓ} {A : Type ℓ} where
  unfoldable pub into_iter : SmallVec A → Iter A
  into_iter (inline v) = over_array (ArrayVec.into_iter v)
  into_iter (heap xs) = over_vec xs

  -- `vec::IntoIter::next` and `vec::Drain::next`.
  abbrev pub vec_next : List A → Iter A × Outcome (Option A)
  vec_next [] = (over_vec [], returned none)
  vec_next (x ∷ xs) = (over_vec xs, returned (some x))

  unfoldable pub next : Iter A → Iter A × Outcome (Option A)
  next (over_array it) = let (it', o) = ArrayVec.next it in (over_array it', o)
  next (over_vec xs) = vec_next xs

  unfoldable pub next_back : Iter A → Iter A × Outcome (Option A)
  next_back (over_array it) = let (it', o) = ArrayVec.next_back it in (over_array it', o)
  next_back (over_vec xs) = let (ys, o) = vec_pop xs in (over_vec ys, returned o)

  abbrev of_array : Outcome (ArrayVec.IntoIter A) → Outcome (Iter A)
  of_array (returned it) = returned (over_array it)
  of_array (panicked message) = panicked message
  of_array undefined = undefined

  -- `Vec::drain`, which panics on a range that is not within the vector.
  abbrev pub vec_drain : List A → Option ℕ → Option ℕ → SmallVec A × Outcome (Iter A)
  vec_drain xs none stop = (heap xs, panicked "attempted to index slice from after maximum usize")
  vec_drain xs (some start) none =
      (heap xs, panicked "attempted to index slice up to maximum usize")
  vec_drain xs (some start) (some stop) =
      if leb start stop && leb stop (length xs)
      then (
        heap (take start xs ++ drop stop xs),
        returned (over_vec (take (stop - start) (drop start xs))),
      )
      else (heap xs, panicked "range out of bounds")

  unfoldable pub drain : SmallVec A → Bound → Bound → SmallVec A × Outcome (Iter A)
  drain (inline v) from to = let (v', o) = ArrayVec.drain v from to in (inline v', of_array o)
  drain (heap xs) from to = vec_drain xs (start_of from) (end_of to (length xs))

  -- `FromIterator`, over an iterator whose lower size hint is `hint`, and `From<&[T]>`.
  unfoldable pub from_iter : ℕ → ℕ → ℕ → List A → SmallVec A × Outcome (Unit {0})
  unfolding extend new
  from_iter limit n hint xs = extend limit (new n) hint xs

  unfoldable pub from_slice : ℕ → ℕ → List A → SmallVec A × Outcome (Unit {0})
  unfolding from_iter
  from_slice limit n xs = from_iter limit n (length xs) xs
