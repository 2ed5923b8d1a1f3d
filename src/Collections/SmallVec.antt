-- ===== src/Collections/SmallVec.antt =====
-- src/collections/small_vec.rs: a vector that keeps up to `N` values inline and moves to the heap when
-- it grows past them. The standard `Vec` is the list of its values, with the number of them that fit
-- at most; its capacity only reserves memory.
pub mod Contents
pub mod Iter
mod Examples
use doom_fish_utils.Base.{
  ℕ, zero, suc, ◌+◌, ◌-◌, ◌^◌, List, [], ◌∷◌, ◌++◌, map, Option, none, some, Bool, true, false, not,
  ◌==◌, ltb, leb, if◌then◌else◌, length, get_elem?, set, take, drop, Outcome, returned, panicked,
  undefined, and_then,
}
use doom_fish_utils.Collections.ArrayVec
use doom_fish_utils.Collections.ArrayVec.{ArrayVec, IntoIter, cap}
use doom_fish_utils.Collections.ArrayVec.Memory.{Cells, read}
use doom_fish_utils.Collections.ArrayVec.Retain.{retain_list}

-- `N` is the capacity of the inline array.
pub data SmallVec {ℓ} (A : Type ℓ) : Type ℓ where
  inline : ArrayVec A → SmallVec A
  heap : List A → SmallVec A

-- `usize::saturating_add`.
abbrev pub saturating_add : ℕ → ℕ → ℕ
saturating_add a b = if ltb (a + b) (2 ^ 64) then a + b else 2 ^ 64 - 1

module _ {ℓ} {A : Type ℓ} where
  unfoldable pub new : ℕ → SmallVec A
  new n = inline (ArrayVec.new n)

  -- `Vec::pop`, `Vec::remove`.
  abbrev pub vec_pop : List A → List A × Option A
  vec_pop [] = ([], none)
  vec_pop (x ∷ []) = ([], some x)
  vec_pop (x ∷ y ∷ xs) = (x ∷ (vec_pop (y ∷ xs)).0, (vec_pop (y ∷ xs)).1)

  abbrev pub vec_remove : Option A → List A → ℕ → List A × Outcome A
  vec_remove none xs index = (xs, panicked "removal index should be < len")
  vec_remove (some x) xs index = (take index xs ++ drop (index + 1) xs, returned x)

  -- `array.drain(..).collect()`: the iterator is run to its end.
  unfoldable pub collect : ℕ → IntoIter A → Outcome (List A)
  collect zero it = returned []
  collect (suc left) it =
      let (it', o) = ArrayVec.next it in
      let rest = collect left it' in
      and_then o
        (λ x. elim x [ none ↦ returned [] | some y ↦ and_then rest (λ ys. returned (y ∷ ys)) ])

  -- `heap`: the values move out of the inline array for good.
  unfoldable pub move_to_heap : ArrayVec A → Outcome (List A)
  unfolding collect
  move_to_heap v =
      and_then (ArrayVec.drain v ArrayVec.Spec.unbounded ArrayVec.Spec.unbounded).1
        (λ it. collect (it.stop + 1) it)

  -- What runs on the vector behind `heap`.
  abbrev pub on_heap :
      SmallVec A
      → Outcome (List A)
      → (List A → SmallVec A × Outcome (Unit {0}))
      → SmallVec A × Outcome (Unit {0})
  on_heap v (returned xs) f = f xs
  on_heap v (panicked message) f = (v, panicked message)
  on_heap v undefined f = (v, undefined)

  unfoldable pub pop : SmallVec A → SmallVec A × Outcome (Option A)
  pop (inline v) = let (v', o) = ArrayVec.pop v in (inline v', o)
  pop (heap xs) = let (ys, o) = vec_pop xs in (heap ys, returned o)

  unfoldable pub remove : SmallVec A → ℕ → SmallVec A × Outcome A
  remove (inline v) index = let (v', o) = ArrayVec.remove v index in (inline v', o)
  remove (heap xs) index = let (ys, o) = vec_remove (get_elem? xs index) xs index in (heap ys, o)

  unfoldable pub truncate : SmallVec A → ℕ → SmallVec A × Outcome (Unit {0})
  truncate (inline v) len = let (v', o) = ArrayVec.truncate v len in (inline v', o)
  truncate (heap xs) len = (heap (take len xs), returned tt)

  unfoldable pub clear : SmallVec A → SmallVec A × Outcome (Unit {0})
  unfolding truncate
  clear v = truncate v 0

  abbrev pub and_extend :
      SmallVec A × Outcome (Unit {0})
      → (SmallVec A → SmallVec A × Outcome (Unit {0}))
      → SmallVec A × Outcome (Unit {0})
  and_extend (v, returned _) f = f v
  and_extend (v, panicked message) f = (v, panicked message)
  and_extend (v, undefined) f = (v, undefined)

-- A `Vec` of these values holds at most `limit`, and panics when it would have to grow past that.
module _ {ℓ} {A : Type ℓ} (limit : ℕ) where
  -- `Vec::push`, `Vec::reserve`, which keeps the values.
  abbrev pub vec_push : A → List A → SmallVec A × Outcome (Unit {0})
  vec_push x xs =
      if ltb (length xs) limit
      then (heap (xs ++ x ∷ []), returned tt)
      else (heap xs, panicked "capacity overflow")

  abbrev pub vec_reserve : ℕ → List A → SmallVec A × Outcome (Unit {0})
  vec_reserve additional xs =
      if leb (length xs + additional) limit
      then (heap xs, returned tt)
      else (heap xs, panicked "capacity overflow")

  unfoldable pub push : SmallVec A → A → SmallVec A × Outcome (Unit {0})
  unfolding move_to_heap
  push (inline v) x =
      if not (ArrayVec.is_full v)
      then (let (v', o) = ArrayVec.push v x in (inline v', o))
      else on_heap (inline v) (move_to_heap v) (vec_push x)
  push (heap xs) x = vec_push x xs

  unfoldable pub reserve : SmallVec A → ℕ → SmallVec A × Outcome (Unit {0})
  unfolding move_to_heap
  reserve (inline v) additional =
      if leb (saturating_add v.len additional) (cap v)
      then (inline v, returned tt)
      else on_heap (inline v) (move_to_heap v) (vec_reserve additional)
  reserve (heap xs) additional = vec_reserve additional xs

  unfoldable pub push_all : SmallVec A → List A → SmallVec A × Outcome (Unit {0})
  unfolding push
  push_all v [] = (v, returned tt)
  push_all v (x ∷ xs) = and_extend (push v x) (λ v'. push_all v' xs)

  -- `Extend` over an iterator whose lower size hint is `hint`.
  unfoldable pub extend : SmallVec A → ℕ → List A → SmallVec A × Outcome (Unit {0})
  unfolding push_all reserve
  extend v hint xs = and_extend (reserve v hint) (λ v'. push_all v' xs)

  -- `extend_from_slice`: a slice iterator knows its length.
  unfoldable pub extend_from_slice : SmallVec A → List A → SmallVec A × Outcome (Unit {0})
  unfolding extend
  extend_from_slice v xs = extend v (length xs) xs

  -- `From<Vec<T>>`, with the capacity of the vector.
  unfoldable pub from_vec : ℕ → ℕ → List A → SmallVec A × Outcome (Unit {0})
  unfolding extend new
  from_vec n capacity xs =
      if leb capacity n then extend (new n) (length xs) xs else (heap xs, returned tt)

module _ {ℓ κ} {A : Type ℓ} {S : Type κ} (keep : S → A → S × (A × Bool)) where
  unfoldable pub retain : S → SmallVec A → (S × SmallVec A) × Outcome (Unit {0})
  retain s (inline v) = let ((s', v'), o) = ArrayVec.retain keep s v in ((s', inline v'), o)
  retain s (heap xs) = let (s', ys) = retain_list keep s xs in ((s', heap ys), returned tt)

module _ {ℓ} {A : Type ℓ} where
  -- `as_mut_slice`: the first cells of the inline array, which must all hold values.
  unfoldable pub slice : Cells A → ℕ → Outcome (List A)
  slice items zero = returned []
  slice [] (suc n) = undefined
  slice (none ∷ items) (suc n) = undefined
  slice (some x ∷ items) (suc n) = and_then (slice items n) (λ xs. returned (x ∷ xs))

  abbrev pub swap_values : Option A → Option A → List A → ℕ → ℕ → List A
  swap_values none b xs i j = xs
  swap_values (some x) none xs i j = xs
  swap_values (some x) (some y) xs i j = set (set xs i y) j x

  -- `slice.swap(i, j)` at two indices within the slice.
  unfoldable pub swap : List A → ℕ → ℕ → List A
  swap xs i j = swap_values (get_elem? xs i) (get_elem? xs j) xs i j

-- `ne` is `!=` of the items' `PartialEq`.
module _ {ℓ} {A : Type ℓ} (ne : A → A → Bool) where
  -- The body of the loop, on the two items that it compares.
  abbrev pub dedup_step : Option A → Option A → List A → ℕ → ℕ → Outcome (List A × ℕ)
  dedup_step none b xs kept index = panicked "index out of bounds"
  dedup_step (some x) none xs kept index = panicked "index out of bounds"
  dedup_step (some x) (some y) xs kept index =
      returned (if ne x y then (swap xs kept index, kept + 1) else (xs, kept))

  -- `for index in 1..slice.len()`, with the rounds that are left.
  unfoldable pub dedup_loop : ℕ → ℕ → List A → ℕ → Outcome (List A × ℕ)
  unfolding swap
  dedup_loop zero index xs kept = returned (xs, kept)
  dedup_loop (suc left) index xs kept =
      and_then (dedup_step (get_elem? xs index) (get_elem? xs (kept - 1)) xs kept index)
        (λ r. dedup_loop left (index + 1) r.0 r.1)

  abbrev pub dedup_truncate :
      SmallVec A → (List A → SmallVec A) → Outcome (List A × ℕ) → SmallVec A × Outcome (Unit {0})
  dedup_truncate v write (returned (xs, kept)) = truncate (write xs) kept
  dedup_truncate v write (panicked message) = (v, panicked message)
  dedup_truncate v write undefined = (v, undefined)

  unfoldable pub dedup : SmallVec A → SmallVec A × Outcome (Unit {0})
  unfolding dedup_loop truncate slice
  dedup (inline v) =
      dedup_truncate (inline v)
        (λ xs. inline (record v { items = map some xs ++ drop v.len v.items }))
        (and_then (slice v.items v.len) (λ xs. dedup_loop (length xs - 1) 1 xs 1))
  dedup (heap xs) = dedup_truncate (heap xs) heap (dedup_loop (length xs - 1) 1 xs 1)
