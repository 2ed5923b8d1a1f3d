-- ===== src/Collections/ArrayVec/Memory.antt =====
-- `[MaybeUninit<T>; CAP]` of src/collections/array_vec.rs: cells that hold a value or none, and the
-- raw reads, writes and copies that the file makes.
use doom_fish_utils.Base.{
  ℕ, zero, suc, ◌+◌, ◌≡◌, refl, ap, ap₂, ◌≤◌, length-append, length-set, length-take, length-drop,
  List, [], ◌∷◌, ◌++◌, map, Option, none, some, length, get_elem?, set, take, drop, arith, Outcome,
  returned, panicked, undefined,
}

abbrev pub Cells {ℓ} : Type ℓ → Type ℓ
Cells A = List (Option A)

module _ {ℓ} {A : Type ℓ} where
  -- `items[index].assume_init_read()`: the value is copied out and its bits stay.
  abbrev pub init_of : Option (Option A) → Outcome A
  init_of none = panicked "index out of bounds"
  init_of (some none) = undefined
  init_of (some (some x)) = returned x

  unfoldable pub read : Cells A → ℕ → Outcome A
  read items index = init_of (get_elem? items index)

  unfoldable pub write : Cells A → ℕ → A → Cells A
  write items index value = set items index (some value)

  -- `ptr::copy(src, dst, count)` within one array: both ranges may overlap.
  unfoldable pub copy_within : Cells A → ℕ → ℕ → ℕ → Cells A
  copy_within items src dst count =
      take dst items ++ (take count (drop src items) ++ drop count (drop dst items))

  -- Cells that begin with these values.
  abbrev pub filled : List A → Cells A → Cells A
  filled xs rest = map some xs ++ rest

  pub take-filled : (xs : List A) (rest : Cells A) → take (length xs) (filled xs rest) ≡ map some xs
  take-filled [] rest = refl
  take-filled (x ∷ xs) rest = ap (λ ys. some x ∷ ys) (take-filled xs rest)

  pub drop-filled : (xs : List A) (rest : Cells A) → drop (length xs) (filled xs rest) ≡ rest
  drop-filled [] rest = refl
  drop-filled (x ∷ xs) rest = drop-filled xs rest

  pub read-filled :
      (a : List A) (x : A) (rest : Cells A)
      → read (filled a (some x ∷ rest)) (length a) ≡ returned x
  unfolding read
  read-filled [] x rest = refl
  read-filled (y ∷ a) x rest = read-filled a x rest

  pub write-filled :
      (a : List A) (old : Option A) (x : A) (rest : Cells A)
      → write (filled a (old ∷ rest)) (length a) x ≡ filled (a ++ x ∷ []) rest
  unfolding write
  write-filled [] old x rest = refl
  write-filled (y ∷ a) old x rest = ap (λ ys. some y ∷ ys) (write-filled a old x rest)

  drop_past :
      (b : List A) (old : Option A) (rest : Cells A)
      → drop (suc (length b)) (filled b (old ∷ rest)) ≡ rest
  drop_past [] old rest = refl
  drop_past (y ∷ b) old rest = drop_past b old rest

  -- Values are moved up by one, and one is put before them.
  pub copy_up-filled :
      (a b : List A) (old : Option A) (x : A) (rest : Cells A)
      → write
          (copy_within (filled (a ++ b) (old ∷ rest)) (length a) (suc (length a)) (length b))
          (length a)
          x
        ≡ filled (a ++ x ∷ b) rest
  unfolding write copy_within
  copy_up-filled [] [] old x rest = refl
  copy_up-filled [] (y ∷ b) old x rest =
      ap (λ ys. some x ∷ ys) (ap₂ ◌++◌ (take-filled (y ∷ b) (old ∷ rest)) (drop_past b old rest))
  copy_up-filled (y ∷ a) b old x rest = ap (λ ys. some y ∷ ys) (copy_up-filled a b old x rest)

  pub filled-append :
      (a b : List A) (rest : Cells A) → filled (a ++ b) rest ≡ filled a (filled b rest)
  filled-append [] b rest = refl
  filled-append (x ∷ a) b rest = ap (λ ys. some x ∷ ys) (filled-append a b rest)

  -- What is left behind the values that have been moved down.
  abbrev left_over : List A → List A → List A → Cells A → Cells A
  left_over [] b c rest = drop (length c) (filled (b ++ c) rest)
  left_over (x ∷ a) b c rest = left_over a b c rest

  -- Values are moved down over what stood before them.
  copy_down_eq :
      (a b c : List A) (rest : Cells A) (src : ℕ)
      → src ≡ length a + length b
      → copy_within (filled (a ++ (b ++ c)) rest) src (length a) (length c)
        ≡ filled (a ++ c) (left_over a b c rest)
  unfolding copy_within
  copy_down_eq [] b c rest src e =
      let start : src ≡ length b = omega arith in
      rw (start, filled-append b c rest, drop-filled b (filled c rest), take-filled c rest)
  copy_down_eq (x ∷ a) b c rest zero e = absurd (omega arith)
  copy_down_eq (x ∷ a) b c rest (suc src) e =
      ap (λ ys. some x ∷ ys) (copy_down_eq a b c rest src (omega arith))

  pub copy_down-filled :
      (a b c : List A) (rest : Cells A)
      → (end : Cells A) × (copy_within
            (filled (a ++ (b ++ c)) rest)
            (length a + length b)
            (length a)
            (length c)
          ≡ filled (a ++ c) end)
  copy_down-filled a b c rest =
      (left_over a b c rest, copy_down_eq a b c rest (length a + length b) refl)

  pub length-copy_within :
      (items : Cells A) (src dst count : ℕ)
      → src + count ≤ length items
      → dst + count ≤ length items
      → length (copy_within items src dst count) ≡ length items
  unfolding copy_within
  length-copy_within items src dst count s d = omega (
    arith,
    length-append (take dst items) (take count (drop src items) ++ drop count (drop dst items)),
    length-append (take count (drop src items)) (drop count (drop dst items)),
    length-take dst items,
    length-take count (drop src items),
    length-drop src items,
    length-drop count (drop dst items),
    length-drop dst items,
  )

  pub length-write : (items : Cells A) (i : ℕ) (x : A) → length (write items i x) ≡ length items
  unfolding write
  length-write items i x = length-set items i (some x)
