-- ===== src/Collections/ArrayVec/Edit.antt =====
-- src/collections/array_vec.rs: `pop`, `insert`, `remove` and `truncate` against lists.
use doom_fish_utils.Base.{
  ℕ, zero, suc, ◌+◌, ◌-◌, ◌≤◌, ◌<◌, ◌≡◌, refl, sym, ap, subst, ◌∙◌, ◌⊎◌, inl, inr, dec_lt, List, [],
  ◌∷◌, ◌++◌, none, some, true, false, ltb, length, take, arith, Outcome, returned, panicked,
  and_then, length-append, lt→ltb, not_lt→ltb, le→leb, not_le→leb, eq→==, ne→==,
}
use doom_fish_utils.Collections.ArrayVec.Memory.{
  write, copy_within, filled, read-filled, copy_up-filled, copy_down-filled, filled-append,
  length-copy_within,
}
use doom_fish_utils.Collections.ArrayVec.Refine.{Holds, length-filled, cap-Holds, free_cell}
use doom_fish_utils.Collections.ArrayVec.{
  ArrayVec, cap, pop, insert, remove, truncate, truncate_loop,
}

module _ {ℓ} {A : Type ℓ} where
  -- A list with a place in it comes apart at that place.
  split_at :
      (xs : List A) (i : ℕ)
      → i < length xs
      → (a : List A) × (x : A) × (b : List A) × (xs ≡ a ++ x ∷ b) × (length a ≡ i)
  split_at [] i h = elim h [ ]
  split_at (x ∷ xs) zero h = ([], x, xs, refl, refl)
  split_at (x ∷ xs) (suc i) h =
      let (a, y, b, e, l) = split_at xs i (omega arith) in
      (x ∷ a, y, b, ap (λ zs. x ∷ zs) e, ap suc l)

  module _ (v : ArrayVec A) where
    -- On a vector that holds a list with a last value, `pop` takes that value and keeps the
    -- capacity.
    pub pop-Holds :
        (xs : List A) (x : A)
        → Holds v (xs ++ x ∷ [])
        → ((pop v).1 ≡ returned (some x)) × Holds (pop v).0 xs × (cap (pop v).0 ≡ cap v)
    unfolding pop
    pop-Holds xs x h =
        let len : v.len - 1 ≡ length xs = omega (arith, h.len_eq, length-append xs (x ∷ [])) in
        let items : v.items ≡ filled xs (some x ∷ h.rest) =
          h.items_eq ∙ filled-append xs (x ∷ []) h.rest in
        rw (ne→== v.len 0 (omega (arith, h.len_eq, length-append xs (x ∷ [])))) (
          rw (items, len, read-filled xs x h.rest) refl,
          record { rest = some x ∷ h.rest; items_eq = items; len_eq = len },
          refl,
        )

    pub pop_empty : Holds v [] → pop v ≡ (v, returned none)
    unfolding pop
    pop_empty h = rw (eq→== v.len 0 h.len_eq)

    -- On a vector that holds a list and has room, `insert` at an index within it puts the value
    -- between those before the index and those from it on.
    pub insert-Holds :
        (a b : List A) (x : A)
        → Holds v (a ++ b)
        → length (a ++ b) < cap v
        → ((insert v (length a) x).1 ≡ returned tt)
          × Holds (insert v (length a) x).0 (a ++ x ∷ b)
          × (cap (insert v (length a) x).0 ≡ cap v)
    unfolding insert
    insert-Holds a b x h p =
        let (o, end, e) = free_cell v (a ++ b) h p in
        let dst : length a + 1 ≡ suc (length a) = omega arith in
        let count : v.len - length a ≡ length b = omega (arith, h.len_eq, length-append a b) in
        let written : write (copy_within v.items (length a) (length a + 1) (v.len - length a))
              (length a) x
            ≡ filled (a ++ x ∷ b) end =
          rw (e, dst, count) (copy_up-filled a b o x end) in
        rw
          (
            le→leb (length a) v.len (omega (arith, h.len_eq, length-append a b)),
            lt→ltb v.len (cap v) (omega (arith, h.len_eq)),
          )
          (
            refl,
            record {
              rest = end;
              items_eq = written;
              len_eq = omega (arith, h.len_eq, length-append a b, length-append a (x ∷ b));
            },
            omega (
              arith,
              ap length written,
              length-filled (a ++ x ∷ b) end,
              length-append a (x ∷ b),
              length-append a b,
              ap length e,
              length-filled (a ++ b) (o ∷ end),
            ),
          )

    -- On a vector that holds a list, `insert` panics at an index past the length and, at any other
    -- index, if there is no room; the vector stays.
    pub insert_refused :
        (xs : List A) (index : ℕ) (x : A)
        → Holds v xs
        → (length xs < index → insert v index x ≡ (v, panicked "insertion index is out of bounds"))
          × (index ≤ length xs
              → cap v ≤ length xs
              → insert v index x ≡ (v, panicked "ArrayVec is full"))
    unfolding insert
    insert_refused xs index x h = (
      (λ p. rw (not_le→leb index v.len (omega (arith, h.len_eq)))),
      λ p q. rw (
        le→leb index v.len (omega (arith, h.len_eq)),
        not_lt→ltb v.len (cap v) (omega (arith, h.len_eq)),
      ),
    )

    -- On a vector that holds a list, `remove` at an index within it takes out the value there, and
    -- those behind it move up to its place.
    pub remove-Holds :
        (a b : List A) (x : A)
        → Holds v (a ++ x ∷ b)
        → ((remove v (length a)).1 ≡ returned x)
          × Holds (remove v (length a)).0 (a ++ b)
          × (cap (remove v (length a)).0 ≡ cap v)
    unfolding remove
    remove-Holds a b x h =
        let lens : v.len ≡ length a + suc (length b) = h.len_eq ∙ length-append a (x ∷ b) in
        let count : v.len - 1 - length a ≡ length b = omega (arith, lens) in
        let (end, moved) = copy_down-filled a (x ∷ []) b h.rest in
        let items : v.items ≡ filled a (some x ∷ filled b h.rest) =
          h.items_eq ∙ filled-append a (x ∷ b) h.rest in
        rw (lt→ltb (length a) v.len (omega (arith, lens))) (
          rw items (read-filled a x (filled b h.rest)),
          record {
            rest = end;
            items_eq = rw (count, h.items_eq) moved;
            len_eq = omega (arith, lens, length-append a b);
          },
          length-copy_within v.items (length a + 1) (length a) (v.len - 1 - length a)
              (omega (arith, lens, cap-Holds h, length-append a (x ∷ b)))
              (omega (arith, lens, cap-Holds h, length-append a (x ∷ b))),
        )

    pub remove_refused :
        (xs : List A) (index : ℕ)
        → Holds v xs
        → length xs ≤ index
        → remove v index ≡ (v, panicked "removal index is out of bounds")
    unfolding remove
    remove_refused xs index h p = rw (not_lt→ltb index v.len (omega (arith, h.len_eq)))

  -- A list is empty or has a last value.
  pub unsnoc : (xs : List A) → (xs ≡ []) ⊎ ((ys : List A) × (y : A) × (xs ≡ ys ++ y ∷ []))
  unsnoc [] = inl refl
  unsnoc (x ∷ xs) = elim (unsnoc xs) [
    | inl e ↦ inr ([], x, ap (λ zs. x ∷ zs) e)
    | inr (ys, y, e) ↦ inr (x ∷ ys, y, ap (λ zs. x ∷ zs) e)
  ]

  take_all : (xs : List A) (n : ℕ) → length xs ≤ n → take n xs ≡ xs
  take_all [] zero h = refl
  take_all [] (suc n) h = refl
  take_all (x ∷ xs) zero h = absurd (omega arith)
  take_all (x ∷ xs) (suc n) h = ap (λ zs. x ∷ zs) (take_all xs n (omega arith))

  take-append_last :
      (xs : List A) (x : A) (n : ℕ) → n ≤ length xs → take n (xs ++ x ∷ []) ≡ take n xs
  take-append_last xs x zero h = refl
  take-append_last [] x (suc n) h = absurd (omega arith)
  take-append_last (y ∷ xs) x (suc n) h = ap (λ zs. y ∷ zs) (take-append_last xs x n (omega arith))

  last_of :
      (v : ArrayVec A) (xs : List A) (len : ℕ)
      → Holds v xs
      → len < v.len
      → (ys : List A) × (y : A) × (xs ≡ ys ++ y ∷ [])
  last_of v xs len h p = elim (unsnoc xs) [
    | inl e ↦ absurd (omega (arith, h.len_eq, ap length e))
    | inr r ↦ r
  ]

  truncate_loop_stops :
      (left len : ℕ) (v : ArrayVec A)
      → ltb len v.len ≡ false
      → truncate_loop (suc left) len v ≡ (v, returned tt)
  unfolding truncate_loop
  truncate_loop_stops left len v e = rw (e, truncate_loop)

  truncate_loop_pops :
      (left len : ℕ) (v : ArrayVec A)
      → ltb len v.len ≡ true
      → truncate_loop (suc left) len v ≡ (
        (truncate_loop left len (pop v).0).0,
        and_then (pop v).1 (λ _. (truncate_loop left len (pop v).0).1),
      )
  unfolding truncate_loop
  truncate_loop_pops left len v e = rw (e, truncate_loop)

  Truncates : ArrayVec A → List A → ArrayVec A × Outcome (Unit {0}) → Type ℓ
  Truncates v xs r = (r.1 ≡ returned tt) × Holds r.0 xs × (cap r.0 ≡ cap v)

  truncate_loop-Truncates :
      (left len : ℕ) (v : ArrayVec A) (xs : List A)
      → length xs ≤ left
      → Holds v xs
      → Truncates v (take len xs) (truncate_loop left len v)
  unfolding truncate_loop Truncates
  truncate_loop-Truncates zero len v xs b h =
      (refl, subst (Holds v) (sym (take_all xs len (omega arith))) h, refl)
  truncate_loop-Truncates (suc left) len v xs b h = elim (dec_lt len v.len) [
    | no p ↦
        rw (truncate_loop_stops left len v (not_lt→ltb len v.len p))
          (refl, subst (Holds v) (sym (take_all xs len (omega (arith, h.len_eq)))) h, refl)
    | yes p ↦
        let (ys, y, e) = last_of v xs len h p in
        let (popped, held, same) = pop-Holds v ys y (subst (Holds v) e h) in
        let size : length xs ≡ length ys + 1 = ap length e ∙ length-append ys (y ∷ []) in
        let (ended, rest, kept) =
          truncate_loop-Truncates left len (pop v).0 ys (omega arith) held in
        rw (truncate_loop_pops left len v (lt→ltb len v.len p)) (
          rw popped ended,
          subst (Holds (truncate_loop left len (pop v).0).0)
              (sym (take-append_last ys y len (omega (arith, h.len_eq))) ∙ ap (take len) (sym e))
              rest,
          kept ∙ same,
        )
  ]

  -- On a vector that holds a list, `truncate` keeps the first values and the capacity, and its loop
  -- ends.
  pub truncate-Holds :
      (v : ArrayVec A) (xs : List A) (len : ℕ)
      → Holds v xs
      → ((truncate v len).1 ≡ returned tt)
        × Holds (truncate v len).0 (take len xs)
        × (cap (truncate v len).0 ≡ cap v)
  unfolding truncate Truncates
  truncate-Holds v xs len h = truncate_loop-Truncates v.len len v xs (omega (arith, h.len_eq)) h
