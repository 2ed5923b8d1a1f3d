-- ===== src/Collections/ArrayVec/Drain.antt =====
-- src/collections/array_vec.rs: `drain`, and the iterator that it shares with `into_iter`.
use doom_fish_utils.Base.{
  ℕ, ◌+◌, ◌-◌, ◌<◌, ◌≡◌, refl, sym, ap, ◌∙◌, ◌⊎◌, inl, inr, List, [], ◌∷◌, ◌++◌, none, some, Bool,
  true, false, ◌&&◌, leb, length, take, drop, replicate, arith, returned, panicked, length-append,
  le→leb, not_le→leb, eq→==, ne→==,
}
use doom_fish_utils.Collections.ArrayVec.Memory.{
  Cells, filled, take-filled, drop-filled, read-filled, copy_down-filled, filled-append,
  length-copy_within,
}
use doom_fish_utils.Collections.ArrayVec.Spec.{Bound, start_of, end_of}
use doom_fish_utils.Collections.ArrayVec.Refine.{Holds, cap-Holds}
use doom_fish_utils.Collections.ArrayVec.{
  ArrayVec, IntoIter, cap, drain, drain_between, into_iter, next, next_back,
}

-- The values that the iterator has not given yet lie between its two ends.
pub record Yields {ℓ} {A : Type ℓ} (it : IntoIter A) (xs : List A) : Type ℓ where
  pub before : List A
  pub behind : Cells A
  pub items_eq : it.items ≡ filled before (filled xs behind)
  pub start_eq : it.start ≡ length before
  pub stop_eq : it.stop ≡ length before + length xs

module _ {ℓ} {A : Type ℓ} where
  pub into_iter-Yields : (v : ArrayVec A) (xs : List A) → Holds v xs → Yields (into_iter v) xs
  unfolding into_iter
  into_iter-Yields v xs h = record {
    before = [];
    behind = h.rest;
    items_eq = h.items_eq;
    start_eq = refl;
    stop_eq = omega (arith, h.len_eq);
  }

  -- `next` gives the values from the front, and `next_back` from the back.
  pub next-Yields :
      (it : IntoIter A) (x : A) (xs : List A)
      → Yields it (x ∷ xs)
      → ((next it).1 ≡ returned (some x)) × Yields (next it).0 xs
  unfolding next
  next-Yields it x xs y = rw (ne→== it.start it.stop (omega (arith, y.start_eq, y.stop_eq))) (
    rw (y.items_eq, y.start_eq, read-filled y.before x (filled xs y.behind)) refl,
    record {
      before = y.before ++ x ∷ [];
      behind = y.behind;
      items_eq = y.items_eq ∙ sym (filled-append y.before (x ∷ []) (filled xs y.behind));
      start_eq = omega (arith, y.start_eq, length-append y.before (x ∷ []));
      stop_eq = omega (arith, y.stop_eq, length-append y.before (x ∷ []));
    },
  )

  pub next_back-Yields :
      (it : IntoIter A) (xs : List A) (x : A)
      → Yields it (xs ++ x ∷ [])
      → ((next_back it).1 ≡ returned (some x)) × Yields (next_back it).0 xs
  unfolding next_back
  next_back-Yields it xs x y =
      let last : it.stop - 1 ≡ length (y.before ++ xs) =
        omega (arith, y.stop_eq, length-append xs (x ∷ []), length-append y.before xs) in
      let items : it.items ≡ filled y.before (filled xs (some x ∷ y.behind)) =
        y.items_eq ∙ ap (filled y.before) (filled-append xs (x ∷ []) y.behind) in
      rw (ne→== it.start it.stop (omega (arith, y.start_eq, y.stop_eq, length-append xs (x ∷ []))))
        (
          rw
              (
                items,
                last,
                ← filled-append y.before xs (some x ∷ y.behind),
                read-filled (y.before ++ xs) x y.behind,
              )
              refl,
          record {
            before = y.before;
            behind = some x ∷ y.behind;
            items_eq = items;
            start_eq = y.start_eq;
            stop_eq = omega (arith, last, length-append y.before xs);
          },
        )

  pub next_end :
      (it : IntoIter A)
      → Yields it []
      → (next it ≡ (it, returned none)) × (next_back it ≡ (it, returned none))
  unfolding next next_back
  next_end it y = rw (eq→== it.start it.stop (omega (arith, y.start_eq, y.stop_eq))) (refl, refl)

  -- On a vector that holds a list, a range that lies within it is taken out: the iterator gives its
  -- values, and the vector keeps the others in order.
  pub drain-Holds :
      (v : ArrayVec A) (from to : Bound) (a b c : List A)
      → Holds v (a ++ (b ++ c))
      → start_of from ≡ some (length a)
      → end_of to v.len ≡ some (length (a ++ b))
      → (it : IntoIter A) × ((drain v from to).1 ≡ returned it)
        × Yields it b
        × Holds (drain v from to).0 (a ++ c)
        × (cap (drain v from to).0 ≡ cap v)
  unfolding drain
  drain-Holds v from to a b c h s e =
      let len : v.len ≡ length a + (length b + length c) =
        h.len_eq ∙ length-append a (b ++ c) ∙ ap (λ n. length a + n) (length-append b c) in
      let size : length (a ++ b) ≡ length a + length b = length-append a b in
      let count : length (a ++ b) - length a ≡ length b = omega (arith, size) in
      let tail : v.len - length (a ++ b) ≡ length c = omega (arith, len, size) in
      let (end, moved) = copy_down-filled a b c h.rest in
      let parts : v.items ≡ filled a (filled b (filled c h.rest)) =
        h.items_eq ∙ filled-append a (b ++ c) h.rest ∙ ap (filled a) (filled-append b c h.rest) in
      rw
        (
          s,
          e,
          drain_between,
          le→leb (length a) (length (a ++ b)) (omega (arith, size)),
          le→leb (length (a ++ b)) v.len (omega (arith, len, size)),
        )
        (
          record {
            items =
                take (length (a ++ b) - length a) (drop (length a) v.items)
                ++ drop (length (a ++ b) - length a) (replicate (cap v) none);
            start = 0;
            stop = length (a ++ b) - length a;
          },
          refl,
          record {
            before = [];
            behind = drop (length (a ++ b) - length a) (replicate (cap v) none);
            items_eq =
                ap (λ xs. xs ++ drop (length (a ++ b) - length a) (replicate (cap v) none))
                  (rw
                    (
                      parts,
                      count,
                      drop-filled a (filled b (filled c h.rest)),
                      take-filled b (filled c h.rest),
                    )
                    refl);
            start_eq = refl;
            stop_eq = omega (arith, count);
          },
          record {
            rest = end;
            items_eq = rw (count, tail, h.items_eq) moved;
            len_eq = omega (arith, len, count, length-append a c);
          },
          length-copy_within v.items (length a + (length (a ++ b) - length a)) (length a)
              (v.len - length (a ++ b)) (omega (arith, count, tail, len, cap-Holds h, h.len_eq))
              (omega (arith, count, tail, len, cap-Holds h, h.len_eq)),
        )

  -- Any other range is refused, and the vector stays.
  pub drain_refused :
      (v : ArrayVec A) (from to : Bound) (start stop : ℕ)
      → start_of from ≡ some start
      → end_of to v.len ≡ some stop
      → (stop < start) ⊎ (v.len < stop)
      → drain v from to ≡ (v, panicked "drain range is out of bounds")
  unfolding drain
  drain_refused v from to start stop s e (inl p) =
      rw (s, e, drain_between) (rw (not_le→leb start stop (omega arith)))
  drain_refused v from to start stop s e (inr p) =
      rw (s, e, drain_between)
        (rw (not_le→leb stop v.len (omega arith), and_false (leb start stop)))
    where
      and_false : (b : Bool) → (b && false) ≡ false
      and_false true = refl
      and_false false = refl
