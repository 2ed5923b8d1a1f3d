-- ===== src/Collections/ArrayVec/Retain.antt =====
-- src/collections/array_vec.rs: `retain` and `extend` against lists.
use doom_fish_utils.Base.{
  ℕ, zero, suc, ◌+◌, ◌≤◌, ◌≡◌, refl, sym, ap, subst, ◌∙◌, List, [], ◌∷◌, ◌++◌, Option, some, Bool,
  true, false, length, arith, Outcome, returned, length-append, append-nil, append_assoc,
}
use doom_fish_utils.Collections.ArrayVec.Memory.{
  Cells, read, write, length-write, filled, write-filled,
}
use doom_fish_utils.Collections.ArrayVec.Refine.{Holds, push-Holds}
use doom_fish_utils.Collections.ArrayVec.{
  ArrayVec, cap, push, retain, retain_loop, retain_value, extend,
}

module _ {ℓ κ} {A : Type ℓ} {S : Type κ} (keep : S → A → S × (A × Bool)) where
  abbrev pub retain_cons : A × Bool → List A → List A
  retain_cons (x, true) xs = x ∷ xs
  retain_cons (x, false) xs = xs

  -- What `retain` promises: the closure sees the values in order, and those that it keeps stay, as it
  -- left them.
  pub retain_list : S → List A → S × List A
  retain_list s [] = (s, [])
  retain_list s (x ∷ xs) =
      ((retain_list (keep s x).0 xs).0, retain_cons (keep s x).1 (retain_list (keep s x).0 xs).1)

  -- Between the values kept so far and those still to read lies a gap of read cells.
  record HoldsGap (v : ArrayVec A) (ys : List A) (gap : Cells A) (xs : List A) : Type ℓ where
    rest : Cells A
    items_eq : v.items ≡ filled ys (gap ++ filled xs rest)
    len_eq : v.len ≡ length ys

  read_gap :
      (ys : List A) (gap : Cells A) (x : A) (tail : Cells A) (index : ℕ)
      → index ≡ length ys + length gap
      → read (filled ys (gap ++ some x ∷ tail)) index ≡ returned x
  unfolding read
  read_gap [] [] x tail index e = rw (let z : index ≡ 0 = omega arith in z) refl
  read_gap [] (g ∷ gap) x tail zero e = absurd (omega arith)
  read_gap [] (g ∷ gap) x tail (suc index) e = read_gap [] gap x tail index (omega arith)
  read_gap (y ∷ ys) gap x tail zero e = absurd (omega arith)
  read_gap (y ∷ ys) gap x tail (suc index) e = read_gap ys gap x tail index (omega arith)

  -- The gap with the cell that has just been read is not empty.
  abbrev snoc : Cells A → A → Option A × Cells A
  snoc [] x = (some x, [])
  snoc (g ∷ gap) x = (g, gap ++ some x ∷ [])

  snoc-eq :
      (gap : Cells A) (x : A) (tail : Cells A)
      → gap ++ some x ∷ tail ≡ (snoc gap x).0 ∷ ((snoc gap x).1 ++ tail)
  snoc-eq [] x tail = refl
  snoc-eq (g ∷ gap) x tail = ap (λ c. g ∷ c) (sym (append_assoc gap (some x ∷ []) tail))

  length-snoc : (gap : Cells A) (x : A) → length (snoc gap x).1 ≡ length gap
  length-snoc [] x = refl
  length-snoc (g ∷ gap) x = omega (arith, length-append gap (some x ∷ []))

  abbrev Retains : ℕ → (S × ArrayVec A) × Outcome (Unit {0}) → S → List A → Type (ℓ ⊔ κ)
  Retains capacity r s zs =
      (r.1 ≡ returned tt) × (r.0.0 ≡ s) × Holds r.0.1 zs × (cap r.0.1 ≡ capacity)

  kept-Holds_gap :
      (v : ArrayVec A) (ys : List A) (gap : Cells A) (x y : A) (xs : List A)
      → (h : HoldsGap v ys gap (x ∷ xs))
      → (write v.items v.len y ≡ filled (ys ++ y ∷ []) ((snoc gap x).1 ++ filled xs h.rest))
        × (length (write v.items v.len y) ≡ cap v)
  kept-Holds_gap v ys gap x y xs h =
      let items : v.items ≡ filled ys ((snoc gap x).0 ∷ ((snoc gap x).1 ++ filled xs h.rest)) =
        h.items_eq ∙ ap (filled ys) (snoc-eq gap x (filled xs h.rest)) in
      (
        rw (items, h.len_eq)
            (write-filled ys (snoc gap x).0 y ((snoc gap x).1 ++ filled xs h.rest)),
        length-write v.items v.len y,
      )

  retain_loop_reads :
      (left index : ℕ) (s : S) (v : ArrayVec A) (x : A)
      → read v.items index ≡ returned x
      → retain_loop keep (suc left) index s v
        ≡ retain_loop keep left
            (index + 1)
            (retain_value keep (keep s x) v).0
            (retain_value keep (keep s x) v).1
  unfolding retain_loop
  retain_loop_reads left index s v x e = rw (e, retain_loop)

  retain_loop_ends :
      (index : ℕ) (s : S) (v : ArrayVec A) → retain_loop keep 0 index s v ≡ ((s, v), returned tt)
  unfolding retain_loop
  retain_loop_ends index s v = refl

  -- One round, given what the rounds after it do.
  retain_round :
      (r : S × (A × Bool)) (x : A) (xs : List A) (index : ℕ) (v : ArrayVec A) (ys : List A)
      (gap : Cells A)
      → index ≡ length ys + length gap
      → HoldsGap v ys gap (x ∷ xs)
      → ((s' : S) (v' : ArrayVec A) (ys' : List A) (gap' : Cells A)
          → index + 1 ≡ length ys' + length gap'
          → HoldsGap v' ys' gap' xs
          → Retains
              (cap v')
              (retain_loop keep (length xs) (index + 1) s' v')
              (retain_list s' xs).0
              (ys' ++ (retain_list s' xs).1))
      → Retains
          (cap v)
          (retain_loop keep
            (length xs)
            (index + 1)
            (retain_value keep r v).0
            (retain_value keep r v).1)
          (retain_list r.0 xs).0
          (ys ++ retain_cons r.1 (retain_list r.0 xs).1)
  retain_round (s', (y, false)) x xs index v ys gap e h ih =
      ih s' v ys (gap ++ some x ∷ []) (omega (arith, length-append gap (some x ∷ []))) (record {
        rest = h.rest;
        items_eq =
            h.items_eq ∙ ap (filled ys) (sym (append_assoc gap (some x ∷ []) (filled xs h.rest)));
        len_eq = h.len_eq;
      })
  retain_round (s', (y, true)) x xs index v ys gap e h ih =
      let (written, size) = kept-Holds_gap v ys gap x y xs h in
      let v' : ArrayVec A = record { len = v.len + 1; items = write v.items v.len y } in
      let (ended, state, held, same) =
        ih s' v' (ys ++ y ∷ []) (snoc gap x).1
          (omega (arith, length-append ys (y ∷ []), length-snoc gap x))
          (record {
            rest = h.rest;
            items_eq = written;
            len_eq = omega (arith, h.len_eq, length-append ys (y ∷ []));
          }) in
      (
        ended,
        state,
        subst (Holds _) (append_assoc ys (y ∷ []) (retain_list s' xs).1) held,
        same ∙ size,
      )

  retain_loop-Holds :
      (xs : List A) (index : ℕ) (s : S) (v : ArrayVec A) (ys : List A) (gap : Cells A)
      → index ≡ length ys + length gap
      → HoldsGap v ys gap xs
      → Retains
          (cap v)
          (retain_loop keep (length xs) index s v)
          (retain_list s xs).0
          (ys ++ (retain_list s xs).1)
  unfolding retain_list
  retain_loop-Holds [] index s v ys gap e h = rw (retain_loop_ends index s v) (
    refl,
    refl,
    record {
      rest = gap ++ h.rest;
      items_eq = h.items_eq ∙ ap (λ zs. filled zs (gap ++ h.rest)) (sym (append-nil ys));
      len_eq = omega (arith, h.len_eq, length-append {A = A} ys []);
    },
    refl,
  )
  retain_loop-Holds (x ∷ xs) index s v ys gap e h =
      rw
        (retain_loop_reads (length xs) index s v x
          (rw h.items_eq (read_gap ys gap x (filled xs h.rest) index e)))
        (retain_round (keep s x) x xs index v ys gap e h (retain_loop-Holds xs (index + 1)))

  -- On a vector that holds a list, `retain` shows the values to the closure in order and keeps
  -- those that it accepts; no cell is read that holds no value, and the loop ends.
  pub retain-Holds :
      (s : S) (v : ArrayVec A) (xs : List A)
      → Holds v xs
      → ((retain keep s v).1 ≡ returned tt)
        × ((retain keep s v).0.0 ≡ (retain_list s xs).0)
        × Holds (retain keep s v).0.1 (retain_list s xs).1
        × (cap (retain keep s v).0.1 ≡ cap v)
  unfolding retain
  retain-Holds s v xs h = rw h.len_eq (
      retain_loop-Holds xs 0 s (record v { len = 0 }) [] [] refl
        (record { rest = h.rest; items_eq = h.items_eq; len_eq = refl }))

module _ {ℓ} {A : Type ℓ} where
  pub extend_more :
      (v : ArrayVec A) (x : A) (xs : List A)
      → (push v x).1 ≡ returned tt
      → extend v (x ∷ xs) ≡ extend (push v x).0 xs
  unfolding extend
  extend_more v x xs e = rw (e, extend)

  -- On a vector that holds a list, `extend` appends all the items where they fit.
  pub extend-Holds :
      (ys : List A) (v : ArrayVec A) (xs : List A)
      → Holds v xs
      → length xs + length ys ≤ cap v
      → ((extend v ys).1 ≡ returned tt)
        × Holds (extend v ys).0 (xs ++ ys)
        × (cap (extend v ys).0 ≡ cap v)
  unfolding extend
  extend-Holds [] v xs h b = (refl, subst (Holds v) (sym (append-nil xs)) h, refl)
  extend-Holds (y ∷ ys) v xs h b =
      let (ok, held, same) = push-Holds v xs h y (omega arith) in
      let (ok', held', same') =
        extend-Holds ys (push v y).0 (xs ++ y ∷ []) held
          (omega (arith, same, length-append xs (y ∷ []))) in
      rw (extend_more v y ys ok)
        (ok', subst (Holds _) (append_assoc xs (y ∷ []) ys) held', same' ∙ same)
