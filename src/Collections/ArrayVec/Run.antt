-- ===== src/Collections/ArrayVec/Run.antt =====
-- src/collections/array_vec.rs: any calls on a vector against the same calls on a list of bounded
-- length, refusals included.
use doom_fish_utils.Base.{
  ℕ, zero, suc, ◌+◌, ◌-◌, ◌≤◌, ◌<◌, ◌≡◌, refl, sym, ap, ap₂, lt-length_of_some, subst, ◌∙◌, inl,
  inr, List, [], ◌∷◌, ◌++◌, none, some, true, false, ltb, leb, ltb→lt, leb→le, if◌then◌else◌,
  length, take, drop, get_elem?, take-append-drop, length-take, arith, Bool-cases, Option-cases,
  returned, panicked, length-append, append-nil, append_assoc, le→leb, not_le→leb,
}
use doom_fish_utils.Collections.ArrayVec.Refine.{Holds, push-Holds, push_full, cap-Holds}
use doom_fish_utils.Collections.ArrayVec.Edit.{
  pop-Holds, pop_empty, insert-Holds, insert_refused, remove-Holds, remove_refused, truncate-Holds,
  unsnoc,
}
use doom_fish_utils.Collections.ArrayVec.Retain.{extend_more}
use doom_fish_utils.Collections.ArrayVec.{ArrayVec, cap, push, insert, remove, clear, extend}
use doom_fish_utils.Collections.ArrayVec.Calls.{
  Op, pushes, pops, inserts, removes, truncates, clears, extends, Reply, done, popped, removed,
  perform, pop_list, perform_list, run, run_list,
}

module _ {ℓ} {A : Type ℓ} where
  -- The vector does what the list does.
  abbrev Agrees : ArrayVec A → ArrayVec A × Reply A → List A × Reply A → Type ℓ
  Agrees v r s = Holds r.0 s.0 × (r.1 ≡ s.1) × (cap r.0 ≡ cap v)

  pop_list-append : (xs : List A) (x : A) → pop_list (xs ++ x ∷ []) ≡ (xs, some x)
  unfolding pop_list
  pop_list-append [] x = refl
  pop_list-append (y ∷ xs) x = rw (pop_list-append xs x) refl

  around-get_elem? :
      (xs : List A) (i : ℕ) (x : A)
      → get_elem? xs i ≡ some x
      → xs ≡ take i xs ++ x ∷ drop (suc i) xs
  around-get_elem? [] i x e = cc (e)
  around-get_elem? (y ∷ xs) zero x e = ap (λ z. z ∷ xs) (cc e)
  around-get_elem? (y ∷ xs) (suc i) x e = ap (λ zs. y ∷ zs) (around-get_elem? xs i x e)

  get_elem?-none : (xs : List A) (i : ℕ) → get_elem? xs i ≡ none → length xs ≤ i
  get_elem?-none [] i e = omega arith
  get_elem?-none (x ∷ xs) zero e = cc (e)
  get_elem?-none (x ∷ xs) (suc i) e = omega (arith, get_elem?-none xs i e)

  module _ (v : ArrayVec A) (xs : List A) (h : Holds v xs) where
    pushes_lem : (x : A) → Agrees v (perform (pushes x) v) (perform_list (cap v) (pushes x) xs)
    unfolding perform perform_list
    pushes_lem x = elim (Bool-cases (ltb (length xs) (cap v))) [
      | inl e ↦
          let (a, b, c) = push-Holds v xs h x (ltb→lt (length xs) (cap v) e) in
          rw e (b, ap done a, c)
      | inr e ↦ rw (e, push_full v xs h x (ground arith)) (h, refl, refl)
    ]

    pops_lem : Agrees v (perform pops v) (perform_list (cap v) pops xs)
    unfolding perform perform_list pop_list
    pops_lem = elim (unsnoc xs) [
      | inl e ↦ let g : Holds v [] = subst (Holds v) e h in rw (pop_empty v g, e) (g, refl, refl)
      | inr (ys, y, e) ↦
          let (a, b, c) = pop-Holds v ys y (subst (Holds v) e h) in
          rw (e, pop_list-append ys y) (b, ap popped a, c)
    ]

    inserts_lem :
        (i : ℕ) (x : A) → Agrees v (perform (inserts i x) v) (perform_list (cap v) (inserts i x) xs)
    unfolding perform perform_list
    inserts_lem i x = elim (Bool-cases (leb i (length xs))) [
      | inl e ↦ elim (Bool-cases (ltb (length xs) (cap v))) [
        | inl f ↦
            let l : length (take i xs) ≡ i =
              omega (arith, length-take i xs, leb→le i (length xs) e) in
            let t : take i xs ++ drop i xs ≡ xs = take-append-drop i xs in
            let g : Holds v (take i xs ++ drop i xs) = subst (Holds v) (sym t) h in
            let m : length (take i xs ++ drop i xs) < cap v =
              subst (λ zs. length zs < cap v) (sym t) (ltb→lt (length xs) (cap v) f) in
            let (a, b, c) = insert-Holds v (take i xs) (drop i xs) x g m in
            rw (e, f)
              (subst
                (λ k.
                  Holds (insert v k x).0 (take i xs ++ x ∷ drop i xs)
                  × (◌≡◌ {A = Reply A} (done (insert v k x).1) (done (returned tt)))
                  × (cap (insert v k x).0 ≡ cap v))
                l (b, ap done a, c))
        | inr f ↦
            rw (e, f, (insert_refused v xs i x h).1 (leb→le i (length xs) e) (ground arith))
              (h, refl, refl)
      ]
      | inr e ↦ rw (e, (insert_refused v xs i x h).0 (ground arith)) (h, refl, refl)
    ]

    removes_lem : (i : ℕ) → Agrees v (perform (removes i) v) (perform_list (cap v) (removes i) xs)
    unfolding perform perform_list
    removes_lem i = elim (Option-cases (get_elem? xs i)) [
      | inl e ↦ rw (e, remove_refused v xs i h (get_elem?-none xs i e)) (h, refl, refl)
      | inr (x, e) ↦
          let t : xs ≡ take i xs ++ x ∷ drop (suc i) xs = around-get_elem? xs i x e in
          let l : length (take i xs) ≡ i =
            omega (arith, length-take i xs, lt-length_of_some xs i x e) in
          let (a, b, c) = remove-Holds v (take i xs) (drop (suc i) xs) x (subst (Holds v) t h) in
          rw e (
            subst
              (λ k.
                Holds (remove v k).0 (take i xs ++ drop (suc i) xs)
                × (◌≡◌ {A = Reply A} (removed (remove v k).1) (removed (returned x)))
                × (cap (remove v k).0 ≡ cap v))
              l (b, ap removed a, c))
    ]

    truncates_lem :
        (n : ℕ) → Agrees v (perform (truncates n) v) (perform_list (cap v) (truncates n) xs)
    unfolding perform perform_list
    truncates_lem n = let (a, b, c) = truncate-Holds v xs n h in (b, ap done a, c)

    clears_lem : Agrees v (perform clears v) (perform_list (cap v) clears xs)
    unfolding perform perform_list clear
    clears_lem = let (a, b, c) = truncate-Holds v xs 0 h in (b, ap done a, c)

  -- A push that is refused ends `extend`.
  extend_stops :
      (v : ArrayVec A) (xs : List A) (y : A) (ys : List A)
      → Holds v xs
      → cap v ≤ length xs
      → extend v (y ∷ ys) ≡ (v, panicked "ArrayVec is full")
  unfolding extend
  extend_stops v xs y ys h e =
      let q : push v y ≡ (v, panicked "ArrayVec is full") = push_full v xs h y e in
      let p : (push v y).1 ≡ panicked "ArrayVec is full" = ap (λ r. r.1) q in
      rw (p, extend) (ap (λ r. (r.0, panicked "ArrayVec is full")) q)

  take_nil : (n : ℕ) → take {A = A} n [] ≡ []
  take_nil zero = refl
  take_nil (suc n) = refl

  extends_lem :
      (ys : List A) (v : ArrayVec A) (xs : List A)
      → Holds v xs
      → Agrees v (perform (extends ys) v) (perform_list (cap v) (extends ys) xs)
  unfolding perform perform_list extend
  extends_lem [] v xs h =
      let l : leb (length xs + 0) (cap v) ≡ true =
        le→leb (length xs + 0) (cap v) (omega (arith, cap-Holds h)) in
      rw (l, take_nil (cap v - length xs)) (subst (Holds v) (sym (append-nil xs)) h, refl, refl)
  extends_lem (y ∷ ys) v xs h = elim (Bool-cases (ltb (length xs) (cap v))) [
    | inl e ↦
        let (a, b, c) = push-Holds v xs h y (ltb→lt (length xs) (cap v) e) in
        let (d, f, g) = extends_lem ys (push v y).0 (xs ++ y ∷ []) b in
        let n : length (xs ++ y ∷ []) ≡ length xs + 1 = length-append xs (y ∷ []) in
        let l : length xs < cap v = ltb→lt (length xs) (cap v) e in
        let t : cap v - length xs ≡ suc (cap (push v y).0 - length (xs ++ y ∷ [])) = omega arith in
        let m : length (xs ++ y ∷ []) + length ys ≡ length xs + suc (length ys) = omega arith in
        rw (extend_more v y ys a, t)
          (
            subst (Holds (extend (push v y).0 ys).0)
                (append_assoc xs (y ∷ []) (take (cap (push v y).0 - length (xs ++ y ∷ [])) ys)) d,
            f
                ∙ ap₂ (λ i j. done (if leb i j then returned tt else panicked "ArrayVec is full")) m
                    c,
            g ∙ c,
          )
    | inr e ↦
        let l : cap v ≤ length xs = ground arith in
        let t : cap v - length xs ≡ 0 = omega arith in
        let z : leb (length xs + suc (length ys)) (cap v) ≡ false =
          not_le→leb (length xs + suc (length ys)) (cap v) (omega arith) in
        rw (extend_stops v xs y ys h l, z, t) (subst (Holds v) (sym (append-nil xs)) h, refl, refl)
  ]

  perform-Holds :
      (op : Op A) (v : ArrayVec A) (xs : List A)
      → Holds v xs
      → Agrees v (perform op v) (perform_list (cap v) op xs)
  perform-Holds (pushes x) v xs h = pushes_lem v xs h x
  perform-Holds pops v xs h = pops_lem v xs h
  perform-Holds (inserts i x) v xs h = inserts_lem v xs h i x
  perform-Holds (removes i) v xs h = removes_lem v xs h i
  perform-Holds (truncates n) v xs h = truncates_lem v xs h n
  perform-Holds clears v xs h = clears_lem v xs h
  perform-Holds (extends ys) v xs h = extends_lem ys v xs h

  -- Over any calls on a vector that holds a list, `push`, `pop`, `insert`, `remove`, `truncate`,
  -- `clear` and `extend` answer what the same calls on the list answer, if that is bounded by the
  -- capacity: values, and the panics of an index out of bounds and of a full vector. The vector then
  -- holds the list that these calls leave; no cell is read that holds no value.
  pub run-refines :
      (ops : List (Op A)) (v : ArrayVec A) (xs : List A)
      → Holds v xs
      → ((run ops v).1 ≡ (run_list (cap v) ops xs).1)
        × Holds (run ops v).0 (run_list (cap v) ops xs).0
        × (cap (run ops v).0 ≡ cap v)
  unfolding run run_list
  run-refines [] v xs h = (refl, h, refl)
  run-refines (op ∷ ops) v xs h =
      let (a, b, c) = perform-Holds op v xs h in
      let (d, e, f) = run-refines ops (perform op v).0 (perform_list (cap v) op xs).0 a in
      let g : ((run ops (perform op v).0).1
            ≡ (run_list (cap v) ops (perform_list (cap v) op xs).0).1)
          × Holds (run ops (perform op v).0).0
              (run_list (cap v) ops (perform_list (cap v) op xs).0).0 =
        subst
          (λ n.
            ((run ops (perform op v).0).1 ≡ (run_list n ops (perform_list (cap v) op xs).0).1)
            × Holds (run ops (perform op v).0).0 (run_list n ops (perform_list (cap v) op xs).0).0)
          c (d, e) in
      (ap₂ (λ r rs. r ∷ rs) b g.0, g.1, f ∙ c)
