-- ===== src/Collections/SmallVec/Contents.antt =====
-- src/collections/small_vec.rs: where the values are stored makes no difference to what they are.
use doom_fish_utils.Base.{
  ℕ, zero, suc, ◌+◌, ◌^◌, ◌≤◌, ltb, if◌then◌else◌, lt→ltb, le→leb, length-append, ◌<◌, ◌≡◌, refl,
  sym, ap, subst, ◌∙◌, inl, inr, List, [], ◌∷◌, ◌++◌, none, some, Bool, true, false, leb, length,
  take, arith, Outcome, returned, panicked, undefined, and_then, append-nil, append_assoc, eq→==,
  ℕ_discrete, Bool-cases,
}
use doom_fish_utils.Collections.ArrayVec
use doom_fish_utils.Collections.ArrayVec.{ArrayVec, IntoIter, cap, into_iter}
use doom_fish_utils.Collections.ArrayVec.Refine.{Holds, push-Holds, new-Holds, cap-Holds}
use doom_fish_utils.Collections.ArrayVec.Edit.{truncate-Holds}
use doom_fish_utils.Collections.ArrayVec.Drain.{Yields, next-Yields, next_end, drain-Holds}
use doom_fish_utils.Collections.ArrayVec.Retain.{retain_list, retain-Holds}
use doom_fish_utils.Collections.SmallVec.{
  SmallVec, inline, heap, new, collect, move_to_heap, push, truncate, reserve, saturating_add,
  vec_reserve, push_all, and_extend, extend, from_vec, retain,
}

-- How a reservation ends, by whether the values fit.
abbrev pub reserved : Bool → Outcome (Unit {0})
reserved true = returned tt
reserved false = panicked "capacity overflow"

module _ {ℓ} {A : Type ℓ} where
  -- The values of the vector, whose inline capacity is `n`.
  abbrev pub Contains : ℕ → SmallVec A → List A → Type ℓ
  Contains n (inline v) xs = Holds v xs × (cap v ≡ n)
  Contains n (heap ys) xs = ys ≡ xs

  collect_next :
      (left : ℕ) (it : IntoIter A) (x : A) (ys : List A)
      → (ArrayVec.next it).1 ≡ returned (some x)
      → collect left (ArrayVec.next it).0 ≡ returned ys
      → collect (suc left) it ≡ returned (x ∷ ys)
  unfolding collect
  collect_next left it x ys e r = rw (e, and_then) (rw (r, and_then))

  collect_last :
      (left : ℕ) (it : IntoIter A)
      → (ArrayVec.next it).1 ≡ returned none
      → collect (suc left) it ≡ returned []
  unfolding collect
  collect_last left it e = rw (e, and_then)

  collect-Yields :
      (xs : List A) (left : ℕ) (it : IntoIter A)
      → length xs < left
      → Yields it xs
      → collect left it ≡ returned xs
  collect-Yields xs zero it b y = absurd (omega arith)
  collect-Yields [] (suc left) it b y = collect_last left it (ap (λ r. r.1) (next_end it y).0)
  collect-Yields (x ∷ xs) (suc left) it b y =
      let (given, rest) = next-Yields it x xs y in
      collect_next left it x xs given
        (collect-Yields xs left (ArrayVec.next it).0 (omega arith) rest)

  -- Moving to the heap loses no value.
  pub move_to_heap-Holds :
      (v : ArrayVec A) (xs : List A) → Holds v xs → move_to_heap v ≡ returned xs
  unfolding move_to_heap
  move_to_heap-Holds v xs h =
      let (it, e, y, rest, same) =
        drain-Holds v ArrayVec.Spec.unbounded ArrayVec.Spec.unbounded [] xs []
          (subst (Holds v) (sym (append-nil xs)) h) refl (ap some h.len_eq) in
      rw (e, and_then) (collect-Yields xs (it.stop + 1) it (omega (arith, y.stop_eq)) y)

  not_full :
      (v : ArrayVec A) (xs : List A) → Holds v xs → ArrayVec.is_full v ≡ false → length xs < cap v
  unfolding ArrayVec.is_full
  not_full v xs h e = elim (ℕ_discrete v.len (cap v)) [
    | yes q ↦ cc (eq→== v.len (cap v) q)
    | no q ↦ omega (arith, cap-Holds h, h.len_eq)
  ]

  Appends : ℕ → List A → SmallVec A × Outcome (Unit {0}) → Type ℓ
  Appends n xs r = (r.1 ≡ returned tt) × Contains n r.0 xs

  push_inline :
      (limit n : ℕ) (v : ArrayVec A) (xs : List A) (x : A)
      → Contains n (inline v) xs
      → length xs < limit
      → (full : Bool) → ArrayVec.is_full v ≡ full
      → Appends n (xs ++ x ∷ []) (push limit (inline v) x)
  unfolding push Appends
  push_inline limit n v xs x (h, c) l true e =
      rw (e, move_to_heap-Holds v xs h, lt→ltb (length xs) limit l) (refl, refl)
  push_inline limit n v xs x (h, c) l false e =
      let (ok, held, same) = push-Holds v xs h x (not_full v xs h e) in rw e (ok, (held, same ∙ c))

  -- On a small vector that contains a list, a push appends the value, inline or on the heap, and
  -- does not panic if a vector can hold one more value.
  pub push-Contains :
      (limit n : ℕ) (v : SmallVec A) (xs : List A) (x : A)
      → Contains n v xs
      → length xs < limit
      → ((push limit v x).1 ≡ returned tt) × Contains n (push limit v x).0 (xs ++ x ∷ [])
  unfolding push Appends
  push-Contains limit n (inline v) xs x c l =
      push_inline limit n v xs x c l (ArrayVec.is_full v) refl
  push-Contains limit n (heap ys) xs x c l =
      let t : ltb (length ys) limit ≡ true =
        lt→ltb (length ys) limit (subst (λ zs. length zs < limit) (sym c) l) in
      rw t (refl, ap (λ zs. zs ++ x ∷ []) c)

  abbrev Reserves : ℕ → List A → Bool → SmallVec A × Outcome (Unit {0}) → Type ℓ
  Reserves n xs fits r = (r.1 ≡ reserved fits) × Contains n r.0 xs

  vec_reserve-Reserves :
      (limit n additional : ℕ) (ys xs : List A)
      → ys ≡ xs
      → Reserves n xs (leb (length xs + additional) limit) (vec_reserve limit additional ys)
  vec_reserve-Reserves limit n additional ys xs c =
      subst
        (λ zs. Reserves n xs (leb (length xs + additional) limit) (vec_reserve limit additional zs))
        (sym c)
        (elim (Bool-cases (leb (length xs + additional) limit)) [
          | inl e ↦ rw e (refl, refl)
          | inr e ↦ rw e (refl, refl)
        ])

  reserve-Contains :
      (limit n : ℕ) (v : SmallVec A) (xs : List A) (additional : ℕ)
      → Contains n v xs
      → n ≤ limit
      → limit < 2 ^ 63
      → Reserves n xs (leb (length xs + additional) limit) (reserve limit v additional)
  unfolding reserve
  reserve-Contains limit n (inline v) xs additional (h, c) l b =
      elim (Bool-cases (leb (saturating_add v.len additional) (cap v))) [
        | inl e ↦
            let g : v.len + additional ≤ n = ground (arith, c) in
            let t : leb (length xs + additional) limit ≡ true =
              le→leb (length xs + additional) limit (omega (arith, h.len_eq)) in
            rw (e, t) (refl, (h, c))
        | inr e ↦
            rw (e, move_to_heap-Holds v xs h) (vec_reserve-Reserves limit n additional xs xs refl)
      ]
  reserve-Contains limit n (heap ys) xs additional c l b =
      vec_reserve-Reserves limit n additional ys xs c

  and_extend-returned :
      (r : SmallVec A × Outcome (Unit {0})) (f : SmallVec A → SmallVec A × Outcome (Unit {0}))
      → r.1 ≡ returned tt
      → and_extend r f ≡ f r.0
  and_extend-returned (v, returned _) f e = refl
  and_extend-returned (v, panicked message) f e = cc
  and_extend-returned (v, undefined) f e = cc

  and_extend-panicked :
      (r : SmallVec A × Outcome (Unit {0})) (f : SmallVec A → SmallVec A × Outcome (Unit {0}))
      → r.1 ≡ panicked "capacity overflow"
      → and_extend r f ≡ r
  and_extend-panicked (v, returned _) f e = cc
  and_extend-panicked (v, panicked message) f e = refl
  and_extend-panicked (v, undefined) f e = cc

  push_all-Contains :
      (ys : List A) (limit n : ℕ) (v : SmallVec A) (xs : List A)
      → Contains n v xs
      → length xs + length ys ≤ limit
      → ((push_all limit v ys).1 ≡ returned tt) × Contains n (push_all limit v ys).0 (xs ++ ys)
  unfolding push_all
  push_all-Contains [] limit n v xs c l = (refl, subst (Contains n v) (sym (append-nil xs)) c)
  push_all-Contains (y ∷ ys) limit n v xs c l =
      let (ok, held) = push-Contains limit n v xs y c (omega arith) in
      let (ok', held') =
        push_all-Contains ys limit n (push limit v y).0 (xs ++ y ∷ []) held
          (omega (arith, length-append xs (y ∷ []))) in
      rw (and_extend-returned (push limit v y) (λ v'. push_all limit v' ys) ok)
        (ok', subst (Contains n _) (append_assoc xs (y ∷ []) ys) held')

  -- On a small vector that contains a list, with values of at least a byte, of which a vector holds at
  -- most `limit` and an inline array no more: if the list and the new items fit, then extending by them
  -- appends them in order, inline or on the heap, and also where the iterator's size hint is wrong;
  -- only a hint that does not fit behind the list panics, and then the list is what it was.
  pub extend-Contains :
      (limit n : ℕ) (v : SmallVec A) (hint : ℕ) (xs ys : List A)
      → Contains n v xs
      → n ≤ limit
      → limit < 2 ^ 63
      → length xs + length ys ≤ limit
      → ((extend limit v hint ys).1 ≡ reserved (leb (length xs + hint) limit))
        × Contains n
            (extend limit v hint ys).0
            (if leb (length xs + hint) limit then xs ++ ys else xs)
  unfolding extend
  extend-Contains limit n v hint xs ys c l b g =
      let (ok, held) = reserve-Contains limit n v xs hint c l b in
      elim (Bool-cases (leb (length xs + hint) limit)) [
        | inl e ↦
            let r =
              and_extend-returned (reserve limit v hint) (λ v'. push_all limit v' ys)
                (ok ∙ ap reserved e) in
            rw (e, r) (push_all-Contains ys limit n (reserve limit v hint).0 xs held g)
        | inr e ↦
            let r =
              and_extend-panicked (reserve limit v hint) (λ v'. push_all limit v' ys)
                (ok ∙ ap reserved e) in
            rw (e, r) (ok ∙ ap reserved e, held)
      ]

  -- On a small vector that contains a list, truncation keeps the first values on both storages.
  pub truncate-Contains :
      (n : ℕ) (v : SmallVec A) (xs : List A) (len : ℕ)
      → Contains n v xs
      → ((truncate v len).1 ≡ returned tt) × Contains n (truncate v len).0 (take len xs)
  unfolding truncate
  truncate-Contains n (inline v) xs len (h, c) =
      let (ok, held, same) = truncate-Holds v xs len h in (ok, (held, same ∙ c))
  truncate-Contains n (heap ys) xs len c = (refl, ap (take len) c)

  -- A vector of the standard library keeps its values when it becomes a small one.
  pub from_vec-Contains :
      (limit n capacity : ℕ) (xs : List A)
      → n ≤ limit
      → limit < 2 ^ 63
      → length xs ≤ limit
      → ((from_vec limit n capacity xs).1 ≡ returned tt)
        × Contains n (from_vec limit n capacity xs).0 xs
  unfolding from_vec new
  from_vec-Contains limit n capacity xs l b g = elim (Bool-cases (leb capacity n)) [
    | inl e ↦
        let r =
          extend-Contains limit n (inline (ArrayVec.new n)) (length xs) [] xs (new-Holds n) l b
            (omega arith) in
        let t : leb (0 + length xs) limit ≡ true = le→leb (0 + length xs) limit (omega arith) in
        rw e (
          subst
            (λ d.
              ((extend limit (inline (ArrayVec.new n)) (length xs) xs).1 ≡ reserved d)
              × Contains n (extend limit (inline (ArrayVec.new n)) (length xs) xs).0
                  (if d then xs else []))
            t r)
    | inr e ↦ rw e (refl, refl)
  ]

module _ {ℓ κ} {A : Type ℓ} {S : Type κ} (keep : S → A → S × (A × Bool)) where
  -- On a small vector that contains a list, `retain` keeps the values that the closure accepts,
  -- shown to it in order, on both storages.
  pub retain-Contains :
      (n : ℕ) (s : S) (v : SmallVec A) (xs : List A)
      → Contains n v xs
      → ((retain keep s v).1 ≡ returned tt)
        × ((retain keep s v).0.0 ≡ (retain_list keep s xs).0)
        × Contains n (retain keep s v).0.1 (retain_list keep s xs).1
  unfolding retain
  retain-Contains n s (inline v) xs (h, c) =
      let (ok, state, held, same) = retain-Holds keep s v xs h in (ok, state, (held, same ∙ c))
  retain-Contains n s (heap ys) xs c =
      (refl, ap (λ zs. (retain_list keep s zs).0) c, ap (λ zs. (retain_list keep s zs).1) c)
