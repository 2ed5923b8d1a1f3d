-- ===== src/Stream/Latest.antt =====
-- src/stream.rs, `push`: what a burst of items leaves in the buffer.
use doom_fish_utils.Base.{
  ℕ, zero, suc, ◌+◌, ◌-◌, ◌≤◌, ◌<◌, ◌≡◌, refl, sym, ap, ◌∙◌, List, [], ◌∷◌, ◌++◌, false, length,
  drop, arith, dec_le, le→leb, not_le→leb, length-append, append-nil, append_assoc, length-drop,
}
use doom_fish_utils.Stream.{Shared, push}

module _ {ℓ} {A : Type ℓ} where
  -- The last `n` items of a list.
  abbrev pub latest : ℕ → List A → List A
  latest n xs = drop (length xs - n) xs

  unfoldable pub push_all : Shared A → List A → Shared A
  unfolding push
  push_all sh [] = sh
  push_all sh (x ∷ xs) = push_all (push sh x).0 xs

  -- Dropping within the first list leaves the second.
  drop-append : (n : ℕ) (xs ys : List A) → n ≤ length xs → drop n (xs ++ ys) ≡ drop n xs ++ ys
  drop-append zero xs ys h = refl
  drop-append (suc n) [] ys h = absurd (omega arith)
  drop-append (suc n) (x ∷ xs) ys h = drop-append n xs ys (omega arith)

  drop-nil : (n : ℕ) → drop {A = A} n [] ≡ []
  drop-nil zero = refl
  drop-nil (suc n) = refl

  drop-drop : (m n : ℕ) (xs : List A) → drop m (drop n xs) ≡ drop (n + m) xs
  drop-drop m zero xs = let e : 0 + m ≡ m = omega arith in rw e refl
  drop-drop m (suc n) [] = let e : suc n + m ≡ suc (n + m) = omega arith in rw (e, drop-nil m) refl
  drop-drop m (suc n) (x ∷ xs) =
      let e : suc n + m ≡ suc (n + m) = omega arith in rw e (drop-drop m n xs)

  latest-latest : (n : ℕ) (xs ys : List A) → latest n (latest n xs ++ ys) ≡ latest n (xs ++ ys)
  latest-latest n xs ys =
      let a : ℕ = length xs - n in
      let e : drop a xs ++ ys ≡ drop a (xs ++ ys) = sym (drop-append a xs ys (omega arith)) in
      let f : a + (length (drop a (xs ++ ys)) - n) ≡ length (xs ++ ys) - n =
        omega (arith, length-drop a (xs ++ ys), length-append xs ys) in
      ap (latest n) e
      ∙ drop-drop (length (drop a (xs ++ ys)) - n) a (xs ++ ys)
      ∙ ap (λ i. drop i (xs ++ ys)) f

  push_lem :
      (sh : Shared A) (x : A)
      → sh.poisoned ≡ false
      → 0 < sh.capacity
      → length sh.state.buffer ≤ sh.capacity
      → ((push sh x).0.state.buffer ≡ latest sh.capacity (sh.state.buffer ++ x ∷ []))
        × ((push sh x).0.capacity ≡ sh.capacity)
        × ((push sh x).0.poisoned ≡ false)
  unfolding push
  push_lem sh x p h l = elim (dec_le sh.capacity (length sh.state.buffer)) [
    | Dec.yes f ↦
        let e : length (sh.state.buffer ++ x ∷ []) - sh.capacity ≡ 1 =
          omega (arith, length-append sh.state.buffer (x ∷ [])) in
        rw (p, le→leb sh.capacity (length sh.state.buffer) f, e)
          (sym (drop-append 1 sh.state.buffer (x ∷ []) (omega arith)), refl, refl)
    | Dec.no f ↦
        let e : length (sh.state.buffer ++ x ∷ []) - sh.capacity ≡ 0 =
          omega (arith, length-append sh.state.buffer (x ∷ [])) in
        rw (p, not_le→leb sh.capacity (length sh.state.buffer) f, e) (refl, refl, refl)
  ]

  -- On a stream that is not poisoned, whose buffer is within a capacity above 0, a burst of pushes
  -- leaves in the buffer the last `capacity` of the items that it held and those that were pushed.
  pub push_all-latest :
      (xs : List A) (sh : Shared A)
      → sh.poisoned ≡ false
      → 0 < sh.capacity
      → length sh.state.buffer ≤ sh.capacity
      → (push_all sh xs).state.buffer ≡ latest sh.capacity (sh.state.buffer ++ xs)
  unfolding push_all
  push_all-latest [] sh p h l =
      let e : length sh.state.buffer - sh.capacity ≡ 0 = omega arith in
      rw (append-nil sh.state.buffer, e) refl
  push_all-latest (x ∷ xs) sh p h l =
      let (e, c, q) = push_lem sh x p h l in
      let m : length (push sh x).0.state.buffer ≤ (push sh x).0.capacity =
        rw (e, c)
          (omega (
            arith,
            length-drop (length (sh.state.buffer ++ x ∷ []) - sh.capacity)
                (sh.state.buffer ++ x ∷ []),
          )) in
      push_all-latest xs (push sh x).0 q (rw c h) m
      ∙ rw (e, c) (latest-latest sh.capacity (sh.state.buffer ++ x ∷ []) xs)
      ∙ ap (latest sh.capacity) (append_assoc sh.state.buffer (x ∷ []) xs)
