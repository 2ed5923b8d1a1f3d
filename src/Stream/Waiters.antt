-- ===== src/Stream/Waiters.antt =====
-- src/stream.rs: what registering and removing a waiter do to the shared state.
use doom_fish_utils.Base.{
  ℕ, suc, ◌-◌, ◌<◌, ◌≡◌, refl, ap, subst, ◌∙◌, inl, inr, List, [], ◌∷◌, ◌++◌, Option, none, some,
  ◌==◌, if◌then◌else◌, length, get_elem?_within, set, take, arith, Bool-cases, Option-cases,
  returned, eq→==, ==→eq,
}
use doom_fish_utils.Stream.Registry.{
  State, one_on, find, position, replace, swap_remove, waiter_id, registered, register_waiter,
  remove_waiter,
}

position_within : (id n : ℕ) (ws : List (ℕ × ℕ)) → position id ws ≡ some n → n < length ws
unfolding position
position_within id n [] e = cc (e)
position_within id n ((i, k) ∷ ws) e = elim (Bool-cases (i == id)) [
  | inl f ↦
      let p : some 0 ≡ some n =
        subst (λ b. (if b then some 0 else one_on (position id ws)) ≡ some n) f e in
      let q : 0 ≡ n = cc (p) in omega arith
  | inr f ↦ elim (Option-cases (position id ws)) [
    | inl g ↦
        let p : one_on none ≡ some n =
          subst (λ o. one_on o ≡ some n) g
            (subst (λ b. (if b then some 0 else one_on (position id ws)) ≡ some n) f e) in
        cc (p)
    | inr (m, g) ↦
        let p : one_on (some m) ≡ some n =
          subst (λ o. one_on o ≡ some n) g
            (subst (λ b. (if b then some 0 else one_on (position id ws)) ≡ some n) f e) in
        let q : suc m ≡ n = cc (p) in
        let h : m < length ws = position_within id m ws g in omega arith
  ]
]

find_append :
    (id waker : ℕ) (ws : List (ℕ × ℕ))
    → find id ws ≡ none
    → find id (ws ++ (id, waker) ∷ []) ≡ some waker
unfolding find
find_append id waker [] e = rw (eq→== id id refl) refl
find_append id waker ((i, k) ∷ ws) e = elim (Bool-cases (i == id)) [
  | inl f ↦
      let p : some k ≡ none = subst (λ b. (if b then some k else find id ws) ≡ none) f e in cc (p)
  | inr f ↦
      let p : find id ws ≡ none = subst (λ b. (if b then some k else find id ws) ≡ none) f e in
      rw f (find_append id waker ws p)
]

find-replace :
    (id waker old : ℕ) (ws : List (ℕ × ℕ))
    → find id ws ≡ some old
    → find id (replace id waker ws) ≡ some waker
unfolding find replace
find-replace id waker old [] e = cc (e)
find-replace id waker old ((i, k) ∷ ws) e = elim (Bool-cases (i == id)) [
  | inl f ↦ rw (f, f) refl
  | inr f ↦
      let p : find id ws ≡ some old =
        subst (λ b. (if b then some k else find id ws) ≡ some old) f e in
      rw (f, f) (find-replace id waker old ws p)
]

module _ {ℓ} {A : Type ℓ} where
  pub remove_waiter_lem :
      (s : State A) (waiter : Option ℕ)
      → (ws : List (ℕ × ℕ)) × (o : Option ℕ) × (remove_waiter s waiter
          ≡ (record s { waiters = ws }, returned o))
        × (s.waiters ≡ [] → ws ≡ [])
  unfolding remove_waiter swap_remove
  remove_waiter_lem s none = (s.waiters, none, refl, λ e. e)
  remove_waiter_lem s (some id) = elim (Option-cases (position id s.waiters)) [
    | inl e ↦ (s.waiters, none, rw e refl, λ e. e)
    | inr (n, e) ↦
        let h : n < length s.waiters = position_within id n s.waiters e in
        let (w, f) = get_elem?_within s.waiters n h in
        let (v, g) = get_elem?_within s.waiters (length s.waiters - 1) (omega arith) in
        (
          take (length s.waiters - 1) (set s.waiters n v),
          some w.1,
          rw (e, f, g) refl,
          λ z. let c : n < 0 = subst (λ ws. n < length ws) z h in absurd (omega arith),
        )
  ]

  registered_lem :
      (s : State A) (id waker : ℕ)
      → (ws : List (ℕ × ℕ)) × ((registered s id waker (find id s.waiters)).0
          ≡ record s { waiters = ws })
        × (find id ws ≡ some waker)
  registered_lem s id waker = elim (Option-cases (find id s.waiters)) [
    | inl e ↦ (s.waiters ++ (id, waker) ∷ [], rw e refl, find_append id waker s.waiters e)
    | inr (old, e) ↦ elim (Bool-cases (old == waker)) [
      | inl f ↦ (s.waiters, rw (e, f) refl, e ∙ ap some (==→eq old waker f))
      | inr f ↦ (replace id waker s.waiters, rw (e, f) refl, find-replace id waker old s.waiters e)
    ]
  ]

  -- A poll registers its waker under the future's id, a fresh one if it has none.
  pub register_waiter_lem :
      (s : State A) (waiter : Option ℕ) (waker : ℕ)
      → (ws : List (ℕ × ℕ)) × (n : ℕ) × ((register_waiter s waiter waker).0
          ≡ record s { waiters = ws; next_waiter = n })
        × (find (register_waiter s waiter waker).1.0 ws ≡ some waker)
  unfolding register_waiter
  register_waiter_lem s none waker =
      let s' : State A = (waiter_id s none).0 in
      let (ws, e, f) = registered_lem s' s.next_waiter waker in (ws, s'.next_waiter, e, f)
  register_waiter_lem s (some id) waker =
      let (ws, e, f) = registered_lem s id waker in (ws, s.next_waiter, e, f)
