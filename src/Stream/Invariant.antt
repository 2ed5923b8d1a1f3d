-- ===== src/Stream/Invariant.antt =====
-- src/stream.rs: what holds of the shared state between any two calls.
use doom_fish_utils.Base.{
  ℕ, ◌+◌, ◌-◌, ◌%◌, ◌^◌, ◌≤◌, ◌<◌, ◌≡◌, refl, sym, subst, ◌∙◌, ◌⊎◌, inl, inr, List, [], ◌∷◌, Option,
  true, false, ◌==◌, ltb, if◌then◌else◌, length, drop, arith, Bool-cases, dec_le, le→leb,
  not_le→leb, dec_lt, lt→ltb, not_lt→ltb, panicked, length-append, length-drop, returned, eq→==,
}
use doom_fish_utils.Stream.Waiters.{remove_waiter_lem}
use doom_fish_utils.Stream.Polling.{poll_next_item_lem}
use doom_fish_utils.Stream.Order.{
  Op, pushes, tries_push, takes, polls, clears, clones, drops_sender, drops_next, drops_stream,
  step, run, poll_poisoned,
}
use doom_fish_utils.Stream.{
  Shared, new, clone, try_next, clear_buffer, poll_next_item, drop_stream, push, push_or_block,
  drop_sender, drop_next,
}

module _ {ℓ} {A : Type ℓ} where
  -- The buffer is within its capacity, no future waits beside an item or a closed stream, and a stream
  -- without senders is closed.
  abbrev pub IsConsistent : Shared A → Type ℓ
  IsConsistent sh =
      (0 < sh.capacity)
      × (length sh.state.buffer ≤ sh.capacity)
      × ((sh.state.waiters ≡ []) ⊎ ((sh.state.buffer ≡ []) × (sh.state.closed ≡ false)))
      × (sh.state.sender_count ≡ 0 → sh.state.closed ≡ true)

  -- What `new` makes.
  abbrev started : ℕ → Shared A
  started capacity = record {
    capacity = capacity;
    poisoned = false;
    state = record {
      buffer = [];
      waiters = [];
      next_waiter = 1;
      closed = false;
      consumer_gone = false;
      sender_count = 1;
    };
  }

  pub new-IsConsistent :
      (capacity : ℕ) (sh : Shared A) → new capacity ≡ returned sh → IsConsistent sh
  unfolding new
  new-IsConsistent capacity sh e = elim (dec_lt 0 capacity) [
    | Dec.yes h ↦
        let q : _ ≡ returned sh =
          subst
            (λ b.
              (if b
                then returned (started capacity)
                else panicked "BoundedAsyncStream capacity must be > 0")
              ≡ returned sh)
            (lt→ltb 0 capacity h) e in
        let r : started capacity ≡ sh = cc (q) in
        subst IsConsistent r
          (h, omega arith, inl refl, λ z. absurd (let c : 1 ≡ 0 = z in omega arith))
    | Dec.no h ↦
        let q : panicked "BoundedAsyncStream capacity must be > 0" ≡ returned sh =
          subst
            (λ b.
              (if b
                then returned (started capacity)
                else panicked "BoundedAsyncStream capacity must be > 0")
              ≡ returned sh)
            (not_lt→ltb 0 capacity h) e in
        cc (q)
  ]

  push-IsConsistent : (sh : Shared A) (x : A) → IsConsistent sh → IsConsistent (push sh x).0
  unfolding push
  push-IsConsistent sh x (h, l, r, c) = elim (Bool-cases sh.poisoned) [
    | inl p ↦ rw p (h, l, r, c)
    | inr p ↦ elim (dec_le sh.capacity (length sh.state.buffer)) [
      | Dec.yes f ↦
          rw (p, le→leb sh.capacity (length sh.state.buffer) f)
            (
              h,
              omega (
                arith,
                length-append (drop 1 sh.state.buffer) (x ∷ []),
                length-drop 1 sh.state.buffer,
              ),
              inl refl,
              c,
            )
      | Dec.no f ↦
          rw (p, not_le→leb sh.capacity (length sh.state.buffer) f)
            (h, omega (arith, length-append sh.state.buffer (x ∷ [])), inl refl, c)
    ]
  ]

  push_or_block-IsConsistent :
      (sh : Shared A) (x : A) → IsConsistent sh → IsConsistent (push_or_block sh x).0
  unfolding push_or_block
  push_or_block-IsConsistent sh x (h, l, r, c) = elim (Bool-cases sh.poisoned) [
    | inl p ↦ rw p (h, l, r, c)
    | inr p ↦ elim (Bool-cases sh.state.consumer_gone) [
      | inl g ↦ rw (p, g) (h, l, r, c)
      | inr g ↦ elim (dec_le sh.capacity (length sh.state.buffer)) [
        | Dec.yes f ↦ rw (p, g, le→leb sh.capacity (length sh.state.buffer) f) (h, l, r, c)
        | Dec.no f ↦
            rw (p, g, not_le→leb sh.capacity (length sh.state.buffer) f)
              (h, omega (arith, length-append sh.state.buffer (x ∷ [])), inl refl, c)
      ]
    ]
  ]

  -- An item at hand means that no future waits.
  rested :
      (sh : Shared A) (x : A) (xs : List A)
      → IsConsistent sh
      → sh.state.buffer ≡ x ∷ xs
      → sh.state.waiters ≡ []
  rested sh x xs (h, l, inl e, c) q = e
  rested sh x xs (h, l, inr (e, _), c) q = cc (e, q)

  shorter :
      (sh : Shared A) (x : A) (xs : List A)
      → IsConsistent sh
      → sh.state.buffer ≡ x ∷ xs
      → length xs ≤ sh.capacity
  shorter sh x xs (h, l, r, c) q =
      let m : length (x ∷ xs) ≤ sh.capacity = subst (λ b. length b ≤ sh.capacity) q l in omega arith

  try_next-IsConsistent :
      (sh : Shared A) (b : List A)
      → sh.state.buffer ≡ b
      → IsConsistent sh
      → IsConsistent (try_next sh).0
  unfolding try_next
  try_next-IsConsistent sh [] e v = elim (Bool-cases sh.poisoned) [
    | inl p ↦ let q : (try_next sh).0 ≡ sh = rw p refl in rw q v
    | inr p ↦ let q : (try_next sh).0 ≡ sh = rw (p, e) refl in rw q v
  ]
  try_next-IsConsistent sh (x ∷ xs) e v = elim (Bool-cases sh.poisoned) [
    | inl p ↦ let q : (try_next sh).0 ≡ sh = rw p refl in rw q v
    | inr p ↦
        let q : (try_next sh).0 ≡ record sh { state = record sh.state { buffer = xs } } =
          rw (p, e) refl in
        let (h, l, r, c) = v in rw q (h, shorter sh x xs v e, inl (rested sh x xs v e), c)
  ]

  open_waits :
      (sh : Shared A)
      → sh.state.closed ≡ true
      → (sh.state.waiters ≡ []) ⊎ ((sh.state.buffer ≡ []) × (sh.state.closed ≡ false))
      → sh.state.waiters ≡ []
  open_waits sh d (inl e) = e
  open_waits sh d (inr (_, e)) = cc (d, e)

  poll-IsConsistent :
      (sh : Shared A) (waiter : Option ℕ) (waker : ℕ)
      → IsConsistent sh
      → IsConsistent (poll_next_item sh waiter waker).0
  poll-IsConsistent sh waiter waker (h, l, r, c) = elim (Bool-cases sh.poisoned) [
    | inl p ↦ rw (poll_poisoned sh waiter waker p) (h, l, r, c)
    | inr p ↦ elim (poll_next_item_lem sh waiter waker p) [
      | inl (x, xs, ws, e, q, i) ↦
          rw q (h, shorter sh x xs (h, l, r, c) e, inl (i (rested sh x xs (h, l, r, c) e)), c)
      | inr (inl (ws, e, d, q, i)) ↦ rw q (h, l, inl (i (open_waits sh d r)), c)
      | inr (inr (ws, n, id, e, d, q, _)) ↦ rw q (h, l, inr (e, d), c)
    ]
  ]

  drop_sender-IsConsistent : (sh : Shared A) → IsConsistent sh → IsConsistent (drop_sender sh).0
  unfolding drop_sender
  drop_sender-IsConsistent sh (h, l, r, c) =
      elim (Bool-cases ((sh.state.sender_count + (2 ^ 64 - 1)) % 2 ^ 64 == 0)) [
        | inl e ↦ rw e (h, l, inl refl, λ _. refl)
        | inr e ↦ rw e (h, l, r, λ z. let f : false ≡ true = sym e ∙ eq→== _ 0 z in cc (f))
      ]

  emptied :
      (sh : Shared A)
      → (sh.state.waiters ≡ []) ⊎ ((sh.state.buffer ≡ []) × (sh.state.closed ≡ false))
      → (sh.state.waiters ≡ []) ⊎ ((drop {A = A} 0 [] ≡ []) × (sh.state.closed ≡ false))
  emptied sh (inl e) = inl e
  emptied sh (inr (_, e)) = inr (refl, e)

  fewer :
      (sh : Shared A) (ws : List (ℕ × ℕ))
      → (sh.state.waiters ≡ [] → ws ≡ [])
      → (sh.state.waiters ≡ []) ⊎ ((sh.state.buffer ≡ []) × (sh.state.closed ≡ false))
      → (ws ≡ []) ⊎ ((sh.state.buffer ≡ []) × (sh.state.closed ≡ false))
  fewer sh ws i (inl e) = inl (i e)
  fewer sh ws i (inr e) = inr e

  step-IsConsistent : (sh : Shared A) (op : Op A) → IsConsistent sh → IsConsistent (step sh op).0
  unfolding step clear_buffer clone drop_stream drop_next
  step-IsConsistent sh (pushes x) v = push-IsConsistent sh x v
  step-IsConsistent sh (tries_push x) v = push_or_block-IsConsistent sh x v
  step-IsConsistent sh takes v = try_next-IsConsistent sh sh.state.buffer refl v
  step-IsConsistent sh (polls waiter waker) v = poll-IsConsistent sh waiter waker v
  step-IsConsistent sh clears (h, l, r, c) = elim (Bool-cases sh.poisoned) [
    | inl p ↦ rw p (h, l, r, c)
    | inr p ↦ rw p (h, omega arith, emptied sh r, c)
  ]
  step-IsConsistent sh clones (h, l, r, c) = elim (Bool-cases sh.poisoned) [
    | inl p ↦ rw p (h, l, r, c)
    | inr p ↦ elim (Bool-cases (ltb (sh.state.sender_count + 1) (2 ^ 64))) [
      | inl f ↦ rw (p, f) (h, l, r, λ z. absurd (omega arith))
      | inr f ↦ rw (p, f) (h, l, r, c)
    ]
  ]
  step-IsConsistent sh drops_sender v = drop_sender-IsConsistent sh v
  step-IsConsistent sh (drops_next waiter) (h, l, r, c) =
      let (ws, o, q, i) = remove_waiter_lem sh.state waiter in rw q (h, l, fewer sh ws i r, c)
  step-IsConsistent sh drops_stream (h, l, r, c) = (h, l, inl refl, c)

  -- A stream that is consistent stays so through any calls of the two sides in any order, panics
  -- included: the buffer is within a capacity above 0, no future is registered beside an item or on
  -- a closed stream, and a stream without senders is closed.
  pub run-IsConsistent :
      (ops : List (Op A)) (sh : Shared A) → IsConsistent sh → IsConsistent (run sh ops).0
  unfolding run
  run-IsConsistent [] sh v = v
  run-IsConsistent (op ∷ ops) sh v = run-IsConsistent ops (step sh op).0 (step-IsConsistent sh op v)
