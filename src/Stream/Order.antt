-- ===== src/Stream/Order.antt =====
-- src/stream.rs: sections of the two sides in any order. The items that come in leave in that order,
-- whether they are read, overwritten or cleared.
use doom_fish_utils.Base.{
  ℕ, ◌+◌, ◌-◌, ◌%◌, ◌^◌, ltb, ◌≡◌, refl, sym, ap, ◌∙◌, List, [], ◌∷◌, ◌++◌, Option, none, some,
  true, not, ◌&&◌, ◌==◌, leb, length, take, drop, Bool-cases, inl, inr, append-nil, append_assoc,
  take-append-drop, Outcome, returned, panicked, undefined,
}
use doom_fish_utils.Future.{Poll, ready, pending}
use doom_fish_utils.Stream.Waiters.{remove_waiter_lem}
use doom_fish_utils.Stream.Polling.{poll_next_item_lem}
use doom_fish_utils.Stream.{
  Shared, Notice, Answer, Pushed, blocked, refused, stored, clone, try_next, clear_buffer,
  poll_next_item, drop_stream, push, push_or_block, drop_sender, drop_next,
}

pub data Op {ℓ} (A : Type ℓ) : Type ℓ where
  pushes : A → Op A
  tries_push : A → Op A
  takes : Op A
  polls : Option ℕ → ℕ → Op A
  clears : Op A
  clones : Op A
  drops_sender : Op A
  drops_next : Option ℕ → Op A
  drops_stream : Op A

module _ {ℓ} {A : Type ℓ} where
  -- What a call lets in and out, by its answer.
  abbrev pushed : A → Outcome (List ℕ × List A) → List A × List A
  pushed x (returned (_, overwritten)) = (x ∷ [], overwritten)
  pushed x (panicked _) = ([], [])
  pushed x undefined = ([], [])

  abbrev tried : A → Outcome (Pushed A) → List A × List A
  tried x (returned blocked) = ([], [])
  tried x (returned (refused _)) = ([], [])
  tried x (returned (stored _)) = (x ∷ [], [])
  tried x (panicked _) = ([], [])
  tried x undefined = ([], [])

  abbrev taken : Outcome (Option A × Notice) → List A × List A
  taken (returned (none, _)) = ([], [])
  taken (returned (some x, _)) = ([], x ∷ [])
  taken (panicked _) = ([], [])
  taken undefined = ([], [])

  abbrev polled : Poll (Option A) → List A × List A
  polled (ready none) = ([], [])
  polled (ready (some x)) = ([], x ∷ [])
  polled pending = ([], [])

  abbrev answered : Outcome (Answer A) → List A × List A
  answered (returned a) = polled a.poll
  answered (panicked _) = ([], [])
  answered undefined = ([], [])

  abbrev cleared : Outcome (List A × Notice) → List A × List A
  cleared (returned (xs, _)) = ([], xs)
  cleared (panicked _) = ([], [])
  cleared undefined = ([], [])

  unfoldable pub step : Shared A → Op A → Shared A × (List A × List A)
  step sh (pushes x) = ((push sh x).0, pushed x (push sh x).1)
  step sh (tries_push x) = ((push_or_block sh x).0, tried x (push_or_block sh x).1)
  step sh takes = ((try_next sh).0, taken (try_next sh).1)
  step sh (polls waiter waker) =
      ((poll_next_item sh waiter waker).0, answered (poll_next_item sh waiter waker).1)
  step sh clears = ((clear_buffer sh).0, cleared (clear_buffer sh).1)
  step sh clones = ((clone sh).0, ([], []))
  step sh drops_sender = ((drop_sender sh).0, ([], []))
  step sh (drops_next waiter) = (drop_next sh waiter, ([], []))
  step sh drops_stream = ((drop_stream sh).0, ([], []))

  unfoldable pub run : Shared A → List (Op A) → Shared A × (List A × List A)
  unfolding step
  run sh [] = (sh, ([], []))
  run sh (op ∷ ops) =
      let (sh', (gained, gone)) = step sh op in
      let (t, (all_gained, all_gone)) = run sh' ops in (t, (gained ++ all_gained, gone ++ all_gone))

  push-order :
      (sh : Shared A) (x : A)
      → sh.state.buffer ++ (pushed x (push sh x).1).0
        ≡ (pushed x (push sh x).1).1 ++ (push sh x).0.state.buffer
  unfolding push
  push-order sh x = elim (Bool-cases sh.poisoned) [
    | inl p ↦ rw p (append-nil sh.state.buffer)
    | inr p ↦ elim (Bool-cases (leb sh.capacity (length sh.state.buffer))) [
      | inl f ↦
          rw (p, f)
            (ap (λ b. b ++ x ∷ []) (sym (take-append-drop 1 sh.state.buffer))
              ∙ append_assoc (take 1 sh.state.buffer) (drop 1 sh.state.buffer) (x ∷ []))
      | inr f ↦ rw (p, f) refl
    ]
  ]

  push_or_block-order :
      (sh : Shared A) (x : A)
      → sh.state.buffer ++ (tried x (push_or_block sh x).1).0
        ≡ (tried x (push_or_block sh x).1).1 ++ (push_or_block sh x).0.state.buffer
  unfolding push_or_block
  push_or_block-order sh x = elim (Bool-cases sh.poisoned) [
    | inl p ↦ rw p (append-nil sh.state.buffer)
    | inr p ↦
        elim (Bool-cases (not sh.state.consumer_gone && leb sh.capacity (length sh.state.buffer))) [
          | inl f ↦ rw (p, f) (append-nil sh.state.buffer)
          | inr f ↦ elim (Bool-cases sh.state.consumer_gone) [
            | inl g ↦ rw (p, f, g) (append-nil sh.state.buffer)
            | inr g ↦ rw (p, f, g) refl
          ]
        ]
  ]

  try_next-order :
      (sh : Shared A) (b : List A)
      → sh.state.buffer ≡ b
      → b ++ (taken (try_next sh).1).0 ≡ (taken (try_next sh).1).1 ++ (try_next sh).0.state.buffer
  unfolding try_next
  try_next-order sh [] e = elim (Bool-cases sh.poisoned) [
    | inl p ↦ rw p (sym e)
    | inr p ↦ rw (p, e) refl
  ]
  try_next-order sh (x ∷ xs) e = elim (Bool-cases sh.poisoned) [
    | inl p ↦ rw p (append-nil (x ∷ xs) ∙ sym e)
    | inr p ↦ rw (p, e) (append-nil (x ∷ xs))
  ]

  pub poll_poisoned :
      (sh : Shared A) (waiter : Option ℕ) (waker : ℕ)
      → sh.poisoned ≡ true
      → poll_next_item sh waiter waker ≡ (sh, panicked "BoundedAsyncStream state mutex poisoned")
  unfolding poll_next_item
  poll_poisoned sh waiter waker p = rw p refl

  poll-order :
      (sh : Shared A) (waiter : Option ℕ) (waker : ℕ)
      → sh.state.buffer ++ (answered (poll_next_item sh waiter waker).1).0
        ≡ (answered (poll_next_item sh waiter waker).1).1
          ++ (poll_next_item sh waiter waker).0.state.buffer
  poll-order sh waiter waker = elim (Bool-cases sh.poisoned) [
    | inl p ↦
        let e : poll_next_item sh waiter waker
            ≡ (sh, panicked "BoundedAsyncStream state mutex poisoned") =
          poll_poisoned sh waiter waker p in
        rw e (append-nil sh.state.buffer)
    | inr p ↦ elim (poll_next_item_lem sh waiter waker p) [
      | inl (x, xs, ws, e, r, _) ↦ rw (r, e) (append-nil (x ∷ xs))
      | inr (inl (ws, e, c, r, _)) ↦ rw r (append-nil sh.state.buffer)
      | inr (inr (ws, n, id, e, c, r, _)) ↦ rw r (append-nil sh.state.buffer)
    ]
  ]

  drop_sender-order : (sh : Shared A) → sh.state.buffer ++ [] ≡ (drop_sender sh).0.state.buffer
  unfolding drop_sender
  drop_sender-order sh = elim (Bool-cases ((sh.state.sender_count + (2 ^ 64 - 1)) % 2 ^ 64 == 0)) [
    | inl e ↦ rw e (append-nil sh.state.buffer)
    | inr e ↦ rw e (append-nil sh.state.buffer)
  ]

  step_lem :
      (sh : Shared A) (op : Op A)
      → sh.state.buffer ++ (step sh op).1.0 ≡ (step sh op).1.1 ++ (step sh op).0.state.buffer
  unfolding step clear_buffer clone drop_stream drop_next
  step_lem sh (pushes x) = push-order sh x
  step_lem sh (tries_push x) = push_or_block-order sh x
  step_lem sh takes = try_next-order sh sh.state.buffer refl
  step_lem sh (polls waiter waker) = poll-order sh waiter waker
  step_lem sh clears = elim (Bool-cases sh.poisoned) [
    | inl p ↦ rw p (append-nil sh.state.buffer)
    | inr p ↦ rw p refl
  ]
  step_lem sh clones = elim (Bool-cases sh.poisoned) [
    | inl p ↦ rw p (append-nil sh.state.buffer)
    | inr p ↦ elim (Bool-cases (ltb (sh.state.sender_count + 1) (2 ^ 64))) [
      | inl f ↦ rw (p, f) (append-nil sh.state.buffer)
      | inr f ↦ rw (p, f) (append-nil sh.state.buffer)
    ]
  ]
  step_lem sh drops_sender = drop_sender-order sh
  step_lem sh (drops_next waiter) =
      let (ws, o, r, _) = remove_waiter_lem sh.state waiter in rw r (append-nil sh.state.buffer)
  step_lem sh drops_stream = append-nil sh.state.buffer

  -- Over any calls in any order, the items that were buffered before and those that came in since are,
  -- in this order, those that were read, overwritten or cleared since and those that are buffered now.
  pub run-order :
      (ops : List (Op A)) (sh : Shared A)
      → sh.state.buffer ++ (run sh ops).1.0 ≡ (run sh ops).1.1 ++ (run sh ops).0.state.buffer
  unfolding run
  run-order [] sh = append-nil sh.state.buffer
  run-order (op ∷ ops) sh =
      let t : Shared A = (step sh op).0 in
      sym (append_assoc sh.state.buffer (step sh op).1.0 (run t ops).1.0)
      ∙ ap (λ q. q ++ (run t ops).1.0) (step_lem sh op)
      ∙ append_assoc (step sh op).1.1 t.state.buffer (run t ops).1.0
      ∙ ap (λ q. (step sh op).1.1 ++ q) (run-order ops t)
      ∙ sym (append_assoc (step sh op).1.1 (run t ops).1.1 (run t ops).0.state.buffer)
