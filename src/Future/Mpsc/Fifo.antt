-- ===== src/Future/Mpsc/Fifo.antt =====
-- src/future/mpsc.rs: critical sections in any order, as one queue from the senders to the receiver.
use doom_fish_utils.Base.{
  ◌≤◌, ◌≡◌, refl, sym, ap, subst, ◌∙◌, List, [], ◌∷◌, ◌++◌, ◌&&◌, ltb, leb, length, arith,
  length-append, append-nil, append_assoc, Bool-cases, inl, inr, Result, ok, err, dec_le,
  not_le→leb, le→leb,
}
use doom_fish_utils.Future.Mpsc.{
  State, TrySendError, TryRecvError, send, try_recv, close, clone, drop_sender, drop_receiver,
  try_recv_cases,
}

pub data Op {ℓ} (A : Type ℓ) : Type ℓ where
  sends : A → Op A
  receives : Op A
  closes : Op A
  clones : Op A
  drops_sender : Op A
  drops_receiver : Op A

module _ {ℓ} {A : Type ℓ} where
  -- What got in, and what was received or dropped.
  abbrev accepted : A → Result (Unit {0}) (TrySendError A) → List A
  accepted value (ok _) = value ∷ []
  accepted value (err _) = []

  abbrev received : Result A TryRecvError → List A
  received (ok value) = value ∷ []
  received (err _) = []

  unfoldable pub step : State A → Op A → State A × (List A × List A)
  step s (sends value) = ((send s value).0, (accepted value (send s value).1, []))
  step s receives = ((try_recv s).0, ([], received (try_recv s).1))
  step s closes = (close s, ([], []))
  step s clones = (clone s, ([], []))
  step s drops_sender = ((drop_sender s).0, ([], []))
  step s drops_receiver = ((drop_receiver s).0, ([], (drop_receiver s).1))

  unfoldable pub run : State A → List (Op A) → State A × (List A × List A)
  unfolding step
  run s [] = (s, ([], []))
  run s (op ∷ ops) =
      let (s', (gained, gone)) = step s op in
      let (t, (all_gained, all_gone)) = run s' ops in (t, (gained ++ all_gained, gone ++ all_gone))

  step_lem :
      (s : State A) (op : Op A)
      → s.queue ++ (step s op).1.0 ≡ (step s op).1.1 ++ (step s op).0.queue
  unfolding step send close clone drop_sender drop_receiver
  step_lem s (sends value) = elim (Bool-cases s.is_open) [
    | inr e ↦ rw e (append-nil s.queue)
    | inl e ↦ elim (Bool-cases (leb s.capacity (length s.queue))) [
      | inl f ↦ rw (e, f) (append-nil s.queue)
      | inr f ↦ rw (e, f) refl
    ]
  ]
  step_lem s receives = elim (try_recv_cases s) [
    | inl (q, e) ↦ rw e (elim (Bool-cases (s.is_open && ltb 0 s.senders)) [
      | inl f ↦ rw f (append-nil s.queue)
      | inr f ↦ rw f (append-nil s.queue)
    ])
    | inr (x, xs, q, e) ↦ rw (e, q) (append-nil (x ∷ xs))
  ]
  step_lem s closes = append-nil s.queue
  step_lem s clones = append-nil s.queue
  step_lem s drops_sender = append-nil s.queue
  step_lem s drops_receiver = refl

  -- Over any calls in any order, the values that waited before and those that got in since are, in
  -- this order, those that were received or dropped since and those that wait now.
  pub run-fifo :
      (ops : List (Op A)) (s : State A)
      → s.queue ++ (run s ops).1.0 ≡ (run s ops).1.1 ++ (run s ops).0.queue
  unfolding run
  run-fifo [] s = append-nil s.queue
  run-fifo (op ∷ ops) s =
      let s' : State A = (step s op).0 in
      sym (append_assoc s.queue (step s op).1.0 (run s' ops).1.0)
      ∙ ap (λ q. q ++ (run s' ops).1.0) (step_lem s op)
      ∙ append_assoc (step s op).1.1 s'.queue (run s' ops).1.0
      ∙ ap (λ q. (step s op).1.1 ++ q) (run-fifo ops s')
      ∙ sym (append_assoc (step s op).1.1 (run s' ops).1.1 (run s' ops).0.queue)

  step-capacity : (s : State A) (op : Op A) → (step s op).0.capacity ≡ s.capacity
  unfolding step send close clone drop_sender drop_receiver
  step-capacity s (sends value) = elim (Bool-cases s.is_open) [
    | inr e ↦ rw e refl
    | inl e ↦ elim (Bool-cases (leb s.capacity (length s.queue))) [
      | inl f ↦ rw (e, f) refl
      | inr f ↦ rw (e, f) refl
    ]
  ]
  step-capacity s receives = elim (try_recv_cases s) [
    | inl (q, e) ↦ rw e refl
    | inr (x, xs, q, e) ↦ rw e refl
  ]
  step-capacity s closes = refl
  step-capacity s clones = refl
  step-capacity s drops_sender = refl
  step-capacity s drops_receiver = refl

  step-bound :
      (s : State A) (op : Op A)
      → length s.queue ≤ s.capacity
      → length (step s op).0.queue ≤ s.capacity
  unfolding step send close clone drop_sender drop_receiver
  step-bound s (sends value) h = elim (Bool-cases s.is_open) [
    | inr e ↦ rw e h
    | inl e ↦ elim (dec_le s.capacity (length s.queue)) [
      | Dec.yes f ↦ rw (e, le→leb s.capacity (length s.queue) f) h
      | Dec.no f ↦
          rw (e, not_le→leb s.capacity (length s.queue) f, length-append s.queue (value ∷ []))
            (omega arith)
    ]
  ]
  step-bound s receives h = elim (try_recv_cases s) [
    | inl (q, e) ↦ rw e h
    | inr (x, xs, q, e) ↦
        let h' : length (x ∷ xs) ≤ s.capacity = subst (λ l. length l ≤ s.capacity) q h in
        rw e (omega arith)
  ]
  step-bound s closes h = h
  step-bound s clones h = h
  step-bound s drops_sender h = h
  step-bound s drops_receiver h = omega arith

  -- A channel that holds no more than its capacity still does after any calls, and its capacity is
  -- the same.
  pub run-capacity :
      (ops : List (Op A)) (s : State A)
      → length s.queue ≤ s.capacity
      → ((run s ops).0.capacity ≡ s.capacity) × (length (run s ops).0.queue ≤ s.capacity)
  unfolding run
  run-capacity [] s h = (refl, h)
  run-capacity (op ∷ ops) s h =
      let c : (step s op).0.capacity ≡ s.capacity = step-capacity s op in
      let (c', h') =
        run-capacity ops (step s op).0
          (subst (λ n. length (step s op).0.queue ≤ n) (sym c) (step-bound s op h)) in
      (c' ∙ c, subst (λ n. length (run (step s op).0 ops).0.queue ≤ n) c h')
