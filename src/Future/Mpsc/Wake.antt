-- ===== src/Future/Mpsc/Wake.antt =====
-- src/future/mpsc.rs: a receiver that waits is woken, in every order of the threads' sections.
use doom_fish_utils.Base.{
  ℕ, suc, ◌+◌, ◌-◌, ◌%◌, ◌^◌, ◌<◌, ◌≡◌, refl, subst, ◌⊎◌, inl, inr, List, [], ◌∷◌, Bool, true,
  false, ◌&&◌, ◌||◌, ltb, leb, length, arith, Bool-cases, lt→ltb, eq→==,
}
use doom_fish_utils.Future.Waker.{AtomicWaker}
use doom_fish_utils.Future.Mpsc.{
  State, new, channel, send, try_recv, try_recv_cases, close, clone, drop_sender,
}
use doom_fish_utils.Future.Mpsc.World.{
  parked, World, is_pending, is_ok, is_waker, start, Step, sends, clones, drops_sender, wakes,
  polls, registers, looks_again, closes, Reach, here, next, IsArmed, IsAwake,
}

module _ {ℓ} {A : Type ℓ} where
  abbrev null : List A → Bool
  null [] = true
  null (x ∷ xs) = false

  pending-eq :
      (s : State A) → is_pending (try_recv s).1 ≡ (null s.queue && (s.is_open && ltb 0 s.senders))
  pending-eq s = elim (try_recv_cases s) [
    | inl (q, e) ↦
        rw (e, q)
          (elim (Bool-cases (s.is_open && ltb 0 s.senders)) [
            | inl f ↦ rw f refl
            | inr f ↦ rw f refl
          ])
    | inr (x, xs, q, e) ↦ rw (e, q) refl
  ]

  -- A look that finds nothing changes nothing.
  unchanged : (s : State A) → is_pending (try_recv s).1 ≡ true → (try_recv s).0 ≡ s
  unchanged s h = elim (try_recv_cases s) [
    | inl (q, e) ↦ rw e refl
    | inr (x, xs, q, e) ↦ let c : false ≡ true = subst (λ r. is_pending r.1 ≡ true) e h in cc (c)
  ]

  try_recv-senders : (s : State A) → (try_recv s).0.senders ≡ s.senders
  try_recv-senders s = elim (try_recv_cases s) [
    | inl (q, e) ↦ rw e refl
    | inr (x, xs, q, e) ↦ rw e refl
  ]

  -- A refused value leaves the state as it was.
  send_cases :
      (s : State A) (value : A)
      → ((send s value).0.senders ≡ s.senders)
        × ((is_ok (send s value).1 ≡ true)
            ⊎ ((is_ok (send s value).1 ≡ false) × ((send s value).0 ≡ s)))
  unfolding send
  send_cases s value = elim (Bool-cases s.is_open) [
    | inr e ↦ rw e (refl, inr (refl, refl))
    | inl e ↦ elim (Bool-cases (leb s.capacity (length s.queue))) [
      | inl f ↦ rw (e, f) (refl, inr (refl, refl))
      | inr f ↦ rw (e, f) (refl, inl refl)
    ]
  ]

  -- Another sender leaves the receiver's answer as it was.
  clone-pending :
      (s : State A)
      → 0 < s.senders
      → s.senders + 1 < 2 ^ 64
      → is_pending (try_recv (clone s)).1 ≡ is_pending (try_recv s).1
  unfolding clone
  clone-pending s h g =
      let e : (s.senders + 1) % 2 ^ 64 ≡ s.senders + 1 = omega arith in
      rw
        (
          pending-eq (clone s),
          pending-eq s,
          e,
          lt→ltb 0 (s.senders + 1) (omega arith),
          lt→ltb 0 s.senders h,
        )
        refl

  -- So does one that goes, unless it is the last.
  drop_sender-pending :
      (s : State A)
      → 0 < s.senders
      → s.senders < 2 ^ 64
      → (drop_sender s).1 ≡ false
      → is_pending (try_recv (drop_sender s).0).1 ≡ is_pending (try_recv s).1
  unfolding drop_sender
  drop_sender-pending s h g f =
      let e : (s.senders + 18446744073709551615) % 18446744073709551616 ≡ s.senders - 1 =
        omega arith in
      let n : ltb 0 ((s.senders + 18446744073709551615) % 18446744073709551616) ≡ true =
        ground arith in
      rw (pending-eq (drop_sender s).0, pending-eq s, n, lt→ltb 0 s.senders h) refl

  clone-senders : (s : State A) → s.senders + 1 < 2 ^ 64 → (clone s).senders ≡ s.senders + 1
  unfolding clone
  clone-senders s h = omega arith

  drop_sender-counted : (s : State A) → (drop_sender s).0.senders < 2 ^ 64
  unfolding drop_sender
  drop_sender-counted s = omega arith

  close-counted : (s : State A) → s.senders < 2 ^ 64 → (close s).senders < 2 ^ 64
  unfolding close
  close-counted s h = h

  -- An armed receiver has been woken once the waker is taken and called.
  wake-woken :
      (W : AtomicWaker) (w : World A W)
      → IsArmed W w
      → (w.woken || is_waker (W.take w.cell).1 w.waker) ≡ true
  wake-woken W w (inr e) = rw e refl
  wake-woken W w (inl e) =
      rw (W.take_held w.cell, e, eq→== w.waker w.waker refl)
        (elim (Bool-cases w.woken) [ inl f ↦ rw f refl | inr f ↦ rw f refl ])

module _ {ℓ} {A : Type ℓ} (W : AtomicWaker) where
  start-IsAwake : (buffer : ℕ) → IsAwake {A = A} W (start W buffer)
  unfolding start channel new
  start-IsAwake buffer = record {
    counted = omega arith;
    registered_armed = λ e. cc (e);
    parked_armed = λ e. cc (e);
    parked_owed = λ e. cc (e);
  }

  Step-IsAwake : {w v : World A W} → Step W w v → IsAwake W w → IsAwake W v
  Step-IsAwake (sends w value) h =
      let (e, c) = send_cases w.state value in
      record {
        counted = rw e h.counted;
        registered_armed = h.registered_armed;
        parked_armed = h.parked_armed;
        parked_owed = λ p. elim c [
          | inl o ↦ λ _. rw o (inl (omega arith))
          | inr (o, u) ↦ rw (o, u) (h.parked_owed p)
        ];
      }
  Step-IsAwake (clones w f g) h =
      let e : (clone w.state).senders ≡ w.state.senders + 1 = clone-senders w.state g in
      record {
        counted = rw e g;
        registered_armed = h.registered_armed;
        parked_armed = h.parked_armed;
        parked_owed = λ p. rw (clone-pending w.state f g) (h.parked_owed p);
      }
  Step-IsAwake (drops_sender w f) h = record {
    counted = drop_sender-counted w.state;
    registered_armed = h.registered_armed;
    parked_armed = h.parked_armed;
    parked_owed = λ p. elim (Bool-cases (drop_sender w.state).1) [
      | inl o ↦ λ _. rw o (inl (omega arith))
      | inr o ↦ rw (o, drop_sender-pending w.state f h.counted o) (h.parked_owed p)
    ];
  }
  Step-IsAwake (wakes w n e) h = record {
    counted = h.counted;
    registered_armed = λ p. inr (wake-woken W w (h.registered_armed p));
    parked_armed = λ p. inr (wake-woken W w (h.parked_armed p));
    parked_owed = λ p _. inr (wake-woken W w (h.parked_armed p));
  }
  Step-IsAwake (polls w waker e) h = elim (Bool-cases (is_pending (try_recv w.state).1)) [
    | inl f ↦ rw f (record {
      counted = rw (try_recv-senders w.state) h.counted;
      registered_armed = λ e. cc (e);
      parked_armed = λ e. cc (e);
      parked_owed = λ e. cc (e);
    })
    | inr f ↦ rw f (record {
      counted = rw (try_recv-senders w.state) h.counted;
      registered_armed = λ e. cc (e);
      parked_armed = λ e. cc (e);
      parked_owed = λ e. cc (e);
    })
  ]
  Step-IsAwake (registers w e) h = record {
    counted = h.counted;
    registered_armed = λ _. inl (W.held-register w.cell w.waker);
    parked_armed = λ e. cc (e);
    parked_owed = λ e. cc (e);
  }
  Step-IsAwake (looks_again w e) h = elim (Bool-cases (is_pending (try_recv w.state).1)) [
    | inl f ↦
        rw (f, unchanged w.state f)
          (record {
            counted = h.counted;
            registered_armed = λ e. cc (e);
            parked_armed = λ _. h.registered_armed e;
            parked_owed = λ _ g. cc (f, g);
          })
    | inr f ↦ rw f (record {
      counted = rw (try_recv-senders w.state) h.counted;
      registered_armed = λ e. cc (e);
      parked_armed = λ e. cc (e);
      parked_owed = λ e. cc (e);
    })
  ]
  Step-IsAwake (closes w e) h = record {
    counted = close-counted w.state h.counted;
    registered_armed = λ e. cc (e);
    parked_armed = λ e. cc (e);
    parked_owed = λ e. cc (e);
  }

  Reach-IsAwake : {w v : World A W} → Reach W w v → IsAwake W w → IsAwake W v
  Reach-IsAwake here h = h
  Reach-IsAwake (next r st) h = Step-IsAwake st (Reach-IsAwake r h)

  -- From a new channel on, in whatever order the senders' and the receiver's sections run, a
  -- receiver that waits although a value is there or the channel is closed has been woken, or a
  -- sender is about to wake it and does so by one step.
  pub no_lost_wake :
      (buffer : ℕ) (w : World A W)
      → Reach W (start W buffer) w
      → w.phase ≡ parked
      → is_pending (try_recv w.state).1 ≡ false
      → (w.woken ≡ true) ⊎ ((v : World A W) × Step W w v × (v.woken ≡ true))
  no_lost_wake buffer w r p f =
      let h : IsAwake W w = Reach-IsAwake r (start-IsAwake buffer) in
      elim (h.parked_owed p f) [
        | inl o ↦
            let e : w.owed ≡ suc (w.owed - 1) = omega arith in
            inr (_, wakes w (w.owed - 1) e, wake-woken W w (h.parked_armed p))
        | inr e ↦ inl e
      ]
