-- ===== src/Future/Oneshot/Wake.antt =====
-- src/future/oneshot.rs: a receiver that waits is woken, in every order of the two sides' sections.
use doom_fish_utils.Base.{◌≡◌, ◌≢◌, refl, ◌⊎◌, inl, inr, some, true, false, ◌||◌, Bool-cases, eq→==}
use doom_fish_utils.Future.Waker.{AtomicWaker}
use doom_fish_utils.Future.Oneshot.{take}
use doom_fish_utils.Future.Oneshot.World.{
  parked, registered, leaving, owing, World, is_pending, is_waker, take_cases, start, Step, sends,
  drops_sender, wakes, polls, registers, looks_again, drops_receiver, Reach, here, next,
}

module _ {ℓ} {A : Type ℓ} (W : AtomicWaker) where
  -- The waker is there to be called, or was called.
  abbrev IsArmed : World A W → Type 0
  IsArmed w = (W.held w.cell ≡ some w.waker) ⊎ (w.woken ≡ true)

  -- The sender is about to wake, or has woken.
  abbrev IsOwed : World A W → Type 0
  IsOwed w = (w.sender ≡ leaving) ⊎ (w.sender ≡ owing) ⊎ (w.woken ≡ true)

  record IsAwake (w : World A W) : Type 0 where
    registered_armed : w.phase ≡ registered → IsArmed w
    parked_armed : w.phase ≡ parked → IsArmed w
    parked_owed : w.phase ≡ parked → is_pending (take w.state).1 ≡ false → IsOwed w

  wake-woken : (w : World A W) → IsArmed w → (w.woken || is_waker (W.take w.cell).1 w.waker) ≡ true
  wake-woken w (inr e) = rw e refl
  wake-woken w (inl e) =
      rw (W.take_held w.cell, e, eq→== w.waker w.waker refl)
        (elim (Bool-cases w.woken) [ inl f ↦ rw f refl | inr f ↦ rw f refl ])

  -- A receiver that does not wait needs no wake.
  away : (w : World A W) → w.phase ≢ registered → w.phase ≢ parked → IsAwake w
  away w f g = record {
    registered_armed = λ e. absurd (f e);
    parked_armed = λ e. absurd (g e);
    parked_owed = λ e. absurd (g e);
  }

  Step-IsAwake : {w v : World A W} → Step W w v → IsAwake w → IsAwake v
  Step-IsAwake (sends w value e) h = record {
    registered_armed = h.registered_armed;
    parked_armed = h.parked_armed;
    parked_owed = λ _ _. inl refl;
  }
  Step-IsAwake (drops_sender w e) h = record {
    registered_armed = h.registered_armed;
    parked_armed = h.parked_armed;
    parked_owed = λ _ _. inr (inl refl);
  }
  Step-IsAwake (wakes w e) h = record {
    registered_armed = λ p. inr (wake-woken w (h.registered_armed p));
    parked_armed = λ p. inr (wake-woken w (h.parked_armed p));
    parked_owed = λ p _. inr (inr (wake-woken w (h.parked_armed p)));
  }
  Step-IsAwake (polls w waker e) h = elim (take_cases w.state) [
    | inl (v, _, f) ↦ rw f (away _ (λ p. cc (p)) (λ p. cc (p)))
    | inr (inl (_, _, f)) ↦ rw f (away _ (λ p. cc (p)) (λ p. cc (p)))
    | inr (inr (_, _, f)) ↦ rw f (away _ (λ p. cc (p)) (λ p. cc (p)))
  ]
  Step-IsAwake (registers w e) h = record {
    registered_armed = λ _. inl (W.held-register w.cell w.waker);
    parked_armed = λ p. cc (p);
    parked_owed = λ p. cc (p);
  }
  Step-IsAwake (looks_again w e) h = elim (take_cases w.state) [
    | inl (v, _, f) ↦ rw f (away _ (λ p. cc (p)) (λ p. cc (p)))
    | inr (inl (_, _, f)) ↦ rw f (away _ (λ p. cc (p)) (λ p. cc (p)))
    | inr (inr (_, _, f)) ↦ rw f (record {
      registered_armed = λ p. cc (p);
      parked_armed = λ _. h.registered_armed e;
      parked_owed = λ _ g. cc (f, g);
    })
  ]
  Step-IsAwake (drops_receiver w e) h = away _ (λ p. cc (p)) (λ p. cc (p))

  Reach-IsAwake : {w : World A W} → Reach W (start W) w → IsAwake w
  unfolding start
  Reach-IsAwake here = away _ (λ p. cc (p)) (λ p. cc (p))
  Reach-IsAwake (next r st) = Step-IsAwake st (Reach-IsAwake r)

  -- From a new channel on, in whatever order the sections of the two sides run, a receiver that waits
  -- although a value is there or the sender is gone has been woken, or the sender is behind its `send`
  -- or its drop, and then wakes the receiver by the one or two sections that it has left.
  pub waiting_is_woken :
      (w : World A W)
      → Reach W (start W) w
      → w.phase ≡ parked
      → is_pending (take w.state).1 ≡ false
      → (w.woken ≡ true)
        ⊎ ((v : World A W) × Step W w v × (v.woken ≡ true))
        ⊎ ((v u : World A W) × Step W w v × Step W v u × (u.woken ≡ true))
  waiting_is_woken w r p f =
      let h : IsAwake w = Reach-IsAwake r in
      elim (h.parked_owed p f) [
        | inl e ↦
            inr (inr (_, _, drops_sender w (inr e), wakes _ refl, wake-woken w (h.parked_armed p)))
        | inr (inl e) ↦ inr (inl (_, wakes w e, wake-woken w (h.parked_armed p)))
        | inr (inr e) ↦ inl e
      ]
