-- ===== src/Future/Mpsc/Polling.antt =====
-- src/future/mpsc.rs, `poll_recv`.
use doom_fish_utils.Base.{
  ℕ, ◌≡◌, refl, ◌⊎◌, inl, inr, List, [], ◌∷◌, none, some, true, false, ◌&&◌, ltb, Bool-cases,
}
use doom_fish_utils.Future.{ready, pending}
use doom_fish_utils.Future.Waker.{AtomicWaker}
use doom_fish_utils.Future.Mpsc.{Channel, try_recv_cases, poll_recv}

module _ {ℓ} {A : Type ℓ} (W : AtomicWaker) where
  -- A poll of the receiver takes the oldest value; with none, it waits with its waker registered if the
  -- channel is open and has a sender, and otherwise ends the stream and leaves the channel as it was.
  pub poll_recv_lem :
      (ch : Channel A W) (waker : ℕ)
      → ((x : A) × (xs : List A) × (ch.state.queue ≡ x ∷ xs)
          × (poll_recv W ch waker
              ≡ (record ch { state = record ch.state { queue = xs } }, ready (some x))))
        ⊎ ((ch.state.queue ≡ [])
            × (((ch.state.is_open && ltb 0 ch.state.senders ≡ true)
                  × (poll_recv W ch waker ≡ (
                    record ch { receiver_waker = W.register ch.receiver_waker waker },
                    pending,
                  )))
                ⊎ ((ch.state.is_open && ltb 0 ch.state.senders ≡ false)
                    × (poll_recv W ch waker ≡ (ch, ready none)))))
  unfolding poll_recv
  poll_recv_lem ch waker = elim (try_recv_cases ch.state) [
    | inr (x, xs, q, e) ↦ inl (x, xs, q, rw e refl)
    | inl (q, e) ↦ inr (
      q,
      elim (Bool-cases (ch.state.is_open && ltb 0 ch.state.senders)) [
        | inl f ↦ inl (f, rw (e, f, e, f) refl)
        | inr f ↦ inr (f, rw (e, f) refl)
      ],
    )
  ]
