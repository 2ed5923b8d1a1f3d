-- ===== src/Stream/Polling.antt =====
-- src/stream.rs, `poll_next_item`: what a poll answers, and what it leaves.
use doom_fish_utils.Base.{
  ℕ, ◌≡◌, refl, sym, subst, ◌⊎◌, inl, inr, List, [], ◌∷◌, Option, none, some, true, false,
  Bool-cases, Outcome, returned,
}
use doom_fish_utils.Future.{ready, pending}
use doom_fish_utils.Stream.Registry.{find, register_waiter}
use doom_fish_utils.Stream.Waiters.{remove_waiter_lem, register_waiter_lem}
use doom_fish_utils.Stream.{Shared, nobody, one, Answer, poll_next_item, poll_buffer}

module _ {ℓ} {A : Type ℓ} where
  -- The three answers, by the state and the buffer that the poll meets.
  abbrev pub Takes : Shared A → Shared A × Outcome (Answer A) → Type ℓ
  Takes sh r =
      (x : A) × (xs : List A) × (ws : List (ℕ × ℕ)) × (sh.state.buffer ≡ x ∷ xs)
      × (r ≡ (
        record sh { state = record sh.state { buffer = xs; waiters = ws } },
        returned (record { poll = ready (some x); waiter = none; notice = one }),
      ))
      × (sh.state.waiters ≡ [] → ws ≡ [])

  abbrev pub Ends : Shared A → Shared A × Outcome (Answer A) → Type ℓ
  Ends sh r =
      (ws : List (ℕ × ℕ)) × (sh.state.buffer ≡ [])
      × (sh.state.closed ≡ true)
      × (r ≡ (
        record sh { state = record sh.state { waiters = ws } },
        returned (record { poll = ready none; waiter = none; notice = nobody }),
      ))
      × (sh.state.waiters ≡ [] → ws ≡ [])

  abbrev pub Waits : Shared A → ℕ → Shared A × Outcome (Answer A) → Type ℓ
  Waits sh waker r =
      (ws : List (ℕ × ℕ)) × (n : ℕ) × (id : ℕ) × (sh.state.buffer ≡ [])
      × (sh.state.closed ≡ false)
      × (r ≡ (
        record sh { state = record sh.state { waiters = ws; next_waiter = n } },
        returned (record { poll = pending; waiter = some id; notice = nobody }),
      ))
      × (find id ws ≡ some waker)

  poll_buffer_lem :
      (sh : Shared A) (b : List A) (waiter : Option ℕ) (waker : ℕ)
      → sh.state.buffer ≡ b
      → Takes sh (poll_buffer sh sh.state b waiter waker)
        ⊎ (Ends sh (poll_buffer sh sh.state b waiter waker)
            ⊎ Waits sh waker (poll_buffer sh sh.state b waiter waker))
  unfolding poll_buffer
  poll_buffer_lem sh (x ∷ xs) waiter waker e =
      let (ws, o, r, h) = remove_waiter_lem (record sh.state { buffer = xs }) waiter in
      inl (x, xs, ws, e, rw r refl, h)
  poll_buffer_lem sh [] waiter waker e = elim (Bool-cases sh.state.closed) [
    | inl c ↦
        let (ws, o, r, h) = remove_waiter_lem sh.state waiter in
        inr (inl (ws, e, c, rw (r, c) refl, h))
    | inr c ↦
        let (ws, n, r, h) = register_waiter_lem sh.state waiter waker in
        inr (inr (ws, n, (register_waiter sh.state waiter waker).1.0, e, c, rw (r, c) refl, h))
  ]

  -- On a stream that is not poisoned, a poll takes the oldest item and makes room known; with none,
  -- it ends a closed stream; and otherwise it waits, with its waker registered under the future's
  -- id.
  pub poll_next_item_lem :
      (sh : Shared A) (waiter : Option ℕ) (waker : ℕ)
      → sh.poisoned ≡ false
      → Takes sh (poll_next_item sh waiter waker)
        ⊎ (Ends sh (poll_next_item sh waiter waker)
            ⊎ Waits sh waker (poll_next_item sh waiter waker))
  unfolding poll_next_item
  poll_next_item_lem sh waiter waker p =
      let e : poll_next_item sh waiter waker
          ≡ poll_buffer sh sh.state sh.state.buffer waiter waker =
        rw p refl in
      let h : Takes sh (poll_buffer sh sh.state sh.state.buffer waiter waker)
          ⊎ (Ends sh (poll_buffer sh sh.state sh.state.buffer waiter waker)
              ⊎ Waits sh waker (poll_buffer sh sh.state sh.state.buffer waiter waker)) =
        poll_buffer_lem sh sh.state.buffer waiter waker refl in
      subst (λ r. Takes sh r ⊎ (Ends sh r ⊎ Waits sh waker r)) (sym e) h
