-- ===== src/Completion/Waiting.antt =====
-- src/completion.rs: the loops of `wait` and `wait_timeout`. While the thread sleeps on the condition
-- variable, round by round, the others change what the mutex guards; it may wake for no reason.
use doom_fish_utils.Base.{
  ℕ, zero, suc, ap, ◌⊎◌, if◌then◌else◌, ◌+◌, ◌-◌, ◌<◌, ◌≤◌, ◌≡◌, refl, inl, inr, Bool, false, ltb,
  ltb→lt, Option, none, some, arith, Bool-cases, Option-cases,
}
use doom_fish_utils.Completion.{Inner, SyncState, Answer, drop_arc, take_result}

-- A call that has returned, with what is left of the allocation, or one that still sleeps after the
-- rounds that it was given.
pub data Waited {ℓ κ} (T : Type ℓ) (B : Type κ) : Type (ℓ ⊔ κ) where
  ended : B → Inner (SyncState T) → Waited T B
  sleeps : Waited T B

module _ {ℓ} {T : Type ℓ} (others : ℕ → Inner (SyncState T) → Inner (SyncState T)) where
  abbrev settled :
      Option (Answer T) → Inner (SyncState T) → Waited T (Answer T) → Waited T (Answer T)
  settled (some r) a rest = ended r (drop_arc a).1
  settled none a rest = rest

  unfoldable wait_loop : ℕ → ℕ → Inner (SyncState T) → Waited T (Answer T)
  wait_loop zero k a = sleeps
  wait_loop (suc n) k a =
      let rest = wait_loop n (suc k) (others k (take_result a).1) in
      settled (take_result a).0 (take_result a).1 rest

  unfoldable pub wait : ℕ → Inner (SyncState T) → Waited T (Answer T)
  unfolding wait_loop
  wait rounds a = wait_loop rounds 0 a

  -- `clock round now remaining` is what `start.elapsed()` says after a wait on the condition variable
  -- with the time `remaining`, which began at `now`.
  module _ (clock : ℕ → ℕ → ℕ → ℕ) (timeout : ℕ) where
    -- `checked_sub` finds no time left, or the wait is given what is left.
    abbrev timed :
        Option (Answer T)
        → (now : ℕ) → Inner (SyncState T)
        → (ℕ → Waited T (Option (Answer T)))
        → Waited T (Option (Answer T))
    timed (some r) now a rest = ended (some r) (drop_arc a).1
    timed none now a rest =
        if ltb timeout now then ended none (drop_arc a).1 else rest (timeout - now)

    unfoldable pub timeout_loop : ℕ → ℕ → ℕ → Inner (SyncState T) → Waited T (Option (Answer T))
    timeout_loop zero k now a = sleeps
    timeout_loop (suc n) k now a =
        timed (take_result a).0 now (take_result a).1
          (λ remaining. timeout_loop n (suc k) (clock k now remaining) (others k (take_result a).1))

    -- `now` is what the clock says when the answer is first looked for.
    unfoldable pub wait_timeout : ℕ → ℕ → Inner (SyncState T) → Waited T (Option (Answer T))
    unfolding timeout_loop
    wait_timeout rounds now a = timeout_loop rounds 0 now a

    -- What the call should do from a round on, with nothing said of how often it sleeps: an answer that
    -- is there is returned, late or not; without one the call sleeps as long as the time has not passed,
    -- and never for longer than what is left of it.
    pub data Ends
        : ℕ → ℕ → Inner (SyncState T) → Option (Answer T) → Inner (SyncState T) → Type ℓ where
      answers :
          (k now : ℕ) (a : Inner (SyncState T)) (r : Answer T)
          → a.state.result ≡ some r
          → Ends k now a (some r) (drop_arc (take_result a).1).1
      times_out :
          (k now : ℕ) (a : Inner (SyncState T))
          → a.state.result ≡ none
          → timeout < now
          → Ends k now a none (drop_arc (take_result a).1).1
      waits :
          (k now remaining : ℕ) (a b : Inner (SyncState T)) (o : Option (Answer T))
          → a.state.result ≡ none
          → now + remaining ≡ timeout
          → Ends (suc k) (clock k now remaining) (others k (take_result a).1) o b
          → Ends k now a o b

    module _ (early : ℕ → Bool) where
      -- The waits among the first `k` that ended before their time.
      abbrev pub early_waits : ℕ → ℕ
      early_waits zero = 0
      early_waits (suc k) = if early k then suc (early_waits k) else early_waits k

      abbrev Lasts : Type 0
      Lasts = (k now remaining : ℕ) → early k ≡ false → now + remaining < clock k now remaining

      -- All waits so far were short, or the time has passed.
      abbrev Progress : ℕ → ℕ → ℕ → ℕ → Type 0
      Progress most n k now =
          ((timeout < now) × (0 < n)) ⊎ ((early_waits k ≡ k) × (most + 2 ≤ n + k))

      progress :
          (most n k now remaining : ℕ)
          → ((j : ℕ) → early_waits j ≤ most)
          → Lasts
          → now + remaining ≡ timeout
          → Progress most (suc n) k now
          → Progress most n (suc k) (clock k now remaining)
      progress most n k now remaining b l e (inl (g, _)) = absurd (omega arith)
      progress most n k now remaining b l e (inr (c, g)) = elim (Bool-cases (early k)) [
        | inl f ↦ inr (rw f (ap suc c), omega arith)
        | inr f ↦
            let s : now + remaining < clock k now remaining = l k now remaining f in
            let m : early_waits k ≤ most = b k in inl (omega arith, omega arith)
      ]

      loop_lem :
          (most : ℕ)
          → ((j : ℕ) → early_waits j ≤ most)
          → Lasts
          → (n k now : ℕ) (a : Inner (SyncState T)) → Progress most n k now
          → (o : Option (Answer T)) × (b : Inner (SyncState T)) × (timeout_loop n k now a
              ≡ ended o b)
            × Ends k now a o b
      unfolding timeout_loop take_result
      loop_lem most b l zero k now a (inl (g, z)) = absurd (omega arith)
      loop_lem most b l zero k now a (inr (c, g)) =
          let m : early_waits k ≤ most = b k in absurd (omega arith)
      loop_lem most b l (suc n) k now a p = elim (Option-cases a.state.result) [
        | inr (r, q) ↦ (some r, (drop_arc (take_result a).1).1, rw q refl, answers k now a r q)
        | inl q ↦ elim (Bool-cases (ltb timeout now)) [
          | inl t ↦ (
            none,
            (drop_arc (take_result a).1).1,
            rw (q, t) refl,
            times_out k now a q (ltb→lt timeout now t),
          )
          | inr t ↦
              let s : now + (timeout - now) ≡ timeout = ground arith in
              let (o, c, e, d) =
                loop_lem most b l n (suc k) (clock k now (timeout - now))
                  (others k (take_result a).1) (progress most n k now (timeout - now) b l s p) in
              (o, c, rw (q, t) e, waits k now (timeout - now) a c o q s d)
        ]
      ]

      -- `wait_timeout` returns, whatever the others do while it sleeps, if at most `most` of its waits
      -- end early, by a notification or for no reason, and each other one lasts longer than the time that
      -- it was given: it needs two rounds more than `most`. It returns an answer that it finds, even if
      -- the time has passed, and none only when it finds none and the time has passed; before that it
      -- waits again, each time with what is left of the time.
      pub wait_timeout-Ends :
          (most rounds now : ℕ) (a : Inner (SyncState T))
          → ((k : ℕ) → early_waits k ≤ most)
          → ((k now remaining : ℕ) → early k ≡ false → now + remaining < clock k now remaining)
          → most + 2 ≤ rounds
          → (o : Option (Answer T)) × (b : Inner (SyncState T)) × (wait_timeout rounds now a
              ≡ ended o b)
            × Ends 0 now a o b
      unfolding wait_timeout
      wait_timeout-Ends most rounds now a b l g =
          loop_lem most b l rounds 0 now a (inr (refl, omega arith))
