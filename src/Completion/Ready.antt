-- ===== src/Completion/Ready.antt =====
-- src/completion.rs: a polled completion becomes ready with the first answer, and its task is woken.
use doom_fish_utils.Base.{
  ℕ, ◌+◌, ◌≡◌, refl, ap, subst, ◌∙◌, ◌⊎◌, inl, inr, Bool, true, ◌==◌, none, some, if◌then◌else◌,
  Bool-cases,
}
use doom_fish_utils.Completion.{Answer, polled, poll}
use doom_fish_utils.Completion.Polling.{
  parked, done, World, start, of_task, of_callback, is_stored, Step, calls, stores, wakes, releases,
  polls, drops, Reach, here, next, IsSound,
}
use doom_fish_utils.Completion.Wake.{called_lem, Reach-IsSound}

module _ {ℓ} {T : Type ℓ} where
  Reach-trans : {u v w : World T} → Reach u v → Reach v w → Reach u w
  Reach-trans r here = r
  Reach-trans r (next q st) = next (Reach-trans r q) st

  Step-first :
      {w v : World T} (s : Answer T)
      → Step w v
      → IsSound w.inner w.phase w.task w.first
      → w.first ≡ some s
      → v.first ≡ some s
  Step-first s (calls w r l) h e = elim (Bool-cases w.inner.consumed) [
    | inl c ↦ rw c e
    | inr c ↦ let k : w.first ≡ none = h.unheard c in cc (e, k)
  ]
  Step-first s (stores w r p) h e = e
  Step-first s (wakes w o p) h e = e
  Step-first s (releases w p) h e = e
  Step-first s (polls w waker p) h e = e
  Step-first s (drops w p) h e = e

  Reach-first :
      {u w : World T} (s : Answer T)
      → Reach start u
      → u.first ≡ some s
      → Reach u w
      → w.first ≡ some s
  Reach-first s r e here = e
  Reach-first s r e (next q st) =
      Step-first s st (Reach-IsSound (Reach-trans r q)) (Reach-first s r e q)

  -- From a new completion on, in whatever order the polls of the future and any number of calls of the
  -- callback run, each of which finds the allocation live: once a call was the first to win the flag,
  -- the future is ready with the answer of that call if it is ready at all, whatever calls follow.
  pub ready_with_first :
      (u w : World T) (s r : Answer T)
      → Reach start u
      → u.first ≡ some s
      → Reach u w
      → w.task ≡ done r
      → r ≡ s
  ready_with_first u w s r q e p d =
      let h : IsSound w.inner w.phase w.task w.first = Reach-IsSound (Reach-trans q p) in
      let f : w.first ≡ some r = h.delivered r d in
      let g : w.first ≡ some s = Reach-first s q e p in cc (f, g)

  -- From a new completion on, in whatever order the polls of the future and any number of calls of the
  -- callback run, each of which finds the allocation live: once the call that was the first to win the
  -- flag has stored its answer, the next poll of a future
  -- that waits is ready with that answer; and if the future is pending with a waker, that waker was
  -- called since, or the call has it and calls it by one step.
  pub pending_is_woken :
      (w : World T) (waker : ℕ) (called : Bool)
      → Reach start w
      → w.task ≡ parked waker called
      → is_stored w.phase ≡ true
      → ((r : Answer T) × (w.first ≡ some r) × ((poll waker w.inner).0 ≡ some r))
        × ((called ≡ true) ⊎ ((v : World T) × Step w v × (v.task ≡ parked waker true)))
  unfolding poll
  pending_is_woken w waker called q e c =
      let h : IsSound w.inner w.phase (parked waker called) w.first =
        subst (λ x. IsSound w.inner w.phase x w.first) e (Reach-IsSound q) in
      let (r, f, k) = h.kept c refl in
      (
        (r, f, ap (λ o. (polled waker o w.inner).0) k),
        elim (h.owed waker called refl c) [
          | inl d ↦ inl d
          | inr d ↦ inr (
            _,
            wakes w (some waker) d,
            rw e (ap (parked waker) (called_lem {T = T} waker called (some waker) (inr refl))),
          )
        ],
      )

  -- From a new completion on, in every such order, the count is that of the references which the future and the callback
  -- still hold, and the memory is given back once when both are gone, and not before.
  future_destroyed_once :
      (w : World T)
      → Reach start w
      → (w.inner.strong ≡ of_callback w.phase + of_task w.task)
        × (w.inner.destroyed ≡ (if of_callback w.phase + of_task w.task == 0 then 1 else 0))
  future_destroyed_once w q =
      let h : IsSound w.inner w.phase w.task w.first = Reach-IsSound q in
      (h.counted, h.destroyed_once ∙ ap (λ n. if n == 0 then 1 else 0) h.counted)
