-- ===== src/Completion/Delivery.antt =====
-- src/completion.rs: the waiting thread gets the first answer, and the memory goes once.
use doom_fish_utils.Base.{
  ◌+◌, ◌≡◌, ◌≢◌, refl, ap, subst, ◌∙◌, inl, inr, ◌==◌, Option, none, some, if◌then◌else◌,
  Bool-cases,
}
use doom_fish_utils.Completion.{Answer, take_result}
use doom_fish_utils.Completion.Blocking.{
  stored, finished, Waiter, awake, asleep, done, gone, World, start, looked, look, Step, calls,
  stores, notifies, releases, looks, wakes, gives_up, Reach, here, next, of_callback, of_handle,
  IsSound,
}
use doom_fish_utils.Completion.Invariant.{no_handle, start-IsSound, Step-IsSound}

module _ {ℓ} {T : Type ℓ} where
  pub Reach-IsSound : {w : World T} → Reach start w → IsSound w.inner w.phase w.waiter w.first
  unfolding start
  Reach-IsSound here = start-IsSound
  Reach-IsSound (next r st) = Step-IsSound st (Reach-IsSound r)

  pub Reach-trans : {u v w : World T} → Reach u v → Reach v w → Reach u w
  Reach-trans r here = r
  Reach-trans r (next q st) = next (Reach-trans r q) st

  looked-first : (w : World T) (o : Option (Answer T)) → (looked w o).first ≡ w.first
  looked-first w none = refl
  looked-first w (some r) = refl

  -- A later call does not change which answer came first.
  Step-first :
      {w v : World T} (s : Answer T)
      → Step w v
      → IsSound w.inner w.phase w.waiter w.first
      → w.first ≡ some s
      → v.first ≡ some s
  unfolding take_result
  Step-first s (calls w r l) h e = elim (Bool-cases w.inner.consumed) [
    | inl c ↦ rw c e
    | inr c ↦ let k : w.first ≡ none = h.unheard c in cc (e, k)
  ]
  Step-first s (stores w r p) h e = e
  Step-first s (notifies w p) h e = e
  Step-first s (releases w p) h e = e
  Step-first s (looks w p) h e = looked-first w w.inner.state.result ∙ e
  Step-first s (wakes w p) h e = e
  Step-first s (gives_up w p) h e = e

  Reach-first :
      {u w : World T} (s : Answer T)
      → Reach start u
      → u.first ≡ some s
      → Reach u w
      → w.first ≡ some s
  Reach-first s r e here = e
  Reach-first s r e (next q st) =
      Step-first s st (Reach-IsSound (Reach-trans r q)) (Reach-first s r e q)

  -- From a new completion on, in whatever order the waiting thread and any number of calls of the
  -- callback run, each of which finds the allocation live: when a call was the first to win the flag,
  -- the waiting thread returns the answer of that call if it returns one at all, whatever calls
  -- follow.
  pub first_answer :
      (u w : World T) (s r : Answer T)
      → Reach start u
      → u.first ≡ some s
      → Reach u w
      → w.waiter ≡ done r
      → r ≡ s
  first_answer u w s r q e p d =
      let h : IsSound w.inner w.phase w.waiter w.first = Reach-IsSound (Reach-trans q p) in
      let f : w.first ≡ some r = h.delivered r d in
      let g : w.first ≡ some s = Reach-first s q e p in cc (f, g)

  -- From a new completion on, in whatever order the waiting thread and any number of calls of the
  -- callback run, each of which finds the allocation live: once the call that won has notified and let go, a thread that still holds
  -- the handle does not sleep, and its next look under the lock returns that call's answer.
  pub no_lost_answer :
      (w : World T)
      → Reach start w
      → w.phase ≡ finished
      → of_handle w.waiter ≡ 1
      → (w.waiter ≡ awake) × ((r : Answer T) × (w.first ≡ some r) × ((look w).waiter ≡ done r))
  unfolding take_result
  no_lost_answer w q e o =
      let g : IsSound w.inner finished w.waiter w.first =
        subst (λ p. IsSound w.inner p w.waiter w.first) e (Reach-IsSound q) in
      let (r, f, k) = g.kept refl o in
      (
        awake_of w.waiter o (λ a. let b : finished ≡ stored = g.roused a refl in cc (b)),
        (r, f, rw k refl),
      )
    where
      awake_of : (x : Waiter T) → of_handle x ≡ 1 → x ≢ asleep → x ≡ awake
      awake_of awake c n = refl
      awake_of asleep c n = absurd (n refl)
      awake_of (done s) c n = no_handle c
      awake_of gone c n = no_handle c

  -- From a new completion on, in every such order, the count is that of the references which the handle and the callback
  -- still hold, and the memory is given back once when both are gone, and not before.
  pub destroyed_once_lem :
      (w : World T)
      → Reach start w
      → (w.inner.strong ≡ of_callback w.phase + of_handle w.waiter)
        × (w.inner.destroyed ≡ (if of_callback w.phase + of_handle w.waiter == 0 then 1 else 0))
  destroyed_once_lem w q =
      let h : IsSound w.inner w.phase w.waiter w.first = Reach-IsSound q in
      (h.counted, h.destroyed_once ∙ ap (λ n. if n == 0 then 1 else 0) h.counted)
