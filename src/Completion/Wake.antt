-- ===== src/Completion/Wake.antt =====
-- src/completion.rs: what holds of a polled completion at all times.
use doom_fish_utils.Base.{
  ℕ, suc, ◌+◌, ◌<◌, ◌≡◌, refl, ap, subst, ◌∙◌, ◌⊎◌, inl, inr, Bool, true, false, ◌||◌, ◌==◌, Option,
  none, some, arith, Bool-cases, eq→==, ==→eq,
}
use doom_fish_utils.Future.Mpsc.World.{is_waker}
use doom_fish_utils.Completion.{
  Inner, AsyncState, Answer, create, drop_arc, store_async, kept_waker, polled, poll,
}
use doom_fish_utils.Completion.References.{drop_arc_lem, swap_consumed_lem, destroyed-drop}
use doom_fish_utils.Completion.Polling.{
  Phase, idle, claimed, waking, woken, finished, Task, fresh, parked, done, gone, World, start,
  wake, after_poll, is_waiting, of_task, of_callback, is_stored, admit, Step, calls, stores, wakes,
  releases, polls, drops, Reach, here, next, IsSound,
}

kept_waker_lem : (o : Option ℕ) (waker : ℕ) → kept_waker o waker ≡ some waker
kept_waker_lem none waker = refl
kept_waker_lem (some k) waker = elim (Bool-cases (k == waker)) [
  | inl e ↦ rw e (ap some (==→eq k waker e))
  | inr e ↦ rw e refl
]

module _ {ℓ} {T : Type ℓ} where
  start-IsSound : IsSound {T = T} start.inner idle fresh none
  unfolding start create
  start-IsSound = record {
    counted = refl;
    destroyed_once = refl;
    unclaimed = λ _. refl;
    unheard = λ _. refl;
    empty = λ _. refl;
    chosen = λ r e. cc (e);
    kept = λ e _. cc (e);
    delivered = λ r e. cc (e);
    armed = λ k b e _. cc (e);
    owed = λ k b e _. cc (e);
  }

  waiting-of_task : (x : Task T) → is_waiting x ≡ true → of_task x ≡ 1
  waiting-of_task fresh e = refl
  waiting-of_task (parked k b) e = refl
  waiting-of_task (done r) e = cc (e)
  waiting-of_task gone e = cc (e)

  polled-IsSound :
      (waker : ℕ) (o : Option (Answer T)) (a : Inner (AsyncState T)) (p : Phase T) (x : Task T)
      (f : Option (Answer T))
      → a.state.result ≡ o
      → is_waiting x ≡ true
      → IsSound a p x f
      → IsSound (polled waker o a).1 p (after_poll waker (polled waker o a).0) f
  polled-IsSound waker none a p x f q e h = record {
    counted = h.counted ∙ ap (λ n. of_callback p + n) (waiting-of_task x e);
    destroyed_once = h.destroyed_once;
    unclaimed = h.unclaimed;
    unheard = h.unheard;
    empty = h.empty;
    chosen = h.chosen;
    kept = λ c _. h.kept c e;
    delivered = λ r c. cc (c);
    armed = λ k b c _. kept_waker_lem a.state.waker waker ∙ cc (c);
    owed = λ k b c d. let (r, _, z) = h.kept d e in cc (q, z);
  }
  polled-IsSound waker (some r) a p x f q e h =
      let z : is_stored p ≡ true = elim (Bool-cases (is_stored p)) [
        | inl c ↦ c
        | inr c ↦ let k : a.state.result ≡ none = h.empty c in cc (q, k)
      ] in
      record {
        counted = h.counted ∙ ap (λ n. of_callback p + n) (waiting-of_task x e);
        destroyed_once = h.destroyed_once;
        unclaimed = h.unclaimed;
        unheard = h.unheard;
        empty = λ _. refl;
        chosen = h.chosen;
        kept = λ _ c. cc (c);
        delivered = λ s c. let (t, g, k) = h.kept z e in cc (c, g, k, q);
        armed = λ k b c _. cc (c);
        owed = λ k b c _. cc (c);
      }

  waking-injective : (o p : Option ℕ) → ◌≡◌ {A = Phase T} (waking o) (waking p) → o ≡ p
  waking-injective o p e = cc (e)

  pub called_lem :
      (waker : ℕ) (called : Bool) (o : Option ℕ)
      → (called ≡ true) ⊎ (◌≡◌ {A = Phase T} (waking o) (waking (some waker)))
      → (called || is_waker o waker) ≡ true
  called_lem waker called o (inl e) = rw e refl
  called_lem waker called o (inr e) =
      rw (waking-injective o (some waker) e, eq→== waker waker refl)
        (elim called as (λ b. (b || true) ≡ true) [ true ↦ refl | false ↦ refl ])

  -- The waker is called; a task that is parked then has been woken.
  called-IsSound :
      (o : Option ℕ) (a : Inner (AsyncState T)) (x y : Task T) (f : Option (Answer T))
      → of_task x ≡ of_task y
      → is_waiting x ≡ is_waiting y
      → ((r : Answer T) → y ≡ done r → x ≡ done r)
      → ((waker : ℕ) (called : Bool) → y ≡ parked waker called → called ≡ true)
      → IsSound a (waking o) x f
      → IsSound a woken y f
  called-IsSound o a x y f n m d k h = record {
    counted = h.counted ∙ ap (λ i. 1 + i) n;
    destroyed_once = h.destroyed_once;
    unclaimed = λ c. let b : waking o ≡ idle = h.unclaimed c in cc (b);
    unheard = h.unheard;
    empty = λ c. cc (c);
    chosen = λ r c. cc (c);
    kept = λ _ c. h.kept refl (m ∙ c);
    delivered = λ r c. h.delivered r (d r c);
    armed = λ w b _ c. cc (c);
    owed = λ w b c _. inl (k w b c);
  }

  woken-IsSound :
      (o : Option ℕ) (a : Inner (AsyncState T)) (x : Task T) (f : Option (Answer T))
      → IsSound a (waking o) x f
      → IsSound a woken (wake o x) f
  woken-IsSound o a fresh f h =
      called-IsSound o a fresh fresh f refl refl (λ r c. c) (λ w b c. cc (c)) h
  woken-IsSound o a (parked waker called) f h =
      called-IsSound o a (parked waker called) _ f refl refl (λ r c. cc (c))
        (λ w b c.
          let z : (called || is_waker o waker) ≡ true =
            called_lem waker called o (h.owed waker called refl refl) in
          cc (c, z))
        h
  woken-IsSound o a (done r) f h =
      called-IsSound o a (done r) (done r) f refl refl (λ r c. c) (λ w b c. cc (c)) h
  woken-IsSound o a gone f h =
      called-IsSound o a gone gone f refl refl (λ r c. c) (λ w b c. cc (c)) h

  gone-IsSound :
      (a : Inner (AsyncState T)) (p : Phase T) (x : Task T) (f : Option (Answer T))
      → of_task x ≡ 1
      → IsSound a p x f
      → IsSound (drop_arc a).1 p gone f
  gone-IsSound a p x f e h =
      let n : a.strong ≡ of_callback p + of_task x = h.counted in
      let m : a.strong ≡ suc (of_callback p) = omega arith in
      rw (drop_arc_lem a (of_callback p) m) (record {
        counted = omega arith;
        destroyed_once = destroyed-drop a (of_callback p) m h.destroyed_once;
        unclaimed = h.unclaimed;
        unheard = h.unheard;
        empty = h.empty;
        chosen = h.chosen;
        kept = λ _ c. cc (c);
        delivered = λ s c. cc (c);
        armed = λ w b c _. cc (c);
        owed = λ w b c _. cc (c);
      })

  released-IsSound :
      (a : Inner (AsyncState T)) (x : Task T) (f : Option (Answer T))
      → IsSound a woken x f
      → IsSound (drop_arc a).1 finished x f
  released-IsSound a x f g =
      let n : a.strong ≡ 1 + of_task x = g.counted in
      let m : a.strong ≡ suc (of_task x) = omega arith in
      rw (drop_arc_lem a (of_task x) m) (record {
        counted = omega arith;
        destroyed_once = destroyed-drop a (of_task x) m g.destroyed_once;
        unclaimed = λ c. let b : woken ≡ idle = g.unclaimed c in cc (b);
        unheard = g.unheard;
        empty = λ c. cc (c);
        chosen = λ s c. cc (c);
        kept = λ _ c. g.kept refl c;
        delivered = g.delivered;
        armed = λ w b _ c. cc (c);
        owed = λ w b c _. elim (g.owed w b c refl) [ inl d ↦ inl d | inr d ↦ cc (d) ];
      })

  stored-IsSound :
      (a : Inner (AsyncState T)) (r : Answer T) (x : Task T) (f : Option (Answer T))
      → IsSound a (claimed r) x f
      → IsSound (store_async r a).1 (waking (store_async r a).0) x f
  unfolding store_async
  stored-IsSound a r x f g = record {
    counted = g.counted;
    destroyed_once = g.destroyed_once;
    unclaimed = λ c. let b : claimed r ≡ idle = g.unclaimed c in cc (b);
    unheard = g.unheard;
    empty = λ c. cc (c);
    chosen = λ s c. cc (c);
    kept = λ _ _. (r, g.chosen r refl, refl);
    delivered = g.delivered;
    armed = λ w b _ c. cc (c);
    owed = λ w b c _. inr (ap waking (g.armed w b c refl));
  }

  admitted-IsSound :
      (w : World T) (r : Answer T)
      → 0 < w.inner.strong
      → IsSound w.inner w.phase w.task w.first
      → IsSound (admit w r).inner (admit w r).phase (admit w r).task (admit w r).first
  admitted-IsSound w r l h = rw (swap_consumed_lem w.inner l) (elim (Bool-cases w.inner.consumed) [
    | inl c ↦ rw c (record {
      counted = h.counted;
      destroyed_once = h.destroyed_once;
      unclaimed = λ d. cc (d);
      unheard = λ d. cc (d);
      empty = h.empty;
      chosen = h.chosen;
      kept = h.kept;
      delivered = h.delivered;
      armed = h.armed;
      owed = h.owed;
    })
    | inr c ↦
        let p : w.phase ≡ idle = h.unclaimed c in
        let g : IsSound w.inner idle w.task w.first =
          subst (λ p. IsSound w.inner p w.task w.first) p h in
        let f : w.first ≡ none = h.unheard c in
        rw c (record {
          counted = g.counted;
          destroyed_once = h.destroyed_once;
          unclaimed = λ d. cc (d);
          unheard = λ d. cc (d);
          empty = λ _. g.empty refl;
          chosen = λ s d. cc (d);
          kept = λ d _. cc (d);
          delivered = λ s d. let k = h.delivered s d in cc (k, f);
          armed = λ k b d _. g.armed k b d refl;
          owed = λ k b _ d. cc (d);
        })
  ])

  pub Step-IsSound :
      {w v : World T}
      → Step w v
      → IsSound w.inner w.phase w.task w.first
      → IsSound v.inner v.phase v.task v.first
  unfolding poll
  Step-IsSound (calls w r l) h = admitted-IsSound w r l h
  Step-IsSound (stores w r e) h =
      stored-IsSound w.inner r w.task w.first (subst (λ p. IsSound w.inner p w.task w.first) e h)
  Step-IsSound (wakes w o e) h =
      woken-IsSound o w.inner w.task w.first (subst (λ p. IsSound w.inner p w.task w.first) e h)
  Step-IsSound (releases w e) h =
      released-IsSound w.inner w.task w.first (subst (λ p. IsSound w.inner p w.task w.first) e h)
  Step-IsSound (polls w waker e) h =
      polled-IsSound waker w.inner.state.result w.inner w.phase w.task w.first refl e h
  Step-IsSound (drops w e) h = gone-IsSound w.inner w.phase w.task w.first e h

  pub Reach-IsSound : {w : World T} → Reach start w → IsSound w.inner w.phase w.task w.first
  unfolding start
  Reach-IsSound here = start-IsSound
  Reach-IsSound (next r st) = Step-IsSound st (Reach-IsSound r)
