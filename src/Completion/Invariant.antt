-- ===== src/Completion/Invariant.antt =====
-- src/completion.rs: what holds of a completion at all times.
use doom_fish_utils.Base.{
  ℕ, suc, ◌+◌, ◌≡◌, ◌≢◌, refl, ap, subst, ◌∙◌, inl, inr, true, Option, none, some, arith,
  Bool-cases,
}
use doom_fish_utils.Completion.{Inner, SyncState, Answer, new, drop_arc, store, take_result}
use doom_fish_utils.Completion.Blocking.{
  Phase, idle, claimed, stored, notified, Waiter, awake, asleep, done, gone, World, start, rouse,
  looked, Step, calls, stores, notifies, releases, looks, wakes, gives_up, of_callback, of_handle,
  is_stored, IsSound,
}
use doom_fish_utils.Completion.References.{drop_arc_lem, swap_consumed_lem, destroyed-drop}

-- No handle is left to keep the answer for.
pub no_handle {ℓ} : {A : Type ℓ} → ◌≡◌ {A = ℕ} 0 1 → A
no_handle e = absurd (omega arith)

module _ {ℓ} {T : Type ℓ} where
  of_handle-rouse : (x : Waiter T) → of_handle x ≡ of_handle (rouse x)
  of_handle-rouse awake = refl
  of_handle-rouse asleep = refl
  of_handle-rouse (done r) = refl
  of_handle-rouse gone = refl

  rouse-done : (x : Waiter T) (r : Answer T) → rouse x ≡ done r → x ≡ done r
  rouse-done awake r e = cc (e)
  rouse-done asleep r e = cc (e)
  rouse-done (done s) r e = e
  rouse-done gone r e = cc (e)

  rouse-ne-asleep : (x : Waiter T) → rouse x ≢ asleep
  rouse-ne-asleep awake e = cc (e)
  rouse-ne-asleep asleep e = cc (e)
  rouse-ne-asleep (done r) e = cc (e)
  rouse-ne-asleep gone e = cc (e)

  pub start-IsSound : IsSound {T = T} start.inner idle awake none
  unfolding start new
  start-IsSound = record {
    counted = refl;
    destroyed_once = refl;
    unclaimed = λ _. refl;
    unheard = λ _. refl;
    empty = λ _. refl;
    chosen = λ r e. cc (e);
    kept = λ e _. cc (e);
    delivered = λ r e. cc (e);
    roused = λ e _. cc (e);
  }

  -- A look of the thread under the lock.
  looked-IsSound :
      (w : World T) (o : Option (Answer T))
      → w.inner.state.result ≡ o
      → w.waiter ≡ awake
      → IsSound w.inner w.phase w.waiter w.first
      → IsSound (looked w o).inner (looked w o).phase (looked w o).waiter (looked w o).first
  unfolding take_result
  looked-IsSound w none q e h =
      let g : IsSound w.inner w.phase awake w.first =
        subst (λ x. IsSound w.inner w.phase x w.first) e h in
      record {
        counted = g.counted;
        destroyed_once = g.destroyed_once;
        unclaimed = g.unclaimed;
        unheard = g.unheard;
        empty = λ _. refl;
        chosen = g.chosen;
        kept = λ c _. let (r, _, k) = g.kept c refl in cc (q, k);
        delivered = λ r c. cc (c);
        roused = λ _ c. let (r, _, k) = g.kept c refl in cc (q, k);
      }
  looked-IsSound w (some r) q e h =
      let g : IsSound w.inner w.phase awake w.first =
        subst (λ x. IsSound w.inner w.phase x w.first) e h in
      let n : w.inner.strong ≡ of_callback w.phase + 1 = g.counted in
      let m : w.inner.strong ≡ suc (of_callback w.phase) = omega arith in
      let z : is_stored w.phase ≡ true = elim (Bool-cases (is_stored w.phase)) [
        | inl c ↦ c
        | inr c ↦ let k : w.inner.state.result ≡ none = g.empty c in cc (q, k)
      ] in
      rw (drop_arc_lem (take_result w.inner).1 (of_callback w.phase) m) (record {
        counted = omega arith;
        destroyed_once =
            destroyed-drop (take_result w.inner).1 (of_callback w.phase) m g.destroyed_once;
        unclaimed = g.unclaimed;
        unheard = g.unheard;
        empty = λ _. refl;
        chosen = g.chosen;
        kept = λ _ c. no_handle c;
        delivered = λ s c. let (t, f, k) = g.kept z refl in cc (c, f, k, q);
        roused = λ c _. cc (c);
      })

  gone-IsSound :
      (a : Inner (SyncState T)) (p : Phase T) (x : Waiter T) (f : Option (Answer T))
      → of_handle x ≡ 1
      → IsSound a p x f
      → IsSound (drop_arc a).1 p gone f
  gone-IsSound a p x f e h =
      let n : a.strong ≡ of_callback p + of_handle x = h.counted in
      let m : a.strong ≡ suc (of_callback p) = omega arith in
      rw (drop_arc_lem a (of_callback p) m) (record {
        counted = omega arith;
        destroyed_once = destroyed-drop a (of_callback p) m h.destroyed_once;
        unclaimed = h.unclaimed;
        unheard = h.unheard;
        empty = h.empty;
        chosen = h.chosen;
        kept = λ _ c. no_handle c;
        delivered = λ s c. cc (c);
        roused = λ c _. cc (c);
      })

  notified-IsSound :
      (a : Inner (SyncState T)) (x : Waiter T) (f : Option (Answer T))
      → IsSound a stored x f
      → IsSound a notified (rouse x) f
  notified-IsSound a x f h = record {
    counted = h.counted ∙ ap (λ n. 1 + n) (of_handle-rouse x);
    destroyed_once = h.destroyed_once;
    unclaimed = λ c. let b : stored ≡ idle = h.unclaimed c in cc (b);
    unheard = h.unheard;
    empty = λ c. cc (c);
    chosen = λ r c. cc (c);
    kept = λ _ c. h.kept refl (of_handle-rouse x ∙ c);
    delivered = λ r c. h.delivered r (rouse-done x r c);
    roused = λ c _. absurd (rouse-ne-asleep x c);
  }

  pub Step-IsSound :
      {w v : World T}
      → Step w v
      → IsSound w.inner w.phase w.waiter w.first
      → IsSound v.inner v.phase v.waiter v.first
  unfolding store take_result
  Step-IsSound (calls w r l) h =
      rw (swap_consumed_lem w.inner l) (elim (Bool-cases w.inner.consumed) [
        | inl c ↦ rw c (record {
          counted = h.counted;
          destroyed_once = h.destroyed_once;
          unclaimed = λ d. cc (d);
          unheard = λ d. cc (d);
          empty = h.empty;
          chosen = h.chosen;
          kept = h.kept;
          delivered = h.delivered;
          roused = h.roused;
        })
        | inr c ↦
            let p : w.phase ≡ idle = h.unclaimed c in
            let g : IsSound w.inner idle w.waiter w.first =
              subst (λ p. IsSound w.inner p w.waiter w.first) p h in
            let f : w.first ≡ none = h.unheard c in
            rw c (record {
              counted = g.counted;
              destroyed_once = h.destroyed_once;
              unclaimed = λ d. cc (d);
              unheard = λ d. cc (d);
              empty = λ _. g.empty refl;
              chosen = λ s d. cc (d);
              kept = λ d _. cc (d);
              delivered = λ s d. let k = h.delivered s d in cc (k, f);
              roused = λ _ d. cc (d);
            })
      ])
  Step-IsSound (stores w r e) h =
      let g : IsSound w.inner (claimed r) w.waiter w.first =
        subst (λ p. IsSound w.inner p w.waiter w.first) e h in
      record {
        counted = g.counted;
        destroyed_once = g.destroyed_once;
        unclaimed = λ c. let b : claimed r ≡ idle = g.unclaimed c in cc (b);
        unheard = g.unheard;
        empty = λ c. cc (c);
        chosen = λ s c. cc (c);
        kept = λ _ _. (r, g.chosen r refl, refl);
        delivered = g.delivered;
        roused = λ _ _. refl;
      }
  Step-IsSound (notifies w e) h =
      notified-IsSound w.inner w.waiter w.first
        (subst (λ p. IsSound w.inner p w.waiter w.first) e h)
  Step-IsSound (releases w e) h =
      let g : IsSound w.inner notified w.waiter w.first =
        subst (λ p. IsSound w.inner p w.waiter w.first) e h in
      let n : w.inner.strong ≡ 1 + of_handle w.waiter = g.counted in
      let m : w.inner.strong ≡ suc (of_handle w.waiter) = omega arith in
      rw (drop_arc_lem w.inner (of_handle w.waiter) m) (record {
        counted = omega arith;
        destroyed_once = destroyed-drop w.inner (of_handle w.waiter) m g.destroyed_once;
        unclaimed = λ c. let b : notified ≡ idle = g.unclaimed c in cc (b);
        unheard = g.unheard;
        empty = λ c. cc (c);
        chosen = λ s c. cc (c);
        kept = λ _ c. g.kept refl c;
        delivered = g.delivered;
        roused = λ c _. let b : notified ≡ stored = g.roused c refl in cc (b);
      })
  Step-IsSound (looks w e) h = looked-IsSound w w.inner.state.result refl e h
  Step-IsSound (wakes w e) h =
      let g : IsSound w.inner w.phase asleep w.first =
        subst (λ x. IsSound w.inner w.phase x w.first) e h in
      record {
        counted = g.counted;
        destroyed_once = g.destroyed_once;
        unclaimed = g.unclaimed;
        unheard = g.unheard;
        empty = g.empty;
        chosen = g.chosen;
        kept = g.kept;
        delivered = λ r c. cc (c);
        roused = λ c _. cc (c);
      }
  Step-IsSound (gives_up w (inl e)) h =
      gone-IsSound w.inner w.phase w.waiter w.first (ap of_handle e) h
  Step-IsSound (gives_up w (inr e)) h =
      gone-IsSound w.inner w.phase w.waiter w.first (ap of_handle e) h
