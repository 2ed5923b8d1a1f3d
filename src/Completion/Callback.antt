-- ===== src/Completion/Callback.antt =====
-- src/completion.rs: the call of a callback as a whole, the first one and one that is not.
use doom_fish_utils.Base.{
  ℕ, suc, ◌<◌, ◌≡◌, refl, ap, ap₂, subst, sym, ◌∙◌, Bool, true, false, ◌==◌, none, some, Option,
  List, ◌∷◌, ◌++◌, ok, err, arith, Bool-cases, inl, inr, if◌then◌else◌,
}
use doom_fish_utils.Base.Utf8.{is_utf8}
use doom_fish_utils.PanicSafe.{Ended, returned, unwound, string_text, user_code}
use doom_fish_utils.PanicSafe
use doom_fish_utils.PanicSafe.Contain.{contained, is_droppable, catch_user_panic_result_lem}
use doom_fish_utils.FfiString
use doom_fish_utils.FfiString.{until_nul, c_str}
use doom_fish_utils.FfiString.Buffer.{has_nul, until_nul-append}
use doom_fish_utils.Completion.{
  Ptr, null_ptr, inner_ptr, Inner, SyncState, Answer, drop_arc, complete_once, store, swap_consumed,
  complete_with_result, error_from_cstr, unknown_error, callback, unit_answer,
}
use doom_fish_utils.Completion.References.{drop_arc_lem, swap_consumed_lem}
use doom_fish_utils.Completion.Blocking.{
  World, stored, notified, rouse, finished, claimed, admit, calls, stores, notifies, releases,
  Reach, here, next,
}

drop_arc-returns {ℓ} : {S : Type ℓ} (a : Inner S) → 0 < a.strong → (drop_arc a).0 ≡ returned tt
unfolding drop_arc
drop_arc-returns a h =
    let e : (a.strong == 0) ≡ false = ground arith in
    elim (Bool-cases (a.strong == 1)) [ inl f ↦ rw (e, f) refl | inr f ↦ rw (e, f) refl ]

-- How a call ends that is not the first: reporting it on a closed stderr panics.
abbrev pub duplicate_ends : Bool → Ended Bool
duplicate_ends true = unwound (string_text "failed printing to stderr")
duplicate_ends false = returned false

module _ {ℓ} {T : Type ℓ} where
  -- A call that wins the flag, run alone.
  complete_first :
      (r : Answer T) (w : PanicSafe.World (Inner (SyncState T)))
      → 0 < w.user.strong
      → w.user.consumed ≡ false
      → complete_with_result inner_ptr r w ≡ (
        returned true,
        record w { user = (drop_arc (store r (record w.user { consumed = true }))).1 },
      )
  unfolding complete_with_result complete_once store
  complete_first r w h c =
      let d : (drop_arc (store r (record w.user { consumed = true }))).0 ≡ returned tt =
        drop_arc-returns (store r (record w.user { consumed = true })) h in
      rw (swap_consumed_lem w.user h, c, d) refl

  same : (a : Inner (SyncState T)) → a.consumed ≡ true → record a { consumed = true } ≡ a
  same a c = ap (λ b. record a { consumed = b }) (sym c)

  -- One that does not.
  complete_again :
      (r : Answer T) (w : PanicSafe.World (Inner (SyncState T)))
      → 0 < w.user.strong
      → w.user.consumed ≡ true
      → ((complete_with_result inner_ptr r w).0 ≡ duplicate_ends w.stderr_closed)
        × ((complete_with_result inner_ptr r w).1.user ≡ w.user)
  unfolding complete_with_result complete_once
  complete_again r w h c = elim (Bool-cases w.stderr_closed) [
    | inl e ↦ rw (swap_consumed_lem w.user h, c, e) (refl, refl)
    | inr e ↦ rw (swap_consumed_lem w.user h, c, e) (refl, refl)
  ]

  -- What the others see of a call that was run as a whole.
  abbrev pub run_whole : World T → Answer T → Inner (SyncState T) → Bool → World T
  run_whole w r a consumed = record {
    inner = a;
    phase = if consumed then w.phase else finished;
    waiter = if consumed then w.waiter else rouse w.waiter;
    first = if consumed then w.first else some r;
  }

  again-Reach :
      (w : World T) (r : Answer T)
      → 0 < w.inner.strong
      → w.inner.consumed ≡ true
      → Reach w (run_whole w r w.inner true)
  again-Reach w r h c =
      let e : (swap_consumed w.inner).1 ≡ w.inner =
        ap (λ o. o.1) (swap_consumed_lem w.inner h) ∙ same w.inner c in
      subst (Reach w)
        (ap
            (λ b. record w {
              inner = (swap_consumed w.inner).1;
              phase = if b then w.phase else claimed r;
              first = if b then w.first else some r;
            })
            c
          ∙ ap (λ a. record w { inner = a }) e)
        (next here (calls w r h))

  first-Reach :
      (w : World T) (r : Answer T)
      → 0 < w.inner.strong
      → w.inner.consumed ≡ false
      → Reach w (run_whole w r (drop_arc (store r (record w.inner { consumed = true }))).1 false)
  first-Reach w r h c =
      let s : World T = admit w r in
      let p : s.phase ≡ claimed r = rw c refl in
      let t : World T = record s { inner = store r s.inner; phase = stored } in
      let u : World T = record t { waiter = rouse t.waiter; phase = notified } in
      subst (Reach w)
        (ap₂
          (λ a b. record {
            inner = (drop_arc (store r a)).1;
            phase = finished;
            waiter = rouse w.waiter;
            first = if b then w.first else some r;
          })
          (ap (λ o. o.1) (swap_consumed_lem w.inner h)) c)
        (next (next (next (next here (calls w r h)) (stores s r p)) (notifies t refl))
          (releases u refl))

  -- A call of the callback on a live allocation, run alone from its beginning to its end, whether it is
  -- the first or not, has the effect of its sections in the step relation. The first one takes the flag,
  -- stores its answer, rouses a thread that sleeps, and gives up its reference; another one changes
  -- nothing, and ends by returning or, if stderr is closed, by panicking.
  pub complete-Reach :
      (w : World T) (p : PanicSafe.World (Inner (SyncState T))) (r : Answer T)
      → 0 < w.inner.strong
      → ((complete_with_result inner_ptr r (record p { user = w.inner })).0
          ≡ (if w.inner.consumed then duplicate_ends p.stderr_closed else returned true))
        × Reach w (
            run_whole w r
              (complete_with_result inner_ptr r (record p { user = w.inner })).1.user
              w.inner.consumed)
        × ((if w.inner.consumed
              then (complete_with_result inner_ptr r (record p { user = w.inner })).1.user
              else w.inner)
            ≡ w.inner)
  complete-Reach w p r h = elim (Bool-cases w.inner.consumed) [
    | inl c ↦
        let (a, b) = complete_again r (record p { user = w.inner }) h c in
        (
          a ∙ ap (λ d. if d then duplicate_ends p.stderr_closed else returned true) (sym c),
          subst (Reach w) (ap₂ (run_whole w r) (sym b) (sym c)) (again-Reach w r h c),
          ap
                (λ d.
                  if d
                  then (complete_with_result inner_ptr r (record p { user = w.inner })).1.user
                  else w.inner)
                c
              ∙ b,
        )
    | inr c ↦
        let e = complete_first r (record p { user = w.inner }) h c in
        (
          ap (λ o. o.0) e
              ∙ ap (λ d. if d then duplicate_ends p.stderr_closed else returned true) (sym c),
          subst (Reach w) (ap₂ (run_whole w r) (sym (ap (λ o. o.1.user) e)) (sym c))
              (first-Reach w r h c),
          ap
              (λ d.
                if d
                then (complete_with_result inner_ptr r (record p { user = w.inner })).1.user
                else w.inner)
              c,
        )
  ]

-- What C code says with a pointer to a message: nothing, the UTF-8 bytes before the first NUL, or bytes
-- there that are not UTF-8.
pub data Message : FfiString.Ptr → List ℕ → Type 0 where
  missing : Message FfiString.null_ptr unknown_error
  readable :
      (s rest : List ℕ)
      → has_nul s ≡ false
      → is_utf8 s ≡ true
      → Message (FfiString.ptr_to (s ++ 0 ∷ rest)) s
  unreadable :
      (s rest : List ℕ)
      → has_nul s ≡ false
      → is_utf8 s ≡ false
      → Message (FfiString.ptr_to (s ++ 0 ∷ rest)) unknown_error

-- And with its arguments: after a success the message is not looked at.
pub data Says : Bool → FfiString.Ptr → Answer (Unit {0}) → Type 0 where
  succeeded : (msg : FfiString.Ptr) → Says true msg (ok tt)
  failed : (msg : FfiString.Ptr) (text : List ℕ) → Message msg text → Says false msg (err text)

error_from_cstr_lem :
    (msg : FfiString.Ptr) (text : List ℕ) → Message msg text → error_from_cstr msg ≡ returned text
unfolding error_from_cstr c_str
error_from_cstr_lem _ _ missing = refl
error_from_cstr_lem _ _ (readable s rest h u) = rw (until_nul-append s rest h, u) refl
error_from_cstr_lem _ _ (unreadable s rest h u) = rw (until_nul-append s rest h, u) refl

unit_answer_lem :
    (context : Ptr) (success : Bool) (msg : FfiString.Ptr) (answer : Answer (Unit {0}))
    (w : PanicSafe.World (Inner (SyncState (Unit {0}))))
    → Says success msg answer
    → unit_answer context success msg w ≡ complete_with_result context answer w
unit_answer_lem context _ _ _ w (succeeded msg) = refl
unit_answer_lem context _ _ _ w (failed msg text m) = rw (error_from_cstr_lem msg text m) refl

callback_complete :
    (context : Ptr) (success : Bool) (msg : FfiString.Ptr) (answer : Answer (Unit {0}))
    (w : PanicSafe.World (Inner (SyncState (Unit {0}))))
    → Says success msg answer
    → ((callback context success msg w).0 ≡ contained (complete_with_result context answer w).0)
      × ((callback context success msg w).1.user ≡ (complete_with_result context answer w).1.user)
unfolding callback
callback_complete context success msg answer w s =
    let (a, b) =
      catch_user_panic_result_lem "UnitCompletion::callback" (unit_answer context success msg) w in
    let e = unit_answer_lem context success msg answer w s in
    (a ∙ ap (λ o. contained o.0) e, b ∙ ap (λ o. o.1.user) e)

-- What the C code gets from a call, by the flag and by whether stderr is closed.
abbrev pub heard : Bool → Bool → Option Bool
heard false closed = some true
heard true false = some false
heard true true = none

-- What is left, where `n` references are besides that of the callback.
abbrev pub left_by :
    ℕ → Answer (Unit {0}) → Bool → Inner (SyncState (Unit {0})) → Inner (SyncState (Unit {0}))
left_by n answer true a = a
left_by n answer false a = record {
  strong = n;
  consumed = true;
  state = record { result = some answer };
  destroyed = if n == 0 then suc a.destroyed else a.destroyed;
}

contained-duplicate :
    (closed : Bool) → contained (duplicate_ends closed) ≡ returned (heard true closed)
unfolding contained is_droppable
contained-duplicate true = refl
contained-duplicate false = refl

-- The C callback of an operation without a value, on an allocation with a reference. It never unwinds,
-- also where a panic is raised. The first call, by the flag, rouses a waiting thread, and leaves the
-- answer that its arguments stand for and one reference less: a success, the message, or "Unknown error"
-- where there is none or it is not UTF-8. Another call changes nothing and rouses nobody; its report
-- panics if stderr is closed, and then the call returns nothing. A null context is ignored.
-- The message of a failure is null or has a NUL.
pub callback_lem :
    (success : Bool) (msg : FfiString.Ptr) (answer : Answer (Unit {0})) (n : ℕ)
    (w : PanicSafe.World (Inner (SyncState (Unit {0}))))
    → Says success msg answer
    → w.user.strong ≡ suc n
    → ((callback inner_ptr success msg w).0 ≡ returned (heard w.user.consumed w.stderr_closed))
      × ((callback inner_ptr success msg w).1.user ≡ left_by n answer w.user.consumed w.user)
      × ((callback null_ptr success msg w).0 ≡ returned (some false))
      × ((callback null_ptr success msg w).1.user ≡ w.user)
unfolding contained is_droppable store complete_with_result complete_once
callback_lem success msg answer n w s h =
    let (a, b) = callback_complete inner_ptr success msg answer w s in
    let (c, d) = callback_complete null_ptr success msg answer w s in
    elim (Bool-cases w.user.consumed) [
      | inl e ↦
          let (f, g) = complete_again answer w (omega arith) e in
          (
            a
                ∙ ap contained f
                ∙ contained-duplicate w.stderr_closed
                ∙ ap (λ b. returned (heard b w.stderr_closed)) (sym e),
            b ∙ g ∙ ap (λ b. left_by n answer b w.user) (sym e),
            c,
            d,
          )
      | inr e ↦
          let f = complete_first answer w (omega arith) e in
          let g = drop_arc_lem (store answer (record w.user { consumed = true })) n h in
          (
            a ∙ ap (λ o. contained o.0) f ∙ ap (λ b. returned (heard b w.stderr_closed)) (sym e),
            b ∙ ap (λ o. o.1.user) f ∙ g ∙ ap (λ b. left_by n answer b w.user) (sym e),
            c,
            d,
          )
    ]
