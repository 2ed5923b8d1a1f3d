-- ===== src/CallbackContext/Counts.antt =====
-- src/callback_context.rs: the reference count, and the one destruction of the value.
use Prim.Native.String.{String}
use doom_fish_utils.Base.{
  ℕ, suc, ◌+◌, ◌-◌, ◌^◌, ◌<◌, ◌≤◌, ◌≡◌, refl, ap, sym, ◌∙◌, lt→ltb, eq→==, inl, inr, Bool, true,
  false, ◌==◌, ltb, ◌||◌, ltb→lt, subst, zero, if◌then◌else◌, arith, Bool-cases, none,
}
use doom_fish_utils.PanicSafe.{
  Ended, returned, undefined, World, user_code, catch_user_panic_result,
}
use doom_fish_utils.PanicSafe.Contain.{
  contained, catch_user_panic-user, catch_user_panic_result_lem,
}
use doom_fish_utils.CallbackContext.{
  Inner, inner_ptr, new, increment_strong_count, retained_ptr, retain, decrement_strong_count,
  release, deactivate, drop_context, check_active, run_closure, checked, with_value,
}
use doom_fish_utils.CallbackContext.Users.{
  Shared, start, inner, is_referenced, Step, gives, retains, releases, deactivates, drops, enters,
  runs, Reach, here, next,
}

-- The count is that of the references, and the value is destroyed once they are all gone.
pub record IsCounted {ℓ} {T : Type ℓ} (a : Inner T) (held : Bool) (foreign : ℕ) : Type 0 where
  pub strong_eq : a.strong ≡ foreign + (if held then 1 else 0)
  pub destroyed_eq : a.destroyed ≡ (if held || ltb 0 foreign then 0 else 1)
  pub bounded : a.strong ≤ 2 ^ 63
  pub inactive : held ≡ false → a.active ≡ false

module _ {ℓ} {T : Type ℓ} where
  pub increment_lem :
      (a : Inner T)
      → 0 < a.strong
      → a.strong < 2 ^ 63
      → increment_strong_count a ≡ (returned tt, record a { strong = a.strong + 1 })
  unfolding increment_strong_count
  increment_lem a h g = ground arith

  retained_ptr_lem :
      (a : Inner T)
      → 0 < a.strong
      → a.strong < 2 ^ 63
      → retained_ptr a ≡ (returned inner_ptr, record a { strong = a.strong + 1 })
  unfolding retained_ptr
  retained_ptr_lem a h g = rw (increment_lem a h g) refl

  pub referenced-strong :
      (a : Inner T) (held : Bool) (foreign : ℕ)
      → IsCounted a held foreign
      → (held || ltb 0 foreign) ≡ true
      → 0 < a.strong
  referenced-strong a true foreign h e = let p : a.strong ≡ foreign + 1 = h.strong_eq in omega arith
  referenced-strong a false foreign h e =
      let p : a.strong ≡ foreign + 0 = h.strong_eq in
      let q : 0 < foreign = ltb→lt 0 foreign e in omega arith

  one_more :
      (a : Inner T) (held : Bool) (foreign : ℕ)
      → IsCounted a held foreign
      → (held || ltb 0 foreign) ≡ true
      → a.strong < 2 ^ 63
      → IsCounted (record a { strong = a.strong + 1 }) held (suc foreign)
  one_more a held foreign h e b =
      let p : a.strong ≡ foreign + (if held then 1 else 0) = h.strong_eq in
      let z : ltb 0 (suc foreign) ≡ true = lt→ltb 0 (suc foreign) (omega arith) in
      record {
        strong_eq = omega arith;
        destroyed_eq =
            rw (h.destroyed_eq, e, z)
              (elim held as (λ b. ◌≡◌ {A = ℕ} 0 (if b || true then 0 else 1)) [
                | true ↦ refl
                | false ↦ refl
              ]);
        bounded = omega arith;
        inactive = h.inactive;
      }

  -- One reference of C code is given up.
  one_foreign_less :
      (a : Inner T) (held : Bool) (foreign n : ℕ)
      → IsCounted a held (suc foreign)
      → a.strong ≡ suc n
      → IsCounted
          (record a { strong = n; destroyed = if n == 0 then suc a.destroyed else a.destroyed })
          held
          foreign
  one_foreign_less a true foreign n h e =
      let p : a.strong ≡ suc foreign + 1 = h.strong_eq in
      let d : a.destroyed ≡ 0 = h.destroyed_eq in
      record {
        strong_eq = omega arith;
        destroyed_eq = ground arith;
        bounded = omega (arith, h.bounded);
        inactive = h.inactive;
      }
  one_foreign_less a false foreign n h e =
      let p : a.strong ≡ suc foreign + 0 = h.strong_eq in
      let z : ltb 0 (suc foreign) ≡ true = lt→ltb 0 (suc foreign) (omega arith) in
      let d : a.destroyed ≡ 0 = h.destroyed_eq ∙ rw z refl in
      record {
        strong_eq = omega arith;
        destroyed_eq = ground arith;
        bounded = omega (arith, h.bounded);
        inactive = h.inactive;
      }

  -- The owner drops the context.
  owner_less :
      (a : Inner T) (foreign n : ℕ)
      → IsCounted a true foreign
      → a.strong ≡ suc n
      → IsCounted
          (record a {
            active = false;
            strong = n;
            destroyed = if n == 0 then suc a.destroyed else a.destroyed;
          })
          false
          foreign
  owner_less a foreign n h e =
      let p : a.strong ≡ foreign + 1 = h.strong_eq in
      let d : a.destroyed ≡ 0 = h.destroyed_eq in
      record {
        strong_eq = omega arith;
        destroyed_eq = ground arith;
        bounded = omega (arith, h.bounded);
        inactive = λ _. refl;
      }

module _ {ℓ} {T : Type ℓ} where
  pub check-active :
      (a : Inner T) → (a.strong == 0) ≡ false → check_active inner_ptr a ≡ returned a.active
  unfolding check_active
  check-active a e = ap (λ b. if b then undefined else returned a.active) e

module _ {ℓ κ} {T : Type ℓ} {R : Type κ} where
  run_closure-live :
      (site : String) (f : T → Inner T → Ended R × Inner T) (w : World (Inner T))
      → (w.user.strong == 0) ≡ false
      → run_closure site f w ≡ catch_user_panic_result site (user_code (f w.user.value)) w
  unfolding run_closure
  run_closure-live site f w e =
      ap
        (λ b.
          if b then (undefined, w) else catch_user_panic_result site (user_code (f w.user.value)) w)
        e

  with_active :
      (site : String) (f : T → Inner T → Ended R × Inner T) (w : World (Inner T))
      → (w.user.strong == 0) ≡ false
      → w.user.active ≡ true
      → with_value inner_ptr site f w ≡ catch_user_panic_result site (user_code (f w.user.value)) w
  unfolding with_value
  with_active site f w e g =
      ap (λ o. checked o site f w) (check-active w.user e ∙ ap returned g)
      ∙ run_closure-live site f w e

  pub with_inactive :
      (site : String) (f : T → Inner T → Ended R × Inner T) (w : World (Inner T))
      → (w.user.strong == 0) ≡ false
      → w.user.active ≡ false
      → with_value inner_ptr site f w ≡ (returned none, w)
  unfolding with_value
  with_inactive site f w e g = ap (λ o. checked o site f w) (check-active w.user e ∙ ap returned g)

  with_value-result :
      (site : String) (f : T → Ended R) (w : World (Inner T))
      → (w.user.strong == 0) ≡ false
      → (with_value inner_ptr site (λ value a. (f value, a)) w).0
        ≡ (if w.user.active then contained (f w.user.value) else returned none)
  with_value-result site f w e = elim (Bool-cases w.user.active) [
    | inl g ↦
        ap (λ o. o.0) (with_active site (λ value a. (f value, a)) w e g)
        ∙ (catch_user_panic_result_lem site (user_code (λ a. (f w.user.value, a))) w).0
        ∙ sym (ap (λ b. if b then contained (f w.user.value) else returned none) g)
    | inr g ↦
        ap (λ o. o.0) (with_inactive site (λ value a. (f value, a)) w e g)
        ∙ sym (ap (λ b. if b then contained (f w.user.value) else returned none) g)
  ]

module _ {ℓ} {T : Type ℓ} (destroy : T → Ended (Unit {0})) where
  decrement_lem :
      (a : Inner T) (n : ℕ)
      → a.strong ≡ suc n
      → (decrement_strong_count destroy a).1
        ≡ record a { strong = n; destroyed = if n == 0 then suc a.destroyed else a.destroyed }
  unfolding decrement_strong_count
  decrement_lem a zero e =
      let e₀ : (a.strong == 0) ≡ false = ground arith in
      let e₁ : (a.strong == 1) ≡ true = eq→== a.strong 1 (omega arith) in rw (e₀, e₁) refl
  decrement_lem a (suc n) e =
      let e₀ : (a.strong == 0) ≡ false = ground arith in
      let e₁ : (a.strong == 1) ≡ false = ground arith in
      let e₂ : a.strong - 1 ≡ suc n = omega arith in
      let z : (suc n == 0) ≡ false = ground arith in rw (e₀, e₁, e₂, z) refl

  start-IsCounted : (value : T) → IsCounted (new value) true 0
  unfolding new
  start-IsCounted value = record {
    strong_eq = omega arith;
    destroyed_eq = refl;
    bounded = omega arith;
    inactive = λ e. cc (e);
  }

  pub release-user :
      (w : World (Inner T))
      → (release destroy inner_ptr w).1.user ≡ (decrement_strong_count destroy w.user).1
  unfolding release
  release-user w = catch_user_panic-user _ (user_code (decrement_strong_count destroy)) w

  pub run_closure-user :
      (R : Type 0) (site : String) (f : T → Ended R) (w : World (Inner T))
      → (run_closure site (λ value a. (f value, a)) w).1.user ≡ w.user
  unfolding run_closure
  run_closure-user R site f w = elim (Bool-cases (w.user.strong == 0)) [
    | inl e ↦ rw e refl
    | inr e ↦
        rw (run_closure-live site (λ value a. (f value, a)) w e)
          (catch_user_panic_result_lem site (user_code (λ a. (f w.user.value, a))) w).1
  ]

  Step-IsCounted :
      {s t : Shared T}
      → Step destroy s t
      → IsCounted (inner s) s.held s.foreign
      → IsCounted (inner t) t.held t.foreign
  unfolding retain deactivate drop_context
  Step-IsCounted (gives s e b) h =
      let r : is_referenced s ≡ true = rw e refl in
      rw (retained_ptr_lem (inner s) (referenced-strong (inner s) s.held s.foreign h r) b)
        (one_more (inner s) s.held s.foreign h r b)
  Step-IsCounted (retains s r b) h =
      rw (increment_lem (inner s) (referenced-strong (inner s) s.held s.foreign h r) b)
        (one_more (inner s) s.held s.foreign h r b)
  Step-IsCounted (releases s n e) h =
      let g : IsCounted (inner s) s.held (suc n) = subst (IsCounted (inner s) s.held) e h in
      let p : (inner s).strong ≡ suc n + (if s.held then 1 else 0) = g.strong_eq in
      let q : (inner s).strong ≡ suc (n + (if s.held then 1 else 0)) = omega arith in
      rw (release-user s.world, decrement_lem (inner s) (n + (if s.held then 1 else 0)) q)
        (one_foreign_less (inner s) s.held n (n + (if s.held then 1 else 0)) g q)
  Step-IsCounted (deactivates s e) h = record {
    strong_eq = h.strong_eq;
    destroyed_eq = h.destroyed_eq;
    bounded = h.bounded;
    inactive = λ _. refl;
  }
  Step-IsCounted (drops s e) h =
      let g : IsCounted (inner s) true s.foreign =
        subst (λ b. IsCounted (inner s) b s.foreign) e h in
      let p : (inner s).strong ≡ s.foreign + 1 = g.strong_eq in
      let q : (inner s).strong ≡ suc s.foreign = omega arith in
      rw (decrement_lem (record (inner s) { active = false }) s.foreign q)
        (owner_less (inner s) s.foreign s.foreign g q)
  Step-IsCounted (enters s e) h = h
  Step-IsCounted (runs s n R site f e g) h = rw (run_closure-user R site f s.world) h

  pub Reach-IsCounted :
      (value : T) (closed : Bool) (s : Shared T)
      → Reach destroy (start value closed) s
      → IsCounted (inner s) s.held s.foreign
  unfolding start
  Reach-IsCounted value closed _ here = start-IsCounted value
  Reach-IsCounted value closed _ (next r st) = Step-IsCounted st (Reach-IsCounted value closed _ r)

  -- From a new context on, through any calls of its owner and of the C code in any order, each made
  -- with a reference in hand: the count is that of the references, and the value's destructor has run
  -- once if there is no reference left and never before.
  pub references_lem :
      (value : T) (closed : Bool) (s : Shared T)
      → Reach destroy (start value closed) s
      → ((inner s).strong ≡ s.foreign + (if s.held then 1 else 0))
        × ((inner s).destroyed ≡ (if is_referenced s then 0 else 1))
  references_lem value closed s r =
      let h : IsCounted (inner s) s.held s.foreign = Reach-IsCounted value closed s r in
      (h.strong_eq, h.destroyed_eq)

  -- From a new context on, through such calls, a `with` that is made with a reference in hand is
  -- defined: it gives what its closure ends with on the live value, a panic contained, or nothing if
  -- the context is not active.
  pub with_value_lem :
      (value : T) (closed : Bool) (s : Shared T) (R : Type 0) (site : String) (f : T → Ended R)
      → Reach destroy (start value closed) s
      → is_referenced s ≡ true
      → (with_value inner_ptr site (λ value a. (f value, a)) s.world).0
        ≡ (if (inner s).active then contained (f (inner s).value) else returned none)
  with_value_lem value closed s R site f r e =
      let h : IsCounted (inner s) s.held s.foreign = Reach-IsCounted value closed s r in
      let z : ((inner s).strong == 0) ≡ false =
        ground (arith, referenced-strong (inner s) s.held s.foreign h e) in
      with_value-result site f s.world z
