-- ===== src/CallbackContext/Deactivated.antt =====
-- src/callback_context.rs: a context that was turned off stays off.
use Prim.Native.String.{String}
use doom_fish_utils.Base.{
  ◌+◌, ◌^◌, ◌≡◌, refl, ◌∙◌, ap, ◌⊎◌, inl, inr, Bool, true, false, ◌==◌, leb, arith, Bool-cases,
  none,
}
use doom_fish_utils.PanicSafe.{Ended, returned}
use doom_fish_utils.CallbackContext.{
  Inner, inner_ptr, increment_strong_count, retained_ptr, retain, decrement_strong_count,
  deactivate, drop_context, check_active, with_value,
}
use doom_fish_utils.CallbackContext.Users.{
  Shared, start, inner, is_referenced, Step, gives, retains, releases, deactivates, drops, enters,
  runs, passes, Reach, here, next,
}
use doom_fish_utils.CallbackContext.Counts.{
  referenced-strong, Reach-IsCounted, release-user, check-active, run_closure-user, with_inactive,
}

module _ {ℓ} {T : Type ℓ} where
  increment-active : (a : Inner T) → (increment_strong_count a).1.active ≡ a.active
  unfolding increment_strong_count
  increment-active a = elim (Bool-cases (a.strong == 0)) [
    | inl e ↦ rw e refl
    | inr e ↦ elim (Bool-cases (leb (2 ^ 63) a.strong)) [
      | inl g ↦ rw (e, g) refl
      | inr g ↦ rw (e, g) refl
    ]
  ]

module _ {ℓ} {T : Type ℓ} (destroy : T → Ended (Unit {0})) where
  decrement-active : (a : Inner T) → (decrement_strong_count destroy a).1.active ≡ a.active
  unfolding decrement_strong_count
  decrement-active a = elim (Bool-cases (a.strong == 0)) [
    | inl e ↦ rw e refl
    | inr e ↦ elim (Bool-cases (a.strong == 1)) [ inl g ↦ rw (e, g) refl | inr g ↦ rw (e, g) refl ]
  ]

  Step-inactive :
      {s t : Shared T} → Step destroy s t → (inner s).active ≡ false → (inner t).active ≡ false
  unfolding retained_ptr retain deactivate drop_context
  Step-inactive (gives s e b) h = increment-active (inner s) ∙ h
  Step-inactive (retains s e b) h = increment-active (inner s) ∙ h
  Step-inactive (releases s n e) h =
      ap (λ a. a.active) (release-user destroy s.world) ∙ decrement-active (inner s) ∙ h
  Step-inactive (deactivates s e) h = refl
  Step-inactive (drops s e) h = decrement-active (record (inner s) { active = false })
  Step-inactive (enters s e) h = h
  Step-inactive (runs s n R site f e g) h =
      ap (λ a. a.active) (run_closure-user destroy R site f s.world) ∙ h

  Reach-inactive :
      {s t : Shared T} → Reach destroy s t → (inner s).active ≡ false → (inner t).active ≡ false
  Reach-inactive here h = h
  Reach-inactive (next r st) h = Step-inactive st (Reach-inactive r h)

  Reach-trans : {s t u : Shared T} → Reach destroy s t → Reach destroy t u → Reach destroy s u
  Reach-trans r here = r
  Reach-trans r (next q st) = next (Reach-trans r q) st

  -- A check on a context that is off lets nobody in.
  turned_away : (a : Inner T) → a.active ≡ false → passes (check_active inner_ptr a) ≡ false
  unfolding check_active
  turned_away a h = elim (Bool-cases (a.strong == 0)) [ inl e ↦ rw e refl | inr e ↦ rw (e, h) refl ]

  Step-admitted :
      {s t : Shared T}
      → Step destroy s t
      → (inner s).active ≡ false
      → t.ran + t.entered ≡ s.ran + s.entered
  Step-admitted (gives s e b) h = refl
  Step-admitted (retains s e b) h = refl
  Step-admitted (releases s n e) h = refl
  Step-admitted (deactivates s e) h = refl
  Step-admitted (drops s e) h = refl
  Step-admitted (enters s e) h = rw (turned_away (inner s) h) refl
  Step-admitted (runs s n R site f e g) h = omega arith

  Reach-admitted :
      {s t : Shared T}
      → Reach destroy s t
      → (inner s).active ≡ false
      → t.ran + t.entered ≡ s.ran + s.entered
  Reach-admitted here h = refl
  Reach-admitted (next r st) h = Step-admitted st (Reach-inactive r h) ∙ Reach-admitted r h

  -- Once a context that is used with references in hand has been turned off, by `deactivate` or since
  -- its owner dropped it, and through whatever steps follow: the closures that are run are those of the
  -- calls of `with` that were past their check by then, each once at most, and a call that begins with a
  -- reference in hand is turned away at its check, runs nothing and changes nothing.
  pub with_value-deactivated :
      (value : T) (closed : Bool) (s t : Shared T) (R : Type 0) (site : String)
      (f : T → Inner T → Ended R × Inner T)
      → Reach destroy (start value closed) s
      → (s.held ≡ false) ⊎ ((inner s).active ≡ false)
      → Reach destroy s t
      → is_referenced t ≡ true
      → (t.ran + t.entered ≡ s.ran + s.entered)
        × (check_active inner_ptr (inner t) ≡ returned false)
        × (with_value inner_ptr site f t.world ≡ (returned none, t.world))
  with_value-deactivated value closed s t R site f r d q e =
      let h = Reach-IsCounted destroy value closed t (Reach-trans r q) in
      let a : (inner s).active ≡ false = elim d [
        | inl g ↦ (Reach-IsCounted destroy value closed s r).inactive g
        | inr g ↦ g
      ] in
      let l : ((inner t).strong == 0) ≡ false =
        ground (arith, referenced-strong (inner t) t.held t.foreign h e) in
      (
        Reach-admitted q a,
        check-active (inner t) l ∙ ap returned (Reach-inactive q a),
        with_inactive site f t.world l (Reach-inactive q a),
      )
