-- ===== src/Completion/References.antt =====
-- src/completion.rs: giving up a reference, and the flag.
use doom_fish_utils.Base.{
  ℕ, zero, suc, ◌-◌, ◌<◌, ◌≡◌, refl, ap, ◌∙◌, true, false, ◌==◌, if◌then◌else◌, arith, eq→==,
}
use doom_fish_utils.PanicSafe.{returned, undefined}
use doom_fish_utils.Completion.{Inner, drop_arc, swap_consumed}

module _ {ℓ} {S : Type ℓ} where
  pub drop_arc_lem :
      (a : Inner S) (n : ℕ)
      → a.strong ≡ suc n
      → (drop_arc a).1
        ≡ record a { strong = n; destroyed = if n == 0 then suc a.destroyed else a.destroyed }
  unfolding drop_arc
  drop_arc_lem a zero e =
      let e₀ : (a.strong == 0) ≡ false = ground arith in
      let e₁ : (a.strong == 1) ≡ true = eq→== a.strong 1 (omega arith) in rw (e₀, e₁) refl
  drop_arc_lem a (suc n) e =
      let e₀ : (a.strong == 0) ≡ false = ground arith in
      let e₁ : (a.strong == 1) ≡ false = ground arith in
      let e₂ : a.strong - 1 ≡ suc n = omega arith in
      let z : (suc n == 0) ≡ false = ground arith in rw (e₀, e₁, e₂, z) refl

  pub swap_consumed_lem :
      (a : Inner S)
      → 0 < a.strong
      → swap_consumed a ≡ (returned a.consumed, record a { consumed = true })
  unfolding swap_consumed
  swap_consumed_lem a h =
      let e₀ : (a.strong == 0) ≡ false = ground arith in
      ap (λ b. if b then (undefined, a) else (returned a.consumed, record a { consumed = true })) e₀

  -- A reference that is given up.
  pub destroyed-drop :
      (a : Inner S) (n : ℕ)
      → a.strong ≡ suc n
      → a.destroyed ≡ (if a.strong == 0 then 1 else 0)
      → (if n == 0 then suc a.destroyed else a.destroyed) ≡ (if n == 0 then 1 else 0)
  destroyed-drop a n e d =
      let z : (a.strong == 0) ≡ false = ground arith in
      let d' : a.destroyed ≡ 0 = d ∙ rw z refl in rw d' refl
