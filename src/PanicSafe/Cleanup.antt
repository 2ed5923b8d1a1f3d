-- ===== src/PanicSafe/Cleanup.antt =====
-- src/panic_safe.rs: the phases of a callback with a cleanup.
use Prim.Native.String.{String}
use doom_fish_utils.Base.{Bool, true, false, ◌&&◌, ◌≡◌, refl, Option, none, some}
use doom_fish_utils.PanicSafe.{
  Ended, returned, unwound, aborted, undefined, World, user_code, is_some, conclude,
  catch_user_panic, catch_user_panic_result, catch_user_panic_result_with_cleanup,
}
use doom_fish_utils.PanicSafe.Contain.{is_droppable, contained, catch_user_panic_result_lem}

module _ {ℓ} {A : Type ℓ} where
  -- It ends in a way that a boundary turns into a result.
  unfoldable pub is_containable : Ended A → Bool
  is_containable (returned _) = true
  is_containable (unwound p) = is_droppable p
  is_containable aborted = false
  is_containable undefined = false

  unfoldable pub result_of : Ended A → Option A
  result_of (returned a) = some a
  result_of (unwound _) = none
  result_of aborted = none
  result_of undefined = none

  contained_lem : (e : Ended A) → is_containable e ≡ true → contained e ≡ returned (result_of e)
  unfolding is_containable result_of contained
  contained_lem (returned a) h = refl
  contained_lem (unwound p) h = rw h refl
  contained_lem aborted h = cc
  contained_lem undefined h = cc

module _ {ℓ κ} {S : Type ℓ} {R : Type κ} where
  abbrev finish : (R → S → Ended (Unit {0}) × S) → Bool → Option R → S → Option R × S
  finish drop_result true o s = (o, s)
  finish drop_result false none s = (none, s)
  finish drop_result false (some r) s = (none, (drop_result r s).1)

  -- The phases in their order, each on the state that the one before left, whether it panicked or not.
  unfoldable pub phases :
      (S → Ended R × S)
      → (cleanup drop_f drop_cleanup drop_state : S → Ended (Unit {0}) × S)
      → (R → S → Ended (Unit {0}) × S)
      → S
      → Option R × S
  phases f cleanup drop_f drop_cleanup drop_state drop_result s =
      let s₁ = (f s).1 in
      let s₂ = (cleanup s₁).1 in
      let s₃ = (drop_f s₂).1 in
      let s₄ = (drop_cleanup s₃).1 in
      finish drop_result
        (is_some (result_of (drop_f s₂).0)
          && (is_some (result_of (cleanup s₁).0)
              && (is_some (result_of (drop_cleanup s₃).0)
                  && is_some (result_of (drop_state s₄).0))))
        (result_of (f s).0) (drop_state s₄).1

  -- A boundary around user code that can be contained.
  contained_code :
      (site : String) (f : S → Ended R × S) (w : World S) (s : S)
      → w.user ≡ s
      → is_containable (f s).0 ≡ true
      → ((catch_user_panic_result site (user_code f) w).0 ≡ returned (result_of (f s).0))
        × ((catch_user_panic_result site (user_code f) w).1.user ≡ (f s).1)
  contained_code site f w s e h =
      let (a, b) = catch_user_panic_result_lem site (user_code f) w in
      rw (a, b, e) (contained_lem (f s).0 h, refl)

module _ {ℓ} {S : Type ℓ} where
  dropped_code :
      (site : String) (f : S → Ended (Unit {0}) × S) (w : World S) (s : S)
      → w.user ≡ s
      → is_containable (f s).0 ≡ true
      → ((catch_user_panic site (user_code f) w).0 ≡ returned tt)
        × ((catch_user_panic site (user_code f) w).1.user ≡ (f s).1)
  unfolding catch_user_panic
  dropped_code site f w s e h = let (a, b) = contained_code site f w s e h in rw a (refl, b)

module _ {ℓ κ} {S : Type ℓ} {R : Type κ} where
  conclude_lem :
      (site : String) (drop_result : R → S → Ended (Unit {0}) × S) (all : Bool) (o : Option R)
      (w : World S) (s : S)
      → w.user ≡ s
      → ((r : R) (t : S) → is_containable (drop_result r t).0 ≡ true)
      → ((conclude site (λ r. user_code (drop_result r)) all o w).0
          ≡ returned (finish drop_result all o s).0)
        × ((conclude site (λ r. user_code (drop_result r)) all o w).1.user
            ≡ (finish drop_result all o s).1)
  conclude_lem site drop_result true o w s e h = (refl, e)
  conclude_lem site drop_result false none w s e h = (refl, e)
  conclude_lem site drop_result false (some r) w s e h =
      let (a, b) = dropped_code site (drop_result r) w s e (h r s) in rw a (refl, b)

  -- If no phase ends in a way that aborts the process, every phase runs, in the order callback,
  -- cleanup, destruction of the callback, of the cleanup and of the state, each on what the one
  -- before left; the call returns the callback's result if all of them succeed, and otherwise
  -- destroys that result last and returns nothing. It never unwinds.
  pub with_cleanup_lem :
      (site : String) (f : S → Ended R × S)
      (cleanup drop_f drop_cleanup drop_state : S → Ended (Unit {0}) × S)
      (drop_result : R → S → Ended (Unit {0}) × S) (w : World S)
      → ((s : S) → is_containable (f s).0 ≡ true)
      → ((s : S) → is_containable (cleanup s).0 ≡ true)
      → ((s : S) → is_containable (drop_f s).0 ≡ true)
      → ((s : S) → is_containable (drop_cleanup s).0 ≡ true)
      → ((s : S) → is_containable (drop_state s).0 ≡ true)
      → ((r : R) (s : S) → is_containable (drop_result r s).0 ≡ true)
      → ((catch_user_panic_result_with_cleanup site
            (user_code f)
            (user_code cleanup)
            (user_code drop_f)
            (user_code drop_cleanup)
            (user_code drop_state)
            (λ r. user_code (drop_result r))
            w).0
          ≡ returned (phases f cleanup drop_f drop_cleanup drop_state drop_result w.user).0)
        × ((catch_user_panic_result_with_cleanup site
              (user_code f)
              (user_code cleanup)
              (user_code drop_f)
              (user_code drop_cleanup)
              (user_code drop_state)
              (λ r. user_code (drop_result r))
              w).1.user
            ≡ (phases f cleanup drop_f drop_cleanup drop_state drop_result w.user).1)
  unfolding catch_user_panic_result_with_cleanup phases
  with_cleanup_lem site f cleanup drop_f drop_cleanup drop_state drop_result w h₁ h₂ h₃ h₄ h₅ h₆ =
      let s₁ : S = (f w.user).1 in
      let s₂ : S = (cleanup s₁).1 in
      let s₃ : S = (drop_f s₂).1 in
      let s₄ : S = (drop_cleanup s₃).1 in
      let w₁ : World S = (catch_user_panic_result site (user_code f) w).1 in
      let w₂ : World S = (catch_user_panic_result site (user_code cleanup) w₁).1 in
      let w₃ : World S = (catch_user_panic_result site (user_code drop_f) w₂).1 in
      let w₄ : World S = (catch_user_panic_result site (user_code drop_cleanup) w₃).1 in
      let (a₁, b₁) = contained_code site f w w.user refl (h₁ w.user) in
      let (a₂, b₂) = contained_code site cleanup w₁ s₁ b₁ (h₂ s₁) in
      let (a₃, b₃) = contained_code site drop_f w₂ s₂ b₂ (h₃ s₂) in
      let (a₄, b₄) = contained_code site drop_cleanup w₃ s₃ b₃ (h₄ s₃) in
      let (a₅, b₅) = contained_code site drop_state w₄ s₄ b₄ (h₅ s₄) in
      rw (a₁, a₂, a₃, a₄, a₅) (conclude_lem site drop_result _ _ _ _ b₅ h₆)
