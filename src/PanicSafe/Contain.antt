-- ===== src/PanicSafe/Contain.antt =====
-- src/panic_safe.rs: no panic crosses the boundary.
use Prim.Native.String.{String}
use doom_fish_utils.Base.{
  Bool, true, false, ◌≡◌, refl, Option, none, some, ◌∷◌, if◌then◌else◌, Bool-cases, inl, inr,
}
use doom_fish_utils.PanicSafe.{
  Payload, str_text, string_text, other_type, panics_on_drop, panics_twice, Ended, returned,
  unwound, aborted, undefined, World, Call, after, pure, drop_payload_best_effort,
  log_callback_panic, catch_user_panic_result, catch_user_panic,
}

-- Dropping the payload does not abort the process, even where its destructor panics.
unfoldable pub is_droppable : Payload → Bool
is_droppable (str_text _) = true
is_droppable (string_text _) = true
is_droppable other_type = true
is_droppable (panics_on_drop p) = elim p [
  | str_text _ ↦ true
  | string_text _ ↦ true
  | other_type ↦ true
  | panics_on_drop _ ↦ true
  | panics_twice ↦ false
]
is_droppable panics_twice = false

-- What the caller of the boundary sees.
unfoldable pub contained {ℓ} : {A : Type ℓ} → Ended A → Ended (Option A)
contained (returned a) = returned (some a)
contained (unwound p) = if is_droppable p then returned none else aborted
contained aborted = aborted
contained undefined = undefined

module _ {ℓ} {S : Type ℓ} where
  -- Logging always returns, and leaves the user's state.
  pub log_returns :
      (site : String) (p : Payload) (w : World S)
      → ((log_callback_panic site p w).0 ≡ returned tt)
        × ((log_callback_panic site p w).1.user ≡ w.user)
        × ((log_callback_panic site p w).1.stderr_closed ≡ w.stderr_closed)
  unfolding log_callback_panic drop_payload_best_effort
  log_returns site p w = elim (Bool-cases w.stderr_closed) [
    | inl e ↦ rw e (refl, refl, refl)
    | inr e ↦ rw e (refl, refl, refl)
  ]

  drop_returns :
      (p : Payload) (w : World S)
      → is_droppable (panics_on_drop p) ≡ true
      → ((drop_payload_best_effort p w).0 ≡ returned tt)
        × ((drop_payload_best_effort p w).1.user ≡ w.user)
  unfolding drop_payload_best_effort is_droppable
  drop_returns (str_text _) w h = (refl, refl)
  drop_returns (string_text _) w h = (refl, refl)
  drop_returns other_type w h = (refl, refl)
  drop_returns (panics_on_drop _) w h = (refl, refl)
  drop_returns panics_twice w h = cc

  drop_aborts :
      (p : Payload) (w : World S)
      → is_droppable (panics_on_drop p) ≡ false
      → ((drop_payload_best_effort p w).0 ≡ aborted)
        × ((drop_payload_best_effort p w).1.user ≡ w.user)
  unfolding drop_payload_best_effort is_droppable
  drop_aborts (str_text _) w h = cc
  drop_aborts (string_text _) w h = cc
  drop_aborts other_type w h = cc
  drop_aborts (panics_on_drop _) w h = cc
  drop_aborts panics_twice w h = (refl, refl)

module _ {ℓ κ} {S : Type ℓ} {A : Type κ} where
  -- The boundary around code that ends as given.
  contain_ended :
      (site : String) (e : Ended A) (v w : World S)
      → ((catch_user_panic_result site (λ _. (e, v)) w).0 ≡ contained e)
        × ((catch_user_panic_result site (λ _. (e, v)) w).1.user ≡ v.user)
  unfolding catch_user_panic_result contained is_droppable
  contain_ended site (returned a) v w = (refl, refl)
  contain_ended site (unwound (str_text m)) v w =
      let (l, u, _) = log_returns site (str_text m) v in rw (l, u) (refl, refl)
  contain_ended site (unwound (string_text m)) v w =
      let (l, u, _) = log_returns site (string_text m) v in rw (l, u) (refl, refl)
  contain_ended site (unwound other_type) v w =
      let (l, u, _) = log_returns site other_type v in rw (l, u) (refl, refl)
  contain_ended site (unwound (panics_on_drop q)) v w =
      let (l, u, _) = log_returns site (panics_on_drop q) v in
      let v₁ : World S = (log_callback_panic site (panics_on_drop q) v).1 in
      let v₂ : World S = record v₁ { dropped = panics_on_drop q ∷ v₁.dropped } in
      let (m, t, _) = log_returns site q v₂ in
      let v₃ : World S = (log_callback_panic site q v₂).1 in
      elim (Bool-cases (is_droppable (panics_on_drop q))) [
        | inl h ↦ let (d, z) = drop_returns q v₃ h in rw (l, m, d, h) (refl, rw (z, t, u) refl)
        | inr h ↦ let (d, z) = drop_aborts q v₃ h in rw (l, m, d, h) (refl, rw (z, t, u) refl)
      ]
  contain_ended site (unwound panics_twice) v w =
      let (l, u, _) = log_returns site panics_twice v in rw (l, u) (refl, refl)
  contain_ended site aborted v w = (refl, refl)
  contain_ended site undefined v w = (refl, refl)

  -- Whatever the closure does, whatever it panics with, and whether stderr is open or not, the boundary
  -- never unwinds: it returns the closure's result, or nothing after a panic, and it aborts exactly if
  -- the closure does or dropping the payload does. The user's state is what the closure left.
  pub catch_user_panic_result_lem :
      (site : String) (f : Call S A) (w : World S)
      → ((catch_user_panic_result site f w).0 ≡ contained (f w).0)
        × ((catch_user_panic_result site f w).1.user ≡ (f w).1.user)
  unfolding catch_user_panic_result
  catch_user_panic_result_lem site f w = contain_ended site (f w).0 (f w).1 w

module _ {ℓ} {S : Type ℓ} where
  after-pure :
      (e : Ended (Option (Unit {0}))) (w : World S) → (after {ℓ, 0, 0} e w (λ _. pure tt)).1 ≡ w
  after-pure (returned _) w = refl
  after-pure (unwound _) w = refl
  after-pure aborted w = refl
  after-pure undefined w = refl

  pub catch_user_panic-user :
      (site : String) (f : Call S (Unit {0})) (w : World S)
      → (catch_user_panic site f w).1.user ≡ (f w).1.user
  unfolding catch_user_panic
  catch_user_panic-user site f w =
      rw (after-pure (catch_user_panic_result site f w).0 (catch_user_panic_result site f w).1)
        (catch_user_panic_result_lem site f w).1
