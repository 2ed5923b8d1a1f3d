-- ===== src/CallbackContext/Users.antt =====
-- src/callback_context.rs: the owner and the C code that share a context. A call of `with` is two
-- steps, its check of the switch and its closure, with those of others in between.
use Prim.Native.String.{String}
use doom_fish_utils.Base.{ℕ, suc, ◌^◌, ◌<◌, ◌≡◌, Bool, true, false, [], ltb, ◌||◌, if◌then◌else◌}
use doom_fish_utils.PanicSafe.{Ended, returned, unwound, aborted, undefined, World}
use doom_fish_utils.CallbackContext.{
  Inner, inner_ptr, new, retained_ptr, retain, release, deactivate, drop_context, check_active,
  run_closure,
}

-- The context is `held` until its owner drops it; C code has `foreign` references. `entered` calls of
-- `with` are past their check and have not run their closure, and `ran` closures were run.
pub record Shared {ℓ} (T : Type ℓ) : Type ℓ where
  pub world : World (Inner T)
  pub held : Bool
  pub foreign : ℕ
  pub entered : ℕ
  pub ran : ℕ

-- The check lets the call go on.
abbrev pub passes : Ended Bool → Bool
passes (returned true) = true
passes (returned false) = false
passes (unwound p) = false
passes aborted = false
passes undefined = false

module _ {ℓ} {T : Type ℓ} where
  unfoldable pub start : T → Bool → Shared T
  start value closed = record {
    world = record {
      user = new value;
      stderr_closed = closed;
      stderr = [];
      dropped = [];
      leaked = [];
    };
    held = true;
    foreign = 0;
    entered = 0;
    ran = 0;
  }

  abbrev pub inner : Shared T → Inner T
  inner s = s.world.user

  -- Someone has a reference.
  abbrev pub is_referenced : Shared T → Bool
  is_referenced s = s.held || ltb 0 s.foreign

  abbrev pub update : Shared T → Inner T → World (Inner T)
  update s a = record s.world { user = a }

module _ {ℓ} {T : Type ℓ} (destroy : T → Ended (Unit {0})) where
  -- Each call is made with a reference in hand, and a release gives one up. A closure that `with` runs
  -- reads the value.
  pub data Step : Shared T → Shared T → Type (ℓ ⊔ 1) where
    gives :
        (s : Shared T)
        → s.held ≡ true
        → (inner s).strong < 2 ^ 63
        → Step s (record s { world = update s (retained_ptr (inner s)).1; foreign = suc s.foreign })
    retains :
        (s : Shared T)
        → is_referenced s ≡ true
        → (inner s).strong < 2 ^ 63
        → Step s
            (record s { world = update s (retain inner_ptr (inner s)).1; foreign = suc s.foreign })
    releases :
        (s : Shared T) (n : ℕ)
        → s.foreign ≡ suc n
        → Step s (record s { world = (release destroy inner_ptr s.world).1; foreign = n })
    deactivates :
        (s : Shared T)
        → s.held ≡ true
        → Step s (record s { world = update s (deactivate (inner s)) })
    drops :
        (s : Shared T)
        → s.held ≡ true
        → Step s (record s { world = update s (drop_context destroy (inner s)).1; held = false })
    enters :
        (s : Shared T)
        → is_referenced s ≡ true
        → Step s (record s {
          entered = if passes (check_active inner_ptr (inner s)) then suc s.entered else s.entered;
        })
    runs :
        (s : Shared T) (n : ℕ) (R : Type 0) (site : String) (f : T → Ended R)
        → is_referenced s ≡ true
        → s.entered ≡ suc n
        → Step s (record s {
          world = (run_closure site (λ value a. (f value, a)) s.world).1;
          entered = n;
          ran = suc s.ran;
        })

  pub data Reach (s : Shared T) : Shared T → Type (ℓ ⊔ 1) where
    here : Reach s s
    next : {t u : Shared T} → Reach s t → Step t u → Reach s u
