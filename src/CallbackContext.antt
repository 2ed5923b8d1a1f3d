-- ===== src/CallbackContext.antt =====
-- src/callback_context.rs: a value that Rust and C code share by reference counts, with a switch that
-- turns the callbacks off. The `Arc` is its allocation: the count, the switch, the value, and how
-- often the value's destructor ran. Code that reaches it after the last reference is undefined.
pub mod Users
pub mod Counts
pub mod Deactivated
mod Examples
use Prim.Native.String.{String}
use doom_fish_utils.Base.{
  ℕ, suc, ◌+◌, ◌-◌, ◌^◌, Bool, true, false, ◌==◌, leb, Option, none, if◌then◌else◌,
}
use doom_fish_utils.PanicSafe.{
  Ended, returned, unwound, aborted, undefined, World, Call, pure, user_code, catch_user_panic,
  catch_user_panic_result,
}

pub data Ptr : Type 0 where
  null_ptr : Ptr
  inner_ptr : Ptr

pub record Inner {ℓ} (T : Type ℓ) : Type ℓ where
  pub strong : ℕ
  pub active : Bool
  pub value : T
  pub destroyed : ℕ

abbrev pointed : Ended (Unit {0}) → Ended Ptr
pointed (returned _) = returned inner_ptr
pointed (unwound p) = unwound p
pointed aborted = aborted
pointed undefined = undefined

module _ {ℓ} {T : Type ℓ} where
  unfoldable pub new : T → Inner T
  new value = record { strong = 1; active = true; value = value; destroyed = 0 }

  abbrev pub as_ptr : Inner T → Ptr
  as_ptr a = inner_ptr

  -- `Arc` aborts the process at too many references.
  unfoldable pub increment_strong_count : Inner T → Ended (Unit {0}) × Inner T
  increment_strong_count a =
      if a.strong == 0
      then (undefined, a)
      else if leb (2 ^ 63) a.strong
      then (aborted, a)
      else (returned tt, record a { strong = a.strong + 1 })

  unfoldable pub retained_ptr : Inner T → Ended Ptr × Inner T
  retained_ptr a = (pointed (increment_strong_count a).0, (increment_strong_count a).1)

  unfoldable pub deactivate : Inner T → Inner T
  deactivate a = record a { active = false }

  abbrev pub is_active : Inner T → Bool
  is_active a = a.active

  abbrev pub get : Inner T → T
  get a = a.value

  unfoldable pub retain : Ptr → Inner T → Ended (Unit {0}) × Inner T
  retain null_ptr a = (returned tt, a)
  retain inner_ptr a = increment_strong_count a

-- The last reference runs the destructor of the value.
module _ {ℓ} {T : Type ℓ} (destroy : T → Ended (Unit {0})) where
  unfoldable pub decrement_strong_count : Inner T → Ended (Unit {0}) × Inner T
  decrement_strong_count a =
      if a.strong == 0
      then (undefined, a)
      else if a.strong == 1
      then (destroy a.value, record a { strong = 0; destroyed = suc a.destroyed })
      else (returned tt, record a { strong = a.strong - 1 })

  unfoldable pub release : Ptr → Call (Inner T) (Unit {0})
  release null_ptr = pure tt
  release inner_ptr = catch_user_panic "CallbackContext::RELEASE" (user_code decrement_strong_count)

  -- `Drop` and then that of the field.
  unfoldable pub drop_context : Inner T → Ended (Unit {0}) × Inner T
  drop_context a = decrement_strong_count (deactivate a)

module _ {ℓ} {T : Type ℓ} where
  -- `with` up to its load of the switch.
  unfoldable pub check_active : Ptr → Inner T → Ended Bool
  check_active null_ptr a = returned false
  check_active inner_ptr a = if a.strong == 0 then undefined else returned a.active

module _ {ℓ κ} {T : Type ℓ} {R : Type κ} where
  -- What it does behind that, where the switch may have been turned since.
  unfoldable pub run_closure :
      String → (T → Inner T → Ended R × Inner T) → Call (Inner T) (Option R)
  run_closure site f w =
      if w.user.strong == 0
      then (undefined, w)
      else catch_user_panic_result site (user_code (f w.user.value)) w

  abbrev pub checked :
      Ended Bool → String → (T → Inner T → Ended R × Inner T) → Call (Inner T) (Option R)
  checked (returned true) site f w = run_closure site f w
  checked (returned false) site f w = (returned none, w)
  checked (unwound p) site f w = (unwound p, w)
  checked aborted site f w = (aborted, w)
  checked undefined site f w = (undefined, w)

  -- The whole call, with nothing in between.
  unfoldable pub with_value :
      Ptr → String → (T → Inner T → Ended R × Inner T) → Call (Inner T) (Option R)
  unfolding check_active run_closure
  with_value ptr site f w = checked (check_active ptr w.user) site f w
