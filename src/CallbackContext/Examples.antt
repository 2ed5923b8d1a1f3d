-- ===== src/CallbackContext/Examples.antt =====
-- src/callback_context.rs on a context that its owner drops while C code holds a reference.
use doom_fish_utils.Base.{ℕ, ◌+◌, ◌≡◌, refl, inl, false, none, if◌then◌else◌, arith}
use doom_fish_utils.PanicSafe.{Ended, returned, unwound, other_type, catch_user_panic_result}
use doom_fish_utils.CallbackContext.{
  inner_ptr, new, increment_strong_count, retained_ptr, decrement_strong_count, deactivate,
  drop_context, check_active, run_closure, with_value,
}
use doom_fish_utils.CallbackContext.Users.{
  Shared, start, inner, is_referenced, gives, enters, runs, drops, Reach, here, next,
}
use doom_fish_utils.CallbackContext.Counts.{references_lem}
use doom_fish_utils.CallbackContext.Deactivated.{with_value-deactivated}

-- The destructor of the value panics.
abbrev destroy : ℕ → Ended (Unit {0})
destroy n = unwound other_type

abbrev twice : ℕ → Ended ℕ
twice n = returned (n + n)

-- C code has taken one reference, one of its calls is past the check, and then the owner has dropped
-- the context.
abbrev shared : Shared ℕ
shared = record {
  world = record (start 5 false).world {
    user = record { strong = 1; active = false; value = 5; destroyed = 0 };
  };
  held = false;
  foreign = 1;
  entered = 1;
  ran = 0;
}

shared-Reach : Reach destroy (start 5 false) shared
unfolding start new retained_ptr increment_strong_count drop_context decrement_strong_count
    deactivate check_active
shared-Reach = next (next (next here (gives _ refl (omega arith))) (enters _ refl)) (drops _ refl)

references_lem_example :
    ((inner shared).strong ≡ shared.foreign + (if shared.held then 1 else 0))
    × ((inner shared).destroyed ≡ (if is_referenced shared then 0 else 1))
references_lem_example = references_lem destroy 5 false shared shared-Reach

-- That call runs its closure.
abbrev run_late : Shared ℕ
run_late = record shared { entered = 0; ran = 1 }

late-Reach : Reach destroy shared run_late
unfolding run_closure catch_user_panic_result
late-Reach = next here (runs _ 0 ℕ "site" twice refl refl)

with_value-deactivated_example :
    (1 + 0 ≡ 0 + 1)
    × (check_active inner_ptr (inner run_late) ≡ returned false)
    × (with_value inner_ptr "site" (λ value a. (twice value, a)) run_late.world
        ≡ (returned none, run_late.world))
with_value-deactivated_example =
    with_value-deactivated destroy 5 false shared run_late ℕ "site" (λ value a. (twice value, a))
      shared-Reach (inl refl) late-Reach refl
