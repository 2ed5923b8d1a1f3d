-- ===== src/PanicSafe/Examples.antt =====
-- src/panic_safe.rs on a callback that panics with a payload whose destructor panics, with stderr
-- closed.
use doom_fish_utils.Base.{ℕ, ◌+◌, ◌≡◌, refl, true, false, [], ◌∷◌, none}
use doom_fish_utils.PanicSafe.{
  str_text, other_type, panics_on_drop, Ended, returned, unwound, World, user_code,
  log_callback_panic, drop_payload_best_effort, catch_user_panic_result,
  catch_user_panic_result_with_cleanup,
}
use doom_fish_utils.PanicSafe.Contain.{contained, is_droppable, catch_user_panic_result_lem}
use doom_fish_utils.PanicSafe.Cleanup.{is_containable, result_of, phases, with_cleanup_lem}

abbrev closed_world : World ℕ
closed_world = record { user = 0; stderr_closed = true; stderr = []; dropped = []; leaked = [] }

abbrev open_world : World ℕ
open_world = record closed_world { stderr_closed = false }

abbrev explodes : ℕ → Ended ℕ × ℕ
explodes n = (unwound (panics_on_drop other_type), n + 1)

catch_user_panic_result_lem_example :
    ((catch_user_panic_result "site" (user_code explodes) closed_world).0
      ≡ contained (explodes 0).0)
    × ((catch_user_panic_result "site" (user_code explodes) closed_world).1.user ≡ 1)
catch_user_panic_result_lem_example =
    catch_user_panic_result_lem "site" (user_code explodes) closed_world

-- Both payloads are dropped, and both panics are on stderr.
logged : catch_user_panic_result "site" (user_code explodes) open_world ≡ (
  returned none,
  record {
    user = 1;
    stderr_closed = false;
    stderr = ("site", "<non-string panic payload>") ∷ ("site", "<non-string panic payload>") ∷ [];
    dropped = other_type ∷ panics_on_drop other_type ∷ [];
    leaked = [];
  },
)
unfolding catch_user_panic_result log_callback_panic drop_payload_best_effort
logged = refl

abbrev succeeds : ℕ → Ended ℕ × ℕ
succeeds n = (returned 7, n + 10)

abbrev counts : ℕ → Ended (Unit {0}) × ℕ
counts n = (returned tt, n + 100)

abbrev fails : ℕ → Ended (Unit {0}) × ℕ
fails n = (unwound (str_text "cleanup"), n + 1000)

-- The result of a callback whose cleanup panics is destroyed last.
with_cleanup_lem_example :
    ((catch_user_panic_result_with_cleanup "site"
        (user_code succeeds)
        (user_code fails)
        (user_code counts)
        (user_code counts)
        (user_code counts)
        (λ r. user_code (λ n. (returned tt, n + r)))
        open_world).0
      ≡ returned (phases succeeds fails counts counts counts (λ r n. (returned tt, n + r)) 0).0)
    × ((catch_user_panic_result_with_cleanup "site"
          (user_code succeeds)
          (user_code fails)
          (user_code counts)
          (user_code counts)
          (user_code counts)
          (λ r. user_code (λ n. (returned tt, n + r)))
          open_world).1.user
        ≡ (phases succeeds fails counts counts counts (λ r n. (returned tt, n + r)) 0).1)
unfolding is_containable is_droppable
with_cleanup_lem_example =
    with_cleanup_lem "site" succeeds fails counts counts counts (λ r n. (returned tt, n + r))
      open_world (λ _. refl) (λ _. refl) (λ _. refl) (λ _. refl) (λ _. refl) (λ _ _. refl)

ran : phases succeeds fails counts counts counts (λ r n. (returned tt, n + r)) 0 ≡ (none, 1317)
unfolding phases result_of
ran = refl
