-- ===== src/PanicSafe.antt =====
-- src/panic_safe.rs: closures that C code calls back run behind boundaries that no panic crosses.
-- User code is a function on the state that it may change; what it does there stays visible after a
-- caught panic.
pub mod Contain
pub mod Cleanup
mod Examples
use Prim.Native.String.{String}
use doom_fish_utils.Base.{
  Bool, true, false, ◌&&◌, Option, none, some, List, [], ◌∷◌, ◌++◌, Result, ok, err, if◌then◌else◌,
}

-- A panic payload, as `downcast_ref` and its destructor tell it apart: a `&str`, a `String`, another
-- type, one whose destructor panics, and an aggregate with two destructors that panic, which aborts.
pub data Payload : Type 0 where
  str_text : String → Payload
  string_text : String → Payload
  other_type : Payload
  panics_on_drop : Payload → Payload
  panics_twice : Payload

-- How code ends: it returns, it unwinds with a payload, it aborts the process, or its behaviour is
-- undefined.
pub data Ended {ℓ} (A : Type ℓ) : Type ℓ where
  returned : A → Ended A
  unwound : Payload → Ended A
  aborted : Ended A
  undefined : Ended A

-- What the helpers change: the user's state, the lines on stderr, which may be closed, the payloads
-- that were dropped, and those that were leaked.
pub record World {ℓ} (S : Type ℓ) : Type ℓ where
  pub user : S
  pub stderr_closed : Bool
  pub stderr : List (String × String)
  pub dropped : List Payload
  pub leaked : List Payload

-- `std::panic::catch_unwind`.
abbrev pub caught {ℓ} : {A : Type ℓ} → Ended A → Ended (Result A Payload)
caught (returned a) = returned (ok a)
caught (unwound p) = returned (err p)
caught aborted = aborted
caught undefined = undefined

-- The destructor of a payload.
abbrev pub destructor : Payload → Ended (Unit {0})
destructor (str_text _) = returned tt
destructor (string_text _) = returned tt
destructor other_type = returned tt
destructor (panics_on_drop p) = unwound p
destructor panics_twice = aborted

abbrev pub message_of : Payload → String
message_of (str_text message) = message
message_of (string_text message) = message
message_of other_type = "<non-string panic payload>"
message_of (panics_on_drop _) = "<non-string panic payload>"
message_of panics_twice = "<non-string panic payload>"

abbrev pub Call {ℓ κ} : Type ℓ → Type κ → Type (ℓ ⊔ κ)
Call S A = World S → Ended A × World S

module _ {ℓ κ} {S : Type ℓ} {A : Type κ} where
  abbrev pub pure : A → Call S A
  pure a w = (returned a, w)

  abbrev pub after {μ} : {B : Type μ} → Ended A → World S → (A → Call S B) → Ended B × World S
  after (returned a) w k = k a w
  after (unwound p) w k = (unwound p, w)
  after aborted w k = (aborted, w)
  after undefined w k = (undefined, w)

  infixl 5 ◌>>=◌
  abbrev pub ◌>>=◌ {μ} : {B : Type μ} → Call S A → (A → Call S B) → Call S B
  m >>= k = λ w. after (m w).0 (m w).1 k

  abbrev with_user : World S → Ended A × S → Ended A × World S
  with_user w (e, s) = (e, record w { user = s })

  -- User code runs on the user's state.
  abbrev pub user_code : (S → Ended A × S) → Call S A
  user_code f w = with_user w (f w.user)

  abbrev pub catch_unwind : Call S A → Call S (Result A Payload)
  catch_unwind m w = (caught (m w).0, (m w).1)

module _ {ℓ} {S : Type ℓ} where
  abbrev pub drop_payload : Payload → Call S (Unit {0})
  drop_payload p w = (destructor p, record w { dropped = p ∷ w.dropped })

  abbrev pub forget : Payload → Call S (Unit {0})
  forget p w = (returned tt, record w { leaked = p ∷ w.leaked })

  -- `eprintln!` panics with a `String` if stderr cannot be written.
  abbrev pub eprintln : String → String → Call S (Unit {0})
  eprintln site message w =
      if w.stderr_closed
      then (unwound (string_text "failed printing to stderr"), w)
      else (returned tt, record w { stderr = w.stderr ++ (site, message) ∷ [] })

  abbrev pub forget_error : Result (Unit {0}) Payload → Call S (Unit {0})
  forget_error (ok _) = pure tt
  forget_error (err p) = forget p

  unfoldable pub drop_payload_best_effort : Payload → Call S (Unit {0})
  drop_payload_best_effort p = catch_unwind (drop_payload p) >>= forget_error

  abbrev pub drop_error : Result (Unit {0}) Payload → Call S (Unit {0})
  drop_error (ok _) = pure tt
  drop_error (err p) = drop_payload_best_effort p

  unfoldable pub log_callback_panic : String → Payload → Call S (Unit {0})
  log_callback_panic site p = catch_unwind (eprintln site (message_of p)) >>= drop_error

module _ {ℓ κ} {S : Type ℓ} {A : Type κ} where
  -- Inside the outer boundary: what `f` panicked with is logged and dropped.
  abbrev pub inner_result : String → Result A Payload → Call S (Option A)
  inner_result site (ok a) = pure (some a)
  inner_result site (err p) = log_callback_panic site p >>= λ _. drop_payload p >>= λ _. pure none

  abbrev pub boundary_result : String → Result (Option A) Payload → Call S (Option A)
  boundary_result site (ok o) = pure o
  boundary_result site (err p) =
      log_callback_panic site p >>= λ _. drop_payload_best_effort p >>= λ _. pure none

  unfoldable pub catch_user_panic_result : String → Call S A → Call S (Option A)
  catch_user_panic_result site f =
      catch_unwind (catch_unwind f >>= inner_result site) >>= boundary_result site

module _ {ℓ} {S : Type ℓ} where
  unfoldable pub catch_user_panic : String → Call S (Unit {0}) → Call S (Unit {0})
  catch_user_panic site f = catch_user_panic_result site f >>= λ _. pure tt

abbrev pub is_some {ℓ} : {A : Type ℓ} → Option A → Bool
is_some none = false
is_some (some _) = true

module _ {ℓ κ} {S : Type ℓ} {R : Type κ} where
  -- The result is kept if every phase succeeded, and is destroyed otherwise.
  abbrev pub conclude : String → (R → Call S (Unit {0})) → Bool → Option R → Call S (Option R)
  conclude site drop_result true o = pure o
  conclude site drop_result false none = pure none
  conclude site drop_result false (some r) =
      catch_user_panic site (drop_result r) >>= λ _. pure none

  -- The state that the closures share is the user's; the last four arguments are the destructors of
  -- the two closures, of the state and of a result.
  unfoldable pub catch_user_panic_result_with_cleanup :
      String
      → Call S R
      → (cleanup drop_f drop_cleanup drop_state : Call S (Unit {0})) → (R → Call S (Unit {0}))
      → Call S (Option R)
  catch_user_panic_result_with_cleanup site f cleanup drop_f drop_cleanup drop_state drop_result =
      catch_user_panic_result site f >>= λ result.
      catch_user_panic_result site cleanup >>= λ cleaned.
      catch_user_panic_result site drop_f >>= λ dropped_f.
      catch_user_panic_result site drop_cleanup >>= λ dropped_cleanup.
      catch_user_panic_result site drop_state >>= λ dropped_state.
      conclude site drop_result
        (is_some dropped_f
          && (is_some cleaned && (is_some dropped_cleanup && is_some dropped_state)))
        result
