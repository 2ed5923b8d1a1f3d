-- ===== src/Completion.antt =====
-- src/completion.rs: contexts of one-shot callbacks. The `Arc` that a handle and the callback share is
-- its allocation: the count of references, the flag that rejects a second callback, what the mutex
-- guards, and how often it was destroyed. Code that reaches it after the last reference is undefined.
-- A string is the list of its bytes. A poisoned lock is used as if it were not.
pub mod Waiting
pub mod References
pub mod Blocking
pub mod Invariant
pub mod Delivery
pub mod Polling
pub mod Wake
pub mod Ready
pub mod Callback
mod Examples
use doom_fish_utils.Base.{
  ℕ, suc, ◌+◌, ◌-◌, Bool, true, false, ◌==◌, Option, none, some, List, [], ◌∷◌, Result, ok, err,
  if◌then◌else◌,
}
use doom_fish_utils.PanicSafe.{
  Ended, returned, unwound, aborted, undefined, World, Call, ◌>>=◌, pure, eprintln, user_code,
  catch_user_panic_result,
}
use Prim.Native.String.{String}
use doom_fish_utils.Base.Utf8.{is_utf8}
use doom_fish_utils.FfiString
use doom_fish_utils.FfiString.{Memory, memory_at, c_str, then_with}

pub data Ptr : Type 0 where
  null_ptr : Ptr
  inner_ptr : Ptr

-- `SyncCompletionInner` and `AsyncCompletionInner` differ in what the mutex guards.
pub record Inner {ℓ} (S : Type ℓ) : Type ℓ where
  pub strong : ℕ
  pub consumed : Bool
  pub state : S
  pub destroyed : ℕ

abbrev pub Answer {ℓ} : Type ℓ → Type ℓ
Answer T = Result T (List ℕ)

pub record SyncState {ℓ} (T : Type ℓ) : Type ℓ where
  pub result : Option (Answer T)

pub record AsyncState {ℓ} (T : Type ℓ) : Type ℓ where
  pub result : Option (Answer T)
  pub waker : Option ℕ

module _ {ℓ} {S : Type ℓ} where
  -- The handle and the raw pointer hold a reference each.
  abbrev shared : S → Inner S
  shared state = record { strong = 2; consumed = false; state = state; destroyed = 0 }

  unfoldable pub drop_arc : Inner S → Ended (Unit {0}) × Inner S
  drop_arc a =
      if a.strong == 0
      then (undefined, a)
      else (if a.strong == 1
          then (returned tt, record a { strong = 0; destroyed = suc a.destroyed })
          else (returned tt, record a { strong = a.strong - 1 }))

  -- `consumed.swap(true)` through the raw pointer.
  unfoldable pub swap_consumed : Inner S → Ended Bool × Inner S
  swap_consumed a =
      if a.strong == 0 then (undefined, a) else (returned a.consumed, record a { consumed = true })

  -- A call that loses the swap reports it on stderr, which may panic, and the one that wins runs the
  -- rest, and drops the callback's reference when that returns.
  module _ {κ} {A : Type κ} (name : String) (lost : A) (section : Inner S → A × Inner S) where
    abbrev dropped_after : A → Ended (Unit {0}) × Inner S → Ended A × Inner S
    dropped_after x (e, a) = (then_with e (λ _. returned x), a)

    abbrev won : Inner S → Ended A × Inner S
    won a = dropped_after (section a).0 (drop_arc (section a).1)

    abbrev admitted : Bool → Call (Inner S) A
    admitted true =
        eprintln name "callback fired more than once; ignoring duplicate to avoid double-free"
        >>= λ _. pure lost
    admitted false = user_code won

    unfoldable pub complete_once : Ptr → Call (Inner S) A
    unfolding swap_consumed
    complete_once null_ptr = pure lost
    complete_once inner_ptr = user_code swap_consumed >>= admitted

-- A stored waker that wakes the same task is kept.
abbrev pub kept_waker : Option ℕ → ℕ → Option ℕ
kept_waker none waker = some waker
kept_waker (some existing) waker = if existing == waker then some existing else some waker

module _ {ℓ} {T : Type ℓ} where
  unfoldable pub new : Inner (SyncState T) × Ptr
  new = (shared (record { result = none }), inner_ptr)

  abbrev pub context_ptr : Inner (SyncState T) → Ptr
  context_ptr a = inner_ptr

  -- `Default` lets go of the raw pointer, whose reference stays counted.
  abbrev pub default : Inner (SyncState T)
  default = new.0

  unfoldable pub store : Answer T → Inner (SyncState T) → Inner (SyncState T)
  store r a = record a { state = record { result = some r } }

  -- Whether a waiting thread is notified.
  unfoldable pub complete_with_result : Ptr → Answer T → Call (Inner (SyncState T)) Bool
  unfolding complete_once
  complete_with_result context r =
      complete_once "SyncCompletion" false (λ a. (true, store r a)) context

  abbrev pub complete_ok : Ptr → T → Call (Inner (SyncState T)) Bool
  complete_ok context value = complete_with_result context (ok value)

  abbrev pub complete_err : Ptr → List ℕ → Call (Inner (SyncState T)) Bool
  complete_err context error = complete_with_result context (err error)

  -- What a waiter finds under the lock, which it takes out.
  unfoldable pub take_result : Inner (SyncState T) → Option (Answer T) × Inner (SyncState T)
  take_result a = (a.state.result, record a { state = record { result = none } })

  unfoldable pub create : Inner (AsyncState T) × Ptr
  create = (shared (record { result = none; waker = none }), inner_ptr)

  -- The result is stored, and the waker taken.
  unfoldable pub store_async : Answer T → Inner (AsyncState T) → Option ℕ × Inner (AsyncState T)
  store_async r a = (a.state.waker, record a { state = record { result = some r; waker = none } })

  -- The waker that is called.
  unfoldable pub complete_async : Ptr → Answer T → Call (Inner (AsyncState T)) (Option ℕ)
  unfolding complete_once
  complete_async context r = complete_once "AsyncCompletion" none (store_async r) context

  abbrev pub polled :
      ℕ → Option (Answer T) → Inner (AsyncState T) → Option (Answer T) × Inner (AsyncState T)
  polled waker (some r) a = (some r, record a { state = record a.state { result = none } })
  polled waker none a =
      (none, record a { state = record a.state { waker = kept_waker a.state.waker waker } })

  unfoldable pub poll : ℕ → Inner (AsyncState T) → Option (Answer T) × Inner (AsyncState T)
  poll waker a = polled waker a.state.result a

-- The bytes of "Unknown error".
abbrev pub unknown_error : List ℕ
unknown_error = 85 ∷ 110 ∷ 107 ∷ 110 ∷ 111 ∷ 119 ∷ 110 ∷ 32 ∷ 101 ∷ 114 ∷ 114 ∷ 111 ∷ 114 ∷ []

unfoldable pub error_from_cstr : FfiString.Ptr → Ended (List ℕ)
error_from_cstr FfiString.null_ptr = returned unknown_error
error_from_cstr (FfiString.ptr_to bs) =
    then_with (c_str (memory_at (FfiString.ptr_to bs)))
      (λ s. returned (if is_utf8 s then s else unknown_error))

abbrev complete_failed : Ptr → Ended (List ℕ) → Call (Inner (SyncState (Unit {0}))) Bool
complete_failed context (returned error) w = complete_err context error w
complete_failed context (unwound p) w = (unwound p, w)
complete_failed context aborted w = (aborted, w)
complete_failed context undefined w = (undefined, w)

abbrev pub unit_answer : Ptr → Bool → FfiString.Ptr → Call (Inner (SyncState (Unit {0}))) Bool
unit_answer context true msg = complete_ok context tt
unit_answer context false msg = complete_failed context (error_from_cstr msg)

-- `UnitCompletion::callback`; the answer says whether a waiting thread is notified.
unfoldable pub callback :
    Ptr → Bool → FfiString.Ptr → Call (Inner (SyncState (Unit {0}))) (Option Bool)
callback context success msg =
    catch_user_panic_result "UnitCompletion::callback" (unit_answer context success msg)
