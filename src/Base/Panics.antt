-- ===== src/Base/Panics.antt =====
-- How a Rust call ends: it returns, it panics with a message, or its behaviour is undefined, since it
-- reads memory that holds no value. A method on `&mut self` gives this
-- beside the state that it leaves, since the state stays visible after a caught panic.
use Prim.Native.String.{String}
use mathlib.Core.Path.{◌≡◌, refl}

pub data Outcome {ℓ} (A : Type ℓ) : Type ℓ where
  returned : A → Outcome A
  panicked : String → Outcome A
  undefined : Outcome A

pub data Result {ℓ κ} (A : Type ℓ) (E : Type κ) : Type (ℓ ⊔ κ) where
  ok : A → Result A E
  err : E → Result A E

-- The rest of a sequence runs if the call returned.
abbrev pub and_then {ℓ κ} : {A : Type ℓ} {B : Type κ} → Outcome A → (A → Outcome B) → Outcome B
and_then (returned a) f = f a
and_then (panicked message) f = panicked message
and_then undefined f = undefined

pub and_then-eq-returned {ℓ κ} :
    {A : Type ℓ} {B : Type κ} (o : Outcome A) (f : A → Outcome B) (b : B)
    → and_then o f ≡ returned b
    → (a : A) × (o ≡ returned a) × (f a ≡ returned b)
and_then-eq-returned (returned a) f b e = (a, refl, e)
and_then-eq-returned (panicked message) f b e = cc
and_then-eq-returned undefined f b e = cc
