-- ===== src/FfiString/Owned.antt =====
-- src/ffi_string.rs: memory that C code hands over is freed exactly once.
use doom_fish_utils.Base.{
  ℕ, suc, ◌≡◌, refl, ◌≢◌, ap, sym, false, none, some, List, [], ◌∷◌, ◌++◌, length, Option-cases,
  inl, inr,
}
use doom_fish_utils.Base.Utf8.{from_utf8_lossy}
use doom_fish_utils.PanicSafe.{Ended, returned, unwound, aborted, undefined}
use doom_fish_utils.FfiString.{
  then_with, until_nul, owned_lossy, Ptr, null_ptr, ptr_to, c_str, free_memory, guarded, text_of,
  freed_then, copied, memory_at, ffi_string_owned, take_owned_cstring, take_owned_cstring_c,
}
use doom_fish_utils.FfiString.Buffer.{has_nul, decoded, until_nul-append, then_with_assoc}

-- The code below the guard ends, without aborting the process.
guarded_lem :
    {A : Type 0} (freed : Ended (Unit {0})) (e : Ended A) (bs : List ℕ)
    → e ≢ aborted
    → e ≢ undefined
    → ((guarded freed e (record { bytes = some bs; frees = 0 })).1
        ≡ record { bytes = none; frees = 1 })
      × ((guarded (returned tt) e (record { bytes = some bs; frees = 0 })).0 ≡ e)
unfolding guarded free_memory
guarded_lem freed (returned a) bs h g = (refl, refl)
guarded_lem freed (unwound p) bs h g = (refl, refl)
guarded_lem freed aborted bs h g = absurd (h refl)
guarded_lem freed undefined bs h g = absurd (g refl)

then_with-ends :
    {A B : Type 0} (e : Ended A) (b : A → B)
    → e ≢ aborted
    → e ≢ undefined
    → (then_with e (λ a. returned (b a)) ≢ aborted)
      × (then_with e (λ a. returned (b a)) ≢ undefined)
then_with-ends (returned a) b h g = (λ e. cc (e), λ e. cc (e))
then_with-ends (unwound p) b h g = (λ e. cc (e), λ e. cc (e))
then_with-ends aborted b h g = absurd (h refl)
then_with-ends undefined b h g = absurd (g refl)

decoded-ends :
    (allocate : ℕ → Ended (Unit {0})) (s : List ℕ)
    → ((n : ℕ) → allocate n ≢ aborted)
    → ((n : ℕ) → allocate n ≢ undefined)
    → (decoded allocate (some s) ≢ aborted) × (decoded allocate (some s) ≢ undefined)
unfolding decoded
decoded-ends allocate [] h g = (λ e. cc (e), λ e. cc (e))
decoded-ends allocate (b ∷ s) h g =
    then_with-ends (allocate (suc (length s))) (λ _. some (from_utf8_lossy (b ∷ s)))
      (h (suc (length s))) (g (suc (length s)))

text_lem :
    (freed : Ended (Unit {0})) (allocate : ℕ → Ended (Unit {0})) (s : List ℕ)
    → text_of freed allocate s ≡ decoded allocate (some s)
unfolding decoded owned_lossy
text_lem freed allocate [] = refl
text_lem freed allocate (b ∷ s) = then_with_assoc (allocate (suc (length s))) _ _

-- Memory with a string before a NUL is freed exactly once, however the function that frees it ends,
-- and also if the allocation of the copy panics. If freeing returns, the result is the string,
-- decoded, or none if it is empty. The allocator returns or panics.
pub ffi_string_owned_lem :
    (freed : Ended (Unit {0})) (allocate : ℕ → Ended (Unit {0})) (s rest : List ℕ)
    → has_nul s ≡ false
    → ((n : ℕ) → allocate n ≢ aborted)
    → ((n : ℕ) → allocate n ≢ undefined)
    → ((ffi_string_owned freed allocate (returned (ptr_to (s ++ 0 ∷ rest)))).1
        ≡ record { bytes = none; frees = 1 })
      × ((ffi_string_owned (returned tt) allocate (returned (ptr_to (s ++ 0 ∷ rest)))).0
          ≡ decoded allocate (some s))
unfolding ffi_string_owned c_str
ffi_string_owned_lem freed allocate s rest h f g =
    let (a, u) = decoded-ends allocate s f g in
    let (m, _) = guarded_lem freed (decoded allocate (some s)) (s ++ 0 ∷ rest) a u in
    let (_, r) = guarded_lem freed (decoded allocate (some s)) (s ++ 0 ∷ rest) a u in
    rw (until_nul-append s rest h, text_lem freed allocate s) (m, r)

copy_eq :
    (freed : Ended (Unit {0})) (allocate : ℕ → Ended (Unit {0})) (s bs : List ℕ)
    → ((n : ℕ) → allocate n ≡ returned tt)
    → guarded freed (text_of freed allocate s) (memory_at (ptr_to bs))
      ≡ freed_then freed allocate (copied freed allocate s) (memory_at (ptr_to bs))
unfolding guarded free_memory owned_lossy
copy_eq freed allocate [] bs h = refl
copy_eq freed allocate (b ∷ s) bs h =
    let q : text_of freed allocate (b ∷ s) ≡ returned (some (from_utf8_lossy (b ∷ s))) =
      rw (h (suc (length s))) refl in
    rw (h (suc (length s)))
      (ap (λ o. (then_with freed (λ _. o), record { bytes = none; frees = 1 })) (sym q))

-- The two ways to take a string agree on every pointer, its memory included, however the function that
-- frees it ends, if there is memory for the copies.
pub take_owned-agree :
    (freed : Ended (Unit {0})) (allocate : ℕ → Ended (Unit {0})) (ptr : Ptr)
    → ((n : ℕ) → allocate n ≡ returned tt)
    → take_owned_cstring freed allocate ptr ≡ take_owned_cstring_c freed allocate ptr
unfolding take_owned_cstring take_owned_cstring_c ffi_string_owned c_str guarded
take_owned-agree freed allocate null_ptr h = refl
take_owned-agree freed allocate (ptr_to bs) h = elim (Option-cases (until_nul bs)) [
  | inl e ↦ rw e refl
  | inr (s, e) ↦ rw e (copy_eq freed allocate s bs h)
]
