-- ===== src/FfiString/Examples.antt =====
-- src/ffi_string.rs on the buffer of the doc comment, and on memory that C code hands over.
use doom_fish_utils.Base.{
  ℕ, ◌≡◌, refl, Bool, true, none, some, List, [], ◌∷◌, ◌++◌, if◌then◌else◌, replicate, arith,
}
use doom_fish_utils.PanicSafe.{Ended, returned, unwound, other_type}
use doom_fish_utils.FfiString.{
  ptr_to, memory_at, ffi_string_from_buffer, ffi_string_owned, take_owned_cstring_c, c_str,
  until_nul,
}
use doom_fish_utils.FfiString.Buffer.{terminated, decoded, ffi_string_from_buffer_lem}
use doom_fish_utils.FfiString.Owned.{ffi_string_owned_lem}

abbrev hello : List ℕ
hello = 104 ∷ 101 ∷ 108 ∷ 108 ∷ 111 ∷ []

abbrev memory_left : ℕ → Ended (Unit {0})
memory_left n = returned tt

-- The bytes of the buffer behind the NUL stay as they were.
abbrev writes_hello : List ℕ → Ended (Bool × List ℕ)
writes_hello buffer = returned (true, hello ++ 0 ∷ replicate 3 0)

ffi_string_from_buffer_lem_example :
    ffi_string_from_buffer memory_left 9 writes_hello
    ≡ (if true then decoded memory_left (some hello) else returned none)
ffi_string_from_buffer_lem_example =
    ffi_string_from_buffer_lem memory_left 9 writes_hello true (hello ++ 0 ∷ replicate 3 0)
      (some hello) (omega arith) refl refl refl (terminated hello (replicate 3 0) refl)

-- The allocation of the copy panics.
abbrev no_memory_left : ℕ → Ended (Unit {0})
no_memory_left n = unwound other_type

ffi_string_owned_lem_example :
    ((ffi_string_owned (returned tt) no_memory_left (returned (ptr_to (hello ++ 0 ∷ [])))).1
      ≡ record { bytes = none; frees = 1 })
    × ((ffi_string_owned (returned tt) no_memory_left (returned (ptr_to (hello ++ 0 ∷ [])))).0
        ≡ decoded no_memory_left (some hello))
ffi_string_owned_lem_example =
    ffi_string_owned_lem (returned tt) no_memory_left hello [] refl (λ n e. cc (e)) (λ n e. cc (e))

-- Without a guard the memory is not freed.
leaked :
    take_owned_cstring_c (returned tt) no_memory_left (ptr_to (hello ++ 0 ∷ []))
    ≡ (unwound other_type, memory_at (ptr_to (hello ++ 0 ∷ [])))
unfolding take_owned_cstring_c c_str until_nul
leaked = refl
