-- ===== src/FfiString.antt =====
-- src/ffi_string.rs: strings that C code writes into a buffer, or hands over in memory of its own.
-- A string is the list of its UTF-8 bytes, and an `i8` the byte with the same bits.
pub mod Buffer
pub mod Owned
mod Examples
use Prim.Native.String.{String}
use doom_fish_utils.Base.{
  ℕ, zero, suc, ◌+◌, ◌^◌, Bool, true, false, ◌==◌, leb, ltb, Option, none, some, List, [], ◌∷◌,
  ◌++◌, if◌then◌else◌, length, take, drop, replicate,
}
use doom_fish_utils.Base.Utf8.{from_utf8_lossy}
use doom_fish_utils.PanicSafe.{Payload, str_text, Ended, returned, unwound, aborted, undefined}

unfoldable pub default_buffer_size : ℕ
default_buffer_size = 1024

unfoldable pub small_buffer_size : ℕ
small_buffer_size = 256

unfoldable pub stack_buffer_bytes : ℕ
stack_buffer_bytes = 256

abbrev pub prepend : ℕ → Option (List ℕ) → Option (List ℕ)
prepend b none = none
prepend b (some bs) = some (b ∷ bs)

-- The bytes up to the first NUL, if there is one.
unfoldable pub until_nul : List ℕ → Option (List ℕ)
until_nul [] = none
until_nul (b ∷ bs) = let rest = until_nul bs in if b == 0 then some [] else prepend b rest

module _ {ℓ κ} {A : Type ℓ} {B : Type κ} where
  abbrev pub then_with : Ended A → (A → Ended B) → Ended B
  then_with (returned a) f = f a
  then_with (unwound p) f = unwound p
  then_with aborted f = aborted
  then_with undefined f = undefined

abbrev non_empty : List ℕ → Option (List ℕ)
non_empty [] = none
non_empty (b ∷ bs) = some (b ∷ bs)

-- The default of `String` for a missing one.
abbrev unwrap_or_default : Option (List ℕ) → List ℕ
unwrap_or_default none = []
unwrap_or_default (some s) = s

abbrev or_default : Ended (Option (List ℕ)) → Ended (List ℕ)
or_default o = then_with o (λ s. returned (unwrap_or_default s))

-- The allocation of so many bytes, more than none, may fail, with the end that the allocator gives it.
module _ (allocate : ℕ → Ended (Unit {0})) where
  abbrev reserve : ℕ → Ended (Unit {0})
  reserve zero = returned tt
  reserve (suc n) = allocate (suc n)

  unfoldable pub owned_lossy : List ℕ → Ended (List ℕ)
  owned_lossy bs = then_with (reserve (length bs)) (λ _. returned (from_utf8_lossy bs))

  abbrev parsed : Option (List ℕ) → Ended (Option (List ℕ))
  parsed none = returned none
  parsed (some bs) = then_with (owned_lossy bs) (λ s. returned (non_empty s))

  unfoldable pub parse_buffer : List ℕ → Ended (Option (List ℕ))
  parse_buffer buffer = parsed (until_nul buffer)

  -- The C function sees the bytes that it was given the length of, and leaves others there. It ends
  -- with its success and with these bytes.
  abbrev read_stack : ℕ → Bool × List ℕ → Ended (Option (List ℕ))
  read_stack buffer_size (false, written) = returned none
  read_stack buffer_size (true, written) =
      parse_buffer (take buffer_size (written ++ drop buffer_size (replicate stack_buffer_bytes 0)))

  abbrev read_heap : Bool × List ℕ → Ended (Option (List ℕ))
  read_heap (false, buffer) = returned none
  read_heap (true, buffer) = parse_buffer buffer

  unfoldable pub ffi_string_from_buffer :
      ℕ → (List ℕ → Ended (Bool × List ℕ)) → Ended (Option (List ℕ))
  ffi_string_from_buffer buffer_size ffi_call =
      if leb buffer_size stack_buffer_bytes
      then then_with (ffi_call (take buffer_size (replicate stack_buffer_bytes 0)))
          (read_stack buffer_size)
      else (if leb (2 ^ 63) buffer_size
          then unwound (str_text "capacity overflow")
          else then_with (allocate buffer_size)
              (λ _. then_with (ffi_call (replicate buffer_size 0)) read_heap))

  unfoldable pub ffi_string_from_buffer_or_empty :
      ℕ → (List ℕ → Ended (Bool × List ℕ)) → Ended (List ℕ)
  ffi_string_from_buffer_or_empty buffer_size ffi_call =
      or_default (ffi_string_from_buffer buffer_size ffi_call)

-- What C code returns: null, or a pointer to bytes that it allocated.
pub data Ptr : Type 0 where
  null_ptr : Ptr
  ptr_to : List ℕ → Ptr

-- That memory until it is freed, and how often it was freed.
pub record Memory : Type 0 where
  pub bytes : Option (List ℕ)
  pub frees : ℕ

abbrev pub memory_at : Ptr → Memory
memory_at null_ptr = record { bytes = none; frees = 0 }
memory_at (ptr_to bs) = record { bytes = some bs; frees = 0 }

-- `CStr::from_ptr`: the bytes up to the NUL, which must be in the memory.
abbrev within_memory : Option (List ℕ) → Ended (List ℕ)
within_memory none = undefined
within_memory (some s) = returned s

abbrev string_in : Option (List ℕ) → Ended (List ℕ)
string_in none = undefined
string_in (some bs) = within_memory (until_nul bs)

unfoldable pub c_str : Memory → Ended (List ℕ)
c_str m = string_in m.bytes

-- The function that frees the memory, and how it ends. Freeing twice is undefined.
module _ (freed : Ended (Unit {0})) where
  abbrev free_bytes : Option (List ℕ) → Memory → Ended (Unit {0}) × Memory
  free_bytes none m = (undefined, m)
  free_bytes (some _) m = (freed, record { bytes = none; frees = suc m.frees })

  unfoldable pub free_memory : Memory → Ended (Unit {0}) × Memory
  free_memory m = free_bytes m.bytes m

  module _ {ℓ} {A : Type ℓ} where
    -- A panic while another one unwinds aborts the process.
    abbrev while_unwinding : Payload → Ended (Unit {0}) → Ended A
    while_unwinding p (returned _) = unwound p
    while_unwinding p (unwound _) = aborted
    while_unwinding p aborted = aborted
    while_unwinding p undefined = undefined

    -- `FreeGuard`: the memory is freed when the code below the guard returns or unwinds.
    unfoldable pub guarded : Ended A → Memory → Ended A × Memory
    guarded (returned a) m = (then_with (free_memory m).0 (λ _. returned a), (free_memory m).1)
    guarded (unwound p) m = (while_unwinding p (free_memory m).0, (free_memory m).1)
    guarded aborted m = (aborted, m)
    guarded undefined m = (undefined, m)

  module _ (allocate : ℕ → Ended (Unit {0})) where
    abbrev text_of : List ℕ → Ended (Option (List ℕ))
    text_of [] = returned none
    text_of (b ∷ bs) = then_with (owned_lossy allocate (b ∷ bs)) (λ s. returned (some s))

    abbrev take_at : Ptr → Ended (Option (List ℕ)) × Memory
    take_at null_ptr = (returned none, memory_at null_ptr)
    take_at (ptr_to bs) =
        guarded (then_with (c_str (memory_at (ptr_to bs))) text_of) (memory_at (ptr_to bs))

    abbrev called : Ended Ptr → Ended (Option (List ℕ)) × Memory
    called (returned p) = take_at p
    called (unwound p) = (unwound p, memory_at null_ptr)
    called aborted = (aborted, memory_at null_ptr)
    called undefined = (undefined, memory_at null_ptr)

    unfoldable pub ffi_string_owned : Ended Ptr → Ended (Option (List ℕ)) × Memory
    ffi_string_owned ffi_call = called ffi_call

    unfoldable pub ffi_string_owned_or_empty : Ended Ptr → Ended (List ℕ) × Memory
    ffi_string_owned_or_empty ffi_call =
        (or_default (ffi_string_owned ffi_call).0, (ffi_string_owned ffi_call).1)

    unfoldable pub take_owned_cstring : Ptr → Ended (Option (List ℕ)) × Memory
    take_owned_cstring null_ptr = (returned none, memory_at null_ptr)
    take_owned_cstring (ptr_to bs) = ffi_string_owned (returned (ptr_to bs))

    abbrev copied : List ℕ → Ended (List ℕ)
    copied bs = then_with (reserve allocate (length bs)) (λ _. returned bs)

    abbrev freed_then : Ended (List ℕ) → Memory → Ended (Option (List ℕ)) × Memory
    freed_then (returned bs) m = (then_with (free_memory m).0 (λ _. text_of bs), (free_memory m).1)
    freed_then (unwound p) m = (unwound p, m)
    freed_then aborted m = (aborted, m)
    freed_then undefined m = (undefined, m)

    -- The bytes are copied first, and there is no guard.
    unfoldable pub take_owned_cstring_c : Ptr → Ended (Option (List ℕ)) × Memory
    take_owned_cstring_c null_ptr = (returned none, memory_at null_ptr)
    take_owned_cstring_c (ptr_to bs) =
        freed_then (then_with (c_str (memory_at (ptr_to bs))) copied) (memory_at (ptr_to bs))
