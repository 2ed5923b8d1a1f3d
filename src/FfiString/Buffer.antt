-- ===== src/FfiString/Buffer.antt =====
-- src/ffi_string.rs: what a buffer that C code has filled gives.
use doom_fish_utils.Base.{
  ℕ, suc, ◌^◌, ◌<◌, ◌≤◌, ◌≡◌, refl, ap, ||-eq-false, ==→eq, leb→le, not_le→leb, zero, sym, ◌∙◌,
  subst, inl, inr, Bool, true, false, ◌||◌, ◌==◌, leb, Option, none, some, List, [], ◌∷◌, ◌++◌,
  if◌then◌else◌, length, take, drop, replicate, arith, Bool-cases, take-append_length,
}
use doom_fish_utils.Base.Utf8.{from_utf8_lossy, from_utf8_lossy-cons}
use doom_fish_utils.PanicSafe.{Ended, returned, unwound, aborted, undefined}
use doom_fish_utils.FfiString.{
  then_with, prepend, non_empty, read_stack, read_heap, until_nul, owned_lossy, parse_buffer,
  ffi_string_from_buffer, stack_buffer_bytes,
}

abbrev pub has_nul : List ℕ → Bool
has_nul [] = false
has_nul (b ∷ bs) = (b == 0) || has_nul bs

-- The string that a buffer holds: what stands before its first NUL, or none if it has no NUL.
pub data Content : List ℕ → Option (List ℕ) → Type 0 where
  terminated : (s rest : List ℕ) → has_nul s ≡ false → Content (s ++ 0 ∷ rest) (some s)
  endless : (bs : List ℕ) → has_nul bs ≡ false → Content bs none

-- An empty string counts as none; another one is decoded into memory of its own.
unfoldable pub decoded : (ℕ → Ended (Unit {0})) → Option (List ℕ) → Ended (Option (List ℕ))
decoded allocate none = returned none
decoded allocate (some []) = returned none
decoded allocate (some (b ∷ bs)) =
    then_with (allocate (suc (length bs))) (λ _. returned (some (from_utf8_lossy (b ∷ bs))))

pub until_nul-append : (s rest : List ℕ) → has_nul s ≡ false → until_nul (s ++ 0 ∷ rest) ≡ some s
unfolding until_nul
until_nul-append [] rest h = refl
until_nul-append (b ∷ s) rest h =
    let (e, f) = ||-eq-false (b == 0) (has_nul s) h in rw (e, until_nul-append s rest f) refl

until_nul_endless : (bs : List ℕ) → has_nul bs ≡ false → until_nul bs ≡ none
unfolding until_nul
until_nul_endless [] h = refl
until_nul_endless (b ∷ bs) h =
    let (e, f) = ||-eq-false (b == 0) (has_nul bs) h in rw (e, until_nul_endless bs f) refl

Content-cons :
    (b : ℕ) (bs : List ℕ) (o : Option (List ℕ))
    → (b == 0) ≡ false
    → Content bs o
    → Content (b ∷ bs) (prepend b o)
Content-cons b _ _ e (terminated s rest h) = terminated (b ∷ s) rest (rw e h)
Content-cons b _ _ e (endless bs h) = endless (b ∷ bs) (rw e h)

-- Every buffer is of one of the two forms.
pub Content-of : (bs : List ℕ) → (o : Option (List ℕ)) × Content bs o
Content-of [] = (none, endless [] refl)
Content-of (b ∷ bs) =
    let (o, c) = Content-of bs in
    elim (Bool-cases (b == 0)) [
      | inl e ↦ (
        some [],
        subst (λ a. Content (a ∷ bs) (some [])) (sym (==→eq b 0 e)) (terminated [] bs refl),
      )
      | inr e ↦ (prepend b o, Content-cons b bs o e c)
    ]

non_empty_lossy :
    (b : ℕ) (bs : List ℕ) → non_empty (from_utf8_lossy (b ∷ bs)) ≡ some (from_utf8_lossy (b ∷ bs))
non_empty_lossy b bs = let (c, cs, e) = from_utf8_lossy-cons b bs in rw e refl

end_eq :
    {A B : Type 0} (e : Ended A) (f g : A → Ended B)
    → ((a : A) → f a ≡ g a)
    → then_with e f ≡ then_with e g
end_eq (returned a) f g h = h a
end_eq (unwound p) f g h = refl
end_eq aborted f g h = refl
end_eq undefined f g h = refl

pub then_with_assoc :
    {A B C : Type 0} (e : Ended A) (f : A → Ended B) (g : B → Ended C)
    → then_with (then_with e f) g ≡ then_with e (λ a. then_with (f a) g)
then_with_assoc (returned a) f g = refl
then_with_assoc (unwound p) f g = refl
then_with_assoc aborted f g = refl
then_with_assoc undefined f g = refl

parse_buffer_lem :
    (allocate : ℕ → Ended (Unit {0})) (bs : List ℕ) (o : Option (List ℕ))
    → Content bs o
    → parse_buffer allocate bs ≡ decoded allocate o
unfolding parse_buffer decoded owned_lossy until_nul from_utf8_lossy
parse_buffer_lem allocate _ _ (endless bs h) = rw (until_nul_endless bs h) refl
parse_buffer_lem allocate _ _ (terminated [] rest h) = refl
parse_buffer_lem allocate _ _ (terminated (b ∷ s) rest h) = rw (until_nul-append (b ∷ s) rest h) (
    then_with_assoc (allocate (suc (length s))) _ _
    ∙ end_eq (allocate (suc (length s))) _ _ (λ _. ap returned (non_empty_lossy b s)))

take-replicate : (n m a : ℕ) → n ≤ m → take n (replicate m a) ≡ replicate n a
take-replicate zero m a h = refl
take-replicate (suc n) zero a h = absurd (omega arith)
take-replicate (suc n) (suc m) a h = ap (λ xs. a ∷ xs) (take-replicate n m a (omega arith))

read_stack_lem :
    (allocate : ℕ → Ended (Unit {0})) (n : ℕ) (success : Bool) (written : List ℕ)
    (o : Option (List ℕ))
    → length written ≡ n
    → Content written o
    → read_stack allocate n (success, written)
      ≡ (if success then decoded allocate o else returned none)
read_stack_lem allocate n false written o l c = refl
read_stack_lem allocate n true written o l c =
    rw (← l, take-append_length written (drop (length written) (replicate stack_buffer_bytes 0)))
      (parse_buffer_lem allocate written o c)

read_heap_lem :
    (allocate : ℕ → Ended (Unit {0})) (success : Bool) (written : List ℕ) (o : Option (List ℕ))
    → Content written o
    → read_heap allocate (success, written)
      ≡ (if success then decoded allocate o else returned none)
read_heap_lem allocate false written o c = refl
read_heap_lem allocate true written o c = parse_buffer_lem allocate written o c

-- Through the stack as through the heap: if the C function, on zeros, leaves bytes of the length that
-- it was given and says that it succeeded, the result is the string before the first NUL among these
-- bytes, decoded, and none if it is empty or there is no NUL; if it says that it failed there is no
-- result. Nothing behind the buffer is read. The size is below 2^63 and there is memory for it.
pub ffi_string_from_buffer_lem :
    (allocate : ℕ → Ended (Unit {0})) (buffer_size : ℕ) (ffi_call : List ℕ → Ended (Bool × List ℕ))
    (success : Bool) (written : List ℕ) (o : Option (List ℕ))
    → buffer_size < 2 ^ 63
    → allocate buffer_size ≡ returned tt
    → ffi_call (replicate buffer_size 0) ≡ returned (success, written)
    → length written ≡ buffer_size
    → Content written o
    → ffi_string_from_buffer allocate buffer_size ffi_call
      ≡ (if success then decoded allocate o else returned none)
unfolding ffi_string_from_buffer stack_buffer_bytes
ffi_string_from_buffer_lem allocate n ffi_call success written o small memory called l c =
    elim (Bool-cases (leb n 256)) [
      | inl e ↦
          rw (e, take-replicate n 256 0 (leb→le n 256 e), called)
            (read_stack_lem allocate n success written o l c)
      | inr e ↦
          rw (e, not_le→leb (2 ^ 63) n (omega arith), memory, called)
            (read_heap_lem allocate success written o c)
    ]
