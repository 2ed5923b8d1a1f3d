-- ===== src/FourCharCode.antt =====
-- src/four_char_code.rs: a code of four bytes, kept as the `u32` of its big-endian bytes.
-- A slice of bytes or a string is the list of its bytes.
pub mod Display
mod Examples
use doom_fish_utils.Base.{
  ℕ, ◌+◌, ◌*◌, ◌/◌, ◌%◌, ◌<◌, ◌≡◌, refl, sym, ap, ◌∙◌, subst, ◌⊎◌, List, [], ◌∷◌, Option, none,
  some, Bool, true, false, not, ◌&&◌, ◌==◌, ltb, if◌then◌else◌, length, arith, Outcome, returned,
  panicked, Result, ok, err, and_then, ==→eq, eq→==, Bool-cases, inl, inr, ◌≢◌, ne→==, ℕ_discrete,
}
use Prim.Native.String.{String}

-- `[u8; 4]`.
pub record FourBytes : Type 0 where
  b0 : ℕ
  b1 : ℕ
  b2 : ℕ
  b3 : ℕ

-- `u32::from_be_bytes` and `to_be_bytes`.
unfoldable pub from_be_bytes : FourBytes → ℕ
from_be_bytes b = b.b0 * 16777216 + b.b1 * 65536 + b.b2 * 256 + b.b3

unfoldable to_be_bytes : ℕ → FourBytes
to_be_bytes x = record {
  b0 = x / 16777216 % 256;
  b1 = x / 65536 % 256;
  b2 = x / 256 % 256;
  b3 = x % 256;
}

pub record FourCharCode : Type 0 where
  code : ℕ

unfoldable pub from_bytes : FourBytes → FourCharCode
unfolding from_be_bytes
from_bytes bytes = record { code = from_be_bytes bytes }

unfoldable pub as_u32 : FourCharCode → ℕ
as_u32 c = c.code

unfoldable pub as_bytes : FourCharCode → FourBytes
unfolding to_be_bytes
as_bytes c = to_be_bytes c.code

unfoldable pub from_u32 : ℕ → FourCharCode
from_u32 value = record { code = value }

unfoldable pub equals : FourCharCode → FourCharCode → Bool
equals c d = c.code == d.code

-- `[bytes[0], bytes[1], bytes[2], bytes[3]]`.
unfoldable first_four : List ℕ → Outcome FourBytes
first_four (a ∷ b ∷ c ∷ d ∷ _) = returned (record { b0 = a; b1 = b; b2 = c; b3 = d })
first_four _ = panicked "index out of bounds"

unfoldable pub from_slice : List ℕ → Outcome (Option FourCharCode)
unfolding first_four from_bytes
from_slice bytes =
    if not (length bytes == 4)
    then returned none
    else and_then (first_four bytes) (λ b. returned (some (from_bytes b)))

-- `str::is_ascii`.
unfoldable pub is_ascii : List ℕ → Bool
is_ascii [] = true
is_ascii (b ∷ bs) = ltb b 128 && is_ascii bs

unfoldable pub from_str : List ℕ → Outcome (Result FourCharCode String)
unfolding first_four from_bytes is_ascii
from_str s =
    if not (length s == 4)
    then returned (err "FourCharCode must be exactly 4 characters")
    else if not (is_ascii s)
    then returned (err "FourCharCode must contain only ASCII characters")
    else and_then (first_four s) (λ b. returned (ok (from_bytes b)))

-- The bytes of an array, and the `u8` and `u32` ranges.
abbrev pub to_list : FourBytes → List ℕ
to_list b = b.b0 ∷ b.b1 ∷ b.b2 ∷ b.b3 ∷ []

abbrev pub AreBytes : List ℕ → Type 0
AreBytes [] = Unit {0}
AreBytes (b ∷ bs) = (b < 256) × AreBytes bs

abbrev pub IsCode : FourCharCode → Type 0
IsCode c = c.code < 4294967296

-- The four bytes of a code give the code back.
pub from_bytes-as_bytes : (c : FourCharCode) → IsCode c → from_bytes (as_bytes c) ≡ c
unfolding from_bytes as_bytes from_be_bytes to_be_bytes
from_bytes-as_bytes c h =
    ap (λ x. record { code = x })
      (let e : c.code / 16777216 % 256 * 16777216
              + c.code / 65536 % 256 * 65536
              + c.code / 256 % 256 * 256
              + c.code % 256
            ≡ c.code =
          omega arith in
        e)

bytes_of_sum :
    (a b c d : ℕ)
    → a < 256
    → b < 256
    → c < 256
    → d < 256
    → to_be_bytes (a * 16777216 + b * 65536 + c * 256 + d)
      ≡ record { b0 = a; b1 = b; b2 = c; b3 = d }
unfolding to_be_bytes
bytes_of_sum a b c d ha hb hc hd =
    let e0 : (a * 16777216 + b * 65536 + c * 256 + d) / 16777216 % 256 ≡ a = omega arith in
    let e1 : (a * 16777216 + b * 65536 + c * 256 + d) / 65536 % 256 ≡ b = omega arith in
    let e2 : (a * 16777216 + b * 65536 + c * 256 + d) / 256 % 256 ≡ c = omega arith in
    let e3 : (a * 16777216 + b * 65536 + c * 256 + d) % 256 ≡ d = omega arith in
    rw (e0, e1, e2, e3) refl

-- Four bytes are those of the code that they make, and that code fits the `u32`.
pub as_bytes-from_bytes :
    (b : FourBytes) → AreBytes (to_list b) → (as_bytes (from_bytes b) ≡ b) × IsCode (from_bytes b)
unfolding from_bytes as_bytes from_be_bytes
as_bytes-from_bytes b (h0, (h1, (h2, (h3, _)))) =
    (bytes_of_sum b.b0 b.b1 b.b2 b.b3 h0 h1 h2 h3, omega arith)

-- A code whose bytes are those of the list.
abbrev pub Reads : List ℕ → FourCharCode → Type 0
Reads s c = IsCode c × (to_list (as_bytes c) ≡ s)

-- Only four bytes are the bytes of a code.
length-Reads : (s : List ℕ) (c : FourCharCode) → Reads s c → length s ≡ 4
length-Reads s c (_, e) = subst (λ x. length x ≡ 4) e refl

from_bytes-Reads : (b : FourBytes) (c : FourCharCode) → Reads (to_list b) c → from_bytes b ≡ c
from_bytes-Reads b c (h, e) =
    let p : b ≡ as_bytes c = cc (e) in ap from_bytes p ∙ from_bytes-as_bytes c h

Reads-of_from_bytes : (b : FourBytes) → AreBytes (to_list b) → Reads (to_list b) (from_bytes b)
Reads-of_from_bytes b h = let (e, c) = as_bytes-from_bytes b h in (c, ap to_list e)

-- Four items can be read at the four indices.
first_four_lem :
    (s : List ℕ) → length s ≡ 4 → (b : FourBytes) × (s ≡ to_list b) × (first_four s ≡ returned b)
unfolding first_four
first_four_lem [] e = cc (e)
first_four_lem (a ∷ []) e = absurd (omega arith)
first_four_lem (a ∷ b ∷ []) e = absurd (omega arith)
first_four_lem (a ∷ b ∷ c ∷ []) e = absurd (omega arith)
first_four_lem (a ∷ b ∷ c ∷ d ∷ []) e = (record { b0 = a; b1 = b; b2 = c; b3 = d }, refl, refl)
first_four_lem (a ∷ b ∷ c ∷ d ∷ x ∷ s) e = absurd (omega arith)

-- A slice gives a code whose bytes are those of the slice if there are four of them, and none
-- otherwise; it never panics.
pub from_slice_lem :
    (s : List ℕ)
    → AreBytes s
    → ((length s ≢ 4) × (from_slice s ≡ returned none))
      ⊎ ((c : FourCharCode) × (from_slice s ≡ returned (some c)) × Reads s c)
unfolding from_slice
from_slice_lem s h = elim (ℕ_discrete (length s) 4) [
  | Dec.yes e ↦
      let (b, p, q) = first_four_lem s e in
      inr (
        from_bytes b,
        rw (eq→== (length s) 4 e, q) refl,
        (let r : Reads (to_list b) (from_bytes b) = Reads-of_from_bytes b (subst AreBytes p h) in
            subst (λ x. Reads x (from_bytes b)) (sym p) r),
      )
  | Dec.no n ↦ inl (n, rw (ne→== (length s) 4 n) refl)
]

-- A string of bytes is refused for its length first, then for a byte that is not ASCII, and
-- otherwise gives the code whose bytes are those of the string; parsing never panics.
pub from_str_lem :
    (s : List ℕ)
    → AreBytes s
    → ((length s ≢ 4) × (from_str s ≡ returned (err "FourCharCode must be exactly 4 characters")))
      ⊎ (((length s ≡ 4)
            × (is_ascii s ≡ false)
            × (from_str s ≡ returned (err "FourCharCode must contain only ASCII characters")))
          ⊎ ((c : FourCharCode) × (is_ascii s ≡ true) × (from_str s ≡ returned (ok c)) × Reads s c))
unfolding from_str
from_str_lem s h = elim (ℕ_discrete (length s) 4) [
  | Dec.yes e ↦
      let (b, p, q) = first_four_lem s e in
      elim (Bool-cases (is_ascii s)) [
        | inl a ↦ inr (
            inr (
              from_bytes b,
              a,
              rw (eq→== (length s) 4 e, a, q) refl,
              (let r : Reads (to_list b) (from_bytes b) =
                    Reads-of_from_bytes b (subst AreBytes p h) in
                  subst (λ x. Reads x (from_bytes b)) (sym p) r),
            ))
        | inr a ↦ inr (inl (e, a, rw (eq→== (length s) 4 e, a) refl))
      ]
  | Dec.no n ↦ inl (n, rw (ne→== (length s) 4 n) refl)
]

-- Two codes are equal when their numbers are.
pub equals_lem : (c d : FourCharCode) → equals c d ≡ true → c ≡ d
unfolding equals
equals_lem c d e = ap (λ x. record { code = x }) (==→eq c.code d.code e)
