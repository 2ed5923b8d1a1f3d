-- ===== src/Json/Reader/Text.antt =====
-- src/json.rs, `Reader`: bytes, white space and strings.
use Prim.Native.String.{String}
use doom_fish_utils.Base.{
  ℕ, zero, suc, ◌+◌, ◌-◌, ◌*◌, ◌/◌, ◌%◌, List, [], ◌∷◌, ◌++◌, Option, none, some, Bool, true, false,
  not, ◌&&◌, ◌||◌, ◌==◌, ltb, leb, if◌then◌else◌, length, drop, Result, ok, err,
}
use doom_fish_utils.Json.Value.{JsonError, at_byte}

-- The text from the position on, and the position.
pub record Cursor : Type 0 where
  pub rest : List ℕ
  pub position : ℕ

abbrev pub Read {ℓ} : Type ℓ → Type ℓ
Read A = Result (Cursor × A) JsonError

-- `?`.
abbrev pub and_ok {ℓ κ} : {A : Type ℓ} {B : Type κ} → Read A → (Cursor → A → Read B) → Read B
and_ok (ok (r, a)) f = f r a
and_ok (err e) f = err e

abbrev pub error : Cursor → String → JsonError
error r message = at_byte message r.position

abbrev pub head : List ℕ → Option ℕ
head [] = none
head (b ∷ bs) = some b

unfoldable pub peek : Cursor → Option ℕ
peek r = head r.rest

abbrev pub advance : Cursor → Cursor
advance r = record { rest = drop 1 r.rest; position = r.position + 1 }

abbrev pub is_byte : Option ℕ → ℕ → Bool
is_byte none byte = false
is_byte (some b) byte = b == byte

unfoldable pub consume : Cursor → ℕ → Cursor × Bool
unfolding peek
consume r byte = if is_byte (peek r) byte then (advance r, true) else (r, false)

abbrev pub is_space : ℕ → Bool
is_space b = b == 0x20 || (b == 0x09 || (b == 0x0a || b == 0x0d))

unfoldable pub skip_spaces : List ℕ → ℕ → Cursor
skip_spaces [] position = record { rest = []; position = position }
skip_spaces (b ∷ bs) position =
    let after = skip_spaces bs (position + 1) in
    if is_space b then after else record { rest = b ∷ bs; position = position }

unfoldable pub whitespace : Cursor → Cursor
unfolding skip_spaces
whitespace r = skip_spaces r.rest r.position

abbrev pub hex_digit : ℕ → Option ℕ
hex_digit b =
    if leb 0x30 b && leb b 0x39
    then some (b - 0x30)
    else if leb 0x61 b && leb b 0x66
    then some (b - 0x61 + 10)
    else if leb 0x41 b && leb b 0x46
    then some (b - 0x41 + 10)
    else none

abbrev pub hex_at : Option ℕ → Option ℕ
hex_at none = none
hex_at (some b) = hex_digit b

-- `for _ in 0..4`.
unfoldable pub hex_loop : ℕ → ℕ → Cursor → Read ℕ
unfolding peek
hex_loop zero value r = ok (r, value)
hex_loop (suc left) value r = elim (hex_at (peek r)) [
  | none ↦ err (error r "invalid Unicode escape")
  | some digit ↦ hex_loop left (value * 16 + digit) (advance r)
]

unfoldable pub hex_quad : Cursor → Read ℕ
unfolding hex_loop
hex_quad r = hex_loop 4 0 r

-- `char::from_u32`, and the character's bytes.
abbrev pub is_char : ℕ → Bool
is_char code = ltb code 0xd800 || (leb 0xe000 code && leb code 0x10ffff)

abbrev pub encode : ℕ → List ℕ
encode code =
    if ltb code 0x80
    then code ∷ []
    else if ltb code 0x800
    then (0xc0 + code / 64) ∷ (0x80 + code % 64) ∷ []
    else if ltb code 0x10000
    then (0xe0 + code / 4096) ∷ (0x80 + code / 64 % 64) ∷ (0x80 + code % 64) ∷ []
    else (0xf0 + code / 262144)
      ∷ (0x80 + code / 4096 % 64)
      ∷ (0x80 + code / 64 % 64)
      ∷ (0x80 + code % 64)
      ∷ []

abbrev pub character : Cursor → ℕ → Read (List ℕ)
character r code =
    if is_char code then ok (r, encode code) else err (error r "invalid Unicode escape")

-- The second half of a surrogate pair.
unfoldable pub low_surrogate : Cursor → ℕ → Read (List ℕ)
unfolding consume hex_quad
low_surrogate r first =
    if not (consume r 0x5c).1
    then err (error r "expected a low surrogate")
    else if not (consume (advance r) 0x75).1
    then err (error (advance r) "expected a low surrogate")
    else and_ok (hex_quad (advance (advance r))) (λ r1 second.
      if not (leb 0xdc00 second && leb second 0xdfff)
      then err (error r1 "invalid low surrogate")
      else character r1 (0x10000 + (first - 0xd800) * 1024 + second - 0xdc00))

unfoldable pub unicode : Cursor → Read (List ℕ)
unfolding hex_quad low_surrogate
unicode r = and_ok (hex_quad r) (λ r1 first.
    if leb 0xd800 first && leb first 0xdbff then low_surrogate r1 first else character r1 first)

abbrev pub simple_escape : ℕ → Option ℕ
simple_escape b =
    if b == 0x22
    then some 0x22
    else if b == 0x5c
    then some 0x5c
    else if b == 0x2f
    then some 0x2f
    else if b == 0x62
    then some 0x08
    else if b == 0x66
    then some 0x0c
    else if b == 0x6e
    then some 0x0a
    else if b == 0x72
    then some 0x0d
    else if b == 0x74
    then some 0x09
    else none

abbrev pub escaped : Cursor → Option ℕ → Read (List ℕ)
escaped r none = err (error r "invalid string escape")
escaped r (some c) = ok (advance r, c ∷ [])

unfoldable pub escape_at : Cursor → Option ℕ → Read (List ℕ)
unfolding unicode
escape_at r none = err (error r "invalid string escape")
escape_at r (some b) = if b == 0x75 then unicode (advance r) else escaped r (simple_escape b)

-- The loop of `string`, with the rounds that are left. What the source copies in slices is copied
-- byte by byte.
unfoldable pub string_loop : ℕ → Cursor → List ℕ → Read (List ℕ)
unfolding peek escape_at
string_loop zero r value = err (error r "unterminated string")
string_loop (suc left) r value = elim (peek r) [
  | none ↦ err (error r "unterminated string")
  | some b ↦
      let rest = string_loop left (advance r) (value ++ b ∷ []) in
      if b == 0x22
      then ok (advance r, value)
      else if b == 0x5c
      then and_ok (escape_at (advance r) (peek (advance r)))
          (λ r1 bytes. string_loop left r1 (value ++ bytes))
      else if leb b 0x1f
      then err (error r "unescaped control character")
      else rest
]

-- `string` behind the quote; a round reads at least one byte.
unfoldable pub string_body : Cursor → Read (List ℕ)
unfolding string_loop
string_body r = string_loop (length r.rest + 1) r []
