-- ===== src/Json/Writer.antt =====
-- src/json.rs: `Display for JsonValue` and `write_string`. The writer gives the bytes of its text; a
-- character beyond ASCII is written as it is, so byte by byte.
use doom_fish_utils.Base.{
  ℕ, zero, suc, ◌+◌, ◌-◌, ◌/◌, ◌%◌, List, [], ◌∷◌, ◌++◌, Bool, true, false, ◌==◌, ltb, leb,
  if◌then◌else◌,
}
use doom_fish_utils.Json.Value.{
  Integer, pos, neg, Floats, JsonValue, null, bool, integer, float, string, array, object, Values,
  nil, cons, Members, nothing, member,
}

-- `{:04x}` of a control character.
abbrev pub hex_char : ℕ → ℕ
hex_char n = if ltb n 10 then 0x30 + n else 0x61 + (n - 10)

abbrev pub control : ℕ → List ℕ
control b = 0x5c ∷ 0x75 ∷ 0x30 ∷ 0x30 ∷ hex_char (b / 16) ∷ hex_char (b % 16) ∷ []

-- The match of `write_string` on a character.
unfoldable pub write_char : ℕ → List ℕ
write_char b =
    if b == 0x22
    then 0x5c ∷ 0x22 ∷ []
    else if b == 0x5c
    then 0x5c ∷ 0x5c ∷ []
    else if b == 0x08
    then 0x5c ∷ 0x62 ∷ []
    else if b == 0x0c
    then 0x5c ∷ 0x66 ∷ []
    else if b == 0x0a
    then 0x5c ∷ 0x6e ∷ []
    else if b == 0x0d
    then 0x5c ∷ 0x72 ∷ []
    else if b == 0x09
    then 0x5c ∷ 0x74 ∷ []
    else if leb b 0x1f
    then control b
    else b ∷ []

-- `write_string` behind the opening quote.
unfoldable pub write_chars : List ℕ → List ℕ
unfolding write_char
write_chars [] = 0x22 ∷ []
write_chars (b ∷ bs) = write_char b ++ write_chars bs

unfoldable pub write_string : List ℕ → List ℕ
unfolding write_chars
write_string text = 0x22 ∷ write_chars text

-- `{value}` of an `i64`; a number has at most as many digits as its value and one.
unfoldable pub show_loop : ℕ → ℕ → List ℕ → List ℕ
show_loop zero n digits = digits
show_loop (suc left) n digits =
    let shown = (0x30 + n % 10) ∷ digits in
    let rest = show_loop left (n / 10) shown in if ltb n 10 then shown else rest

abbrev pub show_integer : Integer → List ℕ
unfolding show_loop
show_integer (pos n) = show_loop (n + 1) n []
show_integer (neg n) = if n == 0 then 0x30 ∷ [] else 0x2d ∷ show_loop (n + 1) n []

abbrev null_text : List ℕ
null_text = 0x6e ∷ 0x75 ∷ 0x6c ∷ 0x6c ∷ []

-- The values of an array and the members of an object are written behind a comma from the second on.
unfoldable mutual
  unfolding write_string

  pub write : {F : Floats} → JsonValue F → List ℕ
  write null = null_text
  write (bool true) = 0x74 ∷ 0x72 ∷ 0x75 ∷ 0x65 ∷ []
  write (bool false) = 0x66 ∷ 0x61 ∷ 0x6c ∷ 0x73 ∷ 0x65 ∷ []
  write (integer n) = show_integer n
  write {F} (float x) = if F.is_finite x then F.show x else null_text
  write (string text) = write_string text
  write (array vs) = 0x5b ∷ (write_values false vs ++ 0x5d ∷ [])
  write (object ms) = 0x7b ∷ (write_members false ms ++ 0x7d ∷ [])

  pub write_values : {F : Floats} → Bool → Values F → List ℕ
  write_values comma nil = []
  write_values comma (cons v vs) =
      (if comma then 0x2c ∷ [] else []) ++ write v ++ write_values true vs

  pub write_members : {F : Floats} → Bool → Members F → List ℕ
  write_members comma nothing = []
  write_members comma (member key v ms) =
      (if comma then 0x2c ∷ [] else [])
      ++ write_string key
      ++ 0x3a ∷ (write v ++ write_members true ms)
