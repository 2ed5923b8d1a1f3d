-- ===== src/Json/Reader/Number.antt =====
-- src/json.rs, `Reader::number`.
use doom_fish_utils.Base.{
  ℕ, ◌+◌, ◌-◌, ◌*◌, ◌^◌, List, [], ◌∷◌, Option, none, some, Bool, true, false, not, ◌&&◌, ◌==◌, leb,
  if◌then◌else◌, take, ok, err,
}
use doom_fish_utils.Json.Value.{Integer, pos, neg, Floats, JsonValue, integer, float, bytes_eq}
use doom_fish_utils.Json.Reader.Text.{Cursor, Read, error, peek, advance, consume, and_ok}

abbrev is_digit : ℕ → Bool
is_digit b = leb 0x30 b && leb b 0x39

-- The loop over digits.
unfoldable pub skip_digits : List ℕ → ℕ → Cursor
skip_digits [] position = record { rest = []; position = position }
skip_digits (b ∷ bs) position =
    let after = skip_digits bs (position + 1) in
    if is_digit b then after else record { rest = b ∷ bs; position = position }

abbrev pub digits : Cursor → Cursor
unfolding skip_digits
digits r = skip_digits r.rest r.position

-- `str::parse::<i64>` on a token of digits with a sign or none.
abbrev pub value_of : List ℕ → ℕ → ℕ
value_of [] n = n
value_of (b ∷ bs) n = value_of bs (n * 10 + (b - 0x30))

abbrev pub parse_i64 : List ℕ → Option Integer
parse_i64 [] = none
parse_i64 (b ∷ bs) =
    if b == 0x2d
    then (if leb (value_of bs 0) (2 ^ 63) then some (neg (value_of bs 0)) else none)
    else (if leb (value_of (b ∷ bs) 0) (2 ^ 63 - 1) then some (pos (value_of (b ∷ bs) 0)) else none)

-- The digits before the point.
abbrev whole_at : Cursor → Option ℕ → Read (Unit {0})
whole_at r none = err (error r "expected a digit")
whole_at r (some b) =
    if b == 0x30
    then ok (advance r, tt)
    else if leb 0x31 b && leb b 0x39
    then ok (digits r, tt)
    else err (error r "expected a digit")

-- A fraction, and whether there was one.
unfoldable pub fraction : Cursor → Read Bool
unfolding consume
fraction r =
    let start = (consume r 0x2e).0 in
    let stop = digits start in
    if not (consume r 0x2e).1
    then ok (r, false)
    else if stop.position == start.position
    then err (error stop "expected a fraction digit")
    else ok (stop, true)

-- An exponent, given whether there was a fraction.
unfoldable pub exponent : Bool → Cursor → Read Bool
unfolding consume
exponent after_fraction r =
    let marked = if (consume r 0x65).1 then (consume r 0x65) else (consume r 0x45) in
    let plus = consume marked.0 0x2b in
    let start = if not plus.1 then (consume plus.0 0x2d).0 else plus.0 in
    let stop = digits start in
    if not marked.1
    then ok (r, after_fraction)
    else if stop.position == start.position
    then err (error stop "expected an exponent digit")
    else ok (stop, true)

module _ (F : Floats) where
  abbrev float_of : Cursor → Option F.Float → Read (JsonValue F)
  float_of r none = err (error r "invalid number")
  float_of r (some x) =
      if not (F.is_finite x) then err (error r "number out of range") else ok (r, float x)

  abbrev number_of : Cursor → Option Integer → List ℕ → Read (JsonValue F)
  number_of r (some n) token = ok (r, integer n)
  number_of r none token = float_of r (F.parse token)

  -- The token is a float by its form or as `-0`, and an integer if it fits.
  abbrev finish : Cursor → Bool → List ℕ → Read (JsonValue F)
  finish r is_float token =
      number_of r
        (if not is_float && not (bytes_eq token (0x2d ∷ 0x30 ∷ [])) then parse_i64 token else none)
        token

  unfoldable pub number : Cursor → Read (JsonValue F)
  unfolding consume peek fraction exponent
  number r =
      let start = (consume r 0x2d).0 in
      and_ok (whole_at start (peek start)) (λ r1 _. and_ok (fraction r1) (λ r2 is_fraction.
        and_ok (exponent is_fraction r2)
          (λ r3 is_float. finish r3 is_float (take (r3.position - r.position) r.rest))))
