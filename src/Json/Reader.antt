-- ===== src/Json/Reader.antt =====
-- src/json.rs: `Reader` and `parse`. The reader keeps the text from its position on beside the
-- position; a method gives the reader that it leaves beside its value, or the error that ends the
-- whole parse.
pub mod Text
pub mod Number
use Prim.Native.String.{String}
use doom_fish_utils.Base.{
  ℕ, zero, suc, ◌+◌, ◌-◌, List, [], ◌∷◌, ◌++◌, Option, none, some, Bool, true, false, not, ◌&&◌,
  ◌||◌, ◌==◌, ltb, leb, if◌then◌else◌, length, Result, ok, err,
}
use doom_fish_utils.Json.Value.{
  Floats, JsonValue, null, bool, string, array, object, Values, nil, cons, Members, nothing, member,
  JsonError, bytes_eq, bytes_lt,
}
use doom_fish_utils.Json.Reader.Text.{
  Cursor, Read, error, peek, advance, consume, whitespace, and_ok, string_body,
}
use doom_fish_utils.Json.Reader.Number.{number}

-- `str::starts_with`, and `self.position += n`.
abbrev pub starts_with : List ℕ → List ℕ → Bool
starts_with xs [] = true
starts_with [] (y ∷ ys) = false
starts_with (x ∷ xs) (y ∷ ys) = x == y && starts_with xs ys

abbrev pub advance_by : ℕ → Cursor → Cursor
advance_by zero r = r
advance_by (suc n) r = advance_by n (advance r)

module _ (F : Floats) where
  -- `Vec::push` and `BTreeMap::insert`.
  abbrev pub push_value : Values F → JsonValue F → Values F
  push_value nil v = cons v nil
  push_value (cons w vs) v = cons w (push_value vs v)

  abbrev pub insert_member : List ℕ → JsonValue F → Members F → Members F
  insert_member key v nothing = member key v nothing
  insert_member key v (member k w ms) =
      let rest = insert_member key v ms in
      if bytes_eq key k
      then member key v ms
      else if bytes_lt key k
      then member key v (member k w ms)
      else member k w rest

  -- The loop of `array`, with the rounds that are left; a round reads at least one byte.
  unfoldable pub array_loop :
      (Cursor → Read (JsonValue F)) → ℕ → Cursor → Values F → Read (JsonValue F)
  unfolding whitespace consume
  array_loop value zero r values = err (error r "expected `,` or `]`")
  array_loop value (suc left) r values = and_ok (value r) (λ r1 v.
      let r2 = whitespace r1 in
      let values' = push_value values v in
      if (consume r2 0x5d).1
      then ok ((consume r2 0x5d).0, array values')
      else if not (consume r2 0x2c).1
      then err (error r2 "expected `,` or `]`")
      else array_loop value left (consume r2 0x2c).0 values')

  unfoldable pub read_array : (Cursor → Read (JsonValue F)) → Cursor → Read (JsonValue F)
  unfolding array_loop whitespace consume
  read_array value r =
      let r1 = whitespace (advance r) in
      if (consume r1 0x5d).1
      then ok ((consume r1 0x5d).0, array nil)
      else array_loop value (length r1.rest + 1) r1 nil

  -- The part of a round of `object` behind the key.
  unfoldable pub member_value : (Cursor → Read (JsonValue F)) → Cursor → Read (JsonValue F)
  unfolding whitespace consume
  member_value value r =
      let r1 = whitespace r in
      if not (consume r1 0x3a).1 then err (error r1 "expected `:`") else value (consume r1 0x3a).0

  -- The loop of `object`.
  unfoldable pub object_loop :
      (Cursor → Read (JsonValue F)) → ℕ → Cursor → Members F → Read (JsonValue F)
  unfolding whitespace consume peek string_body member_value
  object_loop value zero r values = err (error r "expected `,` or `}`")
  object_loop value (suc left) r values =
      if not (consume r 0x22).1
      then err (error r "expected an object key")
      else and_ok (string_body (advance r)) (λ r1 key. and_ok (member_value value r1) (λ r2 v.
        let r3 = whitespace r2 in
        let values' = insert_member key v values in
        if (consume r3 0x7d).1
        then ok ((consume r3 0x7d).0, object values')
        else if not (consume r3 0x2c).1
        then err (error r3 "expected `,` or `}`")
        else object_loop value left (whitespace (consume r3 0x2c).0) values'))

  unfoldable pub read_object : (Cursor → Read (JsonValue F)) → Cursor → Read (JsonValue F)
  unfolding object_loop whitespace consume
  read_object value r =
      let r1 = whitespace (advance r) in
      if (consume r1 0x7d).1
      then ok ((consume r1 0x7d).0, object nothing)
      else object_loop value (length r1.rest + 1) r1 nothing

  abbrev pub is_digit : ℕ → Bool
  is_digit b = leb 0x30 b && leb b 0x39

  -- The match of `value` on the byte at hand, behind the white space.
  abbrev pub value_at : (Cursor → Read (JsonValue F)) → ℕ → Cursor → Option ℕ → Read (JsonValue F)
  unfolding read_object read_array string_body number
  value_at value depth r none = err (error r "expected a JSON value")
  value_at value depth r (some b) =
      if (b == 0x7b || b == 0x5b) && leb 128 depth
      then err (error r "nesting limit exceeded")
      else if b == 0x7b
      then read_object value r
      else if b == 0x5b
      then read_array value r
      else if b == 0x22
      then and_ok (string_body (advance r)) (λ r1 s. ok (r1, string s))
      else if b == 0x2d || is_digit b
      then number F r
      else if starts_with r.rest (0x74 ∷ 0x72 ∷ 0x75 ∷ 0x65 ∷ [])
      then ok (advance_by 4 r, bool true)
      else if starts_with r.rest (0x66 ∷ 0x61 ∷ 0x6c ∷ 0x73 ∷ 0x65 ∷ [])
      then ok (advance_by 5 r, bool false)
      else if starts_with r.rest (0x6e ∷ 0x75 ∷ 0x6c ∷ 0x6c ∷ [])
      then ok (advance_by 4 r, null)
      else err (error r "expected a JSON value")

  -- `value`, with the levels that are left: a value at depth 128 has none inside it.
  unfoldable pub read_value : ℕ → ℕ → Cursor → Read (JsonValue F)
  unfolding whitespace peek
  read_value zero depth r = err (error r "nesting limit exceeded")
  read_value (suc levels) depth r =
      let r1 = whitespace r in value_at (read_value levels (depth + 1)) depth r1 (peek r1)

  abbrev ended : Read (JsonValue F) → Result (JsonValue F) JsonError
  unfolding whitespace
  ended (err e) = err e
  ended (ok (r, v)) =
      if not (length (whitespace r).rest == 0)
      then err (error (whitespace r) "unexpected trailing data")
      else ok v

  unfoldable pub parse : List ℕ → Result (JsonValue F) JsonError
  unfolding read_value whitespace
  parse text = ended (read_value 129 0 (record { rest = text; position = 0 }))
