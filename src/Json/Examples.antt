-- ===== src/Json/Examples.antt =====
-- src/json.rs: small texts.
use doom_fish_utils.Base.{ℕ, ◌≡◌, List, [], ◌∷◌, ◌++◌, ok}
use doom_fish_utils.Json.Reader.Text.{advance, string_body}
use doom_fish_utils.Json.Strings.{string-write_string}
use doom_fish_utils.Json.Writer.{write_string}

-- A quote, a control character and a letter, with a comma behind the string.
abbrev text : List ℕ
text = 0x22 ∷ 0x01 ∷ 0x61 ∷ []

abbrev behind : List ℕ
behind = 0x2c ∷ []

string-write_string_example :
    (q : ℕ) × (string_body (advance (record { rest = write_string text ++ behind; position = 0 }))
      ≡ ok (record { rest = behind; position = q }, text))
string-write_string_example = string-write_string text behind 0
