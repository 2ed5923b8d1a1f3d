-- ===== src/Json/Convert.antt =====
-- src/json.rs: `FromJson` and `field`. A conversion is a function from values.
use Prim.Native.String.{String}
use doom_fish_utils.Base.{
  ℕ, List, [], ◌∷◌, Option, none, some, Bool, leb, if◌then◌else◌, Result, ok, err,
}
use doom_fish_utils.Json.Value.{
  Integer, pos, neg, Floats, JsonValue, null, bool, integer, float, string, array, object, Values,
  nil, cons, Members, nothing, member, JsonError, plain, bytes_eq,
}

-- An integer type holds the numbers from `- below` to `above`; the messages name it.
abbrev pub in_range : ℕ → ℕ → Integer → Bool
in_range below above (pos n) = leb n above
in_range below above (neg n) = leb n below

module _ {F : Floats} where
  unfoldable pub to_bool : JsonValue F → Result Bool JsonError
  to_bool (bool b) = ok b
  to_bool _ = err (plain "expected a boolean")

  unfoldable pub to_integer : ℕ → ℕ → String → String → JsonValue F → Result Integer JsonError
  to_integer below above out_of_range expected (integer n) =
      if in_range below above n then ok n else err (plain out_of_range)
  to_integer below above out_of_range expected _ = err (plain expected)

  unfoldable pub to_string : JsonValue F → Result (List ℕ) JsonError
  to_string (string s) = ok s
  to_string _ = err (plain "expected a string")

  -- For floats, the cast of an integer is a parameter.
  unfoldable pub to_float : (Integer → F.Float) → JsonValue F → Result F.Float JsonError
  to_float cast (integer n) = ok (cast n)
  to_float cast (float x) = ok x
  to_float cast _ = err (plain "expected a number")

module _ {ℓ} {F : Floats} {T : Type ℓ} (from_json : JsonValue F → Result T JsonError) where
  abbrev to_some : Result T JsonError → Result (Option T) JsonError
  to_some (ok x) = ok (some x)
  to_some (err e) = err e

  unfoldable pub to_option : JsonValue F → Result (Option T) JsonError
  to_option null = ok none
  to_option v = to_some (from_json v)

  abbrev pub prepended {κ} :
      {A : Type κ} → A → Result (List A) JsonError → Result (List A) JsonError
  prepended x (ok xs) = ok (x ∷ xs)
  prepended x (err e) = err e

  -- `collect` into a result: the first error counts.
  unfoldable pub collect_values : Values F → Result (List T) JsonError
  collect_values nil = ok []
  collect_values (cons v vs) = elim (from_json v) [
    | err e ↦ err e
    | ok x ↦ prepended x (collect_values vs)
  ]

  unfoldable pub to_vec : JsonValue F → Result (List T) JsonError
  unfolding collect_values
  to_vec (array vs) = collect_values vs
  to_vec _ = err (plain "expected an array")

  unfoldable pub collect_members : Members F → Result (List (List ℕ × T)) JsonError
  collect_members nothing = ok []
  collect_members (member key v ms) = elim (from_json v) [
    | err e ↦ err e
    | ok x ↦ prepended (key, x) (collect_members ms)
  ]

  unfoldable pub to_map : JsonValue F → Result (List (List ℕ × T)) JsonError
  unfolding collect_members
  to_map (object ms) = collect_members ms
  to_map _ = err (plain "expected an object")

  -- `BTreeMap::get`.
  unfoldable pub lookup : List ℕ → Members F → Option (JsonValue F)
  lookup key nothing = none
  lookup key (member k v ms) = let rest = lookup key ms in if bytes_eq key k then some v else rest

  -- A missing field is null to the conversion, and `missing` is the message that names the field.
  abbrev missing_as : String → Result T JsonError → Result T JsonError
  missing_as missing (ok x) = ok x
  missing_as missing (err e) = err (plain missing)

  abbrev field_of : String → Option (JsonValue F) → Result T JsonError
  field_of missing none = missing_as missing (from_json null)
  field_of missing (some v) = from_json v

  unfoldable pub field : List ℕ → String → JsonValue F → Result T JsonError
  unfolding lookup
  field key missing (object ms) = field_of missing (lookup key ms)
  field key missing _ = err (plain "expected an object")
