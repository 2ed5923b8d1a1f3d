-- ===== src/Json/Value.antt =====
-- src/json.rs: `JsonValue` and `JsonError`, and what the standard library does with numbers and maps.
use Prim.Native.String.{String}
use doom_fish_utils.Base.{
  ℕ, List, [], ◌∷◌, Option, Bool, true, false, ◌&&◌, ◌==◌, ltb, if◌then◌else◌,
}

-- `i64`, by its sign.
pub data Integer : Type 0 where
  pos : ℕ → Integer
  neg : ℕ → Integer

-- What the code asks of `f64`: `str::parse`, `is_finite`, and `{:?}`.
pub record Floats : Type 1 where
  pub Float : Type 0
  pub parse : List ℕ → Option Float
  pub is_finite : Float → Bool
  pub show : Float → List ℕ

mutual
  pub data JsonValue (F : Floats) : Type 0 where
    null : JsonValue F
    bool : Bool → JsonValue F
    integer : Integer → JsonValue F
    float : F.Float → JsonValue F
    string : List ℕ → JsonValue F
    array : Values F → JsonValue F
    object : Members F → JsonValue F

  pub data Values (F : Floats) : Type 0 where
    nil : Values F
    cons : JsonValue F → Values F → Values F

  pub data Members (F : Floats) : Type 0 where
    nothing : Members F
    member : List ℕ → JsonValue F → Members F → Members F

-- A message with the byte where the reader stands, or without.
pub data JsonError : Type 0 where
  at_byte : String → ℕ → JsonError
  plain : String → JsonError

-- The order of strings, and `BTreeMap::insert`.
abbrev pub bytes_lt : List ℕ → List ℕ → Bool
bytes_lt xs [] = false
bytes_lt [] (y ∷ ys) = true
bytes_lt (x ∷ xs) (y ∷ ys) = let rest = bytes_lt xs ys in if x == y then rest else ltb x y

abbrev pub bytes_eq : List ℕ → List ℕ → Bool
bytes_eq [] [] = true
bytes_eq [] (y ∷ ys) = false
bytes_eq (x ∷ xs) [] = false
bytes_eq (x ∷ xs) (y ∷ ys) = x == y && bytes_eq xs ys
