-- ===== src/FourCharCode/Examples.antt =====
-- src/four_char_code.rs: the theorems on codes at the code of the doc comment, `BGRA`.
use doom_fish_utils.Base.{
  ℕ, ◌≡◌, ◌≢◌, refl, ◌⊎◌, List, [], ◌∷◌, true, false, length, arith, returned, ok, err,
}
use doom_fish_utils.FourCharCode.Display.{display, display-from_str}
use doom_fish_utils.FourCharCode.{
  FourBytes, FourCharCode, from_bytes, from_be_bytes, as_u32, from_str, is_ascii, AreBytes, Reads,
  from_str_lem, first_four,
}

abbrev bgra : FourBytes
bgra = record { b0 = 66; b1 = 71; b2 = 82; b3 = 65 }

abbrev word : List ℕ
word = 66 ∷ 71 ∷ 82 ∷ 65 ∷ []

bgra-as_u32 : as_u32 (from_bytes bgra) ≡ 0x42475241
unfolding as_u32 from_bytes from_be_bytes
bgra-as_u32 = refl

bgra-AreBytes : AreBytes word
bgra-AreBytes = (omega arith, (omega arith, (omega arith, (omega arith, tt))))

from_str_lem_example :
    ((length word ≢ 4)
      × (from_str word ≡ returned (err "FourCharCode must be exactly 4 characters")))
    ⊎ (((length word ≡ 4)
          × (is_ascii word ≡ false)
          × (from_str word ≡ returned (err "FourCharCode must contain only ASCII characters")))
        ⊎ ((c : FourCharCode) × (is_ascii word ≡ true)
            × (from_str word ≡ returned (ok c))
            × Reads word c))
from_str_lem_example = from_str_lem word bgra-AreBytes

word-parsed : from_str word ≡ returned (ok (from_bytes bgra))
unfolding from_str is_ascii first_four
word-parsed = refl

display-from_str_example : display (from_bytes bgra) ≡ word
display-from_str_example = display-from_str word (from_bytes bgra) bgra-AreBytes word-parsed
