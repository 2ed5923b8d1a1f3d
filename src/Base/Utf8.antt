-- ===== src/Base/Utf8.antt =====
-- `String::from_utf8_lossy` of the standard library on lists of bytes: each sequence of bytes that no
-- character is encoded by, up to the byte that shows it, becomes the replacement character.
use Prim.Native.Nat.{ℕ, zero, suc}
use mathlib.Core.Path.{◌≡◌, refl, subst}
use mathlib.Core.Logic.{inl, inr}
use mathlib.Core.Bool.{Bool, true, false, not, ◌&&◌}
use mathlib.Core.List.{List, [], ◌∷◌, ◌++◌}
use doom_fish_utils.Base.Tests.{ltb, leb, ◌==◌, if◌then◌else◌, Bool-cases}
use doom_fish_utils.Base.Lists.{length, take, drop}

abbrev between : ℕ → ℕ → ℕ → Bool
between low high b = leb low b && leb b high

abbrev head : List ℕ → ℕ
head [] = 0
head (b ∷ bs) = b

-- How many bytes encode the character that starts with this one; 0 if none starts with it.
abbrev width : ℕ → ℕ
width b =
    if between 194 223 b
    then 2
    else if between 224 239 b
    then 3
    else if between 240 244 b
    then 4
    else 0

-- The second byte of a character depends on the first; the others are any continuation byte.
abbrev is_second : ℕ → ℕ → Bool
is_second first b =
    if first == 224
    then between 160 191 b
    else if first == 237
    then between 128 159 b
    else if first == 240
    then between 144 191 b
    else if first == 244
    then between 128 143 b
    else between 128 191 b

-- The bytes behind the first one that belong to the sequence, and whether it encodes a character.
unfoldable sequence : ℕ → List ℕ → ℕ × Bool
sequence first bs =
    if ltb first 128
    then (0, true)
    else if width first == 0
    then (0, false)
    else if not (is_second first (head bs))
    then (0, false)
    else if width first == 2
    then (1, true)
    else if not (between 128 191 (head (drop 1 bs)))
    then (1, false)
    else if width first == 3
    then (2, true)
    else if between 128 191 (head (drop 2 bs))
    then (3, true)
    else (2, false)

abbrev decoded : ℕ → List ℕ → ℕ × Bool → List ℕ
decoded first bs (taken, true) = first ∷ take taken bs
decoded first bs (taken, false) = 239 ∷ 191 ∷ 189 ∷ []

-- Each round takes a byte at least.
unfoldable lossy_loop : ℕ → List ℕ → List ℕ
lossy_loop zero bs = []
lossy_loop (suc n) [] = []
lossy_loop (suc n) (b ∷ bs) =
    decoded b bs (sequence b bs) ++ lossy_loop n (drop (sequence b bs).0 bs)

unfoldable pub from_utf8_lossy : List ℕ → List ℕ
unfolding lossy_loop sequence
from_utf8_lossy bs = lossy_loop (length bs) bs

-- `CStr::to_str` accepts the bytes.
unfoldable utf8_loop : ℕ → List ℕ → Bool
utf8_loop zero bs = true
utf8_loop (suc n) [] = true
utf8_loop (suc n) (b ∷ bs) = (sequence b bs).1 && utf8_loop n (drop (sequence b bs).0 bs)

unfoldable pub is_utf8 : List ℕ → Bool
unfolding utf8_loop sequence
is_utf8 bs = utf8_loop (length bs) bs

abbrev pub all_ascii : List ℕ → Bool
all_ascii [] = true
all_ascii (b ∷ bs) = ltb b 128 && all_ascii bs

loop_ascii : (bs : List ℕ) → all_ascii bs ≡ true → lossy_loop (length bs) bs ≡ bs
unfolding lossy_loop sequence
loop_ascii [] h = refl
loop_ascii (b ∷ bs) h = elim (Bool-cases (ltb b 128)) [
  | inl e ↦ rw (e, loop_ascii bs (subst (λ c. (c && all_ascii bs) ≡ true) e h)) refl
  | inr e ↦ let c : false ≡ true = subst (λ c. (c && all_ascii bs) ≡ true) e h in cc (c)
]

pub from_utf8_lossy-ascii : (bs : List ℕ) → all_ascii bs ≡ true → from_utf8_lossy bs ≡ bs
unfolding from_utf8_lossy lossy_loop sequence
from_utf8_lossy-ascii bs h = loop_ascii bs h

-- "é", a byte that encodes nothing, and a sequence that is cut off.
decodes :
    from_utf8_lossy (195 ∷ 169 ∷ 255 ∷ 226 ∷ 130 ∷ 65 ∷ [])
    ≡ 195 ∷ 169 ∷ 239 ∷ 191 ∷ 189 ∷ 239 ∷ 191 ∷ 189 ∷ 65 ∷ []
unfolding from_utf8_lossy lossy_loop sequence
decodes = refl

-- A text that is not empty does not become empty.
pub from_utf8_lossy-cons :
    (b : ℕ) (bs : List ℕ) → (c : ℕ) × (cs : List ℕ) × (from_utf8_lossy (b ∷ bs) ≡ c ∷ cs)
unfolding from_utf8_lossy lossy_loop sequence
from_utf8_lossy-cons b bs = elim (Bool-cases (sequence b bs).1) [
  | inl e ↦ (b, _, cons_of (sequence b bs) e)
  | inr e ↦ (239, _, cons_of_invalid (sequence b bs) e)
]
  where
    cons_of :
        (q : ℕ × Bool)
        → q.1 ≡ true
        → decoded b bs q ++ lossy_loop (length bs) (drop q.0 bs)
          ≡ b ∷ (take q.0 bs ++ lossy_loop (length bs) (drop q.0 bs))
    cons_of (n, true) e = refl
    cons_of (n, false) e = cc (e)

    cons_of_invalid :
        (q : ℕ × Bool)
        → q.1 ≡ false
        → decoded b bs q ++ lossy_loop (length bs) (drop q.0 bs)
          ≡ 239 ∷ 191 ∷ 189 ∷ lossy_loop (length bs) (drop q.0 bs)
    cons_of_invalid (n, true) e = cc (e)
    cons_of_invalid (n, false) e = refl
