-- ===== src/Json/Strings.antt =====
-- src/json.rs: the reader on what `write_string` wrote.
use doom_fish_utils.Base.{
  ℕ, zero, suc, ◌+◌, ◌*◌, ◌/◌, ◌%◌, ◌≤◌, ◌<◌, ◌≡◌, ◌≢◌, refl, sym, ap, ◌∙◌, List, [], ◌∷◌, ◌++◌,
  some, leb, length, if◌then◌else◌, arith, ok, ℕ_discrete, dec_le, ne→==, le→leb, not_le→leb,
  lt→ltb, append-nil, subst, append_assoc, length-append,
}
use doom_fish_utils.Json.Reader.Text.{
  peek, advance, hex_digit, hex_loop, hex_quad, unicode, escape_at, string_loop, string_body,
}
use doom_fish_utils.Json.Writer.{control, write_char, write_chars, write_string, hex_char}

hex_digit-hex_char : (n : ℕ) → n < 16 → hex_digit (hex_char n) ≡ some n
hex_digit-hex_char n h = ground arith

hex_loop-step :
    (left value b n p : ℕ) (tail : List ℕ)
    → hex_digit b ≡ some n
    → hex_loop (suc left) value (record { rest = b ∷ tail; position = p })
      ≡ hex_loop left (value * 16 + n) (record { rest = tail; position = p + 1 })
unfolding hex_loop peek
hex_loop-step left value b n p tail e = rw (e, hex_loop) refl

-- The four digits of a control character.
hex_quad-control :
    (b p : ℕ) (tail : List ℕ)
    → b ≤ 31
    → hex_quad
        (record { rest = 0x30 ∷ 0x30 ∷ hex_char (b / 16) ∷ hex_char (b % 16) ∷ tail; position = p })
      ≡ ok (record { rest = tail; position = p + 1 + 1 + 1 + 1 }, b)
unfolding hex_quad hex_loop
hex_quad-control b p tail h =
    let e : ((0 * 16 + 0) * 16 + b / 16) * 16 + b % 16 ≡ b = omega arith in
    hex_loop-step 3 0 0x30 0 p (0x30 ∷ hex_char (b / 16) ∷ hex_char (b % 16) ∷ tail) refl
    ∙ hex_loop-step 2 (0 * 16 + 0) 0x30 0 (p + 1) (hex_char (b / 16) ∷ hex_char (b % 16) ∷ tail)
        refl
    ∙ hex_loop-step 1 ((0 * 16 + 0) * 16 + 0) (hex_char (b / 16)) (b / 16) (p + 1 + 1)
        (hex_char (b % 16) ∷ tail) (hex_digit-hex_char (b / 16) (omega arith))
    ∙ hex_loop-step 0 (((0 * 16 + 0) * 16 + 0) * 16 + b / 16) (hex_char (b % 16)) (b % 16)
        (p + 1 + 1 + 1) tail (hex_digit-hex_char (b % 16) (omega arith))
    ∙ ap (λ n. ok (record { rest = tail; position = p + 1 + 1 + 1 + 1 }, n)) e

-- A control character is read back from its escape.
unicode-control :
    (b p : ℕ) (tail : List ℕ)
    → b ≤ 31
    → unicode
        (record { rest = 0x30 ∷ 0x30 ∷ hex_char (b / 16) ∷ hex_char (b % 16) ∷ tail; position = p })
      ≡ ok (record { rest = tail; position = p + 1 + 1 + 1 + 1 }, b ∷ [])
unfolding unicode
unicode-control b p tail h =
    rw (hex_quad-control b p tail h, not_le→leb 0xd800 b (omega arith))
      (rw (lt→ltb b 0xd800 (omega arith)) (rw (lt→ltb b 0x80 (omega arith)) refl))

-- What the loop of `string` does with one written character.
abbrev Steps : ℕ → Type 0
Steps b =
    (left p : ℕ) (tail value : List ℕ)
    → (q : ℕ) × (string_loop (suc left) (record { rest = write_char b ++ tail; position = p }) value
        ≡ string_loop left (record { rest = tail; position = q }) (value ++ b ∷ []))

Steps-quote : Steps 0x22
unfolding string_loop escape_at peek write_char
Steps-quote left p tail value = (p + 1 + 1, refl)

Steps-backslash : Steps 0x5c
unfolding string_loop escape_at peek write_char
Steps-backslash left p tail value = (p + 1 + 1, refl)

Steps-backspace : Steps 0x08
unfolding string_loop escape_at peek write_char
Steps-backspace left p tail value = (p + 1 + 1, refl)

Steps-form_feed : Steps 0x0c
unfolding string_loop escape_at peek write_char
Steps-form_feed left p tail value = (p + 1 + 1, refl)

Steps-newline : Steps 0x0a
unfolding string_loop escape_at peek write_char
Steps-newline left p tail value = (p + 1 + 1, refl)

Steps-return : Steps 0x0d
unfolding string_loop escape_at peek write_char
Steps-return left p tail value = (p + 1 + 1, refl)

Steps-tab : Steps 0x09
unfolding string_loop escape_at peek write_char
Steps-tab left p tail value = (p + 1 + 1, refl)

Steps-escaped : (b : ℕ) → b ≤ 31 → write_char b ≡ control b → Steps b
unfolding string_loop escape_at peek
Steps-escaped b h e left p tail value =
    (p + 1 + 1 + 1 + 1 + 1 + 1, rw e (rw (unicode-control b (p + 1 + 1) tail h) refl))

Steps-plain : (b : ℕ) → 31 < b → b ≢ 0x22 → b ≢ 0x5c → write_char b ≡ b ∷ [] → Steps b
unfolding string_loop escape_at peek
Steps-plain b h n m e left p tail value =
    (p + 1, rw e (rw (ne→== b 0x22 n, ne→== b 0x5c m, not_le→leb b 31 (omega arith)) refl))

write_char-others :
    (b : ℕ)
    → b ≢ 0x22
    → b ≢ 0x5c
    → b ≢ 0x08
    → b ≢ 0x0c
    → b ≢ 0x0a
    → b ≢ 0x0d
    → b ≢ 0x09
    → write_char b ≡ (if leb b 0x1f then control b else b ∷ [])
unfolding write_char
write_char-others b n1 n2 n3 n4 n5 n6 n7 =
    rw
      (
        ne→== b 0x22 n1,
        ne→== b 0x5c n2,
        ne→== b 0x08 n3,
        ne→== b 0x0c n4,
        ne→== b 0x0a n5,
        ne→== b 0x0d n6,
        ne→== b 0x09 n7,
      )
      refl

string_loop-closed :
    (left p : ℕ) (tail value : List ℕ)
    → string_loop (suc left) (record { rest = 0x22 ∷ tail; position = p }) value
      ≡ ok (record { rest = tail; position = p + 1 }, value ++ [])
unfolding string_loop peek
string_loop-closed left p tail value =
    ap (λ v. ok (record { rest = tail; position = p + 1 }, v)) (sym (append-nil value))

-- A character without a short escape.
others :
    (b : ℕ) → b ≢ 0x22 → b ≢ 0x5c → b ≢ 0x08 → b ≢ 0x0c → b ≢ 0x0a → b ≢ 0x0d → b ≢ 0x09 → Steps b
others b n1 n2 n3 n4 n5 n6 n7 =
    let e : write_char b ≡ (if leb b 0x1f then control b else b ∷ []) =
      write_char-others b n1 n2 n3 n4 n5 n6 n7 in
    elim (dec_le b 31) [
      | Dec.yes h ↦ Steps-escaped b h (e ∙ rw (le→leb b 31 h) refl)
      | Dec.no h ↦ Steps-plain b (omega arith) n1 n2 (e ∙ rw (not_le→leb b 31 h) refl)
    ]

write_char-Steps : (b : ℕ) → Steps b
unfolding write_char
write_char-Steps b = elim (ℕ_discrete b 0x22) [
  | Dec.yes e ↦ subst Steps (sym e) Steps-quote
  | Dec.no n1 ↦ elim (ℕ_discrete b 0x5c) [
    | Dec.yes e ↦ subst Steps (sym e) Steps-backslash
    | Dec.no n2 ↦ elim (ℕ_discrete b 0x08) [
      | Dec.yes e ↦ subst Steps (sym e) Steps-backspace
      | Dec.no n3 ↦ elim (ℕ_discrete b 0x0c) [
        | Dec.yes e ↦ subst Steps (sym e) Steps-form_feed
        | Dec.no n4 ↦ elim (ℕ_discrete b 0x0a) [
          | Dec.yes e ↦ subst Steps (sym e) Steps-newline
          | Dec.no n5 ↦ elim (ℕ_discrete b 0x0d) [
            | Dec.yes e ↦ subst Steps (sym e) Steps-return
            | Dec.no n6 ↦ elim (ℕ_discrete b 0x09) [
              | Dec.yes e ↦ subst Steps (sym e) Steps-tab
              | Dec.no n7 ↦ others b n1 n2 n3 n4 n5 n6 n7
            ]
          ]
        ]
      ]
    ]
  ]
]

-- Every byte takes one round, and the closing quote one more.
string_loop-write_chars :
    (bs : List ℕ) (left p : ℕ) (tail value : List ℕ)
    → length bs < left
    → (q : ℕ) × (string_loop left (record { rest = write_chars bs ++ tail; position = p }) value
        ≡ ok (record { rest = tail; position = q }, value ++ bs))
unfolding write_chars
string_loop-write_chars bs zero p tail value h = absurd (omega arith)
string_loop-write_chars [] (suc left) p tail value h = (p + 1, string_loop-closed left p tail value)
string_loop-write_chars (b ∷ bs) (suc left) p tail value h =
    let (q, e) = write_char-Steps b left p (write_chars bs ++ tail) value in
    let (r, f) = string_loop-write_chars bs left q tail (value ++ b ∷ []) (omega arith) in
    (
      r,
      ap (λ t. string_loop (suc left) (record { rest = t; position = p }) value)
            (append_assoc (write_char b) (write_chars bs) tail)
          ∙ e
          ∙ f
          ∙ ap (λ v. ok (record { rest = tail; position = r }, v)) (append_assoc value (b ∷ []) bs),
    )

length-write_char : (b : ℕ) → 0 < length (write_char b)
unfolding write_char
length-write_char b = ground arith

length-write_chars : (bs tail : List ℕ) → length bs < length (write_chars bs ++ tail)
unfolding write_chars
length-write_chars [] tail = omega arith
length-write_chars (b ∷ bs) tail = omega (
  arith,
  length-write_char b,
  length-append (write_char b ++ write_chars bs) tail,
  length-append (write_char b) (write_chars bs),
  length-append (write_chars bs) tail,
  length-write_chars bs tail,
)

-- Reading a written string gives the string back and leaves the text behind it.
pub string-write_string :
    (bs tail : List ℕ) (p : ℕ)
    → (q : ℕ) × (string_body (advance (record { rest = write_string bs ++ tail; position = p }))
        ≡ ok (record { rest = tail; position = q }, bs))
unfolding string_body write_string
string-write_string bs tail p =
    string_loop-write_chars bs (length (write_chars bs ++ tail) + 1) (p + 1) tail []
      (omega (arith, length-write_chars bs tail))
