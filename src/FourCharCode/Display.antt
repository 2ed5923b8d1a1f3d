-- ===== src/FourCharCode/Display.antt =====
-- src/four_char_code.rs: printing a code.
use doom_fish_utils.Base.{
  ℕ, ◌≡◌, refl, sym, ap, ◌∙◌, inl, inr, List, [], ◌∷◌, ◌&&◌, ltb, returned, ok,
}
use doom_fish_utils.Base.Utf8.{from_utf8_lossy, all_ascii, from_utf8_lossy-ascii}
use doom_fish_utils.FourCharCode.{
  FourCharCode, as_bytes, to_list, from_str, is_ascii, AreBytes, from_str_lem,
}

unfoldable pub display : FourCharCode → List ℕ
display c = from_utf8_lossy (to_list (as_bytes c))

is_ascii-eq : (s : List ℕ) → is_ascii s ≡ all_ascii s
unfolding is_ascii
is_ascii-eq [] = refl
is_ascii-eq (b ∷ bs) = ap (λ t. ltb b 128 && t) (is_ascii-eq bs)

-- A code that was parsed from a string prints as that string.
pub display-from_str :
    (s : List ℕ) (c : FourCharCode) → AreBytes s → from_str s ≡ returned (ok c) → display c ≡ s
unfolding display
display-from_str s c h e = elim (from_str_lem s h) [
  | inl (n, r) ↦ cc (e, r)
  | inr (inl (n, a, r)) ↦ cc (e, r)
  | inr (inr (d, a, r, (_, w))) ↦
      let p : c ≡ d = cc (e, r) in rw (p, w) (from_utf8_lossy-ascii s (sym (is_ascii-eq s) ∙ a))
]
