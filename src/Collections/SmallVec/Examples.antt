-- ===== src/Collections/SmallVec/Examples.antt =====
-- src/collections/small_vec.rs: the theorems on `SmallVec` at vectors whose inline array holds two.
use doom_fish_utils.Base.{ℕ, ◌≡◌, refl, [], ◌∷◌, some, true, false, arith}
use doom_fish_utils.Collections.SmallVec.Contents.{Contains, reserved, extend-Contains}
use doom_fish_utils.Collections.SmallVec.{SmallVec, inline, extend}

-- An inline array without a free cell, so that one more value moves the values to the heap.
abbrev packed : SmallVec ℕ
packed = inline (record { items = some 1 ∷ some 2 ∷ []; len = 2 })

packed-Contains : Contains 2 packed (1 ∷ 2 ∷ [])
packed-Contains = (record { rest = []; items_eq = refl; len_eq = refl }, refl)

-- A hint that is too small, and one that no vector of five values can follow.
extend-Contains_example :
    ((extend 5 packed 0 (3 ∷ 4 ∷ [])).1 ≡ reserved true)
    × Contains 2 (extend 5 packed 0 (3 ∷ 4 ∷ [])).0 (1 ∷ 2 ∷ 3 ∷ 4 ∷ [])
extend-Contains_example =
    extend-Contains 5 2 packed 0 (1 ∷ 2 ∷ []) (3 ∷ 4 ∷ []) packed-Contains (omega arith)
      (omega arith) (omega arith)

overhinted :
    ((extend 5 packed 4 (3 ∷ [])).1 ≡ reserved false)
    × Contains 2 (extend 5 packed 4 (3 ∷ [])).0 (1 ∷ 2 ∷ [])
overhinted =
    extend-Contains 5 2 packed 4 (1 ∷ 2 ∷ []) (3 ∷ []) packed-Contains (omega arith) (omega arith)
      (omega arith)
