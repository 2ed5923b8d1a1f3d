-- ===== src/Collections/ArrayVec/Refine.antt =====
-- src/collections/array_vec.rs: each operation does to the values of the vector what its counterpart
-- does to a list, keeps the capacity, and never reads a cell that holds no value.
use doom_fish_utils.Base.{
  ℕ, ◌+◌, ◌≤◌, ◌<◌, ◌≡◌, refl, ap, ◌∙◌, List, [], ◌∷◌, ◌++◌, Option, none, length, replicate, arith,
  returned, panicked, length-append, length-replicate, lt→ltb, not_lt→ltb,
}
use doom_fish_utils.Collections.ArrayVec.Memory.{Cells, write, filled, write-filled}
use doom_fish_utils.Collections.ArrayVec.{ArrayVec, cap, new, push}

-- The cells begin with the values of the list, and the length is theirs.
pub record Holds {ℓ} {A : Type ℓ} (v : ArrayVec A) (xs : List A) : Type ℓ where
  pub rest : Cells A
  pub items_eq : v.items ≡ filled xs rest
  pub len_eq : v.len ≡ length xs

module _ {ℓ} {A : Type ℓ} where
  pub length-filled :
      (xs : List A) (rest : Cells A) → length (filled xs rest) ≡ length xs + length rest
  length-filled [] rest = omega arith
  length-filled (x ∷ xs) rest = omega (arith, length-filled xs rest)

  pub new-Holds :
      (capacity : ℕ) → Holds (new {A = A} capacity) [] × (cap (new {A = A} capacity) ≡ capacity)
  unfolding new
  new-Holds capacity = (
    record { rest = replicate capacity none; items_eq = refl; len_eq = refl },
    length-replicate {A = Option A} capacity none,
  )

  pub cap-Holds :
      {v : ArrayVec A} {xs : List A} (h : Holds v xs) → cap v ≡ length xs + length h.rest
  cap-Holds {v} {xs} h = ap length h.items_eq ∙ length-filled xs h.rest

  uncons : (rest : Cells A) → 0 < length rest → (o : Option A) × (end : Cells A) × (rest ≡ o ∷ end)
  uncons [] p = absurd (omega arith)
  uncons (o ∷ end) p = (o, end, refl)

  module _ (v : ArrayVec A) (xs : List A) (h : Holds v xs) where
    -- There is a free cell behind the values.
    pub free_cell :
        length xs < cap v → (o : Option A) × (end : Cells A) × (v.items ≡ filled xs (o ∷ end))
    free_cell p =
        let (o, end, e) = uncons h.rest (omega (arith, cap-Holds h)) in
        (o, end, h.items_eq ∙ ap (filled xs) e)

    -- On a vector that holds a list and has room, `push` appends the value and keeps the capacity.
    pub push-Holds :
        (x : A)
        → length xs < cap v
        → ((push v x).1 ≡ returned tt)
          × Holds (push v x).0 (xs ++ x ∷ [])
          × (cap (push v x).0 ≡ cap v)
    unfolding push
    push-Holds x p = rw (lt→ltb v.len (cap v) (omega (arith, h.len_eq))) (
      refl,
      record {
        rest = end;
        items_eq = written;
        len_eq = omega (arith, h.len_eq, length-append xs (x ∷ []));
      },
      omega (
        arith,
        ap length written,
        length-filled (xs ++ x ∷ []) end,
        length-append xs (x ∷ []),
        ap length e,
        length-filled xs (o ∷ end),
      ),
    )
      where
        cell : (o : Option A) × (end : Cells A) × (v.items ≡ filled xs (o ∷ end))
        cell = free_cell p

        o : Option A
        o = cell.0

        end : Cells A
        end = cell.1

        e : v.items ≡ filled xs (o ∷ end)
        e = cell.2

        written : write v.items v.len x ≡ filled (xs ++ x ∷ []) end
        written = rw (e, h.len_eq) (write-filled xs o x end)

    pub push_full : (x : A) → cap v ≤ length xs → push v x ≡ (v, panicked "ArrayVec is full")
    unfolding push
    push_full x p = rw (not_lt→ltb v.len (cap v) (omega (arith, h.len_eq)))
