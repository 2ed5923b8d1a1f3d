-- ===== src/Spsc/Drop.antt =====
-- src/spsc.rs, `Drop for Ring`.
use doom_fish_utils.Base.{ℕ, zero, suc, ◌+◌, ◌<◌, ◌≡◌, arith, ap, ◌∙◌, List, [], ◌∷◌, some, length}
use doom_fish_utils.Spsc.{Ring, dropped, drop_item, drop_loop, drop_ring}
use doom_fish_utils.Spsc.Refine.{Represents}
use doom_fish_utils.Spsc.Pop.{taken_out, taken_out-Represents, pop-item, pop-empty}

module _ {ℓ} {A : Type ℓ} where
  drop_loop-Represents :
      (left : ℕ) (r : Ring A) (cap : ℕ) (xs : List A)
      → Represents r cap xs
      → length xs < left
      → drop_loop left r ≡ some xs
  unfolding drop_loop
  drop_loop-Represents zero r cap xs h l = absurd (omega arith)
  drop_loop-Represents (suc left) r cap [] h l =
      ap (drop_item (λ s. drop_loop left s)) (pop-empty r cap h)
  drop_loop-Represents (suc left) r cap (x ∷ xs) h l =
      ap (drop_item (λ s. drop_loop left s)) (pop-item r cap x xs h)
      ∙ ap (dropped x) (
          drop_loop-Represents left (taken_out r) cap xs (taken_out-Represents r cap x xs h)
            (omega arith))

  -- Dropping a ring that holds a list of items pops and drops each of them once, the oldest first, and
  -- ends within one round more than there are slots.
  pub drop_ring-Represents :
      (r : Ring A) (cap : ℕ) (xs : List A) → Represents r cap xs → drop_ring r ≡ some xs
  unfolding drop_ring
  drop_ring-Represents r cap xs h =
      drop_loop-Represents (length r.slots + 1) r cap xs h (omega (arith, h.fits, h.cap_eq))
