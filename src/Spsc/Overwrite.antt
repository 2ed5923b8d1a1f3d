-- ===== src/Spsc/Overwrite.antt =====
-- src/spsc.rs: a full ring that takes an item over the oldest one.
use doom_fish_utils.Base.{
  ℕ, ◌≡◌, refl, arith, sym, ap, ap₂, subst, ◌∙◌, List, [], ◌∷◌, ◌++◌, none, length, set, set-set,
  length-set,
}
use doom_fish_utils.Spsc.{Ring, index, next, stored, wrapping_add}
use doom_fish_utils.Spsc.Places.{place_index, place_full}
use doom_fish_utils.Spsc.Refine.{Represents, index-write}
use doom_fish_utils.Spsc.Push.{pushed, pushed-Represents, overwritten}
use doom_fish_utils.Spsc.Pop.{taken_out, taken_out-Represents, index-read}

module _ {ℓ} {A : Type ℓ} (r : Ring A) where
  -- The next position is that of any ring with as many slots.
  next-taken_out : (p : ℕ) → next (taken_out r) p ≡ next r p
  unfolding next
  next-taken_out p =
      rw
        (length-set r.slots (index r r.read)
          (record { stamp = wrapping_add r.read r.lap; value = none }))
        refl

  -- It is the same as reading the oldest item first.
  overwritten-eq :
      (item : A) → index r r.write ≡ index r r.read → pushed (taken_out r) item ≡ overwritten r item
  overwritten-eq item e =
      ap₂ (λ n s. record r { read = next r r.read; write = n; slots = s }) (next-taken_out r.write)
        (ap
            (λ j.
              set (set r.slots j (record { stamp = wrapping_add r.read r.lap; value = none }))
                (index r r.write) (stored r.write item))
            (sym e)
          ∙ set-set r.slots (index r r.write) _ (stored r.write item))

  pub overwritten-Represents :
      (cap : ℕ) (x : A) (xs : List A) (item : A)
      → Represents r cap (x ∷ xs)
      → length (x ∷ xs) ≡ cap
      → Represents (overwritten r item) cap (xs ++ item ∷ [])
  overwritten-Represents cap x xs item h e =
      let (a, _) = place_full cap h.rounds h.q h.i h.index_lt in
      let j : index r r.write ≡ index r r.read =
        index-write r cap (x ∷ xs) h
        ∙ ap (place_index cap h.rounds h.q h.i) e
        ∙ a
        ∙ sym (index-read r cap (x ∷ xs) h) in
      subst (λ s. Represents s cap (xs ++ item ∷ [])) (overwritten-eq item j)
        (pushed-Represents (taken_out r) cap xs item (taken_out-Represents r cap x xs h)
          (omega (arith, e)))
