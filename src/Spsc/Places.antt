-- ===== src/Spsc/Places.antt =====
-- src/spsc.rs: the positions of the items that a ring holds, and `next` from one to the other.
use doom_fish_utils.Base.{
  ℕ, suc, ◌+◌, ◌-◌, ◌*◌, ◌%◌, ◌≤◌, ◌<◌, ◌≡◌, ◌≢◌, refl, arith, sym, ap, ap₂, ◌∙◌, inl, inr, true,
  false, ◌==◌, ltb, if◌then◌else◌, length, Bool-cases, ltb→lt, lt→ltb, not_lt→ltb, dec_lt, eq→==,
  ℕ_discrete, ne→==,
}
use native.Mathlib.Nat.{mod-lt}
use doom_fish_utils.Spsc.{Ring, wrapping_add, index, next}
use doom_fish_utils.Spsc.Positions.{encode, IsLap, index_at, round_at, round_later, step_within}

-- The item `k` behind the one at round `q` and index `i`, in a ring of `cap` slots.
module _ (cap rounds q i : ℕ) where
  unfoldable pub place_index : ℕ → ℕ
  place_index k = if ltb (i + k) cap then i + k else i + k - cap

  unfoldable pub place_round : ℕ → ℕ
  place_round k = if ltb (i + k) cap then q else suc q % rounds

  module _ (start : i < cap) where
    pub place_index-lt : (k : ℕ) → k ≤ cap → place_index k < cap
    unfolding place_index
    place_index-lt k h = ground arith

    pub place_index-injective :
        (k n : ℕ) → k < cap → n < cap → place_index k ≡ place_index n → k ≡ n
    unfolding place_index
    place_index-injective k n h g e = ground arith

    pub place_round-lt : (k : ℕ) → q < rounds → place_round k < rounds
    unfolding place_round
    place_round-lt k h = elim (Bool-cases (ltb (i + k) cap)) [
      | inl e ↦ rw e h
      | inr e ↦ rw e (mod-lt (suc q) (let z : 0 < rounds = omega arith in z))
    ]

    -- Behind the last slot a new round begins.
    pub place_wraps :
        (k : ℕ)
        → k < cap
        → place_index k + 1 ≡ cap
        → (place_index (k + 1) ≡ 0) × (place_round (k + 1) ≡ suc (place_round k) % rounds)
    unfolding place_index place_round
    place_wraps k h e = elim (Bool-cases (ltb (i + k) cap)) [
      | inl f ↦
          let n : i + k + 1 ≡ cap = ground arith in
          let z : ltb (i + (k + 1)) cap ≡ false = ground arith in rw (f, z) (omega arith, refl)
      | inr f ↦ let n : cap ≤ i + k = ground arith in absurd (ground arith)
    ]

    pub place_steps :
        (k : ℕ)
        → k < cap
        → place_index k + 1 ≢ cap
        → (place_index (k + 1) ≡ place_index k + 1) × (place_round (k + 1) ≡ place_round k)
    unfolding place_index place_round
    place_steps k h e = elim (Bool-cases (ltb (i + k) cap)) [
      | inl f ↦
          let n : i + k + 1 ≢ cap = ground arith in
          let l : i + k < cap = ltb→lt (i + k) cap f in
          let z : ltb (i + (k + 1)) cap ≡ true = lt→ltb (i + (k + 1)) cap (omega arith) in
          rw (f, z) (omega arith, refl)
      | inr f ↦
          let n : cap ≤ i + k = ground arith in
          let z : ltb (i + (k + 1)) cap ≡ false = ground arith in rw (f, z) (omega arith, refl)
    ]

    pub place_first : (place_index 0 ≡ i) × (place_round 0 ≡ q)
    unfolding place_index place_round
    place_first =
        let t : ltb (i + 0) cap ≡ true = lt→ltb (i + 0) cap (omega arith) in
        rw t (omega arith, refl)

    -- A round later is the same index again.
    pub place_full : (place_index cap ≡ i) × (place_round cap ≡ suc q % rounds)
    unfolding place_index place_round
    place_full =
        let t : ltb (i + cap) cap ≡ false = not_lt→ltb (i + cap) cap (omega arith) in
        rw t (omega arith, refl)

-- From the second item on the places are those one further.
module _ (cap rounds q i : ℕ) (start : i < cap) where
  pub place_shift :
      (k : ℕ)
      → k < cap
      → (place_index cap rounds (place_round cap rounds q i 1) (place_index cap rounds q i 1) k
          ≡ place_index cap rounds q i (k + 1))
        × (place_round cap rounds (place_round cap rounds q i 1) (place_index cap rounds q i 1) k
            ≡ place_round cap rounds q i (k + 1))
  unfolding place_index place_round
  place_shift k h = elim (dec_lt (i + 1) cap) [
    | Dec.yes n ↦
        let a : i + 1 + k ≡ i + (k + 1) = omega arith in rw (lt→ltb (i + 1) cap n, a) (refl, refl)
    | Dec.no n ↦
        let a : i + 1 - cap + k ≡ k = omega arith in
        let b : ltb (i + (k + 1)) cap ≡ false = not_lt→ltb _ cap (omega arith) in
        let c : i + (k + 1) - cap ≡ k = omega arith in
        rw (not_lt→ltb (i + 1) cap n, a, b, lt→ltb k cap h) (sym c, refl)
  ]

-- What `next` does at a position of a ring.
module _ {ℓ} {A : Type ℓ} (r : Ring A) (rounds : ℕ) (l : IsLap r.lap rounds) where
  pub index-encode : (q i : ℕ) → 2 * i < r.lap → index r (encode r.lap q i) ≡ i
  index-encode q i h = index_at r.lap rounds l q i h

  next_wraps :
      (q i : ℕ)
      → q < rounds
      → 2 * i < r.lap
      → i + 1 ≡ length r.slots
      → next r (encode r.lap q i) ≡ encode r.lap (suc q % rounds) 0
  unfolding next
  next_wraps q i h g e =
      let t : (index r (encode r.lap q i) + 1 == length r.slots) ≡ true =
        eq→== (index r (encode r.lap q i) + 1) (length r.slots)
          (ap (λ n. n + 1) (index-encode q i g) ∙ e) in
      let z : q * r.lap ≡ encode r.lap q 0 = omega arith in
      rw (t, round_at r.lap rounds l q i h g)
        (ap (λ n. wrapping_add n r.lap) z ∙ round_later r.lap rounds l q 0 h (omega arith))

  next_steps :
      (q i : ℕ)
      → q < rounds
      → 2 * i + 2 < r.lap
      → i + 1 ≢ length r.slots
      → next r (encode r.lap q i) ≡ encode r.lap q (i + 1)
  unfolding next
  next_steps q i h g e =
      let t : (index r (encode r.lap q i) + 1 == length r.slots) ≡ false =
        ne→== (index r (encode r.lap q i) + 1) (length r.slots)
          (λ d. e (sym (ap (λ n. n + 1) (index-encode q i (omega arith))) ∙ d)) in
      rw t (step_within r.lap rounds l q i h g)

  abbrev position : ℕ → ℕ → ℕ → ℕ
  position q i k =
      encode r.lap (place_round (length r.slots) rounds q i k)
        (place_index (length r.slots) rounds q i k)

  -- From the position of an item to that of the item behind it.
  pub next-position :
      (q i k : ℕ)
      → 2 * length r.slots ≤ r.lap
      → i < length r.slots
      → q < rounds
      → k < length r.slots
      → next r (position q i k) ≡ position q i (k + 1)
  next-position q i k b s h g =
      let j : place_index (length r.slots) rounds q i k < length r.slots =
        place_index-lt (length r.slots) rounds q i s k (omega arith) in
      let p : place_round (length r.slots) rounds q i k < rounds =
        place_round-lt (length r.slots) rounds q i s k h in
      elim (ℕ_discrete (place_index (length r.slots) rounds q i k + 1) (length r.slots)) [
        | Dec.yes e ↦
            let (a, c) = place_wraps (length r.slots) rounds q i s k g e in
            next_wraps _ _ p (omega arith) e ∙ sym (ap₂ (encode r.lap) c a)
        | Dec.no e ↦
            let (a, c) = place_steps (length r.slots) rounds q i s k g e in
            next_steps _ _ p (omega arith) e ∙ sym (ap₂ (encode r.lap) c a)
      ]
