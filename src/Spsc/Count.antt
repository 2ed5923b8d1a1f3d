-- ===== src/Spsc/Count.antt =====
-- src/spsc.rs: `len` on a ring that holds a list.
use doom_fish_utils.Base.{
  ℕ, ◌+◌, ◌-◌, ◌≤◌, ◌<◌, ◌≡◌, ◌≢◌, arith, sym, ap, ap₂, ◌∙◌, List, true, false, ltb, if◌then◌else◌,
  length, ℕ_discrete, dec_lt, lt→ltb, not_lt→ltb, eq→==, ne→==,
}
use doom_fish_utils.Spsc.{Ring, len}
use doom_fish_utils.Spsc.Positions.{encode, encode-injective, next_round_ne}
use doom_fish_utils.Spsc.Places.{
  place_index, place_round, place_index-lt, place_index-injective, place_first, place_full,
}
use doom_fish_utils.Spsc.Refine.{position, Represents, index-write}
use doom_fish_utils.Spsc.Pop.{index-read}

-- The distance between the indices, around the end of the slots.
distance :
    (cap rounds q i n : ℕ)
    → i < cap
    → 0 < n
    → n ≤ cap
    → (if ltb i (place_index cap rounds q i n)
        then place_index cap rounds q i n - i
        else cap - i + place_index cap rounds q i n)
      ≡ n
unfolding place_index
distance cap rounds q i n h p g = elim (dec_lt (i + n) cap) [
  | Dec.yes l ↦
      let t : ltb i (i + n) ≡ true = lt→ltb i (i + n) (omega arith) in
      rw (lt→ltb (i + n) cap l, t) (omega arith)
  | Dec.no l ↦
      let t : ltb i (i + n - cap) ≡ false = not_lt→ltb i (i + n - cap) (omega arith) in
      rw (not_lt→ltb (i + n) cap l, t) (omega arith)
]

module _ {ℓ} {A : Type ℓ} (r : Ring A) (cap : ℕ) (xs : List A) (h : Represents r cap xs) where
  -- With an item in the ring it is written elsewhere than it is read.
  read-ne-write : 0 < length xs → r.read ≢ r.write
  read-ne-write p e =
      let j : place_index cap h.rounds h.q h.i (length xs) < cap =
        place_index-lt cap h.rounds h.q h.i h.index_lt (length xs) h.fits in
      let (a, b) =
        encode-injective r.lap h.rounds h.is_lap h.q h.i
          (place_round cap h.rounds h.q h.i (length xs))
          (place_index cap h.rounds h.q h.i (length xs)) (omega (arith, h.roomy, h.index_lt))
          (omega (arith, h.roomy)) (sym h.read_eq ∙ e ∙ h.write_eq) in
      elim (dec_lt (length xs) cap) [
        | Dec.yes l ↦
            let (d, _) = place_first cap h.rounds h.q h.i h.index_lt in
            let n : 0 ≡ length xs =
              place_index-injective cap h.rounds h.q h.i h.index_lt 0 (length xs)
                (omega (arith, h.index_lt)) l (d ∙ b) in
            absurd (omega arith)
        | Dec.no l ↦
            let s : length xs ≡ cap = omega (arith, h.fits) in
            let (_, d) = place_full cap h.rounds h.q h.i h.index_lt in
            next_round_ne r.lap h.rounds h.is_lap h.q h.round_lt
              (sym d ∙ ap (place_round cap h.rounds h.q h.i) (sym s) ∙ sym a)
      ]

  pub len-Represents : len r ≡ length xs
  unfolding len
  len-Represents = elim (ℕ_discrete (length xs) 0) [
    | Dec.yes e ↦
        let w : r.read ≡ r.write =
          let (a, b) = place_first cap h.rounds h.q h.i h.index_lt in
          h.read_eq
          ∙ sym (ap₂ (encode r.lap) b a)
          ∙ ap (position r.lap h.rounds cap h.q h.i) (sym e)
          ∙ sym h.write_eq in
        rw (eq→== r.read r.write w) (sym e)
    | Dec.no e ↦
        let p : 0 < length xs = omega arith in
        rw
          (
            ne→== r.read r.write (read-ne-write p),
            index-read r cap xs h,
            index-write r cap xs h,
            h.cap_eq,
          )
          (distance cap h.rounds h.q h.i (length xs) h.index_lt p h.fits)
  ]
