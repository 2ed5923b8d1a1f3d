-- ===== src/Spsc/Positions.antt =====
-- src/spsc.rs: a position is a round and an index, and wraps around with the rounds.
use doom_fish_utils.Base.{
  ℕ, suc, ◌+◌, ◌-◌, ◌*◌, ◌/◌, ◌%◌, ◌^◌, ◌≤◌, ◌<◌, ◌≡◌, bit_and, arith, sym, ap, subst, ◌∙◌, ◌≢◌,
  dec_lt,
}
use native.Mathlib.Nat.{
  mul-le-mul_right, eq_of_mul-eq-mul_right, suc-mul, mul_left_comm, mod-eq_of_lt, mod_self,
}
use doom_fish_utils.Base.Bits.{bit_and_low, bit_and_high}
use doom_fish_utils.Spsc.{wrapping_add, wrapping_sub}

abbrev pub encode : ℕ → ℕ → ℕ → ℕ
encode lap q i = q * lap + 2 * i

-- A round takes `lap` numbers, a power of two that halves, and there are `rounds` of them.
pub record IsLap (lap rounds : ℕ) : Type 0 where
  pub digits : ℕ
  pub high : ℕ
  pub lap_eq : lap ≡ 2 ^ digits
  pub rounds_eq : rounds ≡ 2 ^ high
  pub all_eq : rounds * lap ≡ 2 ^ 64
  pub several : 2 ≤ rounds
  pub half : ℕ
  pub half_eq : lap ≡ 2 * half

module _ (lap rounds : ℕ) (l : IsLap lap rounds) where
  -- A number within a round.
  below : (q r : ℕ) → q < rounds → r < lap → q * lap + r < 2 ^ 64
  below q r h g =
      let m : suc q * lap ≤ rounds * lap = mul-le-mul_right lap h in
      omega (arith, suc-mul q lap, l.all_eq)

  pub index_at : (q i : ℕ) → 2 * i < lap → bit_and (encode lap q i) (lap - 1) / 2 ≡ i
  index_at q i h =
      let g : 2 * i < 2 ^ l.digits = rw (← l.lap_eq) h in
      let e : bit_and (q * 2 ^ l.digits + 2 * i) (2 ^ l.digits - 1) ≡ 2 * i =
        bit_and_low l.digits q (2 * i) g in
      let f : bit_and (encode lap q i) (lap - 1) ≡ 2 * i = rw l.lap_eq e in omega arith

  pub round_at :
      (q i : ℕ) → q < rounds → 2 * i < lap → bit_and (encode lap q i) (2 ^ 64 - lap) ≡ q * lap
  round_at q i h g =
      let e : bit_and (q * 2 ^ l.digits + 2 * i) ((2 ^ l.high - 1) * 2 ^ l.digits)
          ≡ q * 2 ^ l.digits =
        bit_and_high l.digits l.high q (2 * i) (rw (← l.lap_eq) g) (rw (← l.rounds_eq) h) in
      let f : bit_and (q * lap + 2 * i) ((2 ^ l.high - 1) * lap) ≡ q * lap =
        subst (λ p. bit_and (q * p + 2 * i) ((2 ^ l.high - 1) * p) ≡ q * p) (sym l.lap_eq) e in
      let n : bit_and (q * lap + 2 * i) ((rounds - 1) * lap) ≡ q * lap =
        subst (λ p. bit_and (q * lap + 2 * i) ((p - 1) * lap) ≡ q * lap) (sym l.rounds_eq) f in
      let k : rounds * lap ≡ (rounds - 1) * lap + lap =
        ap (λ p. p * lap) (let z : rounds ≡ suc (rounds - 1) = omega arith in z)
        ∙ suc-mul (rounds - 1) lap in
      let m : (rounds - 1) * lap ≡ 2 ^ 64 - lap = omega (arith, l.all_eq) in
      subst (λ p. bit_and (q * lap + 2 * i) p ≡ q * lap) m n

  -- The position a round later, and back.
  pub round_later :
      (q i : ℕ)
      → q < rounds
      → 2 * i < lap
      → wrapping_add (encode lap q i) lap ≡ encode lap (suc q % rounds) i
  round_later q i h g = elim (dec_lt (suc q) rounds) [
    | Dec.yes n ↦
        let b : suc q * lap + 2 * i < 2 ^ 64 = below (suc q) (2 * i) n g in
        let m : suc q % rounds ≡ suc q = mod-eq_of_lt n in rw m (omega (arith, suc-mul q lap))
    | Dec.no n ↦
        let e : suc q ≡ rounds = omega arith in
        let m : suc q % rounds ≡ 0 = ap (λ p. p % rounds) e ∙ mod_self rounds in
        let k : suc q * lap ≡ 2 ^ 64 = ap (λ p. p * lap) e ∙ l.all_eq in
        let b : q * lap + 2 * i < 2 ^ 64 = below q (2 * i) h g in
        rw m (omega (arith, suc-mul q lap))
  ]

  pub round_earlier :
      (q i : ℕ)
      → q < rounds
      → 2 * i < lap
      → wrapping_sub (encode lap (suc q % rounds) i) lap ≡ encode lap q i
  round_earlier q i h g = elim (dec_lt (suc q) rounds) [
    | Dec.yes n ↦
        let b : suc q * lap + 2 * i < 2 ^ 64 = below (suc q) (2 * i) n g in
        let m : suc q % rounds ≡ suc q = mod-eq_of_lt n in rw m (omega (arith, suc-mul q lap))
    | Dec.no n ↦
        let e : suc q ≡ rounds = omega arith in
        let m : suc q % rounds ≡ 0 = ap (λ p. p % rounds) e ∙ mod_self rounds in
        let k : suc q * lap ≡ 2 ^ 64 = ap (λ p. p * lap) e ∙ l.all_eq in
        let b : q * lap + 2 * i < 2 ^ 64 = below q (2 * i) h g in
        rw m (omega (arith, suc-mul q lap))
  ]

  -- The next item in the same round.
  pub step_within :
      (q i : ℕ)
      → q < rounds
      → 2 * i + 2 < lap
      → wrapping_add (encode lap q i) 2 ≡ encode lap q (i + 1)
  step_within q i h g =
      let b : q * lap + (2 * i + 2) < 2 ^ 64 = below q (2 * i + 2) h g in omega arith

  -- A filled slot's stamp is odd, and a position is even.
  pub stamp_at :
      (q i : ℕ)
      → q < rounds
      → 2 * i + 1 < lap
      → wrapping_add (encode lap q i) 1 ≡ encode lap q i + 1
  stamp_at q i h g = let b : q * lap + (2 * i + 1) < 2 ^ 64 = below q (2 * i + 1) h g in omega arith

  pub odd-ne-even : (q i p j : ℕ) → encode lap q i + 1 ≢ encode lap p j
  odd-ne-even q i p j e =
      let a : q * lap ≡ 2 * (q * l.half) = ap (λ n. q * n) l.half_eq ∙ mul_left_comm q 2 l.half in
      let b : p * lap ≡ 2 * (p * l.half) = ap (λ n. p * n) l.half_eq ∙ mul_left_comm p 2 l.half in
      omega arith

  pub encode-injective :
      (q i p j : ℕ)
      → 2 * i < lap
      → 2 * j < lap
      → encode lap q i ≡ encode lap p j
      → (q ≡ p) × (i ≡ j)
  encode-injective q i p j h g e =
      let f : i ≡ j = sym (index_at q i h) ∙ ap (λ n. bit_and n (lap - 1) / 2) e ∙ index_at p j g in
      let n : q * lap ≡ p * lap = omega arith in
      (eq_of_mul-eq-mul_right lap (let z : 0 < lap = omega arith in z) q p n, f)

  -- The next round is another one.
  pub next_round_ne : (q : ℕ) → q < rounds → suc q % rounds ≢ q
  next_round_ne q h e = elim (dec_lt (suc q) rounds) [
    | Dec.yes n ↦ let m : suc q % rounds ≡ suc q = mod-eq_of_lt n in absurd (omega arith)
    | Dec.no n ↦
        let d : suc q ≡ rounds = omega arith in
        let m : suc q % rounds ≡ 0 = ap (λ p. p % rounds) d ∙ mod_self rounds in
        absurd (omega (arith, l.several))
  ]
