-- ===== src/Spsc/Fresh.antt =====
-- src/spsc.rs: a new ring is empty, and its laps divide the numbers of a `usize`.
use doom_fish_utils.Base.{
  ℕ, zero, suc, ◌+◌, ◌-◌, ◌*◌, ◌^◌, ◌≤◌, ◌<◌, ◌≡◌, refl, arith, sym, ap, ◌∙◌, inl, inr, [], none,
  some, true, false, ltb, leb, leb→le, length, get_elem?, Bool-cases, dec_lt, lt→ltb,
}
use native.Mathlib.Nat.{pow-suc, one-le-pow, pow-le-pow_right, mul_assoc, mul_comm}
use doom_fish_utils.Spsc.{new, new_slots, power_loop, next_power_of_two}
use doom_fish_utils.Spsc.Positions.{encode, IsLap}
use doom_fish_utils.Spsc.Places.{place_index, place_round, place_first}
use doom_fish_utils.Spsc.Refine.{cell, Represents}

power_loop_lem :
    (left p n d : ℕ)
    → p ≡ 2 ^ d
    → d ≤ 62
    → n ≤ p + left
    → n ≤ 2 ^ 62
    → (e : ℕ) × (power_loop left p n ≡ 2 ^ e) × (e ≤ 62) × (n ≤ power_loop left p n)
unfolding power_loop
power_loop_lem zero p n d e h l b = (d, e, h, omega arith)
power_loop_lem (suc left) p n d e h l b = elim (Bool-cases (leb n p)) [
  | inl f ↦ rw f (d, e, h, leb→le n p f)
  | inr f ↦
      let g : p < n = ground arith in
      elim (dec_lt d 62) [
        | Dec.yes m ↦
            let o : 1 ≤ 2 ^ d = one-le-pow d 2 (omega arith) in
            rw f (
              power_loop_lem left (p * 2) n (suc d) (ap (λ a. a * 2) e ∙ sym (pow-suc 2 d))
                (omega arith) (omega arith) b)
        | Dec.no m ↦
            let s : d ≡ 62 = omega arith in
            let w : p ≡ 2 ^ 62 = e ∙ ap (λ a. 2 ^ a) s in absurd (omega arith)
      ]
]

two_pow_add : (a b : ℕ) → 2 ^ (a + b) ≡ 2 ^ a * 2 ^ b
two_pow_add zero b =
    let s : 0 + b ≡ b = omega arith in
    let t : 2 ^ b ≡ 1 * 2 ^ b = omega arith in ap (λ p. 2 ^ p) s ∙ t
two_pow_add (suc a) b =
    let s : suc a + b ≡ suc (a + b) = omega arith in
    let t : 2 ^ (a + b) * 2 ≡ 2 ^ a * 2 * 2 ^ b =
      ap (λ p. p * 2) (two_pow_add a b)
      ∙ mul_assoc (2 ^ a) (2 ^ b) 2
      ∙ ap (λ p. 2 ^ a * p) (mul_comm (2 ^ b) 2)
      ∙ sym (mul_assoc (2 ^ a) 2 (2 ^ b)) in
    ap (λ p. 2 ^ p) s ∙ pow-suc 2 (a + b) ∙ t ∙ ap (λ p. p * 2 ^ b) (sym (pow-suc 2 a))

zero_position : (lap i : ℕ) → i ≡ 0 → 0 ≡ encode lap 0 i
zero_position lap i e = omega arith

-- A lap of twice such a power of two.
power-IsLap : (p e : ℕ) → p ≡ 2 ^ e → e ≤ 62 → IsLap (p * 2) (2 ^ (63 - e))
power-IsLap p e h g =
    let s : 63 - e + suc e ≡ 64 = omega arith in
    record {
      digits = suc e;
      high = 63 - e;
      lap_eq = ap (λ a. a * 2) h ∙ sym (pow-suc 2 e);
      rounds_eq = refl;
      all_eq =
          ap (λ a. 2 ^ (63 - e) * (a * 2)) h
          ∙ ap (λ a. 2 ^ (63 - e) * a) (sym (pow-suc 2 e))
          ∙ sym (two_pow_add (63 - e) (suc e))
          ∙ ap (λ a. 2 ^ a) s;
      several =
          let t : 1 ≤ 63 - e = omega arith in
          let u : 0 < 2 = omega arith in pow-le-pow_right {n = 2} u t;
      half = p;
      half_eq = mul_comm p 2;
    }

module _ {ℓ} (A : Type ℓ) where
  length-new_slots : (n j : ℕ) → length (new_slots {A = A} n j) ≡ n
  unfolding new_slots
  length-new_slots zero j = refl
  length-new_slots (suc n) j = ap suc (length-new_slots n (j + 1))

  get_elem?-new_slots :
      (n j k : ℕ)
      → k < n
      → get_elem? (new_slots {A = A} n j) k ≡ some (record { stamp = (j + k) * 2; value = none })
  unfolding new_slots
  get_elem?-new_slots zero j k h = absurd (omega arith)
  get_elem?-new_slots (suc n) j zero h =
      let e : j * 2 ≡ (j + 0) * 2 = omega arith in
      ap (λ s. some (record { stamp = s; value = none })) e
  get_elem?-new_slots (suc n) j (suc k) h =
      let e : (j + 1 + k) * 2 ≡ (j + suc k) * 2 = omega arith in
      get_elem?-new_slots n (j + 1) k (omega arith)
      ∙ ap (λ s. some (record { stamp = s; value = none })) e

  new-slots :
      (lap rounds n k : ℕ)
      → k < n
      → get_elem? (new_slots {A = A} n 0) (place_index n rounds 0 0 k)
        ≡ some (cell {A = A} lap rounds n 0 0 [] k)
  unfolding place_index place_round
  new-slots lap rounds n k h =
      let t : ltb (0 + k) n ≡ true = lt→ltb (0 + k) n (omega arith) in
      let e : (0 + (0 + k)) * 2 ≡ 0 * lap + 2 * (0 + k) = omega arith in
      let z : ltb k 0 ≡ false = ground arith in
      rw (t, z)
        (get_elem?-new_slots n 0 (0 + k) (omega arith)
          ∙ ap (λ s. some (record { stamp = s; value = none })) e)

  pub new-Represents : (n : ℕ) → 0 < n → n ≤ 2 ^ 62 → Represents {A = A} (new n) n []
  unfolding new next_power_of_two
  new-Represents n h g =
      let (e, a, b, c) = power_loop_lem n 1 n 0 refl (omega arith) (omega arith) g in
      let f = place_first n (2 ^ (63 - e)) 0 0 h in
      record {
        rounds = 2 ^ (63 - e);
        q = 0;
        i = 0;
        is_lap = power-IsLap (power_loop n 1 n) e a b;
        cap_eq = length-new_slots n 0;
        roomy = omega (arith, c);
        index_lt = h;
        round_lt = one-le-pow (63 - e) 2 (omega arith);
        fits = omega arith;
        read_eq = zero_position (power_loop n 1 n * 2) 0 refl;
        write_eq =
            zero_position (power_loop n 1 n * 2) (place_index n (2 ^ (63 - e)) 0 0 0) f.0
            ∙ ap (λ p. encode (power_loop n 1 n * 2) p (place_index n (2 ^ (63 - e)) 0 0 0))
                (sym f.1);
        slots_eq = λ k m. new-slots (power_loop n 1 n * 2) (2 ^ (63 - e)) n k m;
      }
