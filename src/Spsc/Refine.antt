-- ===== src/Spsc/Refine.antt =====
-- src/spsc.rs: a ring holds a list, from the position that is read next on.
use doom_fish_utils.Base.{
  ℕ, ◌+◌, ◌*◌, ◌≤◌, ◌<◌, ◌≡◌, refl, arith, sym, ap, subst, ◌∙◌, List, some, true, false, ◌==◌, ltb,
  if◌then◌else◌, length, get_elem?, set, ℕ_discrete, eq→==, ne→==, get_elem?-set,
}
use doom_fish_utils.Spsc.{Slot, Ring, index, next}
use doom_fish_utils.Spsc.Positions.{encode, IsLap}
use doom_fish_utils.Spsc.Places.{
  place_index, place_round, place_index-lt, place_index-injective, index-encode, next-position,
}

-- The position `k` items behind the one at round `q` and index `i`.
abbrev pub position : ℕ → ℕ → ℕ → ℕ → ℕ → ℕ → ℕ
position lap rounds cap q i k =
    encode lap (place_round cap rounds q i k) (place_index cap rounds q i k)

module _ {ℓ} {A : Type ℓ} where
  -- The slot there: a stamp one above the position marks an item, which the list has at `k`.
  abbrev pub cell : ℕ → ℕ → ℕ → ℕ → ℕ → List A → ℕ → Slot A
  cell lap rounds cap q i xs k = record {
    stamp =
        if ltb k (length xs)
        then position lap rounds cap q i k + 1
        else position lap rounds cap q i k;
    value = get_elem? xs k;
  }

  pub record Represents (r : Ring A) (cap : ℕ) (xs : List A) : Type ℓ where
    pub rounds : ℕ
    pub q : ℕ
    pub i : ℕ
    pub is_lap : IsLap r.lap rounds
    pub cap_eq : length r.slots ≡ cap
    pub roomy : 2 * cap ≤ r.lap
    pub index_lt : i < cap
    pub round_lt : q < rounds
    pub fits : length xs ≤ cap
    pub read_eq : r.read ≡ encode r.lap q i
    pub write_eq : r.write ≡ position r.lap rounds cap q i (length xs)
    pub slots_eq :
        (k : ℕ)
        → k < cap
        → get_elem? r.slots (place_index cap rounds q i k) ≡ some (cell r.lap rounds cap q i xs k)

  pub next-place :
      (r : Ring A) (rounds cap q i k : ℕ)
      → IsLap r.lap rounds
      → length r.slots ≡ cap
      → 2 * cap ≤ r.lap
      → i < cap
      → q < rounds
      → k < cap
      → next r (position r.lap rounds cap q i k) ≡ position r.lap rounds cap q i (k + 1)
  next-place r rounds cap q i k l e =
      subst
        (λ c.
          2 * c ≤ r.lap
          → i < c
          → q < rounds
          → k < c
          → next r (position r.lap rounds c q i k) ≡ position r.lap rounds c q i (k + 1))
        e (λ b s h g. next-position r rounds l q i k b s h g)

  module _ (r : Ring A) (cap : ℕ) (xs : List A) (h : Represents r cap xs) where
    -- The index of the position `k` items behind the one that is read next.
    pub index-position :
        (k : ℕ)
        → k ≤ cap
        → index r (position r.lap h.rounds cap h.q h.i k) ≡ place_index cap h.rounds h.q h.i k
    index-position k g =
        index-encode r h.rounds h.is_lap _ _
          (omega (arith, h.roomy, place_index-lt cap h.rounds h.q h.i h.index_lt k g))

    pub index-write : index r r.write ≡ place_index cap h.rounds h.q h.i (length xs)
    index-write = ap (index r) h.write_eq ∙ index-position (length xs) h.fits

    -- The slots with another one at the place of the item `n`.
    pub slots-set :
        (n k : ℕ) (s : Slot A) (p : ℕ)
        → p ≡ place_index cap h.rounds h.q h.i n
        → n < cap
        → k < cap
        → get_elem? (set r.slots p s) (place_index cap h.rounds h.q h.i k)
          ≡ (if n == k then some s else some (cell r.lap h.rounds cap h.q h.i xs k))
    slots-set n k s p e g m =
        let j : place_index cap h.rounds h.q h.i n < cap =
          place_index-lt cap h.rounds h.q h.i h.index_lt n (omega arith) in
        let t : p < length r.slots = omega (arith, h.cap_eq) in
        get_elem?-set r.slots p (place_index cap h.rounds h.q h.i k) s t ∙ (elim (ℕ_discrete n k) [
          | Dec.yes f ↦
              let a : (p == place_index cap h.rounds h.q h.i k) ≡ true =
                eq→== p _ (e ∙ ap (place_index cap h.rounds h.q h.i) f) in
              rw (a, eq→== n k f) refl
          | Dec.no f ↦
              let a : (p == place_index cap h.rounds h.q h.i k) ≡ false = ne→== p _ (λ d.
                f (place_index-injective cap h.rounds h.q h.i h.index_lt n k g m (sym e ∙ d))) in
              rw (a, ne→== n k f) (h.slots_eq k m)
        ])
