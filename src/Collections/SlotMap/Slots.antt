-- ===== src/Collections/SlotMap/Slots.antt =====
-- src/collections/slot_map.rs, `Slot` and `State`, and what holds of each slot and of a vector of
-- them.
use doom_fish_utils.Base.{
  ℕ, zero, suc, ◌+◌, ◌%◌, ◌<◌, ◌≤◌, ◌≡◌, refl, List, [], ◌∷◌, ◌++◌, Option, none, some, get_elem?,
  set, arith,
}
use doom_fish_utils.Collections.Key.{u32_mod}

pub data State {ℓ} (V : Type ℓ) : Type ℓ where
  occupied : V → State V
  vacant : ℕ → State V

pub record Slot {ℓ} (V : Type ℓ) : Type ℓ where
  pub version : ℕ
  pub state : State V

module _ {ℓ} {V : Type ℓ} where
  abbrev pub value_of : State V → Option V
  value_of (occupied v) = some v
  value_of (vacant next) = none

  abbrev pub value_at : Option (Slot V) → Option V
  value_at none = none
  value_at (some s) = value_of s.state

  -- The link that a vacant slot holds.
  abbrev pub link_of : State V → Option ℕ
  link_of (occupied v) = none
  link_of (vacant next) = some next

  abbrev pub link_at : Option (Slot V) → Option ℕ
  link_at none = none
  link_at (some s) = link_of s.state

  -- 1 for an occupied slot, which is what its version leaves modulo 2.
  abbrev pub parity : State V → ℕ
  parity (occupied v) = 1
  parity (vacant next) = 0

  abbrev pub IsSlot : Slot V → Type 0
  IsSlot s = (s.version < u32_mod) × (s.version % 2 ≡ parity s.state)

  abbrev pub AllSlots : List (Slot V) → Type 0
  AllSlots [] = Unit {0}
  AllSlots (s ∷ ss) = IsSlot s × AllSlots ss

  abbrev pub occupied_count : List (Slot V) → ℕ
  occupied_count [] = 0
  occupied_count (s ∷ ss) = parity s.state + occupied_count ss

module _ {ℓ} {V : Type ℓ} where
  pub AllSlots-get :
      (ss : List (Slot V)) (i : ℕ) (s : Slot V) → AllSlots ss → get_elem? ss i ≡ some s → IsSlot s
  AllSlots-get [] i s a e = cc
  AllSlots-get (x ∷ ss) zero s a e = ground arith
  AllSlots-get (x ∷ ss) (suc i) s a e = AllSlots-get ss i s a.1 e

  pub AllSlots-set :
      (ss : List (Slot V)) (i : ℕ) (s : Slot V) → AllSlots ss → IsSlot s → AllSlots (set ss i s)
  AllSlots-set [] i s a v = tt
  AllSlots-set (x ∷ ss) zero s a v = (v, a.1)
  AllSlots-set (x ∷ ss) (suc i) s a v = (a.0, AllSlots-set ss i s a.1 v)

  pub AllSlots-append_last :
      (ss : List (Slot V)) (s : Slot V) → AllSlots ss → IsSlot s → AllSlots (ss ++ s ∷ [])
  AllSlots-append_last [] s a v = (v, tt)
  AllSlots-append_last (x ∷ ss) s a v = (a.0, AllSlots-append_last ss s a.1 v)

  pub occupied_count-set :
      (ss : List (Slot V)) (i : ℕ) (old s : Slot V)
      → get_elem? ss i ≡ some old
      → occupied_count (set ss i s) + parity old.state ≡ occupied_count ss + parity s.state
  occupied_count-set [] i old s e = cc
  occupied_count-set (x ∷ ss) zero old s e = ground arith
  occupied_count-set (x ∷ ss) (suc i) old s e = omega (arith, occupied_count-set ss i old s e)

  pub occupied_count-append_last :
      (ss : List (Slot V)) (s : Slot V)
      → occupied_count (ss ++ s ∷ []) ≡ occupied_count ss + parity s.state
  occupied_count-append_last [] s = omega arith
  occupied_count-append_last (x ∷ ss) s = omega (arith, occupied_count-append_last ss s)

  pub parity-le-occupied_count :
      (ss : List (Slot V)) (i : ℕ) (s : Slot V)
      → get_elem? ss i ≡ some s
      → parity s.state ≤ occupied_count ss
  parity-le-occupied_count [] i s e = cc
  parity-le-occupied_count (x ∷ ss) zero s e = ground arith
  parity-le-occupied_count (x ∷ ss) (suc i) s e = omega (arith, parity-le-occupied_count ss i s e)

  -- A vector with no value left has none occupied.
  pub occupied_count-none :
      (ss : List (Slot V)) → ((i : ℕ) → value_at (get_elem? ss i) ≡ none) → occupied_count ss ≡ 0
  occupied_count-none [] h = refl
  occupied_count-none (s ∷ ss) h = ground (arith, h 0, occupied_count-none ss (λ i. h (suc i)))

  -- A slot with no link is occupied.
  pub parity_unlinked : (t : State V) → link_of t ≡ none → parity t ≡ 1
  parity_unlinked (occupied v) e = refl
  parity_unlinked (vacant next) e = cc

  -- An occupied slot is not the sentinel.
  pub pos_of_unlinked :
      (ss : List (Slot V)) (i : ℕ) (s : Slot V)
      → get_elem? ss i ≡ some s
      → link_of s.state ≡ none
      → link_at (get_elem? ss 0) ≡ some 0
      → 0 < i
  pos_of_unlinked ss zero s e n h = cc
  pos_of_unlinked ss (suc i) s e n h = omega arith

  -- A vacant slot holds no value.
  pub value_at_linked : (o : Option (Slot V)) (n : ℕ) → link_at o ≡ some n → value_at o ≡ none
  value_at_linked none n e = refl
  value_at_linked (some s) n e = state_valueless s.state e
    where
      state_valueless : (t : State V) → link_of t ≡ some n → value_of t ≡ none
      state_valueless (occupied v) e = cc
      state_valueless (vacant next) e = refl

  pub sentinel_valueless :
      (ss : List (Slot V))
      → link_at (get_elem? ss 0) ≡ some 0
      → (j : ℕ) → j < 1
      → value_at (get_elem? ss j) ≡ none
  sentinel_valueless ss h zero p = value_at_linked (get_elem? ss 0) 0 h
  sentinel_valueless ss h (suc j) p = absurd (omega arith)
