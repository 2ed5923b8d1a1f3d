-- ===== src/Collections/SlotMap/FreeList.antt =====
-- src/collections/slot_map.rs: the free list that runs through the vacant slots.
use doom_fish_utils.Base.{
  ℕ, ◌<◌, ◌≡◌, refl, subst, ◌≢◌, List, [], ◌∷◌, Option, none, some, length, get_elem?, set, arith,
  length-set, get_elem?-set_ne,
}
use doom_fish_utils.Collections.SlotMap.Slots.{State, occupied, vacant, Slot, link_of, link_at}

-- No index of the list is `i`.
abbrev pub IsAbsent : ℕ → List ℕ → Type 0
IsAbsent i [] = Unit {0}
IsAbsent i (j ∷ js) = (i ≢ j) × IsAbsent i js

abbrev pub IsDistinct : List ℕ → Type 0
IsDistinct [] = Unit {0}
IsDistinct (j ∷ js) = IsAbsent j js × IsDistinct js

module _ {ℓ} {V : Type ℓ} where
  -- From `head` the links pass through just these vacant slots, none of them slot 0, and end at the
  -- index behind the last slot.
  abbrev pub Chain : List (Slot V) → ℕ → List ℕ → Type 0
  Chain ss head [] = head ≡ length ss
  Chain ss head (i ∷ is) =
      (head ≡ i) × (0 < i) × (next : ℕ) × (link_at (get_elem? ss i) ≡ some next) × Chain ss next is

module _ {ℓ} {V : Type ℓ} where
  -- A write off the list leaves the list.
  pub Chain-set :
      (ss : List (Slot V)) (head : ℕ) (is : List ℕ) (j : ℕ) (s : Slot V)
      → IsAbsent j is
      → Chain ss head is
      → Chain (set ss j s) head is
  Chain-set ss head [] j s a c = omega (arith, length-set ss j s)
  Chain-set ss head (i ∷ is) j s a (e, p, next, l, c) =
      (e, p, next, rw (get_elem?-set_ne ss j i s a.0) l, Chain-set ss next is j s a.1 c)

  -- An occupied slot is not on the list.
  pub IsAbsent-of_unlinked :
      (ss : List (Slot V)) (head : ℕ) (is : List ℕ) (j : ℕ)
      → link_at (get_elem? ss j) ≡ none
      → Chain ss head is
      → IsAbsent j is
  IsAbsent-of_unlinked ss head [] j n c = tt
  IsAbsent-of_unlinked ss head (i ∷ is) j n (e, p, next, l, c) =
      ((λ (q : j ≡ i). cc), IsAbsent-of_unlinked ss next is j n c)

  -- A linked index holds a vacant slot.
  pub link_at-eq-some :
      (o : Option (Slot V)) (next : ℕ)
      → link_at o ≡ some next
      → (s : Slot V) × (o ≡ some s) × (s.state ≡ vacant next)
  link_at-eq-some none next e = cc
  link_at-eq-some (some s) next e = (s, refl, link_of-eq-some s.state next e)
    where
      link_of-eq-some : (t : State V) (next : ℕ) → link_of t ≡ some next → t ≡ vacant next
      link_of-eq-some (occupied v) next e = cc
      link_of-eq-some (vacant n) next e = cc

  -- What the head of the list is, and the list behind it.
  pub Chain-uncons :
      (ss : List (Slot V)) (head i next : ℕ) (is : List ℕ) (s : Slot V)
      → get_elem? ss head ≡ some s
      → s.state ≡ vacant next
      → Chain ss head (i ∷ is)
      → (head ≡ i) × (0 < i) × Chain ss next is
  Chain-uncons ss head i next is s e q (h, p, n, l, c) = (h, p, subst (λ k. Chain ss k is) (cc) c)
