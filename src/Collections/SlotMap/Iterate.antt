-- ===== src/Collections/SlotMap/Iterate.antt =====
-- src/collections/slot_map.rs, `SlotMap::keys` and `SlotMap::values`.
use doom_fish_utils.Base.{
  ℕ, zero, suc, ◌+◌, ◌≤◌, ◌<◌, ◌≡◌, refl, sym, ap, ap₂, subst, ◌∙◌, inl, inr, Bool-cases, List, [],
  ◌∷◌, map, Option, some, length, get_elem?, arith, ltb, lt→ltb, eq→==, bit_or,
}
use mathlib.Core.List.{Mem, mem-cons, mem-cons_of_mem}
use mathlib.Core.Logic.Or
use doom_fish_utils.Base.Bits.{bit_or-one}
use doom_fish_utils.Collections.Key.{KeyData, IsKey, new, u32_mod, u32_max}
use doom_fish_utils.Collections.SlotMap.Slots.{
  State, occupied, vacant, Slot, value_of, parity, IsSlot, AllSlots, occupied_count,
}
use doom_fish_utils.Collections.SlotMap.Invariant.{IsValid}
use doom_fish_utils.Collections.SlotMap.Put.{get-eq-some}
use doom_fish_utils.Collections.SlotMap.{
  SlotMap, get, found, keys, keys_from, keys_cons, values, values_in, values_cons,
}

-- A proper key is what `new` makes of its parts.
new_parts : (k : KeyData) → IsKey k → new k.idx k.version ≡ k
unfolding new
new_parts k w =
    ap (λ n. record { idx = k.idx; version = n }) (omega (arith, bit_or-one k.version, w.odd))

module _ {ℓ} {V : Type ℓ} where
  -- What the key of one slot finds in it.
  found_own :
      (s : Slot V) (v : V) (o : Option (Slot V))
      → o ≡ some s
      → s.state ≡ occupied v
      → IsSlot s
      → found o (bit_or s.version 1) ≡ some v
  found_own s v o e q w =
      rw (e, found)
        (rw (
          eq→== s.version (bit_or s.version 1)
              (omega (arith, bit_or-one s.version, ap parity q, w.1)),
          q,
        ))

  -- One slot of `keys` and `values`, before what follows it.
  keys_cons-found :
      (s : Slot V) (t : State V) (whole : List (Slot V)) (index : ℕ) (ks : List KeyData)
      (vs : List V)
      → s.state ≡ t
      → get_elem? whole index ≡ some s
      → IsSlot s
      → index < u32_mod
      → map (λ (k : KeyData). found (get_elem? whole k.idx) k.version) ks ≡ map some vs
      → map
          (λ (k : KeyData). found (get_elem? whole k.idx) k.version)
          (keys_cons t index s.version ks)
        ≡ map some (values_cons (value_of t) vs)
  unfolding new
  keys_cons-found s (vacant n) whole index ks vs q here w b rest = rest
  keys_cons-found s (occupied v) whole index ks vs q here w b rest =
      rw (lt→ltb index u32_mod b) (ap₂ ◌∷◌ (found_own s v (get_elem? whole index) here q w) rest)

  keys_from-found :
      (ss whole : List (Slot V)) (index : ℕ)
      → AllSlots ss
      → index + length ss ≤ u32_max
      → ((i : ℕ) → get_elem? whole (index + i) ≡ get_elem? ss i)
      → map (λ (k : KeyData). found (get_elem? whole k.idx) k.version) (keys_from index ss)
        ≡ map some (values_in ss)
  unfolding keys_from values_in
  keys_from-found [] whole index a b h = refl
  keys_from-found (s ∷ ss) whole index a b h =
      keys_cons-found s s.state whole index (keys_from (index + 1) ss) (values_in ss) refl
        (ap (get_elem? whole) (omega arith) ∙ h 0) a.0 (omega arith)
        (keys_from-found ss whole (index + 1) a.1 (omega arith)
          (λ i. ap (get_elem? whole) (omega arith) ∙ h (suc i)))

  length-keys_cons :
      (t : State V) (index version : ℕ) (ks : List KeyData)
      → index < u32_mod
      → length (keys_cons t index version ks) ≡ parity t + length ks
  length-keys_cons (vacant n) index version ks b = omega arith
  length-keys_cons (occupied v) index version ks b = rw (lt→ltb index u32_mod b) (omega arith)

  length-keys_from :
      (ss : List (Slot V)) (index : ℕ)
      → index + length ss ≤ u32_max
      → length (keys_from index ss) ≡ occupied_count ss
  unfolding keys_from
  length-keys_from [] index b = refl
  length-keys_from (s ∷ ss) index b = omega (
    arith,
    length-keys_cons s.state index s.version (keys_from (index + 1) ss),
    length-keys_from ss (index + 1) (omega arith),
  )

  mem-keys_cons :
      (t : State V) (index version : ℕ) (ks : List KeyData) (k : KeyData)
      → Mem k ks
      → Mem k (keys_cons t index version ks)
  mem-keys_cons (vacant n) index version ks k h = h
  mem-keys_cons (occupied v) index version ks k h = elim (Bool-cases (ltb index u32_mod)) [
    | inl e ↦ rw e (mem-cons_of_mem _ h)
    | inr e ↦ rw e h
  ]

  mem-keys_from :
      (ss : List (Slot V)) (index i : ℕ) (s : Slot V) (v : V)
      → index + length ss ≤ u32_max
      → get_elem? ss i ≡ some s
      → s.state ≡ occupied v
      → Mem (new (index + i) s.version) (keys_from index ss)
  unfolding keys_from
  mem-keys_from [] index i s v b e q = cc
  mem-keys_from (x ∷ ss) index zero s v b e q =
      let same : x ≡ s = cc e in
      rw (same, q, lt→ltb index u32_mod (omega arith))
        (mem-cons.1 (Or.inl (ap (λ n. new n s.version) (omega arith))))
  mem-keys_from (x ∷ ss) index (suc i) s v b e q =
      mem-keys_cons x.state index x.version (keys_from (index + 1) ss) _ (
        subst (λ n. Mem (new n s.version) (keys_from (index + 1) ss)) (omega arith)
          (mem-keys_from ss (index + 1) i s v (omega arith) e q))

  -- On a valid map, `keys` and `values` run over the same slots: the key at each place finds the
  -- value at that place, there are as many as the length says, and every proper key that finds a
  -- value is among the keys.
  pub keys-values :
      (m : SlotMap V)
      → IsValid m
      → (map (get m) (keys m) ≡ map some (values m))
        × (length (keys m) ≡ m.len)
        × ((k : KeyData) (v : V) → IsKey k → get m k ≡ some v → Mem k (keys m))
  unfolding keys values get
  keys-values m v = (
    keys_from-found m.slots m.slots 0 v.sound.each (omega (arith, v.sound.small))
        (λ i. ap (get_elem? m.slots) (omega arith)),
    length-keys_from m.slots 0 (omega (arith, v.sound.small)) ∙ sym v.len_counts,
    λ k x w e.
        let (s, q, same, o) = get-eq-some m k x e in
        subst (λ j. Mem j (keys_from 0 m.slots)) (ap₂ new (omega arith) same ∙ new_parts k w)
          (mem-keys_from m.slots 0 k.idx s x (omega (arith, v.sound.small)) q o),
  )
