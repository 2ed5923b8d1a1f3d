-- ===== src/Collections/SecondaryMap.antt =====
-- src/collections/slot_map.rs, `SecondaryMap`: values stored under the keys of a slot map.
pub mod Insert
pub mod Remove
pub mod Put
pub mod Borrow
use doom_fish_utils.Base.{
  ℕ, zero, suc, ◌+◌, ◌-◌, ◌%◌, ◌^◌, List, [], ◌∷◌, ◌++◌, map, Option, none, some, Bool, true, false,
  ◌||◌, ◌==◌, leb, ltb, if◌then◌else◌, length, get_elem?, set, replicate, Outcome, returned,
  panicked, undefined,
}
use doom_fish_utils.Collections.Key.{KeyData, is_null, u32_mod}

pub record Entry {ℓ} (V : Type ℓ) : Type ℓ where
  pub version : ℕ
  pub value : V

pub record SecondaryMap {ℓ} (V : Type ℓ) : Type ℓ where
  pub slots : List (Option (Entry V))

-- `keys[..position].iter().any(|other| other.data().idx == index)`.
unfoldable pub any_idx : List KeyData → ℕ → Bool
any_idx [] index = false
any_idx (other ∷ others) index = other.idx == index || any_idx others index

module _ {ℓ} {V : Type ℓ} where
  -- The capacity only reserves memory.
  unfoldable pub with_capacity : SecondaryMap V
  with_capacity = record { slots = [] }

  -- `resize_with(index + 1, || None)`, where the index is behind the last slot.
  abbrev pub resized : List (Option (Entry V)) → ℕ → List (Option (Entry V))
  resized slots index =
      if leb (length slots) index then slots ++ replicate (index + 1 - length slots) none else slots

  abbrev pub entry : KeyData → V → Entry V
  entry key value = record { version = key.version; value = value }

  -- What becomes of the slot, and what is returned. The difference of the versions is taken modulo
  -- 2^32, and a key that is behind by less than half of that is older.
  unfoldable pub store : Option (Entry V) → KeyData → V → Option (Entry V) × Option V
  store none key value = (some (entry key value), none)
  store (some e) key value =
      if e.version == key.version
      then (some (entry key value), some e.value)
      else if leb (2 ^ 31) ((key.version + u32_mod - e.version) % u32_mod)
      then (some e, none)
      else (some (entry key value), none)

  -- The slot at an index that is in range.
  abbrev pub slot_at : Option (Option (Entry V)) → Option (Entry V)
  slot_at none = none
  slot_at (some slot) = slot

  unfoldable pub insert : SecondaryMap V → KeyData → V → SecondaryMap V × Option V
  unfolding store is_null
  insert m key value =
      let slots = resized m.slots key.idx in
      let (slot, old) = store (slot_at (get_elem? slots key.idx)) key value in
      if is_null key then (m, none) else (record { slots = set slots key.idx slot }, old)

  abbrev pub found : Option (Entry V) → KeyData → Option V
  found none key = none
  found (some e) key = if e.version == key.version then some e.value else none

  unfoldable pub remove_at : Option (Entry V) → SecondaryMap V → KeyData → SecondaryMap V × Option V
  remove_at none m key = (m, none)
  remove_at (some e) m key =
      if e.version == key.version
      then (record { slots = set m.slots key.idx none }, some e.value)
      else (m, none)

  unfoldable pub remove : SecondaryMap V → KeyData → SecondaryMap V × Option V
  unfolding remove_at
  remove m key = remove_at (slot_at (get_elem? m.slots key.idx)) m key

  unfoldable pub get : SecondaryMap V → KeyData → Option V
  get m key = found (slot_at (get_elem? m.slots key.idx)) key

  -- `get_mut` and a write through the reference; the flag says whether there was one.
  unfoldable pub put_at : Option (Entry V) → SecondaryMap V → KeyData → V → SecondaryMap V × Bool
  put_at none m key value = (m, false)
  put_at (some e) m key value =
      if e.version == key.version
      then (
        record {
          slots = set m.slots key.idx (some (record { version = e.version; value = value }));
        },
        true,
      )
      else (m, false)

  unfoldable pub put : SecondaryMap V → KeyData → V → SecondaryMap V × Bool
  unfolding put_at
  put m key value = put_at (slot_at (get_elem? m.slots key.idx)) m key value

  abbrev pub is_none : Option V → Bool
  is_none none = true
  is_none (some v) = false

  -- The loop over `keys`, with the keys before the position: whether no round returns `None`.
  unfoldable pub all_disjoint : SecondaryMap V → List KeyData → List KeyData → Bool
  unfolding any_idx get
  all_disjoint m before [] = true
  all_disjoint m before (key ∷ keys) =
      let rest = all_disjoint m (before ++ key ∷ []) keys in
      if is_none (get m key) || any_idx before key.idx then false else rest

  -- The unchecked access through the raw pointer: behind the last slot it would be undefined, and at
  -- an empty slot it reaches `unreachable!()`.
  abbrev pub borrow : Option (Option (Entry V)) → Outcome V
  borrow none = undefined
  borrow (some none) = panicked "internal error: entered unreachable code"
  borrow (some (some e)) = returned e.value

  -- The values behind the mutable references, one for each key.
  unfoldable pub get_disjoint_mut : SecondaryMap V → List KeyData → Option (List (Outcome V))
  unfolding all_disjoint
  get_disjoint_mut m keys =
      if all_disjoint m [] keys
      then some (map (λ (key : KeyData). borrow (get_elem? m.slots key.idx)) keys)
      else none
