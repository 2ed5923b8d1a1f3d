-- ===== src/Collections/Examples.antt =====
-- src/collections/slot_map.rs: the theorems on keys and on `SecondaryMap` at small inputs.
use doom_fish_utils.Base.{
  ℕ, zero, suc, ◌≤◌, false, ◌≡◌, ◌≢◌, refl, ◌↔◌, List, [], ◌∷◌, map, none, some, ◌==◌,
  if◌then◌else◌, arith, Outcome, returned,
}
use doom_fish_utils.Collections.Key.{KeyData, IsKey, key_eq, is_null}
use doom_fish_utils.Collections.SecondaryMap.Insert.{IsValid, insert-stores}
use doom_fish_utils.Collections.SecondaryMap.Remove.{remove_lem}
use doom_fish_utils.Collections.SecondaryMap.Borrow.{AllFound, HaveOwnSlots, get_disjoint_mut_lem}
use doom_fish_utils.Collections.SecondaryMap.{SecondaryMap, insert, remove, get, get_disjoint_mut}

-- A key of version 3 for slot 1, and one of version 1 that it replaced.
abbrev new_key : KeyData
new_key = record { idx = 1; version = 3 }

abbrev old_key : KeyData
old_key = record { idx = 1; version = 1 }

new_key-IsKey : IsKey new_key
new_key-IsKey = record { idx_lt = omega arith; version_lt = omega arith; odd = refl }

old_key-IsKey : IsKey old_key
old_key-IsKey = record { idx_lt = omega arith; version_lt = omega arith; odd = refl }

abbrev stored : SecondaryMap ℕ
stored = record { slots = none ∷ some (record { version = 3; value = 9 }) ∷ [] }

new_key-present : is_null new_key ≡ false
unfolding is_null
new_key-present = refl

stored-IsValid : IsValid stored
stored-IsValid zero = tt
stored-IsValid (suc zero) = omega arith
stored-IsValid (suc (suc i)) = tt

insert-stores_example :
    ((insert stored new_key 4).1 ≡ get stored new_key)
    × ((j : KeyData)
        → get (insert stored new_key 4).0 j
          ≡ (if key_eq new_key j then some 4 else if 1 == j.idx then none else get stored j))
insert-stores_example =
    insert-stores stored new_key 4 new_key-IsKey stored-IsValid new_key-present
      (λ newer. let none_is_one : 1 ≤ 0 = newer.0 in omega arith)

remove_lem_example :
    ((remove stored new_key).1 ≡ get stored new_key)
    × ((j : KeyData)
        → get (remove stored new_key).0 j ≡ (if key_eq new_key j then none else get stored j))
remove_lem_example = remove_lem stored new_key

get_disjoint_mut_lem_example :
    ((get_disjoint_mut stored (new_key ∷ []) ≢ none)
      ↔ (AllFound stored (new_key ∷ []) × HaveOwnSlots (new_key ∷ [])))
    × ((rs : List (Outcome ℕ))
        → get_disjoint_mut stored (new_key ∷ []) ≡ some rs
        → (vs : List ℕ) × (rs ≡ map returned vs) × (map (get stored) (new_key ∷ []) ≡ map some vs))
get_disjoint_mut_lem_example = get_disjoint_mut_lem stored (new_key ∷ [])
