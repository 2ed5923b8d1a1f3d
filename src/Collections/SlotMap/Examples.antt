-- ===== src/Collections/SlotMap/Examples.antt =====
-- src/collections/slot_map.rs: the theorems on `SlotMap` at a map with one value.
use mathlib.Core.List.{Mem}
use doom_fish_utils.Base.{
  ℕ, ◌<◌, ◌⊎◌, ◌≡◌, refl, List, [], ◌∷◌, map, none, some, if◌then◌else◌, length, arith, returned,
  panicked,
}
use doom_fish_utils.Collections.Key.{KeyData, IsKey, new, key_eq, u32_max}
use doom_fish_utils.Collections.SlotMap.Slots.{occupied, vacant}
use doom_fish_utils.Collections.SlotMap.Invariant.{IsValid, with_capacity-IsValid}
use doom_fish_utils.Collections.SlotMap.Insert.{insert-IsValid, insert_full_lem}
use doom_fish_utils.Collections.SlotMap.Remove.{remove-IsValid}
use doom_fish_utils.Collections.SlotMap.History.{Op, inserts, run, step, run-IsValid}
use doom_fish_utils.Collections.SlotMap.Stale.{get-stale}
use doom_fish_utils.Collections.SlotMap.Lookup.{get-insert, get-remove}
use doom_fish_utils.Collections.SlotMap.Iterate.{keys-values}
use doom_fish_utils.Collections.SlotMap.{
  SlotMap, with_capacity, insert, insert_at, remove, remove_at, get, keys, values,
}

-- What a first insertion makes of a new map.
abbrev one_value : SlotMap ℕ
one_value = record {
  slots =
      record { version = 0; state = vacant 0 } ∷ record { version = 1; state = occupied 5 } ∷ [];
  free_head = 2;
  len = 1;
}

abbrev first_key : KeyData
first_key = record { idx = 1; version = 1 }

one_value-inserted : insert with_capacity 5 ≡ (one_value, returned first_key)
unfolding insert insert_at with_capacity new
one_value-inserted = refl

one_value-IsValid : IsValid one_value × IsKey first_key
one_value-IsValid =
    let (v, k, _) = insert-IsValid with_capacity 5 with_capacity-IsValid one_value-inserted in
    (v, k)

get-first : get one_value first_key ≡ some 5
unfolding get
get-first = refl

-- The slot is given up and taken again for another value.
abbrev calls : List (Op ℕ)
calls = inserts 7 ∷ []

abbrev second_value : SlotMap ℕ
second_value = record {
  slots =
      record { version = 0; state = vacant 0 } ∷ record { version = 3; state = occupied 7 } ∷ [];
  free_head = 2;
  len = 1;
}

calls-run : run (remove one_value first_key).0 calls ≡ returned second_value
unfolding run step remove remove_at insert insert_at new
calls-run = refl

get-insert_example :
    (get {V = ℕ} with_capacity first_key ≡ none)
    × ((j : KeyData)
        → get one_value j ≡ (if key_eq first_key j then some 5 else get with_capacity j))
get-insert_example = get-insert with_capacity 5 with_capacity-IsValid one_value-inserted

get-remove_example :
    get (remove one_value first_key).0 first_key
    ≡ (if key_eq first_key first_key then none else get one_value first_key)
get-remove_example =
    get-remove one_value first_key first_key one_value-IsValid.1 one_value-IsValid.0

get-stale_example : get second_value first_key ≡ none
get-stale_example =
    get-stale one_value second_value first_key 5 calls one_value-IsValid.1 (tt, tt)
      one_value-IsValid.0 get-first calls-run (omega arith)

run-IsValid_example : IsValid second_value
run-IsValid_example =
    run-IsValid calls (remove one_value first_key).0 second_value (tt, tt)
      (remove-IsValid one_value first_key one_value-IsValid.1 one_value-IsValid.0).0 calls-run

keys-values_example :
    (map (get one_value) (keys one_value) ≡ map some (values one_value))
    × (length (keys one_value) ≡ 1)
    × ((k : KeyData) (v : ℕ) → IsKey k → get one_value k ≡ some v → Mem k (keys one_value))
keys-values_example = keys-values one_value one_value-IsValid.0

insert_full_lem_example :
    ((2 < u32_max) × (m' : SlotMap ℕ) × (k : KeyData) × (insert one_value 8 ≡ (m', returned k)))
    ⊎ ((2 ≡ u32_max)
        × (insert one_value 8 ≡ (record one_value { len = 2 }, panicked "SlotMap is full")))
insert_full_lem_example = insert_full_lem one_value 8 one_value-IsValid.0
