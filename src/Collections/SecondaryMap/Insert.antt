-- ===== src/Collections/SecondaryMap/Insert.antt =====
-- src/collections/slot_map.rs, `SecondaryMap::insert`: what is stored and what is ignored.
use doom_fish_utils.Base.{
  ℕ, zero, suc, ◌+◌, ◌-◌, ◌%◌, ◌^◌, ◌≤◌, ◌<◌, ◌≡◌, refl, ap, ◌∙◌, inl, inr, List, [], ◌∷◌, ◌++◌,
  Option, none, some, true, false, ◌==◌, leb, if◌then◌else◌, length, get_elem?, set, replicate,
  arith, Bool-cases, ne→==, le→leb, not_le→leb, eq→==, length-append, length-replicate,
  get_elem?-set_self, get_elem?-set_ne, ℕ_discrete,
}
use doom_fish_utils.Collections.Key.{KeyData, IsKey, is_null, key_eq, u32_mod}
use doom_fish_utils.Collections.SecondaryMap.{
  Entry, SecondaryMap, resized, entry, store, slot_at, insert, found, get,
}

module _ {ℓ} {V : Type ℓ} where
  -- Growing the vector changes no slot.
  slot_at-replicate : (n i : ℕ) → slot_at {V = V} (get_elem? (replicate n none) i) ≡ none
  slot_at-replicate zero i = refl
  slot_at-replicate (suc n) zero = refl
  slot_at-replicate (suc n) (suc i) = slot_at-replicate n i

  slot_at-append :
      (slots : List (Option (Entry V))) (n i : ℕ)
      → slot_at (get_elem? (slots ++ replicate n none) i) ≡ slot_at (get_elem? slots i)
  slot_at-append [] n i = slot_at-replicate n i
  slot_at-append (x ∷ slots) n zero = refl
  slot_at-append (x ∷ slots) n (suc i) = slot_at-append slots n i

  slot_at-resized :
      (slots : List (Option (Entry V))) (index i : ℕ)
      → slot_at (get_elem? (resized slots index) i) ≡ slot_at (get_elem? slots i)
  slot_at-resized slots index i = elim (Bool-cases (leb (length slots) index)) [
    | inl e ↦ rw e (slot_at-append slots (index + 1 - length slots) i)
    | inr e ↦ rw e
  ]

  length-resized :
      (slots : List (Option (Entry V))) (index : ℕ) → index < length (resized slots index)
  length-resized slots index = elim (Bool-cases (leb (length slots) index)) [
    | inl e ↦ rw e (
        omega (
          arith,
          length-append slots (replicate (index + 1 - length slots) none),
          length-replicate {A = Option (Entry V)} (index + 1 - length slots) none,
        ))
    | inr e ↦ rw e (ground arith)
  ]

  -- The stored version is ahead of the key's by 1 to 2^31, counted modulo 2^32.
  abbrev pub IsNewer : Option (Entry V) → KeyData → Type 0
  IsNewer none k = ⊥
  IsNewer (some e) k =
      (1 ≤ (e.version + u32_mod - k.version) % u32_mod)
      × ((e.version + u32_mod - k.version) % u32_mod ≤ 2 ^ 31)

  abbrev pub HasVersion : Option (Entry V) → Type 0
  HasVersion none = Unit {0}
  HasVersion (some e) = e.version < u32_mod

  store-newer :
      (o : Option (Entry V)) (k : KeyData) (value : V)
      → k.version < u32_mod
      → HasVersion o
      → IsNewer o k
      → store o k value ≡ (o, none)
  unfolding store
  store-newer none k value b h n = absurd n
  store-newer (some e) k value b h n = rw (
    ne→== e.version k.version (omega arith),
    le→leb (2 ^ 31) ((k.version + u32_mod - e.version) % u32_mod) (omega arith),
  )

  store-accepts :
      (o : Option (Entry V)) (k : KeyData) (value : V)
      → k.version < u32_mod
      → HasVersion o
      → ¬ IsNewer o k
      → store o k value ≡ (some (entry k value), found o k)
  unfolding store
  store-accepts none k value b h n = refl
  store-accepts (some e) k value b h n = elim (ℕ_discrete e.version k.version) [
    | yes same ↦ rw (eq→== e.version k.version same)
    | no differs ↦ rw (
      ne→== e.version k.version differs,
      not_le→leb (2 ^ 31) ((k.version + u32_mod - e.version) % u32_mod) (λ l. n (omega arith)),
    )
  ]

  -- Every stored version is a 32-bit word.
  abbrev pub IsValid : SecondaryMap V → Type 0
  IsValid m = (i : ℕ) → HasVersion (slot_at (get_elem? m.slots i))

  -- What a write at an index makes of the slots.
  pub slot_at-set :
      (slots : List (Option (Entry V))) (i j : ℕ) (o : Option (Entry V))
      → i < length slots
      → slot_at (get_elem? (set slots i o) j) ≡ (if i == j then o else slot_at (get_elem? slots j))
  slot_at-set slots i j o h = elim (ℕ_discrete i j) [
    | yes same ↦ rw (eq→== i j same, ← same, get_elem?-set_self slots i o h)
    | no differs ↦ rw (ne→== i j differs, get_elem?-set_ne slots i j o differs)
  ]

  slot_kept :
      (slots : List (Option (Entry V))) (i j : ℕ)
      → (if i == j then slot_at (get_elem? slots i) else slot_at (get_elem? slots j))
        ≡ slot_at (get_elem? slots j)
  slot_kept slots i j = elim (ℕ_discrete i j) [
    | yes same ↦ rw (eq→== i j same, same)
    | no differs ↦ rw (ne→== i j differs)
  ]

  get_of_slot :
      (m m' : SecondaryMap V) (j : KeyData)
      → slot_at (get_elem? m.slots j.idx) ≡ slot_at (get_elem? m'.slots j.idx)
      → get m j ≡ get m' j
  unfolding get
  get_of_slot m m' j e = ap (λ o. found o j) e

  -- Who finds a new entry.
  found-entry :
      (k j : KeyData) (value : V) (o : Option (Entry V))
      → found (if k.idx == j.idx then some (entry k value) else o) j
        ≡ (if key_eq k j then some value else if k.idx == j.idx then none else found o j)
  unfolding key_eq
  found-entry k j value o = elim (Bool-cases (k.idx == j.idx)) [
    | inl same ↦ rw same
    | inr differs ↦ rw differs
  ]

  insert-null :
      (m : SecondaryMap V) (k : KeyData) (value : V)
      → is_null k ≡ true
      → insert m k value ≡ (m, none)
  unfolding insert
  insert-null m k value e = rw e

  module _ (m : SecondaryMap V) (k : KeyData) (value : V) where
    insert-eq :
        is_null k ≡ false
        → insert m k value ≡ (
          record {
            slots =
                set
                  (resized m.slots k.idx)
                  k.idx
                  (store (slot_at (get_elem? m.slots k.idx)) k value).0;
          },
          (store (slot_at (get_elem? m.slots k.idx)) k value).1,
        )
    unfolding insert
    insert-eq n = rw (n, slot_at-resized m.slots k.idx k.idx)

    -- The slots after an insertion.
    slot_at-insert :
        (j : ℕ)
        → is_null k ≡ false
        → slot_at (get_elem? (insert m k value).0.slots j) ≡ (
            if k.idx == j
            then (store (slot_at (get_elem? m.slots k.idx)) k value).0
            else slot_at (get_elem? m.slots j))
    slot_at-insert j n = rw (
      insert-eq n,
      slot_at-set (resized m.slots k.idx) k.idx j
          (store (slot_at (get_elem? m.slots k.idx)) k value).0 (length-resized m.slots k.idx),
      slot_at-resized m.slots k.idx j,
    )

    older :
        IsKey k
        → IsValid m
        → IsNewer (slot_at (get_elem? m.slots k.idx)) k
        → store (slot_at (get_elem? m.slots k.idx)) k value
          ≡ (slot_at (get_elem? m.slots k.idx), none)
    older w v n = store-newer (slot_at (get_elem? m.slots k.idx)) k value w.version_lt (v k.idx) n

    -- On a valid map, an insertion under a proper key that is older than the stored one changes
    -- what no key stands for and returns nothing.
    pub insert-ignored :
        IsKey k
        → IsValid m
        → IsNewer (slot_at (get_elem? m.slots k.idx)) k
        → ((insert m k value).1 ≡ none) × ((j : KeyData) → get (insert m k value).0 j ≡ get m j)
    insert-ignored w v n = elim (Bool-cases (is_null k)) [
      | inl e ↦ rw (insert-null m k value e) (refl, λ j. refl)
      | inr e ↦ (
        ap (λ r. r.1) (insert-eq e) ∙ ap (λ r. r.1) (older w v n),
        λ j.
            get_of_slot _ _ j
              (slot_at-insert j.idx e ∙ rw (older w v n) (slot_kept m.slots k.idx j.idx)),
      )
    ]

    -- On a valid map, an insertion under a proper key that is neither null nor older than the
    -- stored one stores the value under the key alone of all keys for its slot, leaves the other
    -- slots, and returns what the key stood for.
    pub insert-stores :
        IsKey k
        → IsValid m
        → is_null k ≡ false
        → ¬ IsNewer (slot_at (get_elem? m.slots k.idx)) k
        → ((insert m k value).1 ≡ get m k)
          × ((j : KeyData)
              → get (insert m k value).0 j
                ≡ (if key_eq k j then some value else if k.idx == j.idx then none else get m j))
    unfolding get
    insert-stores w v l n =
        let accepted =
          store-accepts (slot_at (get_elem? m.slots k.idx)) k value w.version_lt (v k.idx) n in
        (
          ap (λ r. r.1) (insert-eq l) ∙ ap (λ r. r.1) accepted,
          λ j.
              ap (λ o. found o j) (slot_at-insert j.idx l ∙ rw accepted refl)
              ∙ found-entry k j value (slot_at (get_elem? m.slots j.idx)),
        )

    store-HasVersion :
        (o : Option (Entry V)) → k.version < u32_mod → HasVersion o → HasVersion (store o k value).0
    unfolding store
    store-HasVersion none b h = b
    store-HasVersion (some e) b h = elim (Bool-cases (e.version == k.version)) [
      | inl same ↦ rw same b
      | inr differs ↦
          rw differs
            (elim (Bool-cases (leb (2 ^ 31) ((k.version + u32_mod - e.version) % u32_mod))) [
              | inl old ↦ rw old h
              | inr new ↦ rw new b
            ])
    ]

    pub insert-IsValid : IsKey k → IsValid m → IsValid (insert m k value).0
    insert-IsValid w v i = elim (Bool-cases (is_null k)) [
      | inl e ↦ rw (insert-null m k value e) (v i)
      | inr e ↦ rw (slot_at-insert i e) (elim (Bool-cases (k.idx == i)) [
        | inl same ↦
            rw same (store-HasVersion (slot_at (get_elem? m.slots k.idx)) w.version_lt (v k.idx))
        | inr differs ↦ rw differs (v i)
      ])
    ]
