-- ===== src/Collections/SecondaryMap/Borrow.antt =====
-- src/collections/slot_map.rs, `SecondaryMap::get_disjoint_mut`: when references are given out, and
-- that no two of them are to one slot.
use doom_fish_utils.Base.{
  ℕ, ◌≡◌, refl, sym, ap, ap₂, ◌∙◌, ◌≢◌, ◌↔◌, inl, inr, List, [], ◌∷◌, ◌++◌, map, Option, none, some,
  true, false, ◌==◌, ◌||◌, if◌then◌else◌, get_elem?, Bool-cases, ne→==, eq→==, ||-eq-false,
  unless-eq-true, Outcome, returned,
}
use doom_fish_utils.Collections.Key.{KeyData}
use doom_fish_utils.Collections.SecondaryMap.{
  Entry, SecondaryMap, slot_at, found, get, any_idx, all_disjoint, borrow, get_disjoint_mut,
  is_none,
}

-- No key of the list is for slot `i`.
abbrev pub IsFree : ℕ → List KeyData → Type 0
IsFree i [] = Unit {0}
IsFree i (k ∷ ks) = (k.idx ≢ i) × IsFree i ks

-- No two keys of the list are for one slot.
abbrev pub HaveOwnSlots : List KeyData → Type 0
HaveOwnSlots [] = Unit {0}
HaveOwnSlots (k ∷ ks) = IsFree k.idx ks × HaveOwnSlots ks

-- No key of the second list is for a slot of the first.
abbrev IsOutside : List KeyData → List KeyData → Type 0
IsOutside [] ks = Unit {0}
IsOutside (b ∷ bs) ks = IsFree b.idx ks × IsOutside bs ks

IsOutside-nil : (bs : List KeyData) → IsOutside bs []
IsOutside-nil [] = tt
IsOutside-nil (b ∷ bs) = (tt, IsOutside-nil bs)

IsOutside-append_last :
    (bs : List KeyData) (k : KeyData) (ks : List KeyData)
    → IsOutside (bs ++ k ∷ []) ks ↔ (IsOutside bs ks × IsFree k.idx ks)
IsOutside-append_last [] k ks = ((λ h. (tt, h.0)), λ h. (h.1, tt))
IsOutside-append_last (b ∷ bs) k ks =
    let ih = IsOutside-append_last bs k ks in
    ((λ h. ((h.0, (ih.0 h.1).0), (ih.0 h.1).1)), λ h. (h.0.0, ih.1 (h.0.1, h.1)))

-- The test against the keys before a position.
IsOutside-cons :
    (bs : List KeyData) (k : KeyData) (ks : List KeyData)
    → IsOutside bs (k ∷ ks) ↔ ((any_idx bs k.idx ≡ false) × IsOutside bs ks)
unfolding any_idx
IsOutside-cons [] k ks = ((λ h. (refl, tt)), λ h. tt)
IsOutside-cons (b ∷ bs) k ks =
    let ih = IsOutside-cons bs k ks in
    (
      (λ h. (rw (ne→== b.idx k.idx (λ e. h.0.0 (sym e))) (ih.0 h.1).0, (h.0.1, (ih.0 h.1).1))),
      λ h.
          let (fresh, rest) = ||-eq-false (b.idx == k.idx) (any_idx bs k.idx) h.0 in
          (((λ e. cc (eq→== b.idx k.idx (sym e), fresh)), h.1.0), ih.1 (rest, h.1.1)),
    )

module _ {ℓ} {V : Type ℓ} where
  -- Every key finds a value.
  abbrev pub AllFound : SecondaryMap V → List KeyData → Type ℓ
  AllFound m [] = Unit
  AllFound m (k ∷ ks) = ((v : V) × (get m k ≡ some v)) × AllFound m ks

  is_none-eq-false : (o : Option V) → is_none o ≡ false → (v : V) × (o ≡ some v)
  is_none-eq-false none e = cc
  is_none-eq-false (some v) e = (v, refl)

  all_disjoint_iff :
      (m : SecondaryMap V) (before ks : List KeyData)
      → (all_disjoint m before ks ≡ true) ↔ (AllFound m ks × HaveOwnSlots ks × IsOutside before ks)
  unfolding all_disjoint
  all_disjoint_iff m before [] = ((λ h. (tt, tt, IsOutside-nil before)), λ h. refl)
  all_disjoint_iff m before (k ∷ ks) = (
    (λ h.
        let (open_way, rest) =
          unless-eq-true (is_none (get m k) || any_idx before k.idx)
            (all_disjoint m (before ++ k ∷ []) ks) h in
        let (there, fresh) = ||-eq-false (is_none (get m k)) (any_idx before k.idx) open_way in
        let (found_rest, own, outside) = (all_disjoint_iff m (before ++ k ∷ []) ks).0 rest in
        let split = (IsOutside-append_last before k ks).0 outside in
        (
          (is_none-eq-false (get m k) there, found_rest),
          (split.1, own),
          (IsOutside-cons before k ks).1 (fresh, split.0),
        )),
    λ h.
        let (fresh, outside) = (IsOutside-cons before k ks).0 h.2 in
        rw (h.0.0.1, is_none)
          (rw fresh (
            (all_disjoint_iff m (before ++ k ∷ []) ks).1
              (h.0.1, h.1.1, (IsOutside-append_last before k ks).1 (outside, h.1.0)))),
  )

  borrow-found :
      (o : Option (Option (Entry V))) (k : KeyData) (v : V)
      → found (slot_at o) k ≡ some v
      → borrow o ≡ returned v
  borrow-found none k v e = cc
  borrow-found (some none) k v e = cc
  borrow-found (some (some x)) k v e = elim (Bool-cases (x.version == k.version)) [
    | inl same ↦ ap returned (some_value same e)
    | inr differs ↦ cc (differs)
  ]
    where
      some_value :
          (x.version == k.version) ≡ true
          → (if x.version == k.version then some x.value else none) ≡ some v
          → x.value ≡ v
      some_value same e = cc (same)

  -- What the references lead to, for keys that all find a value.
  borrowed :
      (m : SecondaryMap V) (ks : List KeyData)
      → AllFound m ks
      → (vs : List V) × (map (λ (k : KeyData). borrow (get_elem? m.slots k.idx)) ks
          ≡ map returned vs)
        × (map (get m) ks ≡ map some vs)
  unfolding get
  borrowed m [] h = ([], refl, refl)
  borrowed m (k ∷ ks) h =
      let (vs, a, b) = borrowed m ks h.1 in
      (
        h.0.0 ∷ vs,
        ap₂ ◌∷◌ (borrow-found (get_elem? m.slots k.idx) k h.0.0 h.0.1) a,
        ap₂ ◌∷◌ h.0.1 b,
      )

  -- References are given out exactly if every key finds a value and no two keys are for one slot;
  -- then each reference is to the value that its key finds, and none is to memory outside the slots
  -- or to an empty slot.
  pub get_disjoint_mut_lem :
      (m : SecondaryMap V) (ks : List KeyData)
      → ((get_disjoint_mut m ks ≢ none) ↔ (AllFound m ks × HaveOwnSlots ks))
        × ((rs : List (Outcome V))
            → get_disjoint_mut m ks ≡ some rs
            → (vs : List V) × (rs ≡ map returned vs) × (map (get m) ks ≡ map some vs))
  unfolding get_disjoint_mut
  get_disjoint_mut_lem m ks = elim (Bool-cases (all_disjoint m [] ks)) [
    | inl e ↦
        let (there, own, out) = (all_disjoint_iff m [] ks).0 e in
        (
          ((λ n. (there, own)), λ h n. cc (e)),
          λ rs q. let (vs, a, b) = borrowed m ks there in (vs, references rs e q ∙ a, b),
        )
    | inr e ↦ (
      ((λ n. absurd (n (rw e))), λ h. cc ((all_disjoint_iff m [] ks).1 (h.0, h.1, tt), e)),
      λ rs q. cc (e),
    )
  ]
    where
      references :
          (rs : List (Outcome V))
          → all_disjoint m [] ks ≡ true
          → (if all_disjoint m [] ks
              then some (map (λ (k : KeyData). borrow (get_elem? m.slots k.idx)) ks)
              else none)
            ≡ some rs
          → rs ≡ map (λ (k : KeyData). borrow (get_elem? m.slots k.idx)) ks
      references rs e q = cc (e)
