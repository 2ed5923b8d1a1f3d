-- ===== src/Spsc/Push.antt =====
-- src/spsc.rs: `push` on a ring that holds a list.
use doom_fish_utils.Base.{
  ℕ, suc, ◌+◌, ◌%◌, ◌<◌, ◌≡◌, ◌≢◌, refl, arith, sym, ap, ap₂, ◌∙◌, List, [], ◌∷◌, ◌++◌, none, some,
  Bool, true, false, not, ◌==◌, ltb, if◌then◌else◌, length, get_elem?, set, ℕ_discrete, lt→ltb,
  not_lt→ltb, eq→==, ne→==, length-set, length-append, get_elem?-append, ok, err,
}
use doom_fish_utils.Spsc.{
  Slot, Ring, finished, index, next, stored, wrapping_add, wrapping_sub, push, push_at, displaced,
}
use doom_fish_utils.Spsc.Positions.{encode, stamp_at, round_earlier, odd-ne-even}
use doom_fish_utils.Spsc.Places.{
  place_index, place_index-lt, place_round-lt, place_full, place_first,
}
use doom_fish_utils.Spsc.Refine.{position, cell, Represents, next-place, index-write, slots-set}

ltb_eq : (k n m : ℕ) → m ≡ n + 1 → n ≢ k → ltb k m ≡ ltb k n
ltb_eq k n m e h = ground arith

module _ {ℓ} {A : Type ℓ} where
  -- A round of `push` that finds a free slot.
  push_at-free :
      (r : Ring A) (p : ℕ) (item : A) (overwrite : Bool) (slot : Slot A)
      → (slot.stamp == p) ≡ true
      → push_at r p item overwrite (some slot)
        ≡ finished
            (record r { write = next r p; slots = set r.slots (index r p) (stored p item) })
            (ok none)
  unfolding push_at
  push_at-free r p item overwrite slot e = rw e refl

  -- The ring after such a round.
  abbrev pub pushed : Ring A → A → Ring A
  pushed r item = record r {
    write = next r r.write;
    slots = set r.slots (index r r.write) (stored r.write item);
  }

  pushed-cell :
      (lap rounds cap q i : ℕ) (xs : List A) (item : A) (k stamp : ℕ)
      → stamp ≡ position lap rounds cap q i (length xs) + 1
      → (if length xs == k
          then some (record { stamp = stamp; value = some item })
          else some (cell lap rounds cap q i xs k))
        ≡ some (cell lap rounds cap q i (xs ++ item ∷ []) k)
  pushed-cell lap rounds cap q i xs item k stamp e = elim (ℕ_discrete (length xs) k) [
    | Dec.yes f ↦
        let t : ltb k (length (xs ++ item ∷ [])) ≡ true =
          lt→ltb k _ (omega (arith, length-append xs (item ∷ []))) in
        let g : get_elem? (xs ++ item ∷ []) k ≡ some item =
          get_elem?-append xs k item ∙ rw (eq→== (length xs) k f) refl in
        rw (eq→== (length xs) k f, t, g)
          (ap (λ n. some (record { stamp = n; value = some item }))
            (e ∙ ap (λ n. position lap rounds cap q i n + 1) f))
    | Dec.no f ↦
        let t : ltb k (length (xs ++ item ∷ [])) ≡ ltb k (length xs) =
          ltb_eq k (length xs) (length (xs ++ item ∷ [])) (length-append xs (item ∷ [])) f in
        let g : get_elem? (xs ++ item ∷ []) k ≡ get_elem? xs k =
          get_elem?-append xs k item ∙ rw (ne→== (length xs) k f) refl in
        rw (ne→== (length xs) k f, t, g) refl
  ]

  -- The stamp that a filled slot gets at the position that is written next.
  pub stamp-write :
      (r : Ring A) (cap : ℕ) (xs : List A) (h : Represents r cap xs)
      → wrapping_add r.write 1 ≡ position r.lap h.rounds cap h.q h.i (length xs) + 1
  stamp-write r cap xs h =
      ap (λ n. wrapping_add n 1) h.write_eq
      ∙ stamp_at r.lap h.rounds h.is_lap _ _
          (place_round-lt cap h.rounds h.q h.i h.index_lt (length xs) h.round_lt)
          (omega
            (arith, h.roomy, place_index-lt cap h.rounds h.q h.i h.index_lt (length xs) h.fits))

  pub pushed-Represents :
      (r : Ring A) (cap : ℕ) (xs : List A) (item : A)
      → Represents r cap xs
      → length xs < cap
      → Represents (pushed r item) cap (xs ++ item ∷ [])
  pushed-Represents r cap xs item h g =
      let n : length (xs ++ item ∷ []) ≡ length xs + 1 = length-append xs (item ∷ []) in
      record {
        rounds = h.rounds;
        q = h.q;
        i = h.i;
        is_lap = h.is_lap;
        cap_eq = length-set r.slots _ _ ∙ h.cap_eq;
        roomy = h.roomy;
        index_lt = h.index_lt;
        round_lt = h.round_lt;
        fits = omega arith;
        read_eq = h.read_eq;
        write_eq =
            ap (next r) h.write_eq
            ∙ next-place r h.rounds cap h.q h.i (length xs) h.is_lap h.cap_eq h.roomy h.index_lt
                h.round_lt g
            ∙ ap (position r.lap h.rounds cap h.q h.i) (sym n);
        slots_eq = λ k m.
            slots-set r cap xs h (length xs) k (stored r.write item) (index r r.write)
              (index-write r cap xs h) g m
            ∙ pushed-cell r.lap h.rounds cap h.q h.i xs item k (wrapping_add r.write 1)
                (stamp-write r cap xs h);
      }

  -- A ring with room takes the item, whether the oldest one may be overwritten or not.
  pub push-free :
      (r : Ring A) (cap : ℕ) (xs : List A) (item : A) (overwrite : Bool)
      → Represents r cap xs
      → length xs < cap
      → push r item overwrite ≡ finished (pushed r item) (ok none)
  unfolding push
  push-free r cap xs item overwrite h g =
      let s : get_elem? r.slots (index r r.write)
          ≡ some (cell r.lap h.rounds cap h.q h.i xs (length xs)) =
        ap (get_elem? r.slots) (index-write r cap xs h) ∙ h.slots_eq (length xs) g in
      let t : ((cell r.lap h.rounds cap h.q h.i xs (length xs)).stamp == r.write) ≡ true =
        rw (not_lt→ltb (length xs) (length xs) (omega arith)) (eq→== _ _ (sym h.write_eq)) in
      ap (push_at r r.write item overwrite) s
      ∙ push_at-free r r.write item overwrite (cell r.lap h.rounds cap h.q h.i xs (length xs)) t

  push_at-full :
      (r : Ring A) (p : ℕ) (item : A) (overwrite : Bool) (slot : Slot A)
      → (slot.stamp == p) ≡ false
      → (slot.stamp == wrapping_add (wrapping_sub p r.lap) 1) ≡ true
      → (r.read == wrapping_sub p r.lap) ≡ true
      → push_at r p item overwrite (some slot) ≡ (
          if not overwrite
          then finished r (err item)
          else displaced
              (record r {
                read = next r (wrapping_sub p r.lap);
                write = next r p;
                slots = set r.slots (index r p) (stored p item);
              })
              slot.value)
  unfolding push_at
  push_at-full r p item overwrite slot e f g = rw (e, f, g) refl

  -- A full ring gives the item back, or gives up the oldest one for it.
  abbrev pub overwritten : Ring A → A → Ring A
  overwritten r item = record r {
    read = next r r.read;
    write = next r r.write;
    slots = set r.slots (index r r.write) (stored r.write item);
  }

  write_full :
      (r : Ring A) (cap : ℕ) (xs : List A) (h : Represents r cap xs)
      → length xs ≡ cap
      → r.write ≡ encode r.lap (suc h.q % h.rounds) h.i
  write_full r cap xs h e =
      let (a, b) = place_full cap h.rounds h.q h.i h.index_lt in
      h.write_eq ∙ ap (position r.lap h.rounds cap h.q h.i) e ∙ ap₂ (encode r.lap) b a

  oldest_slot :
      (r : Ring A) (cap : ℕ) (x : A) (xs : List A) (h : Represents r cap (x ∷ xs))
      → length (x ∷ xs) ≡ cap
      → get_elem? r.slots (index r r.write) ≡ some (cell r.lap h.rounds cap h.q h.i (x ∷ xs) 0)
  oldest_slot r cap x xs h e =
      let (a, _) = place_full cap h.rounds h.q h.i h.index_lt in
      let (b, _) = place_first cap h.rounds h.q h.i h.index_lt in
      ap (get_elem? r.slots)
        (index-write r cap (x ∷ xs) h ∙ ap (place_index cap h.rounds h.q h.i) e ∙ a ∙ sym b)
      ∙ h.slots_eq 0 (omega (arith, h.index_lt))

  pub oldest_stamp :
      (r : Ring A) (cap : ℕ) (x : A) (xs : List A) (h : Represents r cap (x ∷ xs))
      → (cell r.lap h.rounds cap h.q h.i (x ∷ xs) 0).stamp ≡ encode r.lap h.q h.i + 1
  oldest_stamp r cap x xs h =
      let (b, c) = place_first cap h.rounds h.q h.i h.index_lt in
      let t : ltb 0 (suc (length xs)) ≡ true = lt→ltb 0 (suc (length xs)) (omega arith) in
      rw (t, b, c) refl

  taken :
      (r : Ring A) (item x : A) (overwrite : Bool) (o : ℕ)
      → o ≡ r.read
      → (if not overwrite
          then finished r (err item)
          else displaced
              (record r {
                read = next r o;
                write = next r r.write;
                slots = set r.slots (index r r.write) (stored r.write item);
              })
              (some x))
        ≡ (if overwrite then finished (overwritten r item) (ok (some x)) else finished r (err item))
  taken r item x true o e =
      ap
        (λ n.
          finished
            (record r {
              read = next r n;
              write = next r r.write;
              slots = set r.slots (index r r.write) (stored r.write item);
            })
            (ok (some x)))
        e
  taken r item x false o e = refl

  pub push-full :
      (r : Ring A) (cap : ℕ) (x : A) (xs : List A) (item : A) (overwrite : Bool)
      → Represents r cap (x ∷ xs)
      → length (x ∷ xs) ≡ cap
      → push r item overwrite
        ≡ (if overwrite then finished (overwritten r item) (ok (some x)) else finished r (err item))
  unfolding push
  push-full r cap x xs item overwrite h e =
      let w : r.write ≡ encode r.lap (suc h.q % h.rounds) h.i = write_full r cap (x ∷ xs) h e in
      let o : wrapping_sub r.write r.lap ≡ r.read =
        ap (λ n. wrapping_sub n r.lap) w
        ∙ round_earlier r.lap h.rounds h.is_lap h.q h.i h.round_lt
            (omega (arith, h.roomy, h.index_lt))
        ∙ sym h.read_eq in
      let s : get_elem? r.slots (index r r.write)
          ≡ some (cell r.lap h.rounds cap h.q h.i (x ∷ xs) 0) =
        oldest_slot r cap x xs h e in
      let c : (cell r.lap h.rounds cap h.q h.i (x ∷ xs) 0).stamp ≡ encode r.lap h.q h.i + 1 =
        oldest_stamp r cap x xs h in
      let t₁ : ((cell r.lap h.rounds cap h.q h.i (x ∷ xs) 0).stamp == r.write) ≡ false =
        ne→== _ _ (λ d.
          odd-ne-even r.lap h.rounds h.is_lap h.q h.i (suc h.q % h.rounds) h.i (sym c ∙ d ∙ w)) in
      let n : wrapping_add (wrapping_sub r.write r.lap) 1 ≡ encode r.lap h.q h.i + 1 =
        ap (λ n. wrapping_add n 1) (o ∙ h.read_eq)
        ∙ stamp_at r.lap h.rounds h.is_lap h.q h.i h.round_lt
            (omega (arith, h.roomy, h.index_lt)) in
      let t₂ : ((cell r.lap h.rounds cap h.q h.i (x ∷ xs) 0).stamp
            == wrapping_add (wrapping_sub r.write r.lap) 1)
          ≡ true =
        eq→== _ _ (c ∙ sym n) in
      let t₃ : (r.read == wrapping_sub r.write r.lap) ≡ true = eq→== _ _ (sym o) in
      ap (push_at r r.write item overwrite) s
      ∙ push_at-full r r.write item overwrite (cell r.lap h.rounds cap h.q h.i (x ∷ xs) 0) t₁ t₂ t₃
      ∙ taken r item x overwrite (wrapping_sub r.write r.lap) o
