-- ===== src/Spsc/Pop.antt =====
-- src/spsc.rs: `pop` on a ring that holds a list, and the overwriting `push`.
use doom_fish_utils.Base.{
  ℕ, suc, ◌+◌, ◌%◌, ◌≤◌, ◌<◌, ◌≡◌, refl, arith, sym, ap, ap₂, ◌∙◌, List, [], ◌∷◌, none, some, true,
  false, ◌==◌, ltb, length, get_elem?, set, dec_lt, not_lt→ltb, eq→==, ne→==, length-set,
  get_elem?_past,
}
use doom_fish_utils.Spsc.{Slot, Ring, finished, index, next, wrapping_add, pop, pop_at}
use doom_fish_utils.Spsc.Positions.{encode, stamp_at, round_later, odd-ne-even}
use doom_fish_utils.Spsc.Places.{
  place_index, place_round, place_index-lt, place_round-lt, place_full, place_first, place_shift,
}
use doom_fish_utils.Spsc.Refine.{position, cell, Represents, next-place, index-position, slots-set}
use doom_fish_utils.Spsc.Push.{oldest_stamp}

module _ {ℓ} {A : Type ℓ} where
  -- The ring after the oldest item has been read.
  abbrev pub taken_out : Ring A → Ring A
  taken_out r = record r {
    read = next r r.read;
    slots =
        set r.slots (index r r.read) (record { stamp = wrapping_add r.read r.lap; value = none });
  }

  pop_at-item :
      (r : Ring A) (p : ℕ) (x : A) (slot : Slot A)
      → (slot.stamp == wrapping_add p 1) ≡ true
      → slot.value ≡ some x
      → pop_at r p (some slot)
        ≡ finished
            (record r {
              read = next r p;
              slots =
                  set r.slots (index r p) (record { stamp = wrapping_add p r.lap; value = none });
            })
            (some x)
  unfolding pop_at
  pop_at-item r p x slot e f = rw (e, f) refl

  pop_at-empty :
      (r : Ring A) (p : ℕ) (slot : Slot A)
      → (slot.stamp == wrapping_add p 1) ≡ false
      → (slot.stamp == p) ≡ true
      → (r.write == p) ≡ true
      → pop_at r p (some slot) ≡ finished r none
  unfolding pop_at
  pop_at-empty r p slot e f g = rw (e, f, g) refl

  module _ (r : Ring A) (cap : ℕ) where
    pub index-read : (xs : List A) (h : Represents r cap xs) → index r r.read ≡ h.i
    index-read xs h =
        let (b, c) = place_first cap h.rounds h.q h.i h.index_lt in
        ap (index r) (h.read_eq ∙ sym (ap₂ (encode r.lap) c b))
        ∙ index-position r cap xs h 0 (omega arith)
        ∙ b

    read_slot :
        (xs : List A) (h : Represents r cap xs)
        → get_elem? r.slots (index r r.read) ≡ some (cell r.lap h.rounds cap h.q h.i xs 0)
    read_slot xs h =
        let (b, _) = place_first cap h.rounds h.q h.i h.index_lt in
        ap (get_elem? r.slots) (index-read xs h ∙ sym b) ∙ h.slots_eq 0 (omega (arith, h.index_lt))

    stamp-read :
        (xs : List A) (h : Represents r cap xs) → wrapping_add r.read 1 ≡ encode r.lap h.q h.i + 1
    stamp-read xs h =
        ap (λ n. wrapping_add n 1) h.read_eq
        ∙ stamp_at r.lap h.rounds h.is_lap h.q h.i h.round_lt (omega (arith, h.roomy, h.index_lt))

    pub pop-item :
        (x : A) (xs : List A) → Represents r cap (x ∷ xs) → pop r ≡ finished (taken_out r) (some x)
    unfolding pop
    pop-item x xs h =
        let t : ((cell r.lap h.rounds cap h.q h.i (x ∷ xs) 0).stamp == wrapping_add r.read 1)
            ≡ true =
          eq→== _ _ (oldest_stamp r cap x xs h ∙ sym (stamp-read (x ∷ xs) h)) in
        ap (pop_at r r.read) (read_slot (x ∷ xs) h)
        ∙ pop_at-item r r.read x (cell r.lap h.rounds cap h.q h.i (x ∷ xs) 0) t refl

    pub pop-empty : Represents r cap [] → pop r ≡ finished r none
    unfolding pop
    pop-empty h =
        let (b, c) = place_first cap h.rounds h.q h.i h.index_lt in
        let s : (cell {A = A} r.lap h.rounds cap h.q h.i [] 0).stamp ≡ encode r.lap h.q h.i =
          ap₂ (encode r.lap) c b in
        let w : r.write ≡ encode r.lap h.q h.i = h.write_eq ∙ ap₂ (encode r.lap) c b in
        let t₁ : ((cell {A = A} r.lap h.rounds cap h.q h.i [] 0).stamp == wrapping_add r.read 1)
            ≡ false =
          ne→== _ _ (λ d.
            odd-ne-even r.lap h.rounds h.is_lap h.q h.i h.q h.i
              (sym (stamp-read [] h) ∙ sym d ∙ s)) in
        ap (pop_at r r.read) (read_slot [] h)
        ∙ pop_at-empty r r.read (cell {A = A} r.lap h.rounds cap h.q h.i [] 0) t₁
            (eq→== _ _ (s ∙ sym h.read_eq)) (eq→== _ _ (w ∙ sym h.read_eq))

    -- The slot at the place of a later item, as the rest of the list has it.
    cell-shift :
        (lap rounds q i p j : ℕ) (x : A) (xs : List A) (k : ℕ)
        → position lap rounds cap p j k ≡ position lap rounds cap q i (k + 1)
        → cell lap rounds cap q i (x ∷ xs) (k + 1) ≡ cell lap rounds cap p j xs k
    cell-shift lap rounds q i p j x xs k e =
        let t : ltb (k + 1) (suc (length xs)) ≡ ltb k (length xs) = ground arith in
        let s : k + 1 ≡ suc k = omega arith in
        let g : get_elem? (x ∷ xs) (k + 1) ≡ get_elem? xs k = ap (get_elem? (x ∷ xs)) s in
        rw (t, g, e) refl

    -- The slot that was freed is the last one a round later.
    cell-last :
        (x : A) (xs : List A) (h : Represents r cap (x ∷ xs)) (p j k : ℕ)
        → position r.lap h.rounds cap p j k ≡ encode r.lap (suc h.q % h.rounds) h.i
        → length xs ≤ k
        → ◌≡◌ {A = Slot A}
            (record { stamp = wrapping_add r.read r.lap; value = none })
            (cell r.lap h.rounds cap p j xs k)
    cell-last x xs h p j k e n =
        let t : ltb k (length xs) ≡ false = not_lt→ltb k (length xs) (omega arith) in
        let w : wrapping_add r.read r.lap ≡ position r.lap h.rounds cap p j k =
          ap (λ o. wrapping_add o r.lap) h.read_eq
          ∙ round_later r.lap h.rounds h.is_lap h.q h.i h.round_lt
              (omega (arith, h.roomy, h.index_lt))
          ∙ sym e in
        rw (t, get_elem?_past xs k n, w) refl

    taken_out-slots :
        (x : A) (xs : List A) (h : Represents r cap (x ∷ xs)) (k : ℕ)
        → k < cap
        → let p = place_round cap h.rounds h.q h.i 1 in
          let j = place_index cap h.rounds h.q h.i 1 in
          get_elem? (taken_out r).slots (place_index cap h.rounds p j k)
          ≡ some (cell r.lap h.rounds cap p j xs k)
    taken_out-slots x xs h k m =
        let p = place_round cap h.rounds h.q h.i 1 in
        let j = place_index cap h.rounds h.q h.i 1 in
        let (a, b) = place_shift cap h.rounds h.q h.i h.index_lt k m in
        let (f, _) = place_first cap h.rounds h.q h.i h.index_lt in
        let (l, v) = place_full cap h.rounds h.q h.i h.index_lt in
        let freed : Slot A = record { stamp = wrapping_add r.read r.lap; value = none } in
        let s = λ (n : ℕ) (c : n < cap).
          slots-set r cap (x ∷ xs) h 0 n freed (index r r.read) (index-read (x ∷ xs) h ∙ sym f)
            (omega arith) c in
        let o : position r.lap h.rounds cap p j k ≡ position r.lap h.rounds cap h.q h.i (k + 1) =
          ap₂ (encode r.lap) b a in
        elim (dec_lt (k + 1) cap) [
          | Dec.yes n ↦
              let z : (0 == k + 1) ≡ false = ground arith in
              ap (get_elem? (set r.slots (index r r.read) freed)) a
              ∙ s (k + 1) n
              ∙ rw z (ap some (cell-shift r.lap h.rounds h.q h.i p j x xs k o))
          | Dec.no n ↦
              let e : k + 1 ≡ cap = omega arith in
              ap (get_elem? (set r.slots (index r r.read) freed))
                (a ∙ ap (place_index cap h.rounds h.q h.i) e ∙ l ∙ sym f)
              ∙ s 0 (omega arith)
              ∙ ap some (
                  cell-last x xs h p j k
                    (o ∙ ap (position r.lap h.rounds cap h.q h.i) e ∙ ap₂ (encode r.lap) v l)
                    (omega (arith, h.fits)))
        ]

    pub taken_out-Represents :
        (x : A) (xs : List A) → Represents r cap (x ∷ xs) → Represents (taken_out r) cap xs
    taken_out-Represents x xs h =
        let (b, c) = place_first cap h.rounds h.q h.i h.index_lt in
        let (a, d) =
          place_shift cap h.rounds h.q h.i h.index_lt (length xs) (omega (arith, h.fits)) in
        let s : suc (length xs) ≡ length xs + 1 = omega arith in
        record {
          rounds = h.rounds;
          q = place_round cap h.rounds h.q h.i 1;
          i = place_index cap h.rounds h.q h.i 1;
          is_lap = h.is_lap;
          cap_eq = length-set r.slots _ _ ∙ h.cap_eq;
          roomy = h.roomy;
          index_lt = place_index-lt cap h.rounds h.q h.i h.index_lt 1 (omega (arith, h.index_lt));
          round_lt = place_round-lt cap h.rounds h.q h.i h.index_lt 1 h.round_lt;
          fits = omega (arith, h.fits);
          read_eq =
              ap (next r) (h.read_eq ∙ sym (ap₂ (encode r.lap) c b))
              ∙ next-place r h.rounds cap h.q h.i 0 h.is_lap h.cap_eq h.roomy h.index_lt h.round_lt
                  (omega (arith, h.index_lt));
          write_eq =
              h.write_eq
              ∙ ap (position r.lap h.rounds cap h.q h.i) s
              ∙ sym (ap₂ (encode r.lap) d a);
          slots_eq = λ k m. taken_out-slots x xs h k m;
        }
