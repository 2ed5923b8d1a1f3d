-- ===== src/Collections/SlotMap/Stale.antt =====
-- src/collections/slot_map.rs: the key of a removed value does not find a later value in its slot, until
-- the 32-bit version has gone all the way round.
use doom_fish_utils.Base.{
  ℕ, zero, suc, ◌+◌, ◌-◌, ◌%◌, ◌≤◌, ◌<◌, ◌≡◌, refl, sym, ap, subst, ◌∙◌, ◌⊎◌, inl, inr, ◌≢◌, List,
  [], ◌∷◌, ◌++◌, Option, some, none, length, get_elem?, set, arith, get_elem?-set_ne,
  get_elem?-set_self, get_elem?-append_left, lt-length_of_some, ℕ_discrete, returned,
  and_then-eq-returned, Option-cases, ne→==,
}
use doom_fish_utils.Base.Bits.{bit_or-one}
use doom_fish_utils.Collections.Key.{KeyData, IsKey, u32_mod}
use doom_fish_utils.Collections.SlotMap.Slots.{State, occupied, vacant, Slot, parity}
use doom_fish_utils.Collections.SlotMap.Invariant.{IsValid}
use doom_fish_utils.Collections.SlotMap.Insert.{Reuses, Grows, Refuses, insert_cases, filled, fresh}
use doom_fish_utils.Collections.SlotMap.Remove.{Hits, Misses, remove_cases, remove-IsValid}
use doom_fish_utils.Collections.SlotMap.Put.{get-eq-some, put-eq, put_missing, rewritten}
use doom_fish_utils.Collections.SlotMap.History.{
  Op, inserts, removes, puts, clears, HasKey, HaveKeys, step, run, step-IsValid, after_insert-eq,
}
use doom_fish_utils.Collections.SlotMap.{
  SlotMap, insert, remove, vacated, clear, clear_loop, clear_at, clear_state, get, found, put,
}

module _ {ℓ} {V : Type ℓ} where
  -- A slot stays, with its version or the next one.
  Advances : Option (Slot V) → Option (Slot V) → Type ℓ
  Advances o o' =
      (s : Slot V)
      → o ≡ some s
      → (s' : Slot V) × (o' ≡ some s')
        × ((s'.version ≡ s.version) ⊎ (s'.version ≡ (s.version + 1) % u32_mod))

  Advances-same : (o o' : Option (Slot V)) → o' ≡ o → Advances o o'
  unfolding Advances
  Advances-same o o' q s e = (s, q ∙ e, inl refl)

  Advances-set :
      (ss : List (Slot V)) (i j : ℕ) (old t : Slot V)
      → get_elem? ss j ≡ some old
      → (t.version ≡ old.version) ⊎ (t.version ≡ (old.version + 1) % u32_mod)
      → Advances (get_elem? ss i) (get_elem? (set ss j t) i)
  unfolding Advances
  Advances-set ss i j old t q h s e = elim (ℕ_discrete j i) [
    | yes here ↦ (
      t,
      rw (← here) (get_elem?-set_self ss j t (lt-length_of_some ss j old q)),
      subst (λ x. (t.version ≡ x.version) ⊎ (t.version ≡ (x.version + 1) % u32_mod)) (same here) h,
    )
    | no differs ↦ (s, rw (get_elem?-set_ne ss j i t differs) e, inl refl)
  ]
    where
      same : j ≡ i → old ≡ s
      same here = cc

  Advances-append :
      (ss : List (Slot V)) (i : ℕ) (t : Slot V)
      → Advances (get_elem? ss i) (get_elem? (ss ++ t ∷ []) i)
  unfolding Advances
  Advances-append ss i t s e =
      (s, rw (get_elem?-append_left ss (t ∷ []) i (lt-length_of_some ss i s e)) e, inl refl)

  insert-Advances :
      (m : SlotMap V) (value : V) (i : ℕ)
      → IsValid m
      → Advances (get_elem? m.slots i) (get_elem? (insert m value).0.slots i)
  insert-Advances m value i v = cases (insert_cases m value v)
    where
      cases :
          Reuses m value ⊎ Grows m value ⊎ Refuses m value
          → Advances (get_elem? m.slots i) (get_elem? (insert m value).0.slots i)
      cases (inl r) = rw r.result (
          Advances-set m.slots i m.free_head r.slot (filled m value r.slot) r.at_head
            (inr (omega (arith, bit_or-one r.slot.version, r.is_slot, ap parity r.is_vacant))))
      cases (inr (inl g)) = rw g.result (Advances-append m.slots i (fresh m value))
      cases (inr (inr f)) = rw f.result (Advances-same _ _ refl)

  remove-Advances :
      (m : SlotMap V) (k : KeyData) (i : ℕ)
      → IsKey k
      → IsValid m
      → Advances (get_elem? m.slots i) (get_elem? (remove m k).0.slots i)
  remove-Advances m k i w v = cases (remove_cases m k w v)
    where
      cases :
          Hits m k ⊎ Misses m k → Advances (get_elem? m.slots i) (get_elem? (remove m k).0.slots i)
      cases (inl h) =
          rw h.result
            (Advances-set m.slots i k.idx h.slot (vacated h.slot m.free_head) h.at_idx (inr refl))
      cases (inr n) = rw n.result (Advances-same _ _ refl)

  put-Advances :
      (m : SlotMap V) (k : KeyData) (value : V) (i : ℕ)
      → Advances (get_elem? m.slots i) (get_elem? (put m k value).0.slots i)
  put-Advances m k value i = elim (Option-cases (get m k)) [
    | inl e ↦ rw (put_missing m k value e) (Advances-same _ _ refl)
    | inr (old, e) ↦
        let (s, q, same, o) = get-eq-some m k old e in
        rw (put-eq m k value old e)
          (Advances-set m.slots i k.idx s (rewritten k value) q (inl (sym same)))
  ]

  -- A round of `clear` touches no slot but its own.
  clear_state-other :
      (m : SlotMap V) (index i : ℕ) (s : Slot V) (t : State V)
      → index ≢ i
      → get_elem? (clear_state t s m index).slots i ≡ get_elem? m.slots i
  clear_state-other m index i s (occupied x) d =
      get_elem?-set_ne m.slots index i (vacated s m.free_head) d
  clear_state-other m index i s (vacant n) d = refl

  clear_at-other :
      (m : SlotMap V) (index i : ℕ) (o : Option (Slot V))
      → index ≢ i
      → get_elem? (clear_at o m index).slots i ≡ get_elem? m.slots i
  clear_at-other m index i none d = refl
  clear_at-other m index i (some s) d = clear_state-other m index i s s.state d

  clear_state-Advances :
      (m : SlotMap V) (index i : ℕ) (s : Slot V) (t : State V)
      → get_elem? m.slots index ≡ some s
      → Advances (get_elem? m.slots i) (get_elem? (clear_state t s m index).slots i)
  clear_state-Advances m index i s (occupied x) e =
      Advances-set m.slots i index s (vacated s m.free_head) e (inr refl)
  clear_state-Advances m index i s (vacant n) e = Advances-same _ _ refl

  clear_at-Advances :
      (m : SlotMap V) (index i : ℕ) (o : Option (Slot V))
      → get_elem? m.slots index ≡ o
      → Advances (get_elem? m.slots i) (get_elem? (clear_at o m index).slots i)
  clear_at-Advances m index i none e = Advances-same _ _ refl
  clear_at-Advances m index i (some s) e = clear_state-Advances m index i s s.state e

  clear_loop_passed :
      (left index i : ℕ) (m : SlotMap V)
      → i < index
      → get_elem? (clear_loop left index m).slots i ≡ get_elem? m.slots i
  unfolding clear_loop
  clear_loop_passed zero index i m h = refl
  clear_loop_passed (suc left) index i m h =
      clear_loop_passed left (index + 1) i (clear_at (get_elem? m.slots index) m index)
        (omega arith)
      ∙ clear_at-other m index i (get_elem? m.slots index) (omega arith)

  clear_loop-Advances :
      (left index i : ℕ) (m : SlotMap V)
      → Advances (get_elem? m.slots i) (get_elem? (clear_loop left index m).slots i)
  unfolding clear_loop
  clear_loop-Advances zero index i m = Advances-same _ _ refl
  clear_loop-Advances (suc left) index i m =
      let next = clear_at (get_elem? m.slots index) m index in
      elim (ℕ_discrete index i) [
        | yes here ↦
            rw (clear_loop_passed left (index + 1) i next (omega arith))
              (clear_at-Advances m index i (get_elem? m.slots index) refl)
        | no differs ↦
            subst (λ o. Advances o (get_elem? (clear_loop left (index + 1) next).slots i))
              (clear_at-other m index i (get_elem? m.slots index) differs)
              (clear_loop-Advances left (index + 1) i next)
      ]

  step-Advances :
      (m m' : SlotMap V) (op : Op V) (i : ℕ)
      → HasKey op
      → IsValid m
      → step m op ≡ returned m'
      → Advances (get_elem? m.slots i) (get_elem? m'.slots i)
  unfolding step clear
  step-Advances m m' (inserts value) i w v e =
      let (k, q) = after_insert-eq (insert m value) m' e in
      subst (λ (x : SlotMap V). Advances (get_elem? m.slots i) (get_elem? x.slots i))
        (ap (λ r. r.0) q) (insert-Advances m value i v)
  step-Advances m m' (removes k) i w v e =
      let same : (remove m k).0 ≡ m' = cc e in
      subst (λ (x : SlotMap V). Advances (get_elem? m.slots i) (get_elem? x.slots i)) same
        (remove-Advances m k i w v)
  step-Advances m m' (puts k value) i w v e =
      let same : (put m k value).0 ≡ m' = cc e in
      subst (λ (x : SlotMap V). Advances (get_elem? m.slots i) (get_elem? x.slots i)) same
        (put-Advances m k value i)
  step-Advances m m' clears i w v e =
      let same : clear m ≡ m' = cc e in
      subst (λ (x : SlotMap V). Advances (get_elem? m.slots i) (get_elem? x.slots i)) same
        (clear_loop-Advances (length m.slots - 1) 1 i m)

  -- The slot of the key has moved on by at least one version and at most `n`.
  record HasAged (k : KeyData) (n : ℕ) (m : SlotMap V) : Type ℓ where
    slot : Slot V
    age : ℕ
    at_idx : get_elem? m.slots k.idx ≡ some slot
    moved : slot.version ≡ (k.version + age) % u32_mod
    least : 1 ≤ age
    most : age ≤ n

  HasAged-step :
      (k : KeyData) (n : ℕ) (m m' : SlotMap V)
      → Advances (get_elem? m.slots k.idx) (get_elem? m'.slots k.idx)
      → HasAged k n m
      → HasAged k (n + 1) m'
  unfolding Advances
  HasAged-step k n m m' adv h = aged (adv h.slot h.at_idx)
    where
      aged :
          (s' : Slot V) × (get_elem? m'.slots k.idx ≡ some s')
            × ((s'.version ≡ h.slot.version) ⊎ (s'.version ≡ (h.slot.version + 1) % u32_mod))
          → HasAged k (n + 1) m'
      aged (s', q, inl same) = record {
        slot = s';
        age = h.age;
        at_idx = q;
        moved = same ∙ h.moved;
        least = h.least;
        most = omega (arith, h.most);
      }
      aged (s', q, inr next) = record {
        slot = s';
        age = h.age + 1;
        at_idx = q;
        moved = omega (arith, next, h.moved);
        least = omega arith;
        most = omega (arith, h.most);
      }

  get-HasAged :
      (k : KeyData) (n : ℕ) (m : SlotMap V)
      → k.version < u32_mod
      → n < u32_mod
      → HasAged k n m
      → get m k ≡ none
  unfolding get
  get-HasAged k n m w b h =
      rw (h.at_idx, found)
        (rw (ne→== h.slot.version k.version (omega (arith, h.moved, h.least, h.most))))

  run-HasAged :
      (ops : List (Op V)) (k : KeyData) (n : ℕ) (m m' : SlotMap V)
      → HaveKeys ops
      → IsValid m
      → run m ops ≡ returned m'
      → HasAged k n m
      → HasAged k (n + length ops) m'
  unfolding run
  run-HasAged [] k n m m' w v e h =
      let same : m ≡ m' = cc e in
      let longer : n ≡ n + 0 = omega arith in
      subst (λ j. HasAged k j m') longer (subst (HasAged k n) same h)
  run-HasAged (op ∷ ops) k n m m' w v e h =
      let (m1, e1, e2) = and_then-eq-returned (step m op) (λ x. run x ops) m' e in
      let longer : (n + 1) + length ops ≡ n + suc (length ops) = omega arith in
      subst (λ j. HasAged k j m') longer
        (run-HasAged ops k (n + 1) m1 m' w.1 (step-IsValid m op m1 w.0 v e1) e2
          (HasAged-step k n m m1 (step-Advances m m1 op k.idx w.0 v e1) h))

  remove-HasAged :
      (m : SlotMap V) (k : KeyData) (v : V)
      → get m k ≡ some v
      → Hits m k ⊎ Misses m k
      → HasAged k 1 (remove m k).0
  remove-HasAged m k v e (inl h) = rw h.result (record {
    slot = vacated h.slot m.free_head;
    age = 1;
    at_idx =
        get_elem?-set_self m.slots k.idx (vacated h.slot m.free_head)
          (lt-length_of_some m.slots k.idx h.slot h.at_idx);
    moved = ap (λ n. (n + 1) % u32_mod) h.same;
    least = omega arith;
    most = omega arith;
  })
  remove-HasAged m k v e (inr n) = cc n.not_found

  -- Once a proper key that found a value has been removed from a valid map, it finds nothing
  -- through any further calls with proper keys, as long as they are fewer than 2^32 - 1 in number
  -- and none of them panics.
  pub get-stale :
      (m m' : SlotMap V) (k : KeyData) (v : V) (ops : List (Op V))
      → IsKey k
      → HaveKeys ops
      → IsValid m
      → get m k ≡ some v
      → run (remove m k).0 ops ≡ returned m'
      → length ops + 1 < u32_mod
      → get m' k ≡ none
  get-stale m m' k x ops w ws v e r b =
      get-HasAged k (1 + length ops) m' w.version_lt (omega arith) (
        run-HasAged ops k 1 (remove m k).0 m' ws (remove-IsValid m k w v).0 r
          (remove-HasAged m k x e (remove_cases m k w v)))
