-- ===== src/Future/Combinators/Rounds.antt =====
-- src/future/mod.rs, `JoinAll`: polled again and again, it gives what its futures give one by one.
use doom_fish_utils.Base.{
  ℕ, ◌≡◌, refl, sym, ap, ap₂, ◌∙◌, List, [], ◌∷◌, map, Option, none, some, Bool, true, false, ◌&&◌,
  not, if◌then◌else◌, Bool-cases, inl, inr,
}
use doom_fish_utils.Future.{Poll, ready, pending}
use doom_fish_utils.Future.Combinators.Joined.{both}
use doom_fish_utils.Future.Combinators.{
  Slot, waiting, done, join_all, slot_polled, poll_slot, poll_slots, outputs, poll_join,
}

module _ {ℓ} {A : Type ℓ} where
  abbrev joined : Option A → Option (List A) → Option (List A)
  joined none rest = none
  joined (some a) none = none
  joined (some a) (some items) = some (a ∷ items)

  -- All outputs, if there are all.
  abbrev pub all_some : List (Option A) → Option (List A)
  all_some [] = some []
  all_some (o ∷ os) = joined o (all_some os)

  joined-none : (o : Option A) → joined o none ≡ none
  joined-none none = refl
  joined-none (some a) = refl

module _ {ℓ κ} {F : Type κ} {A : Type ℓ} (poll : F → ℕ → F × Poll A) where
  -- The output of a future that is polled with these wakers in turn, until it is ready.
  abbrev or_later : (F → Option A) → F × Poll A → Option A
  or_later rest (future, ready output) = some output
  or_later rest (future, pending) = rest future

  unfoldable pub finish : List ℕ → F → Option A
  finish [] future = none
  finish (waker ∷ wakers) future = or_later (λ f. finish wakers f) (poll future waker)

  abbrev finish_slot : List ℕ → Slot F A → Option A
  finish_slot wakers (waiting future) = finish wakers future
  finish_slot wakers (done output) = some output

  -- The same of the join.
  abbrev or_join_later :
      (List (Slot F A) → Option (List A)) → List (Slot F A) × Poll (List A) → Option (List A)
  or_join_later rest (slots, ready found) = some found
  or_join_later rest (slots, pending) = rest slots

  unfoldable pub finish_join : List ℕ → List (Slot F A) → Option (List A)
  finish_join [] slots = none
  finish_join (waker ∷ wakers) slots =
      or_join_later (λ s. finish_join wakers s) (poll_join poll slots waker)

  slot_polled-finish :
      (wakers : List ℕ) (r : F × Poll A)
      → or_later (λ f. finish wakers f) r ≡ finish_slot wakers (slot_polled poll r).0
  slot_polled-finish wakers (future, ready output) = refl
  slot_polled-finish wakers (future, pending) = refl

  finish-poll_slot :
      (waker : ℕ) (wakers : List ℕ) (slot : Slot F A)
      → finish_slot (waker ∷ wakers) slot ≡ finish_slot wakers (poll_slot poll slot waker).0
  unfolding finish
  finish-poll_slot waker wakers (waiting future) = slot_polled-finish wakers (poll future waker)
  finish-poll_slot waker wakers (done output) = refl

  abbrev finish_all : List ℕ → List (Slot F A) → Option (List A)
  finish_all wakers slots = all_some (map (λ (s : Slot F A). finish_slot wakers s) slots)

  -- A round of polls takes the first waker.
  finish-poll_slots :
      (waker : ℕ) (wakers : List ℕ) (slots : List (Slot F A))
      → finish_all (waker ∷ wakers) slots ≡ finish_all wakers (poll_slots poll slots waker).0
  unfolding poll_slots
  finish-poll_slots waker wakers [] = refl
  finish-poll_slots waker wakers (slot ∷ slots) =
      ap₂ joined (finish-poll_slot waker wakers slot) (finish-poll_slots waker wakers slots)

  slot_finished :
      (wakers : List ℕ) (r : F × Poll A) (slots : List (Slot F A))
      → (slot_polled poll r).1 ≡ true
      → finish_all wakers slots ≡ some (outputs poll slots)
      → finish_all wakers ((slot_polled poll r).0 ∷ slots)
        ≡ some (outputs poll ((slot_polled poll r).0 ∷ slots))
  slot_finished wakers (future, ready output) slots e f = ap (joined (some output)) f
  slot_finished wakers (future, pending) slots e f = cc (e)

  all_finished :
      (waker : ℕ) (wakers : List ℕ) (slots : List (Slot F A))
      → (poll_slots poll slots waker).1 ≡ true
      → finish_all wakers (poll_slots poll slots waker).0
        ≡ some (outputs poll (poll_slots poll slots waker).0)
  unfolding poll_slots
  all_finished waker wakers [] e = refl
  all_finished waker wakers (done output ∷ slots) e =
      ap (joined (some output)) (all_finished waker wakers slots e)
  all_finished waker wakers (waiting future ∷ slots) e =
      let (a, b) = both _ _ e in
      slot_finished wakers (poll future waker) (poll_slots poll slots waker).0 a
        (all_finished waker wakers slots b)

  slot_unfinished :
      (r : F × Poll A)
      → (slot_polled poll r).1 ≡ false
      → finish_slot [] (slot_polled poll r).0 ≡ none
  unfolding finish
  slot_unfinished (future, ready output) e = cc (e)
  slot_unfinished (future, pending) e = refl

  some_unfinished :
      (waker : ℕ) (slots : List (Slot F A))
      → (poll_slots poll slots waker).1 ≡ false
      → finish_all [] (poll_slots poll slots waker).0 ≡ none
  unfolding poll_slots
  some_unfinished waker [] e = cc (e)
  some_unfinished waker (done output ∷ slots) e =
      ap (joined (some output)) (some_unfinished waker slots e)
  some_unfinished waker (waiting future ∷ slots) e =
      elim (Bool-cases (slot_polled poll (poll future waker)).1) [
        | inl f ↦
            let g : (poll_slots poll slots waker).1 ≡ false =
              sym (ap (λ b. b && (poll_slots poll slots waker).1) f) ∙ e in
            ap (joined (finish_slot [] (slot_polled poll (poll future waker)).0))
              (some_unfinished waker slots g)
            ∙ joined-none (finish_slot [] (slot_polled poll (poll future waker)).0)
        | inr f ↦
            ap (λ o. joined o (finish_all [] (poll_slots poll slots waker).0))
              (slot_unfinished (poll future waker) f)
      ]

  abbrev ending : List (Slot F A) → Bool → List (Slot F A) × Poll (List A)
  ending slots finished =
      if not finished then (slots, pending) else ([], ready (outputs poll slots))

  poll_join-ending :
      (waker : ℕ) (slots : List (Slot F A)) (b : Bool)
      → (poll_slots poll slots waker).1 ≡ b
      → poll_join poll slots waker ≡ ending (poll_slots poll slots waker).0 b
  unfolding poll_join
  poll_join-ending waker slots b e = ap (ending (poll_slots poll slots waker).0) e

  join_finished :
      (waker : ℕ) (wakers : List ℕ) (slots : List (Slot F A))
      → (poll_slots poll slots waker).1 ≡ true
      → finish_join (waker ∷ wakers) slots ≡ finish_all (waker ∷ wakers) slots
  unfolding finish_join
  join_finished waker wakers slots e =
      ap (or_join_later (λ s. finish_join wakers s)) (poll_join-ending waker slots true e)
      ∙ sym (finish-poll_slots waker wakers slots ∙ all_finished waker wakers slots e)

  join_unfinished :
      (waker : ℕ) (wakers : List ℕ) (slots : List (Slot F A))
      → (poll_slots poll slots waker).1 ≡ false
      → finish_join (waker ∷ wakers) slots ≡ finish_join wakers (poll_slots poll slots waker).0
  unfolding finish_join
  join_unfinished waker wakers slots e =
      ap (or_join_later (λ s. finish_join wakers s)) (poll_join-ending waker slots false e)

  finish-slots :
      (waker : ℕ) (wakers : List ℕ) (slots : List (Slot F A))
      → finish_join (waker ∷ wakers) slots ≡ finish_all (waker ∷ wakers) slots
  unfolding finish_join
  finish-slots waker [] slots = elim (Bool-cases (poll_slots poll slots waker).1) [
    | inl e ↦ join_finished waker [] slots e
    | inr e ↦
        join_unfinished waker [] slots e
        ∙ sym (finish-poll_slots waker [] slots ∙ some_unfinished waker slots e)
  ]
  finish-slots waker (v ∷ wakers) slots = elim (Bool-cases (poll_slots poll slots waker).1) [
    | inl e ↦ join_finished waker (v ∷ wakers) slots e
    | inr e ↦
        join_unfinished waker (v ∷ wakers) slots e
        ∙ finish-slots v wakers (poll_slots poll slots waker).0
        ∙ sym (finish-poll_slots waker (v ∷ wakers) slots)
  ]

  waiting-all :
      (wakers : List ℕ) (futures : List F)
      → finish_all wakers (join_all poll futures)
        ≡ all_some (map (λ (f : F). finish wakers f) futures)
  unfolding join_all
  waiting-all wakers [] = refl
  waiting-all wakers (future ∷ futures) =
      ap (joined (finish wakers future)) (waiting-all wakers futures)

  -- A join that is polled with one waker or more in turn, until it is ready, is ready exactly if all its
  -- futures are, each polled on its own with the same wakers until it is ready, and its output is then the
  -- list of theirs in order.
  pub finish-join_all :
      (waker : ℕ) (wakers : List ℕ) (futures : List F)
      → finish_join (waker ∷ wakers) (join_all poll futures)
        ≡ all_some (map (λ (f : F). finish (waker ∷ wakers) f) futures)
  finish-join_all waker wakers futures =
      finish-slots waker wakers (join_all poll futures) ∙ waiting-all (waker ∷ wakers) futures
