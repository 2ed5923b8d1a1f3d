-- ===== src/Future/Combinators/Joined.antt =====
-- src/future/mod.rs, `JoinAll`: no output is missing when it is ready.
use doom_fish_utils.Base.{
  ℕ, suc, ◌≡◌, refl, sym, ap, subst, ◌∙◌, List, [], ◌∷◌, Bool, true, false, ◌&&◌, not,
  if◌then◌else◌, length, Bool-cases, inl, inr,
}
use doom_fish_utils.Future.{Poll, ready, pending}
use doom_fish_utils.Future.Combinators.{
  Slot, waiting, done, slot_polled, poll_slot, poll_slots, outputs, poll_join,
}

pub both : (a b : Bool) → (a && b) ≡ true → (a ≡ true) × (b ≡ true)
both true b e = (refl, e)
both false b e = cc (e)

module _ {ℓ κ} {F : Type κ} {A : Type ℓ} (poll : F → ℕ → F × Poll A) where
  slot_polled_done :
      (r : F × Poll A) (slots : List (Slot F A))
      → (slot_polled poll r).1 ≡ true
      → length (outputs poll ((slot_polled poll r).0 ∷ slots)) ≡ suc (length (outputs poll slots))
  slot_polled_done (future, ready output) slots e = refl
  slot_polled_done (future, pending) slots e = cc (e)

  poll_slot_done :
      (slot : Slot F A) (slots : List (Slot F A)) (waker : ℕ)
      → (poll_slot poll slot waker).1 ≡ true
      → length (outputs poll ((poll_slot poll slot waker).0 ∷ slots))
        ≡ suc (length (outputs poll slots))
  poll_slot_done (waiting future) slots waker e = slot_polled_done (poll future waker) slots e
  poll_slot_done (done output) slots waker e = refl

  outputs-poll_slots :
      (slots : List (Slot F A)) (waker : ℕ)
      → (poll_slots poll slots waker).1 ≡ true
      → length (outputs poll (poll_slots poll slots waker).0) ≡ length slots
  unfolding poll_slots
  outputs-poll_slots [] waker e = refl
  outputs-poll_slots (slot ∷ slots) waker e =
      let (a, b) = both _ _ e in
      poll_slot_done slot (poll_slots poll slots waker).0 waker a
      ∙ ap suc (outputs-poll_slots slots waker b)

  abbrev ending : List (Slot F A) → Bool → List (Slot F A) × Poll (List A)
  ending slots finished =
      if not finished then (slots, pending) else ([], ready (outputs poll slots))

  -- When `JoinAll` is ready it gives one output for each of its slots.
  pub poll_join-length :
      (slots : List (Slot F A)) (waker : ℕ) (found : List A)
      → (poll_join poll slots waker).1 ≡ ready found
      → length found ≡ length slots
  unfolding poll_join
  poll_join-length slots waker found e =
      let polled : List (Slot F A) = (poll_slots poll slots waker).0 in
      elim (Bool-cases (poll_slots poll slots waker).1) [
        | inl f ↦
            let q : ready (outputs poll polled) ≡ ready found =
              subst (λ b. (ending polled b).1 ≡ ready found) f e in
            let p : outputs poll polled ≡ found = cc (q) in
            ap length (sym p) ∙ outputs-poll_slots slots waker f
        | inr f ↦
            let q : pending ≡ ready found = subst (λ b. (ending polled b).1 ≡ ready found) f e in
            cc (q)
      ]
