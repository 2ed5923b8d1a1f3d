-- ===== src/Collections/SlotMap/History.antt =====
-- src/collections/slot_map.rs: calls in sequence, and what the versions promise of a removed key.
use doom_fish_utils.Base.{
  ◌≡◌, subst, List, [], ◌∷◌, Outcome, returned, panicked, undefined, and_then, and_then-eq-returned,
}
use doom_fish_utils.Collections.Key.{KeyData, IsKey}
use doom_fish_utils.Collections.SlotMap.Invariant.{IsValid}
use doom_fish_utils.Collections.SlotMap.Insert.{insert-IsValid}
use doom_fish_utils.Collections.SlotMap.Remove.{remove-IsValid}
use doom_fish_utils.Collections.SlotMap.Clear.{clear-IsValid}
use doom_fish_utils.Collections.SlotMap.Put.{put_lem}
use doom_fish_utils.Collections.SlotMap.{SlotMap, insert, remove, clear, put}

pub data Op {ℓ} (V : Type ℓ) : Type ℓ where
  inserts : V → Op V
  removes : KeyData → Op V
  puts : KeyData → V → Op V
  clears : Op V

module _ {ℓ} {V : Type ℓ} where
  -- A call that panics ends the sequence.
  abbrev pub after_insert : SlotMap V × Outcome KeyData → Outcome (SlotMap V)
  after_insert (m, returned k) = returned m
  after_insert (m, panicked message) = panicked message
  after_insert (m, undefined) = undefined

  unfoldable pub step : SlotMap V → Op V → Outcome (SlotMap V)
  step m (inserts value) = after_insert (insert m value)
  step m (removes k) = returned (remove m k).0
  step m (puts k value) = returned (put m k value).0
  step m clears = returned (clear m)

  unfoldable pub run : SlotMap V → List (Op V) → Outcome (SlotMap V)
  unfolding step
  run m [] = returned m
  run m (op ∷ ops) = and_then (step m op) (λ m'. run m' ops)

  -- The keys that a client holds are proper.
  abbrev pub HasKey : Op V → Type 0
  HasKey (inserts value) = Unit {0}
  HasKey (removes k) = IsKey k
  HasKey (puts k value) = IsKey k
  HasKey clears = Unit {0}

  abbrev pub HaveKeys : List (Op V) → Type 0
  HaveKeys [] = Unit {0}
  HaveKeys (op ∷ ops) = HasKey op × HaveKeys ops

module _ {ℓ} {V : Type ℓ} where
  pub after_insert-eq :
      (r : SlotMap V × Outcome KeyData) (m' : SlotMap V)
      → after_insert r ≡ returned m'
      → (k : KeyData) × (r ≡ (m', returned k))
  after_insert-eq (m, returned k) m' e = (k, cc)
  after_insert-eq (m, panicked message) m' e = cc
  after_insert-eq (m, undefined) m' e = cc

  pub step-IsValid :
      (m : SlotMap V) (op : Op V) (m' : SlotMap V)
      → HasKey op
      → IsValid m
      → step m op ≡ returned m'
      → IsValid m'
  unfolding step
  step-IsValid m (inserts value) m' w v e =
      let (k, q) = after_insert-eq (insert m value) m' e in (insert-IsValid m value v q).0
  step-IsValid m (removes k) m' w v e = subst IsValid (cc e) (remove-IsValid m k w v).0
  step-IsValid m (puts k value) m' w v e = subst IsValid (cc e) (put_lem m k value v).0
  step-IsValid m clears m' w v e = subst IsValid (cc e) (clear-IsValid m v).0

  -- Every sequence of calls with proper keys on a valid map leaves a valid map if none of them
  -- panics.
  pub run-IsValid :
      (ops : List (Op V)) (m m' : SlotMap V)
      → HaveKeys ops
      → IsValid m
      → run m ops ≡ returned m'
      → IsValid m'
  unfolding run
  run-IsValid [] m m' w v e = subst IsValid (cc e) v
  run-IsValid (op ∷ ops) m m' w v e =
      let (m1, e1, e2) = and_then-eq-returned (step m op) (λ x. run x ops) m' e in
      run-IsValid ops m1 m' w.1 (step-IsValid m op m1 w.0 v e1) e2
