-- ===== src/Collections/ArrayVec.antt =====
-- src/collections/array_vec.rs: a vector in an inline array whose items behind the length may be
-- uninitialised.
pub mod Memory
pub mod Spec
pub mod Refine
pub mod Edit
pub mod Drain
pub mod Retain
pub mod Calls
pub mod Run
mod Examples
use doom_fish_utils.Base.{
  ℕ, zero, suc, ◌+◌, ◌-◌, ◌^◌, List, [], ◌∷◌, ◌++◌, Option, none, some, Bool, true, false, ◌&&◌,
  ◌==◌, ltb, leb, if◌then◌else◌, length, take, drop, replicate, Outcome, returned, panicked,
  undefined, and_then,
}
use Memory.{Cells, read, write, copy_within}
use Spec.{Bound, included, excluded, unbounded, start_of, end_of}

-- `CAP` is the length of `items`.
pub record ArrayVec {ℓ} (A : Type ℓ) : Type ℓ where
  pub len : ℕ
  pub items : Cells A

pub record IntoIter {ℓ} (A : Type ℓ) : Type ℓ where
  pub items : Cells A
  pub start : ℕ
  pub stop : ℕ

module _ {ℓ} {A : Type ℓ} where
  abbrev pub cap : ArrayVec A → ℕ
  cap v = length v.items

  unfoldable pub new : ℕ → ArrayVec A
  new capacity = record { len = 0; items = replicate capacity none }

  unfoldable pub is_full : ArrayVec A → Bool
  is_full v = v.len == cap v

  unfoldable pub push : ArrayVec A → A → ArrayVec A × Outcome (Unit {0})
  push v value =
      if ltb v.len (cap v)
      then (record { len = v.len + 1; items = write v.items v.len value }, returned tt)
      else (v, panicked "ArrayVec is full")

  abbrev pub some_value : Outcome A → Outcome (Option A)
  some_value o = and_then o (λ x. returned (some x))

  unfoldable pub pop : ArrayVec A → ArrayVec A × Outcome (Option A)
  pop v =
      if v.len == 0
      then (v, returned none)
      else (record v { len = v.len - 1 }, some_value (read v.items (v.len - 1)))

  unfoldable pub insert : ArrayVec A → ℕ → A → ArrayVec A × Outcome (Unit {0})
  insert v index value =
      if leb index v.len
      then (if ltb v.len (cap v)
          then (
            record {
              len = v.len + 1;
              items = write (copy_within v.items index (index + 1) (v.len - index)) index value;
            },
            returned tt,
          )
          else (v, panicked "ArrayVec is full"))
      else (v, panicked "insertion index is out of bounds")

  unfoldable pub remove : ArrayVec A → ℕ → ArrayVec A × Outcome A
  remove v index =
      if ltb index v.len
      then (
        record {
          len = v.len - 1;
          items = copy_within v.items (index + 1) index (v.len - 1 - index);
        },
        read v.items index,
      )
      else (v, panicked "removal index is out of bounds")

  -- `while self.len > len { self.pop(); }`, with the rounds that are left; a popped value is dropped.
  unfoldable pub truncate_loop : ℕ → ℕ → ArrayVec A → ArrayVec A × Outcome (Unit {0})
  unfolding pop
  truncate_loop zero len v = (v, returned tt)
  truncate_loop (suc left) len v = elim (ltb len v.len) [
    | false ↦ (v, returned tt)
    | true ↦
        let rest = truncate_loop left len (pop v).0 in (rest.0, and_then (pop v).1 (λ _. rest.1))
  ]

  -- Each round shortens the vector, so its length bounds them.
  unfoldable pub truncate : ArrayVec A → ℕ → ArrayVec A × Outcome (Unit {0})
  unfolding truncate_loop
  truncate v len = truncate_loop v.len len v

  unfoldable pub clear : ArrayVec A → ArrayVec A × Outcome (Unit {0})
  unfolding truncate
  clear v = truncate v 0

  -- The raw copies of `drain` for a range that has been checked: the drained items go to a new array,
  -- and the items behind them move down.
  abbrev pub drain_range : ArrayVec A → ℕ → ℕ → ArrayVec A × Outcome (IntoIter A)
  drain_range v start stop = (
    record {
      len = v.len - (stop - start);
      items = copy_within v.items (start + (stop - start)) start (v.len - stop);
    },
    returned (record {
      items =
          take (stop - start) (drop start v.items) ++ drop (stop - start) (replicate (cap v) none);
      start = 0;
      stop = stop - start;
    }),
  )

  abbrev pub drain_between : ArrayVec A → Option ℕ → Option ℕ → ArrayVec A × Outcome (IntoIter A)
  drain_between v none stop = (v, panicked "drain range is out of bounds")
  drain_between v (some start) none = (v, panicked "drain range is out of bounds")
  drain_between v (some start) (some stop) =
      if leb start stop && leb stop v.len
      then drain_range v start stop
      else (v, panicked "drain range is out of bounds")

  unfoldable pub drain : ArrayVec A → Bound → Bound → ArrayVec A × Outcome (IntoIter A)
  drain v from to = drain_between v (start_of from) (end_of to v.len)

  -- `IntoIterator`: the array is moved out as it is.
  unfoldable pub into_iter : ArrayVec A → IntoIter A
  into_iter v = record { items = v.items; start = 0; stop = v.len }

  unfoldable pub next : IntoIter A → IntoIter A × Outcome (Option A)
  next it =
      if it.start == it.stop
      then (it, returned none)
      else (record it { start = it.start + 1 }, some_value (read it.items it.start))

  unfoldable pub next_back : IntoIter A → IntoIter A × Outcome (Option A)
  next_back it =
      if it.start == it.stop
      then (it, returned none)
      else (record it { stop = it.stop - 1 }, some_value (read it.items (it.stop - 1)))

  -- `Extend`: pushes item by item; a panic of `push` ends it.
  unfoldable pub extend : ArrayVec A → List A → ArrayVec A × Outcome (Unit {0})
  unfolding push
  extend v [] = (v, returned tt)
  extend v (x ∷ xs) =
      let rest = extend (push v x).0 xs in
      elim (push v x).1 [
        | returned _ ↦ rest
        | panicked message ↦ ((push v x).0, panicked message)
        | undefined ↦ ((push v x).0, undefined)
      ]

  -- `FromIterator`.
  unfoldable pub from_iter : ℕ → List A → ArrayVec A × Outcome (Unit {0})
  unfolding extend new
  from_iter capacity xs = extend (new capacity) xs

module _ {ℓ κ} {A : Type ℓ} {S : Type κ} (keep : S → A → S × (A × Bool)) where
  -- The body of `retain` for a value that has been read out: the closure may change it and keeps a
  -- state of its own.
  abbrev pub retain_value : S × (A × Bool) → ArrayVec A → S × ArrayVec A
  retain_value (s, (x, true)) v = (s, record { len = v.len + 1; items = write v.items v.len x })
  retain_value (s, (x, false)) v = (s, v)

  -- `for index in 0..len`, with the rounds that are left.
  unfoldable pub retain_loop : ℕ → ℕ → S → ArrayVec A → (S × ArrayVec A) × Outcome (Unit {0})
  retain_loop zero index s v = ((s, v), returned tt)
  retain_loop (suc left) index s v = elim (read v.items index) [
    | panicked message ↦ ((s, v), panicked message)
    | undefined ↦ ((s, v), undefined)
    | returned x ↦ let (s', v') = retain_value (keep s x) v in retain_loop left (index + 1) s' v'
  ]

  unfoldable pub retain : S → ArrayVec A → (S × ArrayVec A) × Outcome (Unit {0})
  unfolding retain_loop
  retain s v = retain_loop v.len 0 s (record v { len = 0 })
