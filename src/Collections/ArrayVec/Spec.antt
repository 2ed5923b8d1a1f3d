-- ===== src/Collections/ArrayVec/Spec.antt =====
-- What src/collections/array_vec.rs promises: a list of at most `cap` values.
use doom_fish_utils.Base.{ℕ, ◌+◌, ◌^◌, Option, none, some, ltb, if◌then◌else◌}

-- `core::ops::Bound<usize>`.
pub data Bound : Type 0 where
  included excluded : ℕ → Bound
  unbounded : Bound

-- `usize::checked_add(1)`.
abbrev pub checked_suc : ℕ → Option ℕ
checked_suc n = if ltb (n + 1) (2 ^ 64) then some (n + 1) else none

abbrev pub start_of : Bound → Option ℕ
start_of (included n) = some n
start_of (excluded n) = checked_suc n
start_of unbounded = some 0

abbrev pub end_of : Bound → ℕ → Option ℕ
end_of (included n) len = checked_suc n
end_of (excluded n) len = some n
end_of unbounded len = some len
