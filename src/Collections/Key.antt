-- ===== src/Collections/Key.antt =====
-- src/collections/slot_map.rs, `KeyData`. The key types that `new_key_type!` declares wrap a
-- `KeyData` and convert by the identity, so a key is its `KeyData` in every module.
use doom_fish_utils.Base.{
  ℕ, ◌+◌, ◌*◌, ◌/◌, ◌%◌, ◌^◌, ◌<◌, bit_and, bit_or, ◌≡◌, Bool, true, false, ◌&&◌, ◌==◌,
  if◌then◌else◌, arith,
}
use doom_fish_utils.Base.Bits.{bit_or-one, bit_or_disjoint, bit_and_mask}

abbrev pub u32_mod : ℕ
u32_mod = 2 ^ 32

abbrev pub u32_max : ℕ
u32_max = 0xffff_ffff

pub record KeyData : Type 0 where
  pub idx : ℕ
  pub version : ℕ

-- `version | 1` is never zero, so the `unreachable!()` is not reached.
unfoldable pub new : ℕ → ℕ → KeyData
new idx version = record { idx = idx; version = bit_or version 1 }

-- `<<` on `u64` drops the bits above 64.
unfoldable pub as_ffi : KeyData → ℕ
as_ffi k = bit_or ((k.version * 2 ^ 32) % 2 ^ 64) k.idx

unfoldable pub from_ffi : ℕ → KeyData
unfolding new
from_ffi value = new (bit_and value 0xffff_ffff % 2 ^ 32) ((value / 2 ^ 32) % 2 ^ 32)

unfoldable pub is_null : KeyData → Bool
is_null k = k.idx == u32_max

-- `Default`: the null key.
unfoldable pub null_key : KeyData
unfolding new
null_key = new u32_max 1

-- The derived `PartialEq`.
unfoldable pub key_eq : KeyData → KeyData → Bool
key_eq a b = (a.idx == b.idx) && (a.version == b.version)

pub key_eq→eq : (a b : KeyData) → key_eq a b ≡ true → a ≡ b
unfolding key_eq
key_eq→eq a b e = ground arith

pub key_eq_refl : (a : KeyData) → key_eq a a ≡ true
unfolding key_eq
key_eq_refl a = ground arith

-- Two keys for one slot differ by their versions.
pub version_ne :
    (a b : KeyData) → key_eq a b ≡ false → a.idx ≡ b.idx → (a.version == b.version) ≡ false
unfolding key_eq
version_ne a b e same = ground arith

-- What every key satisfies, since each one is built by `new` from 32-bit words.
pub record IsKey (k : KeyData) : Type 0 where
  pub idx_lt : k.idx < u32_mod
  pub version_lt : k.version < u32_mod
  pub odd : k.version % 2 ≡ 1

pub new-IsKey : (idx version : ℕ) → idx < u32_mod → version < u32_mod → IsKey (new idx version)
unfolding new
new-IsKey idx version hi hv = omega (arith, bit_or-one version)

pub as_ffi-eq-sum : (k : KeyData) → IsKey k → as_ffi k ≡ k.version * 2 ^ 32 + k.idx
unfolding as_ffi
as_ffi-eq-sum k v = ground (arith, bit_or_disjoint 32 k.version k.idx)

-- Every `u64` reads as a proper key.
pub from_ffi-IsKey : (value : ℕ) → IsKey (from_ffi value)
unfolding from_ffi
from_ffi-IsKey value = new-IsKey _ _ (omega arith) (omega arith)

-- A proper key survives the trip through a foreign `u64`, and the `u64` fits its type.
pub from_ffi-as_ffi : (k : KeyData) → IsKey k → (from_ffi (as_ffi k) ≡ k) × (as_ffi k < 2 ^ 64)
unfolding from_ffi new
from_ffi-as_ffi k v =
    ground (
      arith,
      as_ffi-eq-sum k v,
      bit_and_mask 32 (as_ffi k),
      bit_or-one (as_ffi k / 2 ^ 32 % 2 ^ 32),
    )

-- A number below 2^64 read as a key and written back has the lowest bit of its high half set, and
-- is otherwise the same.
pub as_ffi-from_ffi :
    (value : ℕ)
    → value < 2 ^ 64
    → as_ffi (from_ffi value) ≡ (if value / 2 ^ 32 % 2 == 1 then value else value + 2 ^ 32)
unfolding from_ffi new
as_ffi-from_ffi value h = ground (
  arith,
  as_ffi-eq-sum (from_ffi value) (from_ffi-IsKey value),
  bit_and_mask 32 value,
  bit_or-one (value / 2 ^ 32 % 2 ^ 32),
)
