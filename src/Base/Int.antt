-- ===== src/Base/Int.antt =====
-- Signed machine integers: ℤ over the native numbers, with Go's wrap-around written out.
use Prim.Native.Nat.{ℕ, suc, ◌+◌, ◌-◌, ◌%◌, ◌^◌, ◌≤◌, ◌<◌}
use mathlib.Core.Path.{◌≡◌}
use mathlib.Core.Logic.{◌↔◌}
use mathlib.Core.Bool.{Bool, true}
use native.Mathlib.Omega.{arith}
use flux_k8s.Base.Tests.{ltb, leb, ◌==◌, if◌then◌else◌}

-- `negsuc n` is -(n + 1).
pub data ℤ : Type 0 where
  pos : ℕ → ℤ
  negsuc : ℕ → ℤ

abbrev pub pos_part : ℤ → ℕ
pos_part (pos n) = n
pos_part (negsuc n) = 0

abbrev pub neg_part : ℤ → ℕ
neg_part (pos n) = 0
neg_part (negsuc n) = suc n

abbrev pub sub_ℕ : ℕ → ℕ → ℤ
sub_ℕ a b = if leb b a then pos (a - b) else negsuc (b - a - 1)

infixl 65 ◌+ℤ◌ ◌-ℤ◌
infix 50 ◌≤ℤ◌ ◌<ℤ◌
abbrev pub ◌+ℤ◌ : ℤ → ℤ → ℤ
a +ℤ b = sub_ℕ (pos_part a + pos_part b) (neg_part a + neg_part b)

abbrev pub ◌-ℤ◌ : ℤ → ℤ → ℤ
a -ℤ b = sub_ℕ (pos_part a + neg_part b) (neg_part a + pos_part b)

abbrev pub ◌≤ℤ◌ : ℤ → ℤ → Type 0
a ≤ℤ b = pos_part a + neg_part b ≤ pos_part b + neg_part a

abbrev pub ◌<ℤ◌ : ℤ → ℤ → Type 0
a <ℤ b = pos_part a + neg_part b < pos_part b + neg_part a

abbrev pub ltb_ℤ : ℤ → ℤ → Bool
ltb_ℤ a b = ltb (pos_part a + neg_part b) (pos_part b + neg_part a)

abbrev pub leb_ℤ : ℤ → ℤ → Bool
leb_ℤ a b = leb (pos_part a + neg_part b) (pos_part b + neg_part a)

abbrev pub eqb_ℤ : ℤ → ℤ → Bool
eqb_ℤ a b = (pos_part a + neg_part b) == (pos_part b + neg_part a)

pub eqb_ℤ_iff : (a b : ℤ) → (eqb_ℤ a b ≡ true) ↔ (a ≡ b)
eqb_ℤ_iff a b = ground arith

-- The bit pattern of an integer in a word with `m` values, and the number that a pattern stands
-- for in a signed word with `h` nonnegative values of `m`.
abbrev pub pattern_of : ℕ → ℤ → ℕ
pattern_of m (pos n) = n % m
pattern_of m (negsuc n) = m - 1 - n % m

abbrev pub signed_of : ℕ → ℕ → ℕ → ℤ
signed_of m h x = if ltb x h then pos x else negsuc (m - x - 1)

-- Conversions to int32, int64 and uint64.
abbrev pub int32 : ℤ → ℤ
int32 z = signed_of (2 ^ 32) (2 ^ 31) (pattern_of (2 ^ 32) z)

abbrev pub int64 : ℤ → ℤ
int64 z = signed_of (2 ^ 64) (2 ^ 63) (pattern_of (2 ^ 64) z)

abbrev pub uint64 : ℤ → ℕ
uint64 z = pattern_of (2 ^ 64) z

-- int64 of a uint64.
abbrev pub int64_of_uint64 : ℕ → ℤ
int64_of_uint64 x = signed_of (2 ^ 64) (2 ^ 63) (x % 2 ^ 64)

abbrev pub IsInt32 : ℤ → Type 0
IsInt32 z = (negsuc (2 ^ 31 - 1) ≤ℤ z) × (z <ℤ pos (2 ^ 31))

abbrev pub IsInt64 : ℤ → Type 0
IsInt64 z = (negsuc (2 ^ 63 - 1) ≤ℤ z) × (z <ℤ pos (2 ^ 63))

pub int32_of_IsInt32 : (z : ℤ) → IsInt32 z → int32 z ≡ z
int32_of_IsInt32 (pos n) h = ground arith
int32_of_IsInt32 (negsuc n) h = ground arith

pub int32-IsInt32 : (z : ℤ) → IsInt32 (int32 z)
int32-IsInt32 (pos n) = ground arith
int32-IsInt32 (negsuc n) = ground arith

pub int64_of_IsInt64 : (z : ℤ) → IsInt64 z → int64 z ≡ z
int64_of_IsInt64 (pos n) h = ground arith
int64_of_IsInt64 (negsuc n) h = ground arith

pub int64_of_uint64-IsInt64 : (x : ℕ) → IsInt64 (int64_of_uint64 x)
int64_of_uint64-IsInt64 x = ground arith

-- A job id survives the conversion to uint64 and back.
pub int64_of_uint64-uint64 : (z : ℤ) → IsInt64 z → int64_of_uint64 (uint64 z) ≡ z
int64_of_uint64-uint64 (pos n) h = ground arith
int64_of_uint64-uint64 (negsuc n) h = ground arith

pub leb_ℤ_iff : (a b : ℤ) → (leb_ℤ a b ≡ true) ↔ (a ≤ℤ b)
leb_ℤ_iff a b = ground arith
