-- ===== src/Prelude/Int.antt =====
-- Signed integers over the native numbers, under the library's names, and Go's `int64`.
use Prim.Native.Nat.{ℕ, suc, ◌+◌, ◌-◌, ◌%◌, ◌≤◌, ◌<◌}
use mathlib.Core.Path.{◌≡◌}
use mathlib.Core.Bool.{Bool}
use native.Mathlib.Omega.{arith}
use code_runner_backend.Prelude.Tests.{ltb, leb, if◌then◌else◌}

-- `negsuc n` is -(n + 1).
pub data ℤ : Type 0 where
  pos : ℕ → ℤ
  negsuc : ℕ → ℤ

abbrev pub pos_part : ℤ → ℕ
pos_part (pos n) = n
pos_part (negsuc n) = 0

abbrev pub neg_part : ℤ → ℕ
neg_part (pos n) = 0
neg_part (negsuc n) = suc n

-- a - b, as an integer.
abbrev pub sub_ℕ : ℕ → ℕ → ℤ
sub_ℕ a b = if leb b a then pos (a - b) else negsuc (b - a - 1)

infixl 65 ◌+ℤ◌ ◌-ℤ◌
unfoldable pub ◌+ℤ◌ : ℤ → ℤ → ℤ
a +ℤ b = sub_ℕ (pos_part a + pos_part b) (neg_part a + neg_part b)

unfoldable pub ◌-ℤ◌ : ℤ → ℤ → ℤ
a -ℤ b = sub_ℕ (pos_part a + neg_part b) (neg_part a + pos_part b)

abbrev pub ltb_ℤ : ℤ → ℤ → Bool
ltb_ℤ a b = ltb (pos_part a + neg_part b) (pos_part b + neg_part a)

infix 50 ◌≤ℤ◌
abbrev pub ◌≤ℤ◌ : ℤ → ℤ → Type 0
a ≤ℤ b = pos_part a + neg_part b ≤ pos_part b + neg_part a

abbrev pub half_range : ℕ
half_range = 0x8000_0000_0000_0000

abbrev pub full_range : ℕ
full_range = 0x1_0000_0000_0000_0000

-- The 64 bits that stand for an integer, and the integer that 64 bits stand for.
unfoldable pub bits64 : ℤ → ℕ
bits64 (pos n) = n % full_range
bits64 (negsuc n) = full_range - 1 - n % full_range

unfoldable pub signed64 : ℕ → ℤ
signed64 r = if ltb r half_range then pos r else negsuc (full_range - 1 - r)

-- What an `int64` operation keeps of the exact result.
unfoldable pub wrap64 : ℤ → ℤ
unfolding bits64 signed64
wrap64 a = signed64 (bits64 a)

abbrev pub InRange64 : ℤ → Type 0
InRange64 a = (pos_part a < half_range) × (neg_part a ≤ half_range)

-- A result in range is exact.
pub wrap64-InRange64 : (a : ℤ) → InRange64 a → wrap64 a ≡ a
unfolding wrap64
wrap64-InRange64 (pos n) h = ground arith
wrap64-InRange64 (negsuc n) h = ground arith

-- Every result is in range.
pub InRange64-wrap64 : (a : ℤ) → InRange64 (wrap64 a)
unfolding wrap64
InRange64-wrap64 (pos n) = ground arith
InRange64-wrap64 (negsuc n) = ground arith

-- Wrapping early or late makes no difference to a difference of one.
pub wrap64-down_up : (a : ℤ) → InRange64 a → wrap64 (wrap64 (a +ℤ pos 1) -ℤ pos 1) ≡ a
unfolding wrap64 ◌+ℤ◌ ◌-ℤ◌
wrap64-down_up (pos n) h = ground arith
wrap64-down_up (negsuc n) h = ground arith
