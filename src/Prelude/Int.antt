-- ===== src/Prelude/Int.antt =====
-- Signed 64-bit integers: `negsuc n` is -(n + 1).
use file_recovery_engine.Prelude.Checked.{u64_mod}
use file_recovery_engine.Prelude.Tests.{ltb, leb, if◌then◌else◌}
use Prim.Native.Nat.{ℕ, suc, ◌+◌, ◌-◌}
use mathlib.Core.Bool.{Bool}
use mathlib.Core.Option.{Option, none, some}

pub data ℤ : Type 0 where
  pos : ℕ → ℤ
  negsuc : ℕ → ℤ

abbrev pub pos_part : ℤ → ℕ
pos_part (pos n) = n
pos_part (negsuc n) = 0

abbrev pub neg_part : ℤ → ℕ
neg_part (pos n) = 0
neg_part (negsuc n) = suc n

-- a - b, as an integer.
abbrev pub sub_ℕ : ℕ → ℕ → ℤ
sub_ℕ a b = if leb b a then pos (a - b) else negsuc (b - a - 1)

infixl 65 ◌+ℤ◌
abbrev pub ◌+ℤ◌ : ℤ → ℤ → ℤ
a +ℤ b = sub_ℕ (pos_part a + pos_part b) (neg_part a + neg_part b)

abbrev pub i64_half : ℕ
i64_half = 9223372036854775808

abbrev pub fits_i64 : ℤ → Bool
fits_i64 (pos n) = ltb n i64_half
fits_i64 (negsuc n) = ltb n i64_half

-- `i64::checked_add`.
unfoldable pub checked_addℤ : ℤ → ℤ → Option ℤ
checked_addℤ a b = if fits_i64 (a +ℤ b) then some (a +ℤ b) else none

-- The `i64` with the bit pattern of a `u64`.
unfoldable pub as_i64 : ℕ → ℤ
as_i64 v = if ltb v i64_half then pos v else negsuc (u64_mod - 1 - v)

-- `a <= b` on `i64`.
abbrev pub lebℤ : ℤ → ℤ → Bool
lebℤ a b = leb (pos_part a + neg_part b) (pos_part b + neg_part a)
