-- ===== src/Prelude/Int.antt =====
-- Go's signed integers (`int`, `int64`, `time.Duration`) over the native numbers.
use Prim.Native.Nat.{ℕ, suc, ◌+◌, ◌-◌, ◌*◌, ◌%◌, ◌^◌}
use mathlib.Core.Bool.{Bool}
use grantseal.Prelude.Tests.{ltb, leb, ◌==◌, if◌then◌else◌}

-- `negsuc n` is -(n + 1).
pub data ℤ : Type 0 where
  pos : ℕ → ℤ
  negsuc : ℕ → ℤ

abbrev pub pos_part : ℤ → ℕ
pos_part (pos n) = n
pos_part (negsuc n) = 0

abbrev pub neg_part : ℤ → ℕ
neg_part (pos n) = 0
neg_part (negsuc n) = suc n

abbrev pub ltb_ℤ : ℤ → ℤ → Bool
ltb_ℤ a b = ltb (pos_part a + neg_part b) (pos_part b + neg_part a)

abbrev pub leb_ℤ : ℤ → ℤ → Bool
leb_ℤ a b = leb (pos_part a + neg_part b) (pos_part b + neg_part a)

abbrev pub eq_ℤ : ℤ → ℤ → Bool
eq_ℤ a b = (pos_part a + neg_part b) == (pos_part b + neg_part a)

-- The integer of 64 bits whose two's complement pattern is `m`.
abbrev pub of_pattern : ℕ → ℤ
of_pattern m = if ltb m (2 ^ 63) then pos m else negsuc (2 ^ 64 - m - 1)

-- The product of an int64 and a positive constant, with its wrap-around.
unfoldable pub scale_int64 : ℤ → ℕ → ℤ
scale_int64 (pos n) k = of_pattern ((n * k) % 2 ^ 64)
scale_int64 (negsuc n) k = of_pattern ((2 ^ 64 - (suc n * k) % 2 ^ 64) % 2 ^ 64)
