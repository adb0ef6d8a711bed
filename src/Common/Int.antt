-- ===== src/Common/Int.antt =====
-- Go's signed integers, where the source can make one negative.
use Prim.Native.Nat.{ℕ, zero, suc, ◌+◌, ◌-◌, ◌^◌}
use mathlib.Core.Bool.{Bool}
use mathlib.Core.Option.{Option, none, some}
use platform_kit.Common.Tests.{ltb, leb}

-- `negsuc n` is -(n + 1).
pub data ℤ : Type 0 where
  pos : ℕ → ℤ
  negsuc : ℕ → ℤ

abbrev pub pos_part : ℤ → ℕ
pos_part (pos n) = n
pos_part (negsuc n) = 0

abbrev pub neg_part : ℤ → ℕ
neg_part (pos n) = 0
neg_part (negsuc n) = suc n

abbrev pub leb_ℤ : ℤ → ℤ → Bool
leb_ℤ a b = leb (pos_part a + neg_part b) (pos_part b + neg_part a)

abbrev pub ltb_ℤ : ℤ → ℤ → Bool
ltb_ℤ a b = ltb (pos_part a + neg_part b) (pos_part b + neg_part a)

-- The zero value of an unset field.
abbrev pub is_zero : ℤ → Bool
is_zero (pos zero) = Bool.true
is_zero (pos (suc n)) = Bool.false
is_zero (negsuc n) = Bool.false

-- time.Since(t) at the time `now`: none is the zero time, from which the difference saturates.
abbrev pub since : ℕ → Option ℕ → ℕ
since now none = 2 ^ 63 - 1
since now (some t) = now - t
