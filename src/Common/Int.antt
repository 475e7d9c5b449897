-- ===== src/Common/Int.antt =====
-- Integers over the native numbers.
use Prim.Native.Nat.{ℕ, suc, ◌+◌, ◌-◌, ◌%◌, ◌^◌}
use mathlib.Core.Bool.{Bool, true, false}
use jules_solidity_pppascal.Common.Tests.{ltb, leb, if◌then◌else◌}

-- `negsuc n` is -(n + 1).
pub data ℤ : Type 0 where
  pos : ℕ → ℤ
  negsuc : ℕ → ℤ

abbrev pub pos_part : ℤ → ℕ
pos_part (pos n) = n
pos_part (negsuc n) = 0

abbrev pub neg_part : ℤ → ℕ
neg_part (pos n) = 0
neg_part (negsuc n) = suc n

abbrev pub sub_ℕ : ℕ → ℕ → ℤ
sub_ℕ a b = if leb b a then pos (a - b) else negsuc (b - a - 1)

infixl 65 ◌+ℤ◌
unfoldable pub ◌+ℤ◌ : ℤ → ℤ → ℤ
a +ℤ b = sub_ℕ (pos_part a + pos_part b) (neg_part a + neg_part b)

abbrev pub is_negative : ℤ → Bool
is_negative (pos n) = false
is_negative (negsuc n) = true

-- static_cast<int> of an unsigned number: its low 32 bits, read in two's complement.
unfoldable pub to_int : ℕ → ℤ
to_int n = if ltb (n % 2 ^ 32) (2 ^ 31) then pos (n % 2 ^ 32) else sub_ℕ (n % 2 ^ 32) (2 ^ 32)
