-- ===== src/Base/Int.antt =====
-- Signed integers over the native numbers, and the `number` values that the code computes with.
use Prim.Native.Nat.{ℕ, suc, ◌+◌, ◌-◌}
use mathlib.Core.Bool.{Bool, true, false}
use siwa.Base.Tests.{ltb, leb, if◌then◌else◌}

-- `negsuc n` is -(n + 1).
pub data ℤ : Type 0 where
  pos : ℕ → ℤ
  negsuc : ℕ → ℤ

abbrev pub pos_part : ℤ → ℕ
pos_part (pos n) = n
pos_part (negsuc n) = 0

abbrev pub neg_part : ℤ → ℕ
neg_part (pos n) = 0
neg_part (negsuc n) = suc n

-- a - b, as an integer.
abbrev pub sub_ℕ : ℕ → ℕ → ℤ
sub_ℕ a b = if leb b a then pos (a - b) else negsuc (b - a - 1)

abbrev pub ltb_ℤ : ℤ → ℤ → Bool
ltb_ℤ a b = ltb (pos_part a + neg_part b) (pos_part b + neg_part a)

-- A JavaScript number that is an integer or NaN.
pub data Number : Type 0 where
  nan : Number
  int : ℤ → Number

-- `n || undefined` and `!n` read 0 and NaN as false.
abbrev pub truthy_number : Number → Bool
truthy_number nan = false
truthy_number (int (pos n)) = ltb 0 n
truthy_number (int (negsuc n)) = true
