-- ===== src/Prelude/Amounts.antt =====
-- `decimal.Decimal`, the finite values: a sign, the digits as a number, and the exponent.
use Prim.Native.Nat.{ℕ, suc, ◌+◌, ◌*◌, ◌^◌}
use mathlib.Core.Bool.{Bool, true, false}
use painfree_ebics_middlewar.Prelude.Tests.{ltb}
use painfree_ebics_middlewar.Prelude.Int.{ℤ, pos, negsuc}

pub record Decimal : Type 0 where
  pub negative : Bool
  pub digits : ℕ
  pub exponent : ℤ

abbrev pub pos_part : ℤ → ℕ
pos_part (pos n) = n
pos_part (negsuc n) = 0

abbrev pub neg_part : ℤ → ℕ
neg_part (pos n) = 0
neg_part (negsuc n) = suc n

-- The digits of `a` at an exponent that `a` and `b` share.
unfoldable pub scaled : Decimal → Decimal → ℕ
scaled a b = a.digits * 10 ^ (pos_part a.exponent + neg_part b.exponent)

abbrev less : Bool → Bool → ℕ → ℕ → Bool
less false false x y = ltb x y
less false true x y = false
less true false x y = ltb 0 (x + y)
less true true x y = ltb y x

-- `a < b`; a zero has no sign.
unfoldable pub lt_decimal : Decimal → Decimal → Bool
lt_decimal a b = less a.negative b.negative (scaled a b) (scaled b a)

abbrev pub zero_decimal : Decimal
zero_decimal = record { negative = false; digits = 0; exponent = pos 0 }
