-- ===== src/Common/Integers.antt =====
-- Signed integers of Go.
use Prim.Native.Nat.{ℕ, suc}
use Prim.Native.String.{String}
use mathlib.Core.Path.{◌≡◌, ap}
use mathlib.Core.Bool.{Bool, true, false, false≢true}
use native.Mathlib.Omega.{arith}
use jupyter_operator.Common.Tests.{concat, nat_eq}
use jupyter_operator.Common.Decimal.{decimal}

-- An int32 or an int64, as an integer: the code copies, compares and prints them and never computes
-- with them, so that no wrap-around is written out, and what is proved of every integer holds of those
-- in the range.
pub data ℤ : Type 0 where
  pos : ℕ → ℤ
  negsuc : ℕ → ℤ

abbrev pub int_eq : ℤ → ℤ → Bool
int_eq (pos a) (pos b) = nat_eq a b
int_eq (negsuc a) (negsuc b) = nat_eq a b
int_eq (pos a) (negsuc b) = false
int_eq (negsuc a) (pos b) = false

pub int_eq-true : (a b : ℤ) → int_eq a b ≡ true → a ≡ b
int_eq-true (pos a) (pos b) h = ap pos (ground arith)
int_eq-true (negsuc a) (negsuc b) h = ap negsuc (ground arith)
int_eq-true (pos a) (negsuc b) h = absurd (false≢true h)
int_eq-true (negsuc a) (pos b) h = absurd (false≢true h)

-- `%d` of fmt.
abbrev pub int_decimal : ℤ → String
int_decimal (pos n) = decimal n
int_decimal (negsuc n) = concat "-" (decimal (suc n))
