-- ===== src/Base/Number.antt =====
-- A JavaScript number where the source tests whether it is an integer: the integers, and
-- everything else (fractions, NaN and the infinities), of which the code reads nothing more.
use Prim.Native.Nat.{ℕ}
use mathlib.Core.Bool.{Bool, false}
use hestiva_os.Base.Tests.{leb}

pub data Number : Type 0 where
  nat : ℕ → Number
  -- `minus n` is -(n + 1)
  minus : ℕ → Number
  non_integer : Number

-- `Number.isInteger(value) && value >= least`, at a least value that is not negative.
abbrev pub is_integer_from : ℕ → Number → Bool
is_integer_from least (nat n) = leb least n
is_integer_from least (minus _) = false
is_integer_from least non_integer = false
