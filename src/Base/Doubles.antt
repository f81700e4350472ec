-- ===== src/Base/Doubles.antt =====
-- JavaScript's numbers where fractions matter.
use Prim.Native.Nat.{ℕ}
use mathlib.Core.Bool.{Bool}
use siwa.Base.Int.{ℤ}
use siwa.Base.Str.{Str}

-- A double, as its 64 bits.
abbrev pub Double : Type 0
Double = ℕ

-- The arithmetic of doubles, which rounds: it is the language's, so a parameter.
pub record Doubles : Type 0 where
  -- Number(z) of a bigint
  pub number : ℤ → Double
  -- 10 ** n
  pub power_of_10 : ℕ → Double
  -- a / b, a < b, and a in a template literal
  pub divide : Double → Double → Double
  pub less : Double → Double → Bool
  pub show : Double → Str
