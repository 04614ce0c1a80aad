-- ===== src/Common/Floats.antt =====
-- float64, of which the sources use a few operations: a parameter of the models that need it. No
-- law is assumed of it.
use Prim.Native.Nat.{ℕ}
use mathlib.Core.Bool.{Bool}

pub record Floats : Type 1 where
  pub Float : Type 0
  -- float64(n)
  pub of_int : ℕ → Float
  -- the literal n / d, as 0.35 = 35 / 100
  pub literal : ℕ → ℕ → Float
  pub plus : Float → Float → Float
  pub divide : Float → Float → Float
  -- a < b and a >= b, of which a NaN satisfies neither
  pub less : Float → Float → Bool
  pub at_least : Float → Float → Bool
  -- int(x) of a float that is not negative
  pub truncate : Float → ℕ
