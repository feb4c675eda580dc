-- ===== src/Base/Float.antt =====
-- float64: its values and what the code does with them are parameters.
use Prim.Native.Nat.{ℕ}
use Prim.Native.String.{String}
use ghost_ship.Base.Int.{ℤ}

-- The conversion of an int, the operators, and the verb `%.*f` with its precision.
pub record Float64 (W : Type 0) : Type 0 where
  pub of_int : ℤ → W
  pub over : W → W → W
  pub times : W → W → W
  pub fixed : ℕ → W → String
