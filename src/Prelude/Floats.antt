-- ===== src/Prelude/Floats.antt =====
-- `float64` as a parameter.
use Prim.Native.Nat.{ℕ, ◌*◌}
use mathlib.Core.Bool.{Bool}
use stds_backend_go.Prelude.Tests.{eqb}
use stds_backend_go.Prelude.Int.{ℤ, pos, negsuc}

-- `float64`, as far as the program uses it: `float64(n)`, `a * b`, `int(math.Round(a))`, `a <= 0`.
pub record Floats : Type 1 where
  pub Float64 : Type 0
  pub of_int : ℤ → Float64
  pub times : Float64 → Float64 → Float64
  pub round : Float64 → ℤ
  pub le_zero : Float64 → Bool

abbrev of_whole : ℤ → ℕ
of_whole (pos n) = n
of_whole (negsuc n) = 0

-- Whole numbers in place of floats.
abbrev pub whole : Floats
whole = record {
  Float64 = ℕ;
  of_int = of_whole;
  times = λ a b. a * b;
  round = pos;
  le_zero = λ a. eqb a 0;
}
