-- ===== src/Target/Fractions.antt =====
-- A concrete model of `f64`.
use tuletorn.Common.{ℕ, ◌+◌, ◌*◌, ◌/◌}
use tuletorn.Common.Int.{pos}
use tuletorn.Target.Weights.{Float}

-- Fractions, rounded to the nearest integer, serve as a model of `f64`.
abbrev pub fractions : Float
fractions = record {
  F64 = ℕ × ℕ;
  of_ℕ = λ n. (n, 1);
  one = (1, 1);
  mul = λ a b. (a.0 * b.0, a.1 * b.1);
  div = λ a b. (a.0 * b.1, a.1 * b.0);
  round = λ a. pos ((2 * a.0 + a.1) / (2 * a.1));
}
