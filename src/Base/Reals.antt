-- ===== src/Base/Reals.antt =====
-- Numbers of type float and double, which the programs only print: a parameter.
use bitfs.Base.{ℕ}
use bitfs.Base.Int.{ℤ}

-- The conversion of an integer, products and quotients with an integer, and quotients.
pub record Reals : Type 1 where
  pub Real : Type 0
  pub of_int : ℤ → Real
  pub times : Real → ℕ → Real
  pub over : Real → ℕ → Real
  pub quotient : Real → Real → Real
