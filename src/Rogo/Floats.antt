-- ===== src/Rogo/Floats.antt =====
-- The float arithmetic that src/host/rogo uses, as operations on the `repr` of a float: a parameter
-- of the code that computes with floats. A division by zero and a `round` of what is not finite
-- raise.
use radio_robot_lib.Prelude.{Bool, String}
use radio_robot_lib.Prelude.Int.{ℤ}
use radio_robot_lib.Python.Error.{Result}

pub record Floats : Type 0 where
  pub of_int : ℤ → String
  pub add : String → String → String
  pub sub : String → String → String
  pub mul : String → String → String
  pub divide : String → String → Result String
  pub abs : String → String
  pub radians : String → String
  pub hypot : ℤ → ℤ → String
  -- `<=` and `<`
  pub le : String → String → Bool
  pub lt : String → String → Bool
  pub eq : String → String → Bool
  pub round : String → Result ℤ
