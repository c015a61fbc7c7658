-- ===== src/AwsRds/Floats.antt =====
-- The floating-point numbers that the plugin computes with. Their arithmetic is a parameter: a record
-- of the operations.
use puppet_stg_environment.Common.{ℕ, Bool, Option}
use puppet_stg_environment.Common.Text.{Text}

-- `percent a b` is `a / b * 100`, and `none` where `b` is zero.
pub record Floats (F : Type 0) : Type 0 where
  pub parse : Text → Option F
  pub of_nat : ℕ → F
  pub literal : Text → F
  pub le : F → F → Bool
  pub lt : F → F → Bool
  pub is_zero : F → Bool
  pub round2 : F → F
  pub gibibytes : F → F
  pub percent : F → F → Option F
  pub show : F → Text
  pub fixed0 : F → Text
  pub fixed2 : F → Text
