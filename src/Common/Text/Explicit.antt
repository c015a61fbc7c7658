-- ===== src/Common/Text/Explicit.antt =====
-- An argument `name=value` of a command line.
use puppet_stg_environment.Common.Tests.{eqb, if◌then◌else◌}
use puppet_stg_environment.Common.Text.{Text}
use Prim.Native.Nat.{ℕ}
use mathlib.Core.List.{[], ◌∷◌}

-- What is left of an argument behind its first `=`.
pub data Explicit : Type 0 where
  bare_name : Text → Explicit
  with_value : Text → Text → Explicit

abbrev put : ℕ → Explicit → Explicit
put c (bare_name s) = bare_name (c ∷ s)
put c (with_value s v) = with_value (c ∷ s) v

unfoldable pub split_value : Text → Explicit
split_value [] = bare_name []
split_value (c ∷ s) = if eqb c 61 then with_value [] s else put c (split_value s)
