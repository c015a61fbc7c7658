-- ===== src/Common/Text/Search.antt =====
-- Python's `in` on texts.
use puppet_stg_environment.Common.Tests.{eqb}
use puppet_stg_environment.Common.Text.{Text}
use mathlib.Core.Bool.{Bool, true, false, ◌&&◌, ◌||◌}
use mathlib.Core.List.{[], ◌∷◌}

abbrev pub is_prefix : Text → Text → Bool
is_prefix [] s = true
is_prefix (c ∷ p) [] = false
is_prefix (c ∷ p) (d ∷ s) = eqb c d && is_prefix p s

-- `needle in s`
unfoldable pub is_infix : Text → Text → Bool
is_infix needle [] = is_prefix needle []
is_infix needle (c ∷ s) = is_prefix needle (c ∷ s) || is_infix needle s
