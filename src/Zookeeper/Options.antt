-- ===== src/Zookeeper/Options.antt =====
-- The command's options, and what a handler does: its exit status, its prints and the programs it
-- calls.
use puppet_stg_environment.Common.{ℕ, Option, none, some, Bool, List, [], ◌∷◌}
use puppet_stg_environment.Common.Text.{Text}

pub record Options : Type 0 where
  pub servers : Option Text
  pub output : Option Text
  pub key : Option Text
  pub warning : Option Text
  pub critical : Option Text
  pub leader : Bool
  pub gmetric : Text

-- `print text`, and `print text,` with no newline behind it.
pub data Print : Type 0 where
  line : Text → Print
  item : Text → Print

-- `status` is what the handler returns: `none` is Python's `None`.
pub record Outcome : Type 0 where
  pub status : Option ℕ
  pub out : List Print
  pub err : List Text
  pub calls : List (List Text)

abbrev pub fails : ℕ → Text → Outcome
fails n message = record { status = some n; out = []; err = message ∷ []; calls = [] }

abbrev pub prints : ℕ → Text → Outcome
prints n text = record { status = some n; out = line text ∷ []; err = []; calls = [] }

-- `sys.exit(status)`
abbrev pub exit_code : Option ℕ → ℕ
exit_code none = 0
exit_code (some n) = n
