-- ===== src/AwsRds/Cli.antt =====
-- The options of `main`, and the whole command.
pub mod Healthy
pub mod RoundTrip
mod Tests
use puppet_stg_environment.Common.{ℕ, Option, none, some, Bool, true, false, List, [], ◌∷◌, is_nil}
use puppet_stg_environment.Common.Text.{Text, codes}
use puppet_stg_environment.Common.Optparse.{
  Kind, takes_value, sets_flag, informs, Opt, Parsed, accepted, rejected, helped, parse_args,
}
use puppet_stg_environment.Common.Optparse.Items.{store_all}
use puppet_stg_environment.AwsRds.Floats.{Floats}
use puppet_stg_environment.AwsRds.Stats.{Aws}
use puppet_stg_environment.AwsRds.Main.{Options, Ending, main, exit_code}

-- The `dest` of the options; the last is that of `--help`, which stores nothing.
pub data Dest : Type 0 where
  to_db_list to_ident to_info to_metric to_warn to_crit to_unit nowhere : Dest

abbrev pub option : ℕ → Text → Kind → Dest → Opt Dest
option letter long kind dest = record {
  letters = letter ∷ [];
  long = long;
  kind = kind;
  dest = dest;
}

unfoldable pub options_known : List (Opt Dest)
options_known =
    option 104 (codes "--help") informs nowhere
    ∷ option 108 (codes "--list") sets_flag to_db_list
    ∷ option 105 (codes "--ident") takes_value to_ident
    ∷ option 112 (codes "--print") sets_flag to_info
    ∷ option 109 (codes "--metric") takes_value to_metric
    ∷ option 119 (codes "--warn") takes_value to_warn
    ∷ option 99 (codes "--crit") takes_value to_crit
    ∷ option 117 (codes "--unit") takes_value to_unit
    ∷ []

-- `bare` is that of the arguments.
abbrev pub defaults : Bool → Options
defaults bare = record {
  bare = bare;
  db_list = false;
  ident = none;
  info = false;
  metric = none;
  warn = none;
  crit = none;
  unit = codes "percent";
}

abbrev pub text_or : Text → Option Text → Text
text_or old none = old
text_or old (some t) = t

unfoldable pub store : Dest → Option Text → Options → Options
store to_db_list v o = record o { db_list = true }
store to_ident v o = record o { ident = v }
store to_info v o = record o { info = true }
store to_metric v o = record o { metric = v }
store to_warn v o = record o { warn = v }
store to_crit v o = record o { crit = v }
store to_unit v o = record o { unit = text_or o.unit v }
store nowhere v o = o

-- How the program ends: by the usage error of the parser, by `--help`, or as `main` does. Arguments
-- that are no options count only for there being any.
pub data CommandEnding : Type 0 where
  parser_error informed : CommandEnding
  ended : Ending → CommandEnding

-- The exit status; `parser.error` leaves with 2.
abbrev pub command_code : CommandEnding → ℕ
command_code parser_error = 2
command_code informed = 0
command_code (ended e) = exit_code e

module _ {F : Type 0} (fl : Floats F) (aws : Aws F) where
  abbrev pub run_parsed : Bool → Parsed Dest → CommandEnding
  run_parsed bare rejected = parser_error
  run_parsed bare (helped settings) = informed
  run_parsed bare (accepted settings args) =
      ended (main fl aws (store_all store settings (defaults bare)))

  unfoldable pub command : List Text → CommandEnding
  command argv = run_parsed (is_nil argv) (parse_args options_known argv)
