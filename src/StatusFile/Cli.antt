-- ===== src/StatusFile/Cli.antt =====
-- The option of the script, and the whole command.
use puppet_stg_environment.Common.{ℕ, ◌≡◌, refl, ◌↔◌, Option, some, List, [], ◌∷◌, arith}
use puppet_stg_environment.Common.Text.{Text, codes}
use puppet_stg_environment.Common.Optparse.{
  takes_value, informs, Opt, Parsed, accepted, rejected, helped, parse_args,
}
use puppet_stg_environment.Common.Optparse.Items.{store_all}
use puppet_stg_environment.StatusFile.{StatusFile, Ending, exit_code, run}
use puppet_stg_environment.StatusFile.Relay.{RelaysOk, run_ok_iff}

pub data Dest : Type 0 where
  to_age nowhere : Dest

unfoldable pub options_known : List (Opt Dest)
options_known =
    record { letters = 104 ∷ []; long = codes "--help"; kind = informs; dest = nowhere }
    ∷ record { letters = 97 ∷ []; long = codes "--age"; kind = takes_value; dest = to_age }
    ∷ []

abbrev pub default_age : Text
default_age = codes "26h"

abbrev pub store : Dest → Option Text → Text → Text
store to_age (some age) old = age
store _ _ old = old

-- How the script ends: by the usage error of the parser, which leaves with 2, by `--help`, or as
-- behind the parser.
pub data CommandEnding : Type 0 where
  parser_error informed : CommandEnding
  ended : Ending → CommandEnding

abbrev pub command_code : CommandEnding → ℕ
command_code parser_error = 2
command_code informed = 0
command_code (ended e) = exit_code e

module _ (file : Text → StatusFile) (now : ℕ) where
  abbrev pub run_parsed : Parsed Dest → CommandEnding
  run_parsed rejected = parser_error
  run_parsed (helped settings) = informed
  run_parsed (accepted settings args) =
      ended (run file now (store_all store settings default_age) args)

  unfoldable pub command : List Text → CommandEnding
  command argv = run_parsed (parse_args options_known argv)

  -- The parser gives help, or accepts a file and an age, the last one given or the default, with which
  -- the script relays an OK.
  abbrev pub AsksForOk : Parsed Dest → Type 0
  AsksForOk rejected = ⊥
  AsksForOk (helped settings) = Unit
  AsksForOk (accepted settings args) = RelaysOk file now (store_all store settings default_age) args

  two-not_zero : ◌≡◌ {A = ℕ} 2 0 → ⊥
  two-not_zero h = omega arith

  parsed_ok_iff : (p : Parsed Dest) → (command_code (run_parsed p) ≡ 0) ↔ AsksForOk p
  parsed_ok_iff rejected = (two-not_zero, λ b. absurd b)
  parsed_ok_iff (helped settings) = (λ _. tt, λ _. refl)
  parsed_ok_iff (accepted settings args) =
      run_ok_iff file now (store_all store settings default_age) args

  -- For every command line the exit status is 0 exactly if it asks for help, or names one file that is
  -- there, is no older than the last age given, says OK, and has lines to relay.
  pub command_ok_iff :
      (argv : List Text)
      → (command_code (command argv) ≡ 0) ↔ AsksForOk (parse_args options_known argv)
  unfolding command
  command_ok_iff argv = parsed_ok_iff (parse_args options_known argv)
