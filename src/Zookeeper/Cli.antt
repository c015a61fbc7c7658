-- ===== src/Zookeeper/Cli.antt =====
-- `parse_cli` with the `register_options` of the handlers, and the whole command.
pub mod RoundTrip
pub mod Verdict
mod Tests
use puppet_stg_environment.Common.{ℕ, Option, none, some, Bool, true, false, List, [], ◌∷◌, ◌++◌}
use puppet_stg_environment.Common.Text.{Text, codes}
use puppet_stg_environment.Common.Optparse.{
  Kind, takes_value, sets_flag, informs, Opt, Parsed, accepted, rejected, helped, parse_args,
}
use puppet_stg_environment.Common.Optparse.Items.{store_all}
use puppet_stg_environment.Zookeeper.Options.{Options}
use puppet_stg_environment.Zookeeper.Cluster.{Network}
use puppet_stg_environment.Zookeeper.Main.{Ended, main}

-- The `dest` of the options; the last is that of `--help` and `--version`, which store nothing.
pub data Dest : Type 0 where
  to_servers to_output to_key to_warning to_critical to_leader to_gmetric nowhere : Dest

abbrev pub stored : ℕ → Text → Dest → Opt Dest
stored letter long dest = record {
  letters = letter ∷ [];
  long = long;
  kind = takes_value;
  dest = dest;
}

-- What the handlers register.
abbrev pub nagios_options : List (Opt Dest)
nagios_options =
    stored 119 (codes "--warning") to_warning ∷ stored 99 (codes "--critical") to_critical ∷ []

abbrev pub cacti_options : List (Opt Dest)
cacti_options =
    record { letters = 108 ∷ []; long = codes "--leader"; kind = sets_flag; dest = to_leader } ∷ []

abbrev pub ganglia_options : List (Opt Dest)
ganglia_options = stored 103 (codes "--gmetric") to_gmetric ∷ []

-- `--version` is there because the parser is given one; it has no letter.
unfoldable pub options_known : List (Opt Dest)
options_known =
    record { letters = []; long = codes "--version"; kind = informs; dest = nowhere }
    ∷ record { letters = 104 ∷ []; long = codes "--help"; kind = informs; dest = nowhere }
    ∷ stored 115 (codes "--servers") to_servers
    ∷ stored 111 (codes "--output") to_output
    ∷ stored 107 (codes "--key") to_key
    ∷ (nagios_options ++ (cacti_options ++ ganglia_options))

abbrev pub defaults : Options
defaults = record {
  servers = none;
  output = none;
  key = none;
  warning = none;
  critical = none;
  leader = false;
  gmetric = codes "/usr/bin/gmetric";
}

abbrev pub text_or : Text → Option Text → Text
text_or old none = old
text_or old (some t) = t

unfoldable pub store : Dest → Option Text → Options → Options
store to_servers v o = record o { servers = v }
store to_output v o = record o { output = v }
store to_key v o = record o { key = v }
store to_warning v o = record o { warning = v }
store to_critical v o = record o { critical = v }
store to_leader v o = record o { leader = true }
store to_gmetric v o = record o { gmetric = text_or o.gmetric v }
store nowhere v o = o

-- How the program ends: by the usage error of the parser, by `--help` or `--version`, or as `main`
-- does. Arguments that are no options are ignored.
pub data Ending : Type 0 where
  usage_error informed : Ending
  ended : Ended → Ending

abbrev pub run_parsed : (Text → Bool) → Network → Parsed Dest → Ending
run_parsed can_run net rejected = usage_error
run_parsed can_run net (helped settings) = informed
run_parsed can_run net (accepted settings args) =
    ended (main can_run net (store_all store settings defaults))

unfoldable pub command : (Text → Bool) → Network → List Text → Ending
command can_run net argv = run_parsed can_run net (parse_args options_known argv)
