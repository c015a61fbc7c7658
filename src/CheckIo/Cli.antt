-- ===== src/CheckIo/Cli.antt =====
-- The command line of the plugin: the parser that `main` builds, the namespace that it fills, and
-- `main` from its arguments to the end.
pub mod Healthy
pub mod Items
pub mod RoundTrip
mod Tests
use puppet_stg_environment.Common.{ℕ, Option, none, some, Bool, true, false, List, [], ◌∷◌}
use puppet_stg_environment.Common.Int.{ℤ, pos}
use puppet_stg_environment.Common.Text.{Text, codes}
use puppet_stg_environment.Common.Argparse.{
  Kind, takes_one, takes_many, sets_flag, informs, Action, Table, Event, store, inform, usage_error,
  value_error, index_error, parse_events,
}
use puppet_stg_environment.CheckIo.Run.{Exn, Result, ok, raises}
use puppet_stg_environment.CheckIo.Run as Run
use puppet_stg_environment.CheckIo.Arguments.{Args, validate}
use puppet_stg_environment.CheckIo.Main.{
  Surroundings, Ending, handle, run, given_devices, validate_devices, exit_code,
}
use puppet_stg_environment.CheckIo.Main as Main

-- The `dest` of the options: the numbers, and the others; the last is that of `--help` and `--version`.
pub data Number : Type 0 where
  to_timeout to_averaging_period to_sread_warn to_sread_crit : Number
  to_swrite_warn to_swrite_crit to_util_warn to_util_crit : Number

pub data Dest : Type 0 where
  number : Number → Dest
  to_verbose to_devices nowhere : Dest

abbrev numeric : Number → Action Dest
numeric n = record { kind = takes_one; dest = number n }

abbrev verbose_action : Action Dest
verbose_action = record { kind = sets_flag; dest = to_verbose }

abbrev help_action : Action Dest
help_action = record { kind = informs; dest = nowhere }

-- The parser has `-h` and `--help` from the start.
unfoldable pub parser : Table Dest
parser =
    (codes "-h", help_action)
    ∷ (codes "--help", help_action)
    ∷ (codes "--version", help_action)
    ∷ (codes "-v", verbose_action)
    ∷ (codes "--verbose", verbose_action)
    ∷ (codes "-t", numeric to_timeout)
    ∷ (codes "--timeout", numeric to_timeout)
    ∷ (codes "-a", numeric to_averaging_period)
    ∷ (codes "--averaging-period", numeric to_averaging_period)
    ∷ (codes "--sread-warn", numeric to_sread_warn)
    ∷ (codes "--sread-crit", numeric to_sread_crit)
    ∷ (codes "--swrite-warn", numeric to_swrite_warn)
    ∷ (codes "--swrite-crit", numeric to_swrite_crit)
    ∷ (codes "--util-warn", numeric to_util_warn)
    ∷ (codes "--util-crit", numeric to_util_crit)
    ∷ (codes "--devices", record { kind = takes_many; dest = to_devices })
    ∷ []

-- The bounds of `IntRangeValidator`.
abbrev pub lower_bound : Number → Option ℤ
lower_bound to_util_crit = some (pos 1)
lower_bound _ = some (pos 0)

abbrev pub upper_bound : Number → Option ℤ
upper_bound to_util_warn = some (pos 99)
upper_bound to_util_crit = some (pos 100)
upper_bound _ = none

pub record Namespace : Type 0 where
  pub verbose : Bool
  pub args : Args
  pub devices : Option (List Text)

abbrev pub default_args : Args
default_args = record {
  timeout = pos 6;
  averaging_period = pos 2;
  sread_warn = none;
  sread_crit = none;
  swrite_warn = none;
  swrite_crit = none;
  util_warn = pos 80;
  util_crit = pos 90;
}

abbrev pub defaults : Namespace
defaults = record { verbose = false; args = default_args; devices = none }

unfoldable pub set_number : Number → ℤ → Args → Args
set_number to_timeout z a = record a { timeout = z }
set_number to_averaging_period z a = record a { averaging_period = z }
set_number to_sread_warn z a = record a { sread_warn = some z }
set_number to_sread_crit z a = record a { sread_crit = some z }
set_number to_swrite_warn z a = record a { swrite_warn = some z }
set_number to_swrite_crit z a = record a { swrite_crit = some z }
set_number to_util_warn z a = record a { util_warn = z }
set_number to_util_crit z a = record a { util_crit = z }

-- Where the parser stands: it goes on with the namespace, has met a usage error, has printed its help
-- or version, or has raised an exception.
pub data Parse : Type 0 where
  taken : Namespace → Parse
  refused told : Parse
  crashed : Exn → Parse

abbrev pub number_taken : Number → Namespace → Option ℤ → Parse
number_taken x n none = refused
number_taken x n (some z) = taken (record n { args = set_number x z n.args })

abbrev pub devices_taken : List Text → Namespace → Result Bool → Parse
devices_taken values n (raises e) = crashed e
devices_taken values n (ok false) = refused
devices_taken values n (ok true) = taken (record n { devices = some values })

-- An option for a number has one value.
unfoldable pub take_values : Surroundings → Dest → List Text → Namespace → Parse
take_values s (number x) (value ∷ []) n =
    number_taken x n (validate (lower_bound x) (upper_bound x) value)
take_values s (number x) values n = crashed Run.value_error
take_values s to_verbose values n = taken (record n { verbose = true })
take_values s to_devices values n = devices_taken values n (validate_devices s.listing values)
take_values s nowhere values n = taken n

abbrev pub take_event : Surroundings → Event Dest → Namespace → Parse
take_event s (store dest values) n = take_values s dest values n
take_event s inform n = told
take_event s usage_error n = refused
take_event s value_error n = crashed Run.value_error
take_event s index_error n = crashed Run.index_error

unfoldable pub take_all : Surroundings → List (Event Dest) → Namespace → Parse
take_all s [] n = taken n
take_all s (event ∷ events) n = elim (take_event s event n) [
  | taken next ↦ take_all s events next
  | refused ↦ refused
  | told ↦ told
  | crashed e ↦ crashed e
]

-- How the program ends: by the help or the version, or otherwise.
pub data Ended : Type 0 where
  informed : Ended
  ends : Ending → Ended

-- An exception of the parser is handled before `args.verbose` is set.
abbrev pub go_on : Surroundings → Parse → Ended
go_on s (taken n) = ends (run s n.args n.verbose (given_devices n.devices))
go_on s refused = ends Main.usage_error
go_on s told = informed
go_on s (crashed e) = ends (handle false e)

unfoldable pub command : Surroundings → List Text → Ended
command s argv = go_on s (take_all s (parse_events parser argv) defaults)

abbrev pub status : Ended → ℕ
status informed = 0
status (ends e) = exit_code e
