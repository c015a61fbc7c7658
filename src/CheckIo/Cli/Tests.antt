-- ===== src/CheckIo/Cli/Tests.antt =====
-- Command lines of the plugin.
use puppet_stg_environment.Common.{◌≡◌, refl, some, false, List, [], ◌∷◌, nat_eq}
use puppet_stg_environment.Common.Text.{Text, text_eq, codes, strip, words, readlines}
use puppet_stg_environment.Common.Text.Explicit.{split_value}
use puppet_stg_environment.Common.Decimal.{int, signed, unsigned, value_from}
use puppet_stg_environment.Common.Dict.{lookup}
use puppet_stg_environment.Common.Argparse.{
  store, inform, usage_error, value_error, index_error, is_negative_number, candidates, classify,
  sort_all, any_ambiguous, drop_dashes, opening, step, events, parse_events,
}
use puppet_stg_environment.Common.Argparse.Items.{arguments}
use puppet_stg_environment.CheckIo.Arguments.{validate}
use puppet_stg_environment.CheckIo.Diskstats.{parse_rows, field_at, to_int}
use puppet_stg_environment.CheckIo.Diskstats.Fields.{field_eq}
use puppet_stg_environment.CheckIo.Main.{fetch_file, validate_device, validate_devices, main}
use puppet_stg_environment.CheckIo.Cli.{
  to_timeout, number, to_verbose, to_devices, parser, set_number, defaults, taken, take_values,
  take_all, ends, command, status,
}
use puppet_stg_environment.CheckIo.Cli.Healthy.{EndsWell, command-EndsWell}
use puppet_stg_environment.CheckIo.Cli.RoundTrip.{command-arguments}
use puppet_stg_environment.CheckIo.Cli.Items.{items, HasValues}
use puppet_stg_environment.CheckIo.Tests.Runs.{given, args, quiet, quiet-run}

-- A flag and a value behind one dash, a negative number, an option cut short, and several values.
forms_read :
    parse_events parser (
      codes "-vt5"
      ∷ codes "--time=-7"
      ∷ codes "-t"
      ∷ codes "-8"
      ∷ codes "--dev"
      ∷ codes "sda"
      ∷ codes "sdb"
      ∷ [])
    ≡ store to_verbose []
      ∷ store (number to_timeout) (codes "5" ∷ [])
      ∷ store (number to_timeout) (codes "-7" ∷ [])
      ∷ store (number to_timeout) (codes "-8" ∷ [])
      ∷ store to_devices (codes "sda" ∷ codes "sdb" ∷ [])
      ∷ []
unfolding parse_events sort_all any_ambiguous events step opening classify candidates
    is_negative_number split_value drop_dashes lookup parser codes text_eq nat_eq
forms_read = refl

-- The start of two long names, before anything is done.
ambiguous_start : parse_events parser (codes "-v" ∷ codes "--ver" ∷ []) ≡ usage_error ∷ []
unfolding parse_events sort_all any_ambiguous events step opening classify candidates
    is_negative_number split_value drop_dashes lookup parser codes text_eq nat_eq
ambiguous_start = refl

-- An argument that is left over is an error at the end only.
left_over : parse_events parser (codes "x" ∷ codes "-h" ∷ []) ≡ inform ∷ usage_error ∷ []
unfolding parse_events sort_all any_ambiguous events step opening classify candidates
    is_negative_number split_value drop_dashes lookup parser codes text_eq nat_eq
left_over = refl

no_letter : parse_events parser (codes "-v=" ∷ []) ≡ index_error ∷ []
unfolding parse_events sort_all any_ambiguous events step opening classify candidates
    is_negative_number split_value drop_dashes lookup parser codes text_eq nat_eq
no_letter = refl

no_value : parse_events parser (codes "--timeout=--" ∷ []) ≡ value_error ∷ []
unfolding parse_events sort_all any_ambiguous events step opening classify candidates
    is_negative_number split_value drop_dashes lookup parser codes text_eq nat_eq
no_value = refl

abbrev good_line : List Text
good_line = codes "-a5" ∷ codes "--util-c=95" ∷ codes "--devices" ∷ codes "sda" ∷ []

namespace_read :
    take_all quiet (parse_events parser good_line) defaults
    ≡ taken (record { verbose = false; args = args; devices = some (codes "sda" ∷ []) })
unfolding parse_events sort_all any_ambiguous events step opening classify candidates
    is_negative_number split_value drop_dashes lookup parser codes text_eq nat_eq take_all
    take_values set_number validate int signed unsigned value_from strip validate_device
    validate_devices field_at parse_rows readlines words fetch_file to_int field_eq
namespace_read = refl

good_status : status (command quiet good_line) ≡ 0
unfolding command
good_status = rw (command, namespace_read) quiet-run

command-EndsWell_example : EndsWell quiet (take_all quiet (parse_events parser good_line) defaults)
command-EndsWell_example = command-EndsWell quiet good_line good_status

given-HasValues : HasValues given
unfolding classify parser codes text_eq lookup
given-HasValues = record {
  timeout = tt;
  averaging_period = (refl, refl);
  sread_warn = tt;
  sread_crit = tt;
  swrite_warn = tt;
  swrite_crit = tt;
  util_warn = tt;
  util_crit = (refl, refl);
  devices = ((refl, refl), tt);
}

command-arguments_example : command quiet (arguments (items given)) ≡ ends (main quiet given)
command-arguments_example = command-arguments quiet given given-HasValues
