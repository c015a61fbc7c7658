-- ===== src/AwsRds/Cli/Tests.antt =====
-- Command lines of the plugin.
use puppet_stg_environment.Common.{◌≡◌, refl, none, some, false, List, [], ◌∷◌, nat_eq}
use puppet_stg_environment.Common.Text.{Text, text_eq, codes, split_on}
use puppet_stg_environment.Common.Decimal.{unsigned, value_from}
use puppet_stg_environment.Common.Optparse.{
  accepted, rejected, parse_from, parse_args, scan, match_long, find_exact, find_letter,
  starting_with, scan_letters,
}
use puppet_stg_environment.Common.Text.Explicit.{split_value}
use puppet_stg_environment.AwsRds.Tests.{hundredths, aws}
use puppet_stg_environment.AwsRds.Cli.{
  to_ident, to_info, options_known, store, command, command_code,
}
use puppet_stg_environment.AwsRds.Stats.{get_rds_stats, rounded_average}
use puppet_stg_environment.AwsRds.Load.{
  parse_all, compare, take_load, judge_load, round, rounds, conclude_load, check_load,
}
use puppet_stg_environment.AwsRds.Main.{
  given, metric_of, check, finish, run_metric, choose_metric, main,
}
use puppet_stg_environment.AwsRds.Cli.Healthy.{ParsedZero, command-ParsedZero}

-- A flag and a value behind one dash.
letters_read :
    parse_args options_known (codes "-pidb1" ∷ [])
    ≡ accepted ((to_info, none) ∷ (to_ident, some (codes "db1")) ∷ []) []
unfolding parse_from scan split_value match_long find_exact find_letter starting_with scan_letters
    options_known codes text_eq nat_eq
letters_read = refl

-- `--h` is short for `--help` only, so that a value is too much.
help_with_value : parse_args options_known (codes "--h=yes" ∷ []) ≡ rejected
unfolding parse_from scan split_value match_long find_exact find_letter starting_with scan_letters
    options_known codes text_eq nat_eq
help_with_value = refl

-- The loads are 90, 50 and 50 percent.
abbrev quiet_line : List Text
quiet_line =
    codes "-idb1" ∷ codes "--met=load" ∷ codes "-w95,60,60" ∷ codes "--crit" ∷ codes "99,70,70" ∷ []

quiet_status : command_code (command hundredths aws quiet_line) ≡ 0
unfolding command parse_from scan split_value match_long find_exact find_letter starting_with
    scan_letters options_known codes text_eq nat_eq store main given choose_metric metric_of
    run_metric check check_load parse_all split_on unsigned value_from rounds round judge_load
    take_load compare conclude_load get_rds_stats rounded_average finish
quiet_status = refl

command-ParsedZero_example : ParsedZero hundredths aws false (parse_args options_known quiet_line)
command-ParsedZero_example = command-ParsedZero hundredths aws quiet_line quiet_status
