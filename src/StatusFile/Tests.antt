-- ===== src/StatusFile/Tests.antt =====
-- Runs of the plugin on concrete files, and its theorem there.
use puppet_stg_environment.Common.{◌≡◌, refl, ◌↔◌, some, true, [], ◌∷◌}
use puppet_stg_environment.Common.Text.{Text, text_eq, codes, strip, readlines}
use puppet_stg_environment.Common.Decimal.{value_from}
use puppet_stg_environment.StatusFile.{
  StatusFile, max_age, unit_of, unit_seconds, status_code, is_old, check_file, read_status, relay,
  exit_code, run,
}
use puppet_stg_environment.Common.{nat_eq}
use puppet_stg_environment.Common.Optparse.{
  accepted, parse_args, parse_from, scan, match_long, find_exact, find_letter, scan_letters,
}
use puppet_stg_environment.Common.Text.Explicit.{split_value}
use puppet_stg_environment.StatusFile.Cli.{
  to_age, options_known, command_code, command, AsksForOk, command_ok_iff,
}

abbrev file : Text → StatusFile
file name = record {
  exists = true;
  modified = 1000000;
  content = some (codes "OK \nall is well\n");
}

default_age : max_age (codes "26h") ≡ some 93600
unfolding max_age unit_of unit_seconds value_from codes
default_age = refl

fresh_file : exit_code (run file 2000000 (codes "26h") (codes "backup" ∷ [])) ≡ 0
unfolding run max_age unit_of unit_seconds value_from check_file is_old read_status relay
    status_code readlines strip codes text_eq
fresh_file = refl

old_file : exit_code (run file 12000000 (codes "10") (codes "backup" ∷ [])) ≡ 1
unfolding run max_age unit_of unit_seconds value_from check_file is_old codes
old_file = refl

two_ages :
    parse_args options_known (codes "-a2d" ∷ codes "backup" ∷ codes "--age" ∷ codes "3h" ∷ [])
    ≡ accepted
        ((to_age, some (codes "2d")) ∷ (to_age, some (codes "3h")) ∷ [])
        (codes "backup" ∷ [])
unfolding parse_from scan split_value match_long find_exact find_letter scan_letters options_known
    codes text_eq nat_eq
two_ages = refl

command_ok_iff_example :
    (command_code (command file 2000000 (codes "--age=2d" ∷ codes "backup" ∷ [])) ≡ 0)
    ↔ AsksForOk file 2000000 (parse_args options_known (codes "--age=2d" ∷ codes "backup" ∷ []))
command_ok_iff_example = command_ok_iff file 2000000 (codes "--age=2d" ∷ codes "backup" ∷ [])
