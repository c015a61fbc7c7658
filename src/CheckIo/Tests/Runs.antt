-- ===== src/CheckIo/Tests/Runs.antt =====
-- Whole runs of the program.
use puppet_stg_environment.Common.{◌≡◌, refl, ◌↔◌, none, some, true, false, [], ◌∷◌, arith}
use puppet_stg_environment.Common.Int.{pos, ◌<ℤ◌, ◌≤ℤ◌, ◌*ℤ◌, ◌-ℤ◌}
use puppet_stg_environment.Common.Text.{codes, strip, words, readlines, text_eq}
use puppet_stg_environment.Common.Decimal.{signed, unsigned, value_from, show}
use puppet_stg_environment.Common.Decimal as Decimal
use puppet_stg_environment.Common.Dict.{insert}
use puppet_stg_environment.CheckIo.Run.{ok, raises, index_error}
use puppet_stg_environment.CheckIo.Message.{int, fixed2, literal}
use puppet_stg_environment.CheckIo.NagiosData.Worst.{worst}
use puppet_stg_environment.CheckIo.Diskstats.{
  parse_rows, discover, field_at, is_major, is_selected, to_int,
}
use puppet_stg_environment.CheckIo.Diskstats.Fields.{field_eq}
use puppet_stg_environment.CheckIo.Device.{
  difference, unwrap, add_performance_data, check_limits, check_rates, check_util, quotient_above,
  Verdict,
}
use puppet_stg_environment.CheckIo.Arguments.{Given, Args, validate, parse_args, check_args}
use puppet_stg_environment.CheckIo.Arguments.Ranges.{IsInRange, parse_args-IsInRange}
use puppet_stg_environment.CheckIo.Arguments.Checks.{AreConsistent, check_args_iff}
use puppet_stg_environment.CheckIo.Devices.{collect, create_devices, new_device, add_row, check_all}
use puppet_stg_environment.CheckIo.Main.{
  Surroundings, contents, read, rested, fetch, sleep_for, measure, set_alarm, run, exit_code,
}
use puppet_stg_environment.CheckIo.Main.Endings.{run-worst}
use puppet_stg_environment.CheckIo.Tests.{maxsize}
use puppet_stg_environment.CheckIo.Main.Healthy.{HasPassed}
use puppet_stg_environment.CheckIo.Main.Steps.Refinement.{run-Reach}
use puppet_stg_environment.CheckIo.Main.Steps.Safety.{Reach-HasPassed}

abbrev pub given : Given
given = record {
  verbose = false;
  timeout = none;
  averaging_period = some (codes "5");
  sread_warn = none;
  sread_crit = none;
  swrite_warn = none;
  swrite_crit = none;
  util_warn = none;
  util_crit = some (codes "95");
  devices = some (codes "sda" ∷ []);
}

abbrev pub args : Args
args = record {
  timeout = pos 6;
  averaging_period = pos 5;
  sread_warn = none;
  sread_crit = none;
  swrite_warn = none;
  swrite_crit = none;
  util_warn = pos 80;
  util_crit = pos 95;
}

given_parses : parse_args given ≡ some args
unfolding parse_args validate Decimal.int signed unsigned value_from strip codes
given_parses = refl

args-IsInRange : IsInRange args
args-IsInRange = parse_args-IsInRange given args given_parses

check_args_iff_example :
    (check_args args ≡ none)
    ↔ ((pos 5 ≤ℤ pos 6) × (pos 80 <ℤ pos 95) × AreConsistent none none none none)
check_args_iff_example = check_args_iff args args-IsInRange

args_armed : set_alarm args.timeout ≡ ok tt
unfolding set_alarm
args_armed = refl

args_pass : check_args args ≡ none
args_pass = check_args_iff_example.1 (omega arith, omega arith, tt)

abbrev surroundings : Surroundings
surroundings = record {
  maxsize = maxsize;
  listing = λ s. contents (codes "8 0 sda 10 0 1000 5 20 0 500 7 0 40 47");
  discovery = read (codes "8\n");
  before = read (codes "8 0 sda 10 0 1000 5 20 0 500 7 0 40 47\n 8 1 sda1 1 1 1 1\n");
  sleep = rested;
  after = read (codes "8 0 sda 10 0 1000 5 20 0 500 7 0 5000 47\n 8 1 sda1 1 1 1 1\n");
}

abbrev over : Verdict
over = (
  2,
  literal "Device "
      ∷ literal "sda"
      ∷ literal ": "
      ∷ literal "I/O utilization critical threshold exceeded ("
      ∷ fixed2 (pos 496000) (pos 5000)
      ∷ literal "%>"
      ∷ int (pos 95)
      ∷ literal "%)"
      ∷ [],
)

measured : measure surroundings args false (codes "sda" ∷ []) ≡ ok (over ∷ [])
unfolding measure field_at codes parse_rows readlines words Decimal.int signed unsigned value_from
    strip fetch to_int text_eq field_eq sleep_for collect add_row add_performance_data
    create_devices insert new_device check_all check_limits check_rates check_util difference unwrap
    quotient_above ◌*ℤ◌ ◌-ℤ◌
measured = refl

run-worst_example : exit_code (run surroundings args false (codes "sda" ∷ [])) ≡ worst (over ∷ [])
run-worst_example =
    run-worst surroundings args false (codes "sda" ∷ []) (over ∷ []) args_armed args_pass measured

malformed : measure surroundings args true [] ≡ raises index_error
unfolding measure discover is_selected is_major field_at codes parse_rows readlines words
    Decimal.int signed unsigned value_from strip fetch to_int
malformed = refl

abbrev fine : Verdict
fine = (0, literal "Device " ∷ literal "sda" ∷ literal ": " ∷ literal "OK" ∷ [])

-- A disk that is busy a quarter of the time.
abbrev pub quiet : Surroundings
quiet = record surroundings { after = read (codes "8 0 sda 10 0 1000 5 20 0 500 7 0 1290 47\n") }

quiet_measured : measure quiet args false (codes "sda" ∷ []) ≡ ok (fine ∷ [])
unfolding measure field_at codes parse_rows readlines words Decimal.int signed unsigned value_from
    strip fetch to_int text_eq field_eq sleep_for collect add_row add_performance_data
    create_devices insert new_device check_all check_limits check_rates check_util difference unwrap
    quotient_above ◌*ℤ◌ ◌-ℤ◌
quiet_measured = refl

pub quiet-run : exit_code (run quiet args false (codes "sda" ∷ [])) ≡ 0
unfolding worst
quiet-run =
    run-worst quiet args false (codes "sda" ∷ []) (fine ∷ []) args_armed args_pass quiet_measured

Reach-HasPassed_example : HasPassed quiet args false (codes "sda" ∷ [])
Reach-HasPassed_example =
    Reach-HasPassed quiet args (codes "sda" ∷ []) (run quiet args false (codes "sda" ∷ []))
      (run-Reach quiet args false (codes "sda" ∷ [])) quiet-run
