-- ===== src/CheckIo/Tests.antt =====
-- Runs of the plugin on concrete samples, and its theorems at concrete data.
pub mod Runs
use Prim.Native.Nat.{max}
use puppet_stg_environment.Common.{
  ℕ, ◌≡◌, refl, ◌↔◌, ◌*◌, none, some, true, false, List, [], ◌∷◌, arith,
}
use puppet_stg_environment.Common.Int.{ℤ, pos, ◌<ℤ◌, ◌≤ℤ◌, ◌*ℤ◌, ◌-ℤ◌}
use puppet_stg_environment.Common.Text.{codes, strip, words, readlines, text_eq}
use puppet_stg_environment.Common.Decimal.{signed, unsigned, value_from, show}
use puppet_stg_environment.Common.Decimal as Decimal
use puppet_stg_environment.Common.Dict.{lookup, insert}
use puppet_stg_environment.CheckIo.Run.{ok, raises, index_error}
use puppet_stg_environment.CheckIo.Message.{int, fixed2, literal}
use puppet_stg_environment.CheckIo.NagiosData.{initial, exit, update_data}
use puppet_stg_environment.CheckIo.NagiosData.Worst.{worst, exit-Perm}
use puppet_stg_environment.CheckIo.Diskstats.{
  Field, num, word, Row, parse_rows, discover, field_at, is_partition, is_major, is_selected,
  to_int,
}
use puppet_stg_environment.Common.{◌↔◌, contains, Any}
use puppet_stg_environment.CheckIo.Diskstats.Discovery.{IsWatched, discover_iff}
use puppet_stg_environment.CheckIo.Diskstats.Fields.{field_eq}
use puppet_stg_environment.CheckIo.Device.{
  Device, difference, unwrap, is_set, add_performance_data, check_limits, check_rates, check_util,
  quotient_above, Verdict,
}
use puppet_stg_environment.CheckIo.Device.Levels.{
  rate_level, util_level, HasSamples, HasThroughput, HasStatus, check_limits-levels,
  check_limits-util,
}
use puppet_stg_environment.CheckIo.Device.Overflow.{check_limits_wrapped_read}
use puppet_stg_environment.CheckIo.Device.Rates.{check_limits_steady_read}
use puppet_stg_environment.CheckIo.Arguments.{Given, Args, validate, parse_args, check_args}
use puppet_stg_environment.CheckIo.Arguments.Ranges.{
  AboveBound, BelowBound, IsInRange, validate-show, parse_args-IsInRange,
}
use puppet_stg_environment.CheckIo.Arguments.Checks.{AreConsistent, check_args_iff}
use puppet_stg_environment.CheckIo.Devices.{
  Devices, collect, create_devices, new_device, add_row, check_all,
}
use puppet_stg_environment.CheckIo.Devices.Samples.{with_rows, rows_for, collect-rows_for}
use puppet_stg_environment.CheckIo.Main.{
  Surroundings, contents, read, rested, fetch, sleep_for, measure, run, exit_code,
}
use puppet_stg_environment.CheckIo.Main.Endings.{run-worst}

abbrev pub maxsize : ℤ
maxsize = pos 2147483647

-- A row of the file without its first three fields.
abbrev counters : ℕ → ℕ → ℕ → Row
counters sectors_read sectors_written busy =
    num (pos 10)
    ∷ num (pos 0)
    ∷ num (pos sectors_read)
    ∷ num (pos 5)
    ∷ num (pos 20)
    ∷ num (pos 0)
    ∷ num (pos sectors_written)
    ∷ num (pos 7)
    ∷ num (pos 0)
    ∷ num (pos busy)
    ∷ num (pos 47)
    ∷ []

abbrev device : ℕ → ℕ → List Row → Device
device read_warn read_crit rows = record {
  name = word (codes "sda");
  averaging_period = pos 2;
  sread_warn = some (pos read_warn);
  sread_crit = some (pos read_crit);
  swrite_warn = some (pos 100);
  swrite_crit = some (pos 200);
  util_warn = pos 80;
  util_crit = pos 90;
  performance_data = rows;
}

abbrev busy_device : Device
busy_device = device 100 200 (counters 1000 500 40 ∷ counters 1250 550 1900 ∷ [])

busy_samples : HasSamples busy_device (pos 250) (pos 50) (pos 1860)
unfolding difference field_at ◌-ℤ◌
busy_samples = record {
  first = _;
  second = _;
  others = [];
  sampled = refl;
  read = refl;
  written = refl;
  busy = refl;
}

throughput :
    (warn crit : ℕ) (rows : List Row)
    → is_set (some (pos warn)) ≡ true
    → is_set (some (pos crit)) ≡ true
    → HasThroughput (device warn crit rows) (pos warn) (pos crit) (pos 100) (pos 200)
throughput warn crit rows w c = record {
  read_warn = refl;
  read_crit = refl;
  write_warn = refl;
  write_crit = refl;
  read_warn_set = w;
  read_crit_set = c;
  write_warn_set = refl;
  write_crit_set = refl;
}

two_seconds : is_set (some (pos 1000 *ℤ pos 2)) ≡ true
unfolding ◌*ℤ◌
two_seconds = refl

check_limits-levels_example : HasStatus (check_limits maxsize busy_device) (
    max
      (max
        (rate_level (unwrap maxsize (pos 250)) (pos 100) (pos 200))
        (rate_level (unwrap maxsize (pos 50)) (pos 100) (pos 200)))
      (util_level busy_device (unwrap maxsize (pos 1860))))
check_limits-levels_example =
    check_limits-levels maxsize busy_device busy_samples (throughput 100 200 _ refl refl)
      two_seconds

reading_level : rate_level (unwrap maxsize (pos 250)) (pos 100) (pos 200) ≡ 2
unfolding rate_level unwrap
reading_level = refl

-- 1860 of 2000 milliseconds are 93 percent.
busy_level : util_level busy_device (unwrap maxsize (pos 1860)) ≡ 2
unfolding util_level unwrap quotient_above ◌*ℤ◌
busy_level = refl

abbrev unlimited : Device
unlimited = record busy_device {
  sread_warn = none;
  sread_crit = none;
  swrite_warn = none;
  swrite_crit = none;
}

unlimited_samples : HasSamples unlimited (pos 250) (pos 50) (pos 1860)
unfolding difference field_at ◌-ℤ◌
unlimited_samples = record {
  first = _;
  second = _;
  others = [];
  sampled = refl;
  read = refl;
  written = refl;
  busy = refl;
}

-- The counter of sectors read passes its end, 506 sectors further on.
abbrev wrapped : Device
wrapped = device 100 200 (counters 4294967290 500 40 ∷ counters 500 550 1900 ∷ [])

wrapped_samples : HasSamples wrapped (pos 500 -ℤ pos 4294967290) (pos 50) (pos 1860)
unfolding difference field_at ◌-ℤ◌
wrapped_samples = record {
  first = _;
  second = _;
  others = [];
  sampled = refl;
  read = refl;
  written = refl;
  busy = refl;
}

check_limits_wrapped_read_example : HasStatus (check_limits maxsize wrapped) (
    max
      (rate_level (unwrap maxsize (pos 50)) (pos 100) (pos 200))
      (util_level wrapped (unwrap maxsize (pos 1860))))
check_limits_wrapped_read_example =
    check_limits_wrapped_read wrapped 2147483648 4294967290 500 100 200 (omega arith) (omega arith)
      (omega arith) wrapped_samples (throughput 100 200 _ refl refl) two_seconds

-- 80 sectors per second for two seconds, below the warning limit of 100 per second.
abbrev steady : Device
steady = device 100 150 (counters 1000 500 40 ∷ counters 1160 500 40 ∷ [])

steady_samples : HasSamples steady (pos (80 * 2)) (pos 0) (pos 0)
unfolding difference field_at ◌-ℤ◌
steady_samples = record {
  first = _;
  second = _;
  others = [];
  sampled = refl;
  read = refl;
  written = refl;
  busy = refl;
}

check_limits_steady_read_example : HasStatus (check_limits maxsize steady) 2
check_limits_steady_read_example =
    check_limits_steady_read maxsize steady 80 2 100 150 refl (omega arith) (omega arith)
      (omega arith) steady_samples (throughput 100 150 _ refl refl)

abbrev rows : List Row
rows =
    (num (pos 8) ∷ num (pos 0) ∷ word (codes "sda") ∷ counters 2 6 9)
    ∷ (num (pos 8) ∷ num (pos 1) ∷ word (codes "sda1") ∷ [])
    ∷ []

abbrev sda : Field
sda = word (codes "sda")

discovered : discover rows ≡ ok (sda ∷ [])
unfolding discover is_selected is_partition is_major field_at codes
discovered = refl

discover_iff_example : (contains (sda ∷ []) sda ≡ true) ↔ Any (IsWatched sda) rows
discover_iff_example = discover_iff rows (sda ∷ []) discovered sda

abbrev devices : Devices
devices = (sda, busy_device) ∷ []

abbrev sampled : Devices
sampled =
    (
      sda,
      record busy_device {
        performance_data = counters 1000 500 40 ∷ counters 1250 550 1900 ∷ counters 2 6 9 ∷ [];
      },
    )
    ∷ []

rows_collected : collect rows devices ≡ ok sampled
unfolding collect field_at codes text_eq add_row add_performance_data field_eq
rows_collected = refl

collect-rows_for_example : lookup sda sampled ≡ with_rows (rows_for sda rows) (lookup sda devices)
collect-rows_for_example = collect-rows_for sda rows devices sampled rows_collected
