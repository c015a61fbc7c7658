-- ===== src/CheckIo/Devices.antt =====
-- The dictionary of devices: creating it, giving it the rows of a sample, and checking it.
pub mod Samples
pub mod Keys
pub mod Verdicts
use mathlib.Core.Bool.{Bool-discrete}
use mathlib.Core.Logic.{dite}
use puppet_stg_environment.Common.{
  ◌≡◌, refl, arith, eqb, ℕ, Option, none, some, Bool, true, false, List, [], ◌∷◌, ◌++◌, drop, Eq,
  ◌==◌, if◌then◌else◌,
}
use puppet_stg_environment.Common.Int.{ℤ, pos, negsuc}
use puppet_stg_environment.Common.Text.{Text, text_eq}
use puppet_stg_environment.Common.Dict.{Dict, insert}
use puppet_stg_environment.CheckIo.Run.{Result, ok, raises, ◌>>=◌}
use puppet_stg_environment.CheckIo.Diskstats.{Field, num, word, Row, field_at}
use puppet_stg_environment.CheckIo.Diskstats.Fields.{field_eq}
use puppet_stg_environment.CheckIo.Device.{Device, Verdict, add_performance_data, check_limits}
use puppet_stg_environment.CheckIo.Arguments.{Args}

abbrev pub Devices : Type 0
Devices = Dict Field Device

unfoldable pub new_device : Args → Field → Device
new_device a name = record {
  name = name;
  averaging_period = a.averaging_period;
  sread_warn = a.sread_warn;
  sread_crit = a.sread_crit;
  swrite_warn = a.swrite_warn;
  swrite_crit = a.swrite_crit;
  util_warn = a.util_warn;
  util_crit = a.util_crit;
  performance_data = [];
}

-- `devices[device_name] = Device(…)` for each name.
unfoldable pub create_devices : Args → List Field → Devices → Devices
create_devices a [] devices = devices
create_devices a (name ∷ names) devices =
    create_devices a names (insert name (new_device a name) devices)

-- `devices[name].addPerformanceData(row)`, if the name is a key.
unfoldable pub add_row : Field → Row → Devices → Devices
add_row name row [] = []
add_row name row ((key, d) ∷ devices) =
    if name == key
    then (key, add_performance_data row d) ∷ devices
    else (key, d) ∷ add_row name row devices

-- The comprehension over the rows of a sample.
unfoldable pub collect : List Row → Devices → Result Devices
collect [] devices = ok devices
collect (row ∷ rows) devices =
    field_at row 2 >>= λ name. collect rows (add_row name (drop 3 row) devices)

-- The verdicts of all devices, in the order of the dictionary.
unfoldable pub check_all : ℤ → Devices → Result (List Verdict)
check_all maxsize [] = ok []
check_all maxsize ((key, d) ∷ devices) =
    let rest = check_all maxsize devices in
    check_limits maxsize d >>= λ v. rest >>= λ vs. ok (v ∷ vs)
