-- ===== src/CheckIo/Main.antt =====
-- `main`: from the options as they are given to the exit status. What the plugin meets while it
-- runs is a parameter: the contents of `/proc/diskstats` each time that it is read, errors, and
-- where the alarm of the timeout goes off.
pub mod Endings
pub mod Healthy
pub mod Steps
use puppet_stg_environment.Common.{
  ℕ, Option, none, some, Bool, true, false, List, [], ◌∷◌, ◌++◌, map, ◌==◌, contains, if◌then◌else◌,
}
use puppet_stg_environment.Common.Int.{ℤ, pos, ltb_ℤ}
use puppet_stg_environment.Common.Text.{Text, codes}
use puppet_stg_environment.CheckIo.Run.{
  Exn, script_timeout, io_error, type_error, index_error, zero_division_error, value_error,
  overflow_error, Result, ok, raises, ◌>>=◌,
}
use puppet_stg_environment.CheckIo.Message.{Message, Piece, txt, int, literal}
use puppet_stg_environment.CheckIo.NagiosData.{Exit, initial, exit, update_data, set_data}
use puppet_stg_environment.CheckIo.Diskstats.{Field, num, word, Row, parse_rows, field_at, discover}
use puppet_stg_environment.CheckIo.Diskstats.Fields.{field_eq}
use puppet_stg_environment.CheckIo.Device.{Verdict}
use puppet_stg_environment.CheckIo.Devices.{create_devices, collect, check_all}
use puppet_stg_environment.CheckIo.Arguments.{Given, Args, parse_args, check_args}

-- A read of the file; an error has a name such as `ENOENT`.
pub data FileRead : Type 0 where
  contents : Text → FileRead
  unreadable : Text → FileRead

-- The same once the alarm is set.
pub data Reading : Type 0 where
  read : Text → Reading
  failed : Text → Reading
  alarm : Reading

-- `negative` is the `IOError` of a sleep whose time has passed already.
pub data Sleep : Type 0 where
  rested : Sleep
  negative : Sleep
  alarmed : Sleep

-- `listing` is what the validator of a named device reads.
pub record Surroundings : Type 0 where
  pub maxsize : ℤ
  pub listing : Text → FileRead
  pub discovery : Reading
  pub before : Reading
  pub sleep : Sleep
  pub after : Reading

abbrev diskstats_path : Text
diskstats_path = codes "/proc/diskstats"

-- `fetchPerformanceData`
unfoldable pub fetch_file : FileRead → Result (List Row)
fetch_file (contents text) = ok (parse_rows text)
fetch_file (unreadable name) = raises (io_error diskstats_path name)

unfoldable pub fetch : ℤ → Reading → Result (List Row)
fetch timeout (read text) = ok (parse_rows text)
fetch timeout (failed name) = raises (io_error diskstats_path name)
fetch timeout alarm = raises (script_timeout timeout)

unfoldable pub sleep_for : ℤ → Sleep → Result (Unit {0})
sleep_for timeout rested = ok tt
sleep_for timeout negative = raises (io_error (codes "None") (codes "EINVAL"))
sleep_for timeout alarmed = raises (script_timeout timeout)

-- `[x[2] for x in rows]`
names_of : List Row → Result (List Field)
names_of [] = ok []
names_of (row ∷ rows) =
    let rest = names_of rows in field_at row 2 >>= λ name. rest >>= λ names. ok (name ∷ names)

-- `device_validator`: whether the device exists.
unfoldable pub validate_device : FileRead → Text → Result Bool
unfolding names_of
validate_device listing string = do
  rows ← fetch_file listing
  names ← names_of rows
  ok (contains names (word string))

unfoldable pub validate_devices : (Text → FileRead) → List Text → Result Bool
validate_devices listing [] = ok true
validate_devices listing (string ∷ strings) =
    let rest = validate_devices listing strings in
    validate_device (listing string) string >>= λ valid. if valid then rest else ok false

-- `set(args.devices)`
distinct : List Field → List Field
distinct [] = []
distinct (name ∷ names) =
    let rest = distinct names in if contains rest name then rest else name ∷ rest

-- `''.join(device_names)`, which is printed with `--verbose`, wants texts.
join_names : List Field → Result (Unit {0})
join_names [] = ok tt
join_names (num z ∷ names) = raises type_error
join_names (word s ∷ names) = join_names names

pub device_names : Bool → ℤ → Reading → List Text → Result (List Field)
device_names verbose timeout discovery (string ∷ strings) =
    ok (distinct (map word (string ∷ strings)))
device_names verbose timeout discovery [] = do
  rows ← fetch timeout discovery
  names ← discover rows
  _ ← if verbose then join_names names else ok tt
  ok names

-- From the names of the devices to the verdicts on them.
unfoldable pub measure : Surroundings → Args → Bool → List Text → Result (List Verdict)
unfolding device_names distinct join_names
measure s a verbose devices = do
  names ← device_names verbose a.timeout s.discovery devices
  first ← fetch a.timeout s.before
  sampled ← collect first (create_devices a names [])
  _ ← sleep_for a.timeout s.sleep
  second ← fetch a.timeout s.after
  complete ← collect second sampled
  check_all s.maxsize complete

-- How the program ends: through `nagios.exit()`, by the usage error of `argparse`, or after the
-- print of a traceback.
pub data Ending : Type 0 where
  exits : Exit → Ending
  usage_error : Ending
  traceback : Exn → Ending

class_name : Exn → Piece
class_name (script_timeout n) = literal "ScriptTimeout"
class_name (io_error file name) = literal "IOError"
class_name type_error = literal "TypeError"
class_name index_error = literal "IndexError"
class_name zero_division_error = literal "ZeroDivisionError"
class_name value_error = literal "ValueError"
class_name overflow_error = literal "OverflowError"

abbrev exits_with : ℕ → Message → Ending
exits_with status message = exits (exit (set_data status message initial))

unexpected : Bool → Exn → Ending
unexpected true e = traceback e
unexpected false e = exits_with 2 (
    literal "Exception occured: "
    ∷ class_name e
    ∷ literal ", please inspect the script with --verbose option set."
    ∷ [])

-- The `except` clauses of `main`.
unfoldable pub handle : Bool → Exn → Ending
unfolding unexpected class_name
handle verbose (script_timeout n) =
    exits_with 1 (literal "Script timed out after " ∷ int n ∷ literal " seconds." ∷ [])
handle verbose (io_error file name) =
    exits_with 1
      (literal "Problem occured while openning the file " ∷ txt file ∷ literal ": " ∷ txt name ∷ [])
handle verbose e = unexpected verbose e

pub conclude : Bool → Result (List Verdict) → Ending
conclude verbose (ok verdicts) = exits (exit (update_data verdicts initial))
conclude verbose (raises e) = handle verbose e

-- `main` from the checks of the arguments on.
unfoldable pub checked : Surroundings → Args → Bool → List Text → Ending
unfolding conclude
checked s a verbose devices = elim (check_args a) [
  | some message ↦ exits_with 3 message
  | none ↦ conclude verbose (measure s a verbose devices)
]

-- `signal.alarm`, whose argument is a C integer.
unfoldable pub set_alarm : ℤ → Result (Unit {0})
set_alarm timeout = if ltb_ℤ (pos 2147483647) timeout then raises overflow_error else ok tt

-- `main` behind `parse_args`.
unfoldable pub run : Surroundings → Args → Bool → List Text → Ending
run s a verbose devices = elim (set_alarm a.timeout) [
  | raises e ↦ handle verbose e
  | ok _ ↦ checked s a verbose devices
]

abbrev pub given_devices : Option (List Text) → List Text
given_devices none = []
given_devices (some devices) = devices

-- An exception of a validator is handled before `args.verbose` is set.
unfoldable pub parsed : Surroundings → Given → Args → Result Bool → Ending
parsed s g a (raises e) = handle false e
parsed s g a (ok false) = usage_error
parsed s g a (ok true) = run s a g.verbose (given_devices g.devices)

unfoldable pub main : Surroundings → Given → Ending
unfolding parsed validate_devices
main s g = elim (parse_args g) [
  | none ↦ usage_error
  | some a ↦ parsed s g a (validate_devices s.listing (given_devices g.devices))
]

-- The exit status that Nagios sees.
abbrev pub exit_code : Ending → ℕ
exit_code (exits e) = e.code
exit_code usage_error = 2
exit_code (traceback e) = 0
