-- ===== src/StatusFile.antt =====
-- `profiles/files/nrpeplugins/check_statusfile`, the plugin that relays a status from a file.
pub mod Relay
pub mod Cli
mod Tests
use puppet_stg_environment.Common.{
  ℕ, ◌+◌, ◌*◌, Option, none, some, Bool, true, false, List, [], ◌∷◌, ◌++◌, ◌==◌, is_nil, ltb, eqb,
  if◌then◌else◌,
}
use puppet_stg_environment.Common.Text.{Text, text_eq, codes, strip, readlines}
use puppet_stg_environment.Common.Decimal.{is_digit, value_from}

-- The digits at the start of a text, and what follows them.
abbrev pub digits : Text → Text
digits [] = []
digits (c ∷ s) = if is_digit c then c ∷ digits s else []

abbrev pub after_digits : Text → Text
after_digits [] = []
after_digits (c ∷ s) = if is_digit c then after_digits s else c ∷ s

-- `UNITS_TO_SECONDS`
unfoldable pub unit_seconds : ℕ → Option ℕ
unit_seconds c =
    if eqb c 115
    then some 1
    else if eqb c 109
    then some 60
    else if eqb c 104
    then some 3600
    else if eqb c 100
    then some 86400
    else none

-- `$` matches at the end, and before a newline that ends the text.
abbrev pub at_end : Text → Bool
at_end [] = true
at_end (c ∷ s) = if eqb c 10 then is_nil s else false

-- The seconds of a unit, 1 without one; `none` if there is no match.
unfoldable pub unit_of : Text → Option ℕ
unit_of [] = some 1
unit_of (c ∷ s) = elim (unit_seconds c) [
  | none ↦ if at_end (c ∷ s) then some 1 else none
  | some k ↦ if at_end s then some k else none
]

-- `re.match('([0-9]+)([smhd])?$', age)`, in seconds.
unfoldable pub max_age : Text → Option ℕ
max_age age = if is_nil (digits age) then none else elim (value_from 0 (digits age)) [
  | none ↦ none
  | some count ↦ elim (unit_of (after_digits age)) [ none ↦ none | some k ↦ some (count * k) ]
]

-- `NAGIOS_STATUS`
unfoldable pub status_code : Text → Option ℕ
status_code name =
    if name == codes "OK"
    then some 0
    else if name == codes "WARNING"
    then some 1
    else if name == codes "CRITICAL"
    then some 2
    else if name == codes "UNKNOWN"
    then some 3
    else none

-- The file: times in millionths of a second; `content` is `none` if it cannot be opened.
pub record StatusFile : Type 0 where
  pub exists : Bool
  pub modified : ℕ
  pub content : Option Text

-- What is printed: the complaints, or the lines that are relayed.
pub data Output : Type 0 where
  usage missing old invalid no_output : Output
  relayed : List Text → Output

pub data Ending : Type 0 where
  exits : ℕ → Output → Ending
  io_error : Ending

-- An exception that nothing catches leaves with 1.
abbrev pub exit_code : Ending → ℕ
exit_code (exits n _) = n
exit_code io_error = 1

-- The lines behind the first one.
unfoldable pub relay : ℕ → List Text → Ending
relay status [] = exits 3 no_output
relay status (line ∷ lines) = exits status (relayed (line ∷ lines))

-- `status.readline().strip()`, which is empty at the end of the file.
unfoldable pub read_status : List Text → Ending
read_status [] = exits 3 invalid
read_status (first ∷ lines) = elim (status_code (strip first)) [
  | none ↦ exits 3 invalid
  | some status ↦ relay status lines
]

unfoldable pub is_old : ℕ → ℕ → StatusFile → Bool
is_old now age f = ltb (f.modified + age * 1000000) now

unfoldable pub check_file : ℕ → ℕ → StatusFile → Ending
check_file now age f =
    if f.exists
    then (if is_old now age f
        then exits 1 old
        else elim f.content [ none ↦ io_error | some text ↦ read_status (readlines text) ])
    else exits 3 missing

-- The program: the number of its arguments is checked first, then the age.
unfoldable pub run : (Text → StatusFile) → ℕ → Text → List Text → Ending
run file now age (name ∷ []) = elim (max_age age) [
  | none ↦ exits 1 usage
  | some seconds ↦ check_file now seconds (file name)
]
run file now age _ = exits 1 usage
