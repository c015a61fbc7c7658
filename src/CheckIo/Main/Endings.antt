-- ===== src/CheckIo/Main/Endings.antt =====
-- How a run ends.
use puppet_stg_environment.Common.{
  ℕ, suc, ◌≡◌, refl, none, Bool, true, false, inl, inr, List, Bool-cases, arith,
}
use puppet_stg_environment.Common.Text.{Text}
use puppet_stg_environment.CheckIo.Run.{
  Exn, script_timeout, io_error, type_error, index_error, zero_division_error, value_error,
  overflow_error, ok, raises,
}
use puppet_stg_environment.CheckIo.Message.{Message, is_empty}
use puppet_stg_environment.CheckIo.NagiosData.{exit, set_data}
use puppet_stg_environment.CheckIo.NagiosData.Worst.{worst, exit-worst}
use puppet_stg_environment.CheckIo.Device.{Verdict}
use puppet_stg_environment.CheckIo.Arguments.{Args, check_args}
use puppet_stg_environment.CheckIo.Main.{
  Surroundings, measure, traceback, exits_with, handle, set_alarm, checked, run, exit_code,
}

-- With a timeout that the alarm can be set to and arguments that fit together, a measurement that comes
-- to its end exits with the highest status of the devices, and with 0 if there are none.
pub run-worst :
    (s : Surroundings) (a : Args) (verbose : Bool) (devices : List Text) (verdicts : List Verdict)
    → set_alarm a.timeout ≡ ok tt
    → check_args a ≡ none
    → measure s a verbose devices ≡ ok verdicts
    → exit_code (run s a verbose devices) ≡ worst verdicts
unfolding run checked
run-worst s a verbose devices verdicts t c m = rw (run, t, checked, c, m) (exit-worst verdicts)

-- The exceptions that no `except` clause of `main` names.
abbrev pub IsUnexpected : Exn → Type 0
IsUnexpected type_error = Unit {0}
IsUnexpected index_error = Unit
IsUnexpected zero_division_error = Unit
IsUnexpected value_error = Unit
IsUnexpected overflow_error = Unit
IsUnexpected _ = ⊥

handle_verbose : (e : Exn) → IsUnexpected e → handle true e ≡ traceback e
unfolding handle
handle_verbose type_error u = refl
handle_verbose index_error u = refl
handle_verbose zero_division_error u = refl
handle_verbose value_error u = refl
handle_verbose overflow_error u = refl
handle_verbose _ u = absurd u

-- With `--verbose` an unexpected exception, such as that of a malformed row, ends the program with
-- status 0, the one of a healthy disk.
run_verbose_exception :
    (s : Surroundings) (a : Args) (devices : List Text) (e : Exn)
    → set_alarm a.timeout ≡ ok tt
    → check_args a ≡ none
    → measure s a true devices ≡ raises e
    → IsUnexpected e
    → exit_code (run s a true devices) ≡ 0
unfolding run checked
run_verbose_exception s a devices e t c m u = rw (run, t, checked, c, m, handle_verbose e u)

pub suc-not_zero : (n : ℕ) → suc n ≡ 0 → ⊥
suc-not_zero n h = omega arith

pub handle-not_zero : (e : Exn) → exit_code (handle false e) ≡ 0 → ⊥
unfolding handle exit set_data
handle-not_zero (script_timeout n) h = suc-not_zero 0 h
handle-not_zero (io_error file n) h = suc-not_zero 0 h
handle-not_zero type_error h = suc-not_zero 1 h
handle-not_zero index_error h = suc-not_zero 1 h
handle-not_zero zero_division_error h = suc-not_zero 1 h
handle-not_zero value_error h = suc-not_zero 1 h
handle-not_zero overflow_error h = suc-not_zero 1 h

-- An exception ends with 0 only where `--verbose` prints one that is not expected.
pub handle_zero :
    (verbose : Bool) (e : Exn)
    → exit_code (handle verbose e) ≡ 0
    → (verbose ≡ true) × IsUnexpected e
unfolding handle exit set_data
handle_zero false e h = absurd (handle-not_zero e h)
handle_zero true (script_timeout n) h = absurd (suc-not_zero 0 h)
handle_zero true (io_error file n) h = absurd (suc-not_zero 0 h)
handle_zero true type_error h = (refl, tt)
handle_zero true index_error h = (refl, tt)
handle_zero true zero_division_error h = (refl, tt)
handle_zero true value_error h = (refl, tt)
handle_zero true overflow_error h = (refl, tt)

pub rejected-not_zero : (m : Message) → exit_code (exits_with 3 m) ≡ 0 → ⊥
unfolding exit set_data
rejected-not_zero m h = elim (Bool-cases (is_empty m)) [
  | inl e ↦ suc-not_zero 2 (rw (exit, e) at h)
  | inr e ↦ suc-not_zero 2 (rw (exit, e) at h)
]
