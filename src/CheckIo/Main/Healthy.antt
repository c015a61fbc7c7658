-- ===== src/CheckIo/Main/Healthy.antt =====
-- What stands behind an exit status of 0, from the options to the samples.
use puppet_stg_environment.Common.{
  ◌≡◌, sym, ◌∙◌, none, Bool, true, ◌⊎◌, inl, inr, List, [], All, Option-cases,
}
use puppet_stg_environment.Common.Text.{Text}
use puppet_stg_environment.CheckIo.Run.{Exn, ok, raises, Result-cases, >>=-ok}
use puppet_stg_environment.CheckIo.NagiosData.Worst.{exit-worst}
use puppet_stg_environment.CheckIo.Diskstats.{Field, Row}
use puppet_stg_environment.CheckIo.Device.{Verdict}
use puppet_stg_environment.CheckIo.Devices.{Devices, create_devices, collect}
use puppet_stg_environment.CheckIo.Devices.Verdicts.{IsFine, check_all-IsFine}
use puppet_stg_environment.CheckIo.Arguments.{Args, check_args}
use puppet_stg_environment.CheckIo.Main.{
  Surroundings, fetch, sleep_for, device_names, measure, conclude, set_alarm, checked, run,
  exit_code,
}
use puppet_stg_environment.CheckIo.Main.Endings.{IsUnexpected, handle_zero, rejected-not_zero}

-- The devices with the rows of both samples.
abbrev pub IsMeasured : Surroundings → Args → Bool → List Text → Devices → Type 0
IsMeasured s a verbose devices ds =
    (names : List Field) × (first second : List Row) × (sampled : Devices) × (device_names verbose
        a.timeout s.discovery devices
      ≡ ok names)
    × (fetch a.timeout s.before ≡ ok first)
    × (collect first (create_devices a names []) ≡ ok sampled)
    × (fetch a.timeout s.after ≡ ok second)
    × (collect second sampled ≡ ok ds)

abbrev pub IsHealthy : Surroundings → Args → Bool → List Text → Type 0
IsHealthy s a verbose devices =
    (ds : Devices) × IsMeasured s a verbose devices ds × All (IsFine s.maxsize) ds

-- An exception of the alarm or the measurement that `--verbose` prints.
abbrev pub IsPrinted : Surroundings → Args → Bool → List Text → Type 0
IsPrinted s a verbose devices =
    (e : Exn) × (verbose ≡ true)
    × IsUnexpected e
    × ((set_alarm a.timeout ≡ raises e)
        ⊎ ((check_args a ≡ none) × (measure s a verbose devices ≡ raises e)))

measure-IsHealthy :
    (s : Surroundings) (a : Args) (verbose : Bool) (devices : List Text) (vs : List Verdict)
    → measure s a verbose devices ≡ ok vs
    → exit_code (conclude verbose (ok vs)) ≡ 0
    → IsHealthy s a verbose devices
unfolding measure conclude
measure-IsHealthy s a verbose devices vs e h =
    let (names, en, k1) = >>=-ok (device_names verbose a.timeout s.discovery devices) _ vs e in
    let (first, ef, k2) = >>=-ok (fetch a.timeout s.before) _ vs k1 in
    let (sampled, es, k3) = >>=-ok (collect first (create_devices a names [])) _ vs k2 in
    let (rested, er, k4) = >>=-ok (sleep_for a.timeout s.sleep) _ vs k3 in
    let (second, eg, k5) = >>=-ok (fetch a.timeout s.after) _ vs k4 in
    let (ds, ed, k6) = >>=-ok (collect second sampled) _ vs k5 in
    (
      ds,
      (names, first, second, sampled, en, ef, es, eg, ed),
      check_all-IsFine s.maxsize ds vs k6 (sym (exit-worst vs) ∙ h),
    )

-- The arguments fit together, and the devices are found within their limits.
abbrev pub HasPassed : Surroundings → Args → Bool → List Text → Type 0
HasPassed s a verbose devices = (check_args a ≡ none) × IsHealthy s a verbose devices

checked-HasPassed :
    (s : Surroundings) (a : Args) (verbose : Bool) (devices : List Text)
    → exit_code (checked s a verbose devices) ≡ 0
    → IsPrinted s a verbose devices ⊎ HasPassed s a verbose devices
unfolding checked conclude
checked-HasPassed s a verbose devices h = elim (Option-cases (check_args a)) [
  | inr (message, c) ↦ absurd (rejected-not_zero message (rw (checked, c) at h))
  | inl c ↦ elim (Result-cases (measure s a verbose devices)) [
    | inl (e, m) ↦
        let (v, u) = handle_zero verbose e (rw (checked, c, m) at h) in inl (e, v, u, inr (c, m))
    | inr (vs, m) ↦ inr (c, measure-IsHealthy s a verbose devices vs m (rw (checked, c, m) at h))
  ]
]

-- What a run that ends with 0 has found.
pub run-HasPassed :
    (s : Surroundings) (a : Args) (verbose : Bool) (devices : List Text)
    → exit_code (run s a verbose devices) ≡ 0
    → IsPrinted s a verbose devices ⊎ HasPassed s a verbose devices
unfolding run
run-HasPassed s a verbose devices h = elim (Result-cases (set_alarm a.timeout)) [
  | inl (e, t) ↦ let (v, u) = handle_zero verbose e (rw (run, t) at h) in inl (e, v, u, inl t)
  | inr (x, t) ↦ checked-HasPassed s a verbose devices (rw (run, t) at h)
]
