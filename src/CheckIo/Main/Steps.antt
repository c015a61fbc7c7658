-- ===== src/CheckIo/Main/Steps.antt =====
-- `main` behind `parse_args` as a state machine. The alarm is set by the first of its steps, and may go
-- off between any two of the others, not only at the reads and the sleep.
pub mod Refinement
pub mod Safety
use puppet_stg_environment.Common.{ℕ, suc, ◌≡◌, refl, Option, none, some, Bool, List, [], ◌∷◌}
use puppet_stg_environment.Common.Int.{ℤ}
use puppet_stg_environment.Common.Text.{Text}
use puppet_stg_environment.CheckIo.Run.{Exn, script_timeout, Result, ok, raises, ◌>>=◌}
use puppet_stg_environment.CheckIo.Message.{Piece}
use puppet_stg_environment.CheckIo.NagiosData.{initial, exit, update_data}
use puppet_stg_environment.CheckIo.Devices.{Devices, create_devices, collect, check_all}
use puppet_stg_environment.CheckIo.Arguments.{Args, check_args}
use puppet_stg_environment.CheckIo.Main.{
  Surroundings, fetch, sleep_for, device_names, Ending, exits, exits_with, handle, set_alarm,
}

-- Where `main` stands: before the alarm is set, the checks of the arguments, the names of the devices, the first sample,
-- the sleep, the second sample and the verdicts, or at its end.
pub data State : Type 0 where
  starting validating naming : State
  sampling sleeping resampling judging : Devices → State
  ended : Ending → State

abbrev pub IsLive : State → Type 0
IsLive starting = ⊥
IsLive (ended e) = ⊥
IsLive _ = Unit {0}

module _ (s : Surroundings) (a : Args) (verbose : Bool) (devices : List Text) where
  -- An exception goes to the `except` clauses.
  abbrev pub outcome : Result State → State
  outcome (ok state) = state
  outcome (raises e) = ended (handle verbose e)

  abbrev pub validated : Option (List Piece) → State
  validated none = naming
  validated (some message) = ended (exits_with 3 message)

  -- Each part of `main` from one state to the next, in the surroundings that `run` has, and the alarm.
  pub data Step : State → State → Type 0 where
    arm : Step starting (outcome (set_alarm a.timeout >>= λ _. ok validating))
    validate : Step validating (validated (check_args a))
    name : Step naming (
        outcome (
          device_names verbose a.timeout s.discovery devices >>= λ names.
          ok (sampling (create_devices a names []))))
    sample :
        (ds : Devices)
        → Step (sampling ds) (
            outcome
              (fetch a.timeout s.before >>= λ rows. collect rows ds >>= λ more. ok (sleeping more)))
    rest :
        (ds : Devices)
        → Step (sleeping ds) (outcome (sleep_for a.timeout s.sleep >>= λ _. ok (resampling ds)))
    resample :
        (ds : Devices)
        → Step (resampling ds) (
            outcome
              (fetch a.timeout s.after >>= λ rows. collect rows ds >>= λ more. ok (judging more)))
    judge :
        (ds : Devices)
        → Step (judging ds) (
            outcome
              (check_all s.maxsize ds >>= λ vs. ok (ended (exits (exit (update_data vs initial))))))
    interrupt :
        (state : State)
        → IsLive state
        → Step state (ended (handle verbose (script_timeout a.timeout)))

  pub data Reach : State → State → Type 0 where
    here : {t : State} → Reach t t
    then : {t u v : State} → Step t u → Reach u v → Reach t v
