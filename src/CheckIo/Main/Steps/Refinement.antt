-- ===== src/CheckIo/Main/Steps/Refinement.antt =====
-- `run`, the program as a function, is one of the runs of the machine.
use puppet_stg_environment.Common.{Option, none, some, Bool, List, []}
use puppet_stg_environment.Common.Text.{Text}
use puppet_stg_environment.CheckIo.Run.{Result, ok, raises, ◌>>=◌}
use puppet_stg_environment.CheckIo.Message.{Piece}
use puppet_stg_environment.CheckIo.NagiosData.{initial, exit, update_data}
use puppet_stg_environment.CheckIo.Device.{Verdict}
use puppet_stg_environment.CheckIo.Devices.{Devices, create_devices, collect, check_all}
use puppet_stg_environment.CheckIo.Arguments.{Args, check_args}
use puppet_stg_environment.CheckIo.Main.{
  Surroundings, Reading, fetch, sleep_for, device_names, measure, exits, exits_with, handle,
  conclude, set_alarm, checked, run,
}
use puppet_stg_environment.CheckIo.Main.Steps.{
  State, starting, validating, naming, sleeping, judging, ended, validated, arm, validate, name,
  sample, rest, resample, judge, Reach, here, then, outcome,
}

module _ (s : Surroundings) (a : Args) (verbose : Bool) (devices : List Text) where
  -- A state comes to the end that `main` makes of a result.
  abbrev Comes : State → Result (List Verdict) → Type 0
  Comes t r = Reach s a verbose devices t (ended (conclude verbose r))

  Comes-bind {ℓ} :
      {A : Type ℓ} (m : Result A) (f : A → Result State) (k : A → Result (List Verdict))
      → ((x : A) → Comes (outcome s a verbose devices (f x)) (k x))
      → Comes (outcome s a verbose devices (m >>= f)) (m >>= k)
  unfolding conclude
  Comes-bind (ok x) f k h = h x
  Comes-bind (raises e) f k h = here

  Comes-collect :
      (r : Reading) (ds : Devices) (t : Devices → State) (k : Devices → Result (List Verdict))
      → ((more : Devices) → Comes (t more) (k more))
      → Comes
          (outcome s a verbose devices
            (fetch a.timeout r >>= λ rows. collect rows ds >>= λ more. ok (t more)))
          (fetch a.timeout r >>= λ rows. collect rows ds >>= k)
  Comes-collect r ds t k h =
      Comes-bind (fetch a.timeout r) _ _
        (λ rows. Comes-bind (collect rows ds) (λ more. ok (t more)) k h)

  reported :
      (r : Result (List Verdict))
      → Comes
          (outcome s a verbose devices
            (r >>= λ vs. ok (ended (exits (exit (update_data vs initial))))))
          r
  unfolding conclude
  reported (ok vs) = here
  reported (raises e) = here

  judging-Comes : (ds : Devices) → Comes (judging ds) (check_all s.maxsize ds)
  judging-Comes ds = then (judge ds) (reported (check_all s.maxsize ds))

  naming-Comes : Comes naming (measure s a verbose devices)
  unfolding measure
  naming-Comes = then name (
      Comes-bind (device_names verbose a.timeout s.discovery devices) _ _ λ names.
        then (sample (create_devices a names [])) (
          Comes-collect s.before (create_devices a names []) sleeping _ λ sampled.
            then (rest sampled) (
              Comes-bind (sleep_for a.timeout s.sleep) _ _ λ _.
                then (resample sampled)
                  (Comes-collect s.after sampled judging (check_all s.maxsize) judging-Comes))))

  validated-Reach :
      (o : Option (List Piece))
      → Reach s a verbose devices (validated s a verbose devices o) (
          ended (elim o [
            | some message ↦ exits_with 3 message
            | none ↦ conclude verbose (measure s a verbose devices)
          ]))
  validated-Reach none = naming-Comes
  validated-Reach (some message) = here

  armed-Reach :
      (r : Result (Unit {0}))
      → Reach s a verbose devices
          (outcome s a verbose devices (r >>= λ _. ok validating))
          (ended (elim r [ raises e ↦ handle verbose e | ok _ ↦ checked s a verbose devices ]))
  unfolding checked
  armed-Reach (ok _) = then validate (validated-Reach (check_args a))
  armed-Reach (raises e) = here

  -- The machine has a run from the start to the end that the program comes to.
  pub run-Reach : Reach s a verbose devices starting (ended (run s a verbose devices))
  unfolding run
  run-Reach = then arm (armed-Reach (set_alarm a.timeout))
