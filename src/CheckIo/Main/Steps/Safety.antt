-- ===== src/CheckIo/Main/Steps/Safety.antt =====
-- The ends of the machine, wherever the alarm goes off.
use puppet_stg_environment.Common.{
  ◌≡◌, refl, ap, ◌∙◌, ◌⊎◌, inl, inr, Option, none, some, Bool, true, false, List,
}
use puppet_stg_environment.Common.Text.{Text}
use puppet_stg_environment.CheckIo.Run.{script_timeout, Result, ok, raises, ◌>>=◌}
use puppet_stg_environment.CheckIo.Message.{Piece}
use puppet_stg_environment.CheckIo.Device.{Verdict}
use puppet_stg_environment.CheckIo.Devices.{Devices, collect, check_all}
use puppet_stg_environment.CheckIo.Arguments.{Args, check_args}
use puppet_stg_environment.CheckIo.Main.{
  Surroundings, Reading, fetch, sleep_for, device_names, measure, Ending, handle, conclude,
  set_alarm, checked, run, exit_code,
}
use puppet_stg_environment.CheckIo.Main.Endings.{handle-not_zero}
use puppet_stg_environment.CheckIo.Main.Healthy.{HasPassed, run-HasPassed}
use puppet_stg_environment.CheckIo.Main.Steps.{
  State, starting, validating, naming, sampling, sleeping, resampling, judging, ended, validated,
  Step, arm, validate, name, sample, rest, resample, judge, interrupt, Reach, here, then, outcome,
}

false-not_true : false ≡ true → ⊥
false-not_true h = cc

module _ (s : Surroundings) (a : Args) (verbose : Bool) (devices : List Text) where
  -- What is still to do in a state, as `measure` writes it.
  after_sample : Devices → Result (List Verdict)
  after_sample ds = do
    second ← fetch a.timeout s.after
    complete ← collect second ds
    check_all s.maxsize complete

  after_names : Devices → Result (List Verdict)
  after_names ds = do
    first ← fetch a.timeout s.before
    sampled ← collect first ds
    _ ← sleep_for a.timeout s.sleep
    after_sample sampled

  -- The end that `main` comes to from here without the alarm.
  end_from : State → Ending
  end_from starting = run s a verbose devices
  end_from validating = checked s a verbose devices
  end_from naming = conclude verbose (measure s a verbose devices)
  end_from (sampling ds) = conclude verbose (after_names ds)
  end_from (sleeping ds) = conclude verbose (sleep_for a.timeout s.sleep >>= λ _. after_sample ds)
  end_from (resampling ds) = conclude verbose (after_sample ds)
  end_from (judging ds) = conclude verbose (check_all s.maxsize ds)
  end_from (ended e) = e

  outcome_bind {ℓ} :
      {A : Type ℓ} (m : Result A) (f : A → Result State) (k : A → Result (List Verdict))
      → ((x : A) → end_from (outcome s a verbose devices (f x)) ≡ conclude verbose (k x))
      → end_from (outcome s a verbose devices (m >>= f)) ≡ conclude verbose (m >>= k)
  unfolding end_from conclude
  outcome_bind (ok x) f k h = h x
  outcome_bind (raises e) f k h = refl

  collect_bind :
      (r : Reading) (ds : Devices) (t : Devices → State) (k : Devices → Result (List Verdict))
      → ((more : Devices) → end_from (t more) ≡ conclude verbose (k more))
      → end_from (
          outcome s a verbose devices
            (fetch a.timeout r >>= λ rows. collect rows ds >>= λ more. ok (t more)))
        ≡ conclude verbose (fetch a.timeout r >>= λ rows. collect rows ds >>= k)
  collect_bind r ds t k h =
      outcome_bind (fetch a.timeout r) _ _
        (λ rows. outcome_bind (collect rows ds) (λ more. ok (t more)) k h)

  bind_ok : (m : Result (List Verdict)) → (m >>= λ vs. ok vs) ≡ m
  bind_ok (ok vs) = refl
  bind_ok (raises e) = refl

  validated_end :
      (o : Option (List Piece))
      → check_args a ≡ o
      → end_from (validated s a verbose devices o) ≡ checked s a verbose devices
  unfolding end_from checked
  validated_end none e = rw (checked, e) refl
  validated_end (some message) e = rw (checked, e) refl

  armed_end :
      (r : Result (Unit {0}))
      → set_alarm a.timeout ≡ r
      → end_from (outcome s a verbose devices (r >>= λ _. ok validating)) ≡ run s a verbose devices
  unfolding end_from run
  armed_end (ok _) e = rw (run, e) refl
  armed_end (raises x) e = rw (run, e) refl

  timed_out : Ending
  timed_out = handle verbose (script_timeout a.timeout)

  Step-end_from :
      {t u : State}
      → Step s a verbose devices t u
      → (end_from u ≡ end_from t) ⊎ (u ≡ ended timed_out)
  unfolding end_from timed_out measure after_names after_sample conclude
  Step-end_from arm = inl (armed_end (set_alarm a.timeout) refl)
  Step-end_from validate = inl (validated_end (check_args a) refl)
  Step-end_from name =
      inl (outcome_bind (device_names verbose a.timeout s.discovery devices) _ _ (λ names. refl))
  Step-end_from (sample ds) = inl (collect_bind s.before ds sleeping _ (λ more. refl))
  Step-end_from (rest ds) = inl (outcome_bind (sleep_for a.timeout s.sleep) _ _ (λ _. refl))
  Step-end_from (resample ds) = inl (collect_bind s.after ds judging _ (λ more. refl))
  Step-end_from (judge ds) = inl (
      outcome_bind (check_all s.maxsize ds) _ (λ vs. ok vs) (λ vs. refl)
      ∙ ap (conclude verbose) (bind_ok (check_all s.maxsize ds)))
  Step-end_from (interrupt state l) = inr refl

  Reach-end_from :
      {t u : State}
      → Reach s a verbose devices t u
      → (end_from u ≡ end_from t) ⊎ (end_from u ≡ timed_out)
  unfolding end_from timed_out
  Reach-end_from here = inl refl
  Reach-end_from (then x r) = elim (Reach-end_from r) [
    | inr e ↦ inr e
    | inl e ↦ elim (Step-end_from x) [ inl f ↦ inl (e ∙ f) | inr f ↦ inr (e ∙ ap end_from f) ]
  ]

  -- The machine ends as `run` does, or by the alarm.
  Reach-run :
      (e : Ending)
      → Reach s a verbose devices starting (ended e)
      → (e ≡ run s a verbose devices) ⊎ (e ≡ handle verbose (script_timeout a.timeout))
  unfolding end_from timed_out
  Reach-run e r = Reach-end_from r

-- Without `--verbose`, wherever the alarm may have gone off, a run that ends with status 0 has had
-- arguments that fit together and has read both samples, and each device of the dictionary for the
-- names that it has found has its rows of these two and is within its limits.
pub Reach-HasPassed :
    (s : Surroundings) (a : Args) (devices : List Text) (e : Ending)
    → Reach s a false devices starting (ended e)
    → exit_code e ≡ 0
    → HasPassed s a false devices
Reach-HasPassed s a devices e r h = elim (Reach-run s a false devices e r) [
  | inr t ↦ absurd (handle-not_zero (script_timeout a.timeout) (rw t at h))
  | inl t ↦ elim (run-HasPassed s a false devices (rw t at h)) [
    | inl (x, v, u, m) ↦ absurd (false-not_true v)
    | inr passed ↦ passed
  ]
]
