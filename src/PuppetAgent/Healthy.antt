-- ===== src/PuppetAgent/Healthy.antt =====
-- What stands behind an exit status of 0.
use puppet_stg_environment.Common.{
  ◌≡◌, refl, ap, ◌∙◌, ◌↔◌, Option, none, some, Bool, true, false, inl, inr, Option-cases, arith,
}
use puppet_stg_environment.Common.Int.{ℤ, ◌≤ℤ◌, ◌-ℤ◌}
use puppet_stg_environment.PuppetAgent.{
  is_positive, exit_code, Machine, Facts, Gathered, stops, ready, gather, seconds, judge_failures,
  judge_age, Time, at, unmatched, long_ago, timeless, time_of, judge_time, judge, conclude, run,
}
use puppet_stg_environment.PuppetAgent.Sources.{
  IsGathered, Explains, suc-not_zero, gather-Explains, gather-ready,
}

-- The age is above neither threshold.
abbrev pub IsTimely : Facts → ℤ → Time → Type 0
IsTimely f now (at t) = ((now -ℤ t) ≤ℤ seconds f.critical) × ((now -ℤ t) ≤ℤ seconds f.warning)
IsTimely f now unmatched = Unit
IsTimely f now _ = ⊥

-- The run was at a time that is too long ago for neither threshold, and had no failures.
pub record IsGood (f : Facts) (now : ℤ) : Type 0 where
  pub last_run : IsTimely f now (time_of f.last_run)
  pub resources : is_positive f.resources ≡ some false
  pub events : is_positive f.events ≡ some false

abbrev HasNoFailures : Facts → Type 0
HasNoFailures f = (is_positive f.resources ≡ some false) × (is_positive f.events ≡ some false)

none-not_false : ◌≡◌ {A = Option Bool} none (some false) → ⊥
none-not_false h = cc

judged-not_false : some true ≡ some false → ⊥
judged-not_false h = cc

judge_failures_iff : (f : Facts) → (exit_code (judge_failures f) ≡ 0) ↔ HasNoFailures f
unfolding judge_failures
judge_failures_iff f = elim (Option-cases (is_positive f.resources)) [
  | inl r ↦
      rw (judge_failures, r) (λ h. absurd (suc-not_zero 0 h), λ (k, l). absurd (none-not_false k))
  | inr (true, r) ↦
      rw (judge_failures, r) (λ h. absurd (suc-not_zero 0 h), λ (k, l). absurd (judged-not_false k))
  | inr (false, r) ↦ elim (Option-cases (is_positive f.events)) [
    | inl e ↦
        rw (judge_failures, r, e)
          (λ h. absurd (suc-not_zero 0 h), λ (k, l). absurd (none-not_false l))
    | inr (true, e) ↦
        rw (judge_failures, r, e)
          (λ h. absurd (suc-not_zero 0 h), λ (k, l). absurd (judged-not_false l))
    | inr (false, e) ↦ rw (judge_failures, r, e) (λ h. (refl, refl), λ k. refl)
  ]
]

judge_age_iff :
    (f : Facts) (delta : ℤ)
    → (exit_code (judge_age f delta) ≡ 0) ↔ (
        (delta ≤ℤ seconds f.critical)
        × (delta ≤ℤ seconds f.warning)
        × (exit_code (judge_failures f) ≡ 0))
unfolding judge_age
judge_age_iff f delta = ground arith

judge_time_iff :
    (f : Facts) (now : ℤ) (t : Time)
    → (exit_code (judge_time f t now) ≡ 0) ↔ (IsTimely f now t × HasNoFailures f)
judge_time_iff f now (at t) =
    let age = judge_age_iff f (now -ℤ t) in
    let none_failed = judge_failures_iff f in
    (
      λ h. let (c, w, k) = age.0 h in ((c, w), none_failed.0 k),
      λ ((c, w), k). age.1 (c, w, none_failed.1 k),
    )
judge_time_iff f now unmatched =
    let none_failed = judge_failures_iff f in
    (λ h. (tt, none_failed.0 h), λ (u, k). none_failed.1 k)
judge_time_iff f now long_ago = (λ h. absurd (suc-not_zero 0 h), λ (b, k). absurd b)
judge_time_iff f now timeless = (λ h. absurd (suc-not_zero 0 h), λ (b, k). absurd b)

judge_iff : (f : Facts) (now : ℤ) → (exit_code (judge f f.last_run now) ≡ 0) ↔ IsGood f now
unfolding judge
judge_iff f now =
    let timed = judge_time_iff f now (time_of f.last_run) in
    (
      λ h. let (t, (r, v)) = timed.0 h in record { last_run = t; resources = r; events = v },
      λ g. timed.1 (g.last_run, (g.resources, g.events)),
    )

conclude-cases :
    (m : Machine) (now : ℤ) (g : Gathered)
    → gather m ≡ g
    → Explains m g
    → exit_code (conclude g now) ≡ 0
    → (f : Facts) × IsGathered m f × IsGood f now
conclude-cases m now (stops e) h x k = absurd (x k)
conclude-cases m now (ready f) h x k = (f, x, (judge_iff f now).0 k)

-- For all arguments the exit status is 0 exactly if every threshold that is given is a number, both are
-- given, the summary can be read and loaded, and the run that it tells of is too old for neither of the
-- last ones given and has no failures.
pub run_ok_iff :
    (m : Machine) (now : ℤ)
    → (exit_code (run m now) ≡ 0) ↔ ((f : Facts) × IsGathered m f × IsGood f now)
unfolding run
run_ok_iff m now = (
  conclude-cases m now (gather m) refl (gather-Explains m),
  λ (f, g, good).
      ap (λ x. exit_code (conclude x now)) (gather-ready m f g) ∙ (judge_iff f now).1 good,
)
