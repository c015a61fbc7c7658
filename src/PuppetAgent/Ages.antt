-- ===== src/PuppetAgent/Ages.antt =====
-- How the exit status depends on the time and on the summary.
use puppet_stg_environment.Common.{
  ◌≡◌, refl, ◌≤◌, none, some, true, false, inl, inr, List, Option-cases, arith,
}
use puppet_stg_environment.Common.Int.{ℤ, ◌≤ℤ◌, ◌-ℤ◌}
use puppet_stg_environment.Common.Text.{Text, codes}
use puppet_stg_environment.Common.Getopt.{getopt}
use puppet_stg_environment.PuppetAgent.{
  mapping, Yaml, Entries, key_error, lookup_entry, subscript, exit_code, Machine, set_deltas, Facts,
  Gathered, stops, ready, read_facts, load_facts, gather, is_positive, judge_failures, judge_age,
  Time, at, unmatched, long_ago, timeless, time_of, judge_time, judge, conclude, run,
}

failures-le : (f : Facts) → exit_code (judge_failures f) ≤ 1
unfolding judge_failures
failures-le f = elim (Option-cases (is_positive f.resources)) [
  | inl r ↦ rw (judge_failures, r) (omega arith)
  | inr (true, r) ↦ rw (judge_failures, r) (omega arith)
  | inr (false, r) ↦ elim (Option-cases (is_positive f.events)) [
    | inl e ↦ rw (judge_failures, r, e) (omega arith)
    | inr (true, e) ↦ rw (judge_failures, r, e) (omega arith)
    | inr (false, e) ↦ rw (judge_failures, r, e) (omega arith)
  ]
]

judge_age-le :
    (f : Facts) (x y : ℤ) → x ≤ℤ y → exit_code (judge_age f x) ≤ exit_code (judge_age f y)
unfolding judge_age
judge_age-le f x y h = ground (arith, failures-le f)

minus-le : (x y t : ℤ) → x ≤ℤ y → (x -ℤ t) ≤ℤ (y -ℤ t)
unfolding ◌-ℤ◌
minus-le x y t h = ground arith

judge_time-le :
    (f : Facts) (t : Time) (x y : ℤ)
    → x ≤ℤ y
    → exit_code (judge_time f t x) ≤ exit_code (judge_time f t y)
judge_time-le f (at t) x y h = judge_age-le f _ _ (minus-le x y t h)
judge_time-le f unmatched x y h = omega arith
judge_time-le f long_ago x y h = omega arith
judge_time-le f timeless x y h = omega arith

judge-le :
    (f : Facts) (t : Yaml) (x y : ℤ) → x ≤ℤ y → exit_code (judge f t x) ≤ exit_code (judge f t y)
unfolding judge
judge-le f t x y h = judge_time-le f (time_of t) x y h

conclude-le :
    (g : Gathered) (x y : ℤ) → x ≤ℤ y → exit_code (conclude g x) ≤ exit_code (conclude g y)
conclude-le (stops e) x y h = omega arith
conclude-le (ready f) x y h = judge-le f f.last_run x y h

-- As time passes the exit status never gets better, whatever the thresholds, the summary and its
-- defects are.
pub run-le :
    (m : Machine) (now later : ℤ) → now ≤ℤ later → exit_code (run m now) ≤ exit_code (run m later)
unfolding run
run-le m now later h = conclude-le (gather m) now later h

-- A summary with no section for the times, such as one that a failed run leaves, ends the program
-- with an uncaught exception: the status is the one of a warning.
pub run_no_times :
    (m : Machine) (now : ℤ) (opts : List (Text × Text)) (args : List Text) (w c : ℤ) (lrs : Text)
    (es : Entries)
    → getopt (codes "w:c:") m.arguments ≡ some (opts, args)
    → set_deltas opts (record { warning = none; critical = none })
      ≡ some (record { warning = some w; critical = some c })
    → m.summary ≡ some lrs
    → m.load lrs ≡ some (mapping es)
    → lookup_entry (codes "time") es ≡ key_error
    → exit_code (run m now) ≡ 1
unfolding run gather load_facts read_facts subscript
run_no_times m now opts args w c lrs es o d s l k =
    rw (run, gather, o, d, load_facts, s, l, read_facts, k) refl
