-- ===== src/AwsRds/Cli/Healthy.antt =====
-- What an exit status of 0 means, from the command line on.
use puppet_stg_environment.Common.{
  Option, ℕ, suc, ◌≡◌, refl, ◌≢◌, ◌⊎◌, inl, inr, none, some, Bool, true, false, List, is_nil,
  Bool-cases, Option-cases, arith,
}
use mathlib.Core.Path.{subst}
use puppet_stg_environment.Common.Text.{Text}
use puppet_stg_environment.Common.Optparse.{Parsed, accepted, rejected, helped, parse_args}
use puppet_stg_environment.Common.Optparse.Items.{store_all}
use puppet_stg_environment.AwsRds.Floats.{Floats}
use puppet_stg_environment.AwsRds.Stats.{Instance, broken, Aws, get_rds_info}
use puppet_stg_environment.AwsRds.Outcome.{Outcome, judged, usage_error, leaves, exception, IsOk}
use puppet_stg_environment.AwsRds.Load.Below.{IsQuiet, check_load-IsQuiet}
use puppet_stg_environment.AwsRds.Free.Room.{IsRoomy, check_free-IsRoomy}
use puppet_stg_environment.AwsRds.Main.{
  Metric, load, free, status, Options, given, metric_of, check_status, check, finish, run_metric,
  choose_metric, list_all, show_info, main, exit_code,
}
use puppet_stg_environment.AwsRds.Cli.{
  Dest, options_known, store, defaults, run_parsed, command, command_code,
}

suc-not_zero : (n : ℕ) → suc n ≡ 0 → ⊥
suc-not_zero n h = omega arith

module _ {F : Type 0} (fl : Floats F) (aws : Aws F) where
  finish-IsOk : (o : Outcome) → exit_code (finish fl aws o) ≡ 0 → IsOk o
  unfolding finish
  finish-IsOk (judged n note perf) h = h
  finish-IsOk (usage_error message) h = suc-not_zero 1 h
  finish-IsOk (leaves n text) h = h
  finish-IsOk exception h = suc-not_zero 0 h

  check_status-found :
      (ident : Text)
      → IsOk (check_status aws ident)
      → (i : Instance) × (get_rds_info aws ident ≡ some (some i))
  unfolding check_status
  check_status-found ident h = elim (Option-cases (get_rds_info aws ident)) [
    | inl e ↦ absurd (rw (check_status, e) at h)
    | inr (none, e) ↦ absurd (suc-not_zero 2 (rw (check_status, e) at h))
    | inr (some i, e) ↦ (i, e)
  ]

  -- The instance is there; both thresholds are given, and the averages are below them; or both are
  -- given, and what is free is above them.
  abbrev pub IsFine : Metric → Text → Options → Type 0
  IsFine status ident o = (i : Instance) × (get_rds_info aws ident ≡ some (some i))
  IsFine load ident o =
      (warn crit : Text) × (given o.warn ≡ some warn)
      × (given o.crit ≡ some crit)
      × IsQuiet fl aws ident warn crit
  IsFine (free r) ident o =
      (warn crit : Text) × (given o.warn ≡ some warn)
      × (given o.crit ≡ some crit)
      × IsRoomy fl aws ident r warn crit o.unit

  run_metric-IsFine :
      (o : Options) (ident : Text) (m : Metric)
      → exit_code (run_metric fl aws o ident m) ≡ 0
      → IsFine m ident o
  unfolding run_metric check
  run_metric-IsFine o ident status h = check_status-found ident (finish-IsOk _ h)
  run_metric-IsFine o ident load h = elim (Option-cases (given o.warn)) [
    | inl w ↦ absurd (suc-not_zero 1 (rw (run_metric, w) at h))
    | inr (warn, w) ↦ elim (Option-cases (given o.crit)) [
      | inl c ↦ absurd (suc-not_zero 1 (rw (run_metric, w, c) at h))
      | inr (crit, c) ↦ (
        warn,
        crit,
        w,
        c,
        check_load-IsQuiet fl aws ident warn crit (finish-IsOk _ (rw (run_metric, w, c) at h)),
      )
    ]
  ]
  run_metric-IsFine o ident (free r) h = elim (Option-cases (given o.warn)) [
    | inl w ↦ absurd (suc-not_zero 1 (rw (run_metric, w) at h))
    | inr (warn, w) ↦ elim (Option-cases (given o.crit)) [
      | inl c ↦ absurd (suc-not_zero 1 (rw (run_metric, w, c) at h))
      | inr (crit, c) ↦ (
        warn,
        crit,
        w,
        c,
        check_free-IsRoomy fl aws ident r warn crit o.unit
            (finish-IsOk _ (rw (run_metric, w, c) at h)),
      )
    ]
  ]

  -- A metric is named and fine.
  abbrev pub Reports : Options → Text → Type 0
  Reports o ident =
      (name : Text) × (m : Metric) × (given o.metric ≡ some name)
      × (metric_of name ≡ some m)
      × IsFine m ident o

  choose_metric-Reports :
      (o : Options) (ident : Text) → exit_code (choose_metric fl aws o ident) ≡ 0 → Reports o ident
  unfolding choose_metric
  choose_metric-Reports o ident h = elim (Option-cases (given o.metric)) [
    | inl e ↦ absurd (suc-not_zero 1 (rw (choose_metric, e) at h))
    | inr (name, e) ↦ elim (Option-cases (metric_of name)) [
      | inl f ↦ absurd (suc-not_zero 1 (rw (choose_metric, e, f) at h))
      | inr (m, f) ↦ (name, m, e, f, run_metric-IsFine o ident m (rw (choose_metric, e, f) at h))
    ]
  ]

  -- Amazon has answered the question for the instance, which is shown, or not found.
  abbrev pub IsShown : Options → Text → Type 0
  IsShown o ident =
      (o.info ≡ true) × (info : Option Instance) × (get_rds_info aws ident ≡ some info)

  show_info-IsShown :
      (ident : Text)
      → exit_code (show_info fl aws ident) ≡ 0
      → (info : Option Instance) × (get_rds_info aws ident ≡ some info)
  unfolding show_info
  show_info-IsShown ident h = elim (Option-cases (get_rds_info aws ident)) [
    | inl e ↦ absurd (suc-not_zero 0 (rw (show_info, e) at h))
    | inr (info, e) ↦ (info, e)
  ]

  list_all-broken : exit_code (list_all fl aws) ≡ 0 → aws.describe_all ≢ broken
  unfolding list_all
  list_all-broken h = λ e. suc-not_zero 0 (rw (list_all, e) at h)

  -- There are no arguments, or the instances are listed, or an instance is named, and looked up to be
  -- shown or judged.
  abbrev pub ExplainsZero : Options → Type 0
  ExplainsZero o =
      (o.bare ≡ true)
      ⊎ (((o.db_list ≡ true) × (aws.describe_all ≢ broken))
          ⊎ ((ident : Text) × (given o.ident ≡ some ident) × (IsShown o ident ⊎ Reports o ident)))

  main-choose_metric :
      (o : Options) (ident : Text)
      → o.bare ≡ false
      → o.db_list ≡ false
      → given o.ident ≡ some ident
      → o.info ≡ false
      → main fl aws o ≡ choose_metric fl aws o ident
  unfolding main choose_metric run_metric
  main-choose_metric o ident b l d f = rw (main, b, l, d, f) refl

  main-list_all :
      (o : Options) → o.bare ≡ false → o.db_list ≡ true → main fl aws o ≡ list_all fl aws
  unfolding main
  main-list_all o b l = rw (main, b, l) refl

  main-show_info :
      (o : Options) (ident : Text)
      → o.bare ≡ false
      → o.db_list ≡ false
      → given o.ident ≡ some ident
      → o.info ≡ true
      → main fl aws o ≡ show_info fl aws ident
  unfolding main
  main-show_info o ident b l d f = rw (main, b, l, d, f) refl

  main-ExplainsZero : (o : Options) → exit_code (main fl aws o) ≡ 0 → ExplainsZero o
  unfolding main
  main-ExplainsZero o h = elim (Bool-cases o.bare) [
    | inl b ↦ inl b
    | inr b ↦ elim (Bool-cases o.db_list) [
      | inl l ↦
          inr (inl (l, list_all-broken (subst (λ e. exit_code e ≡ 0) (main-list_all o b l) h)))
      | inr l ↦ elim (Option-cases (given o.ident)) [
        | inl d ↦ absurd (suc-not_zero 1 (rw (main, b, l, d) at h))
        | inr (ident, d) ↦ elim (Bool-cases o.info) [
          | inl f ↦
              let (info, e) =
                show_info-IsShown ident
                  (subst (λ e. exit_code e ≡ 0) (main-show_info o ident b l d f) h) in
              inr (inr (ident, d, inl (f, info, e)))
          | inr f ↦ inr (
              inr (
                ident,
                d,
                inr (
                    choose_metric-Reports o ident
                      (subst (λ e. exit_code e ≡ 0) (main-choose_metric o ident b l d f) h)),
              ))
        ]
      ]
    ]
  ]

  abbrev pub ParsedZero : Bool → Parsed Dest → Type 0
  ParsedZero bare rejected = ⊥
  ParsedZero bare (helped settings) = Unit
  ParsedZero bare (accepted settings args) = ExplainsZero (store_all store settings (defaults bare))

  parsed-ParsedZero :
      (bare : Bool) (p : Parsed Dest)
      → command_code (run_parsed fl aws bare p) ≡ 0
      → ParsedZero bare p
  parsed-ParsedZero bare rejected h = suc-not_zero 1 h
  parsed-ParsedZero bare (helped settings) h = tt
  parsed-ParsedZero bare (accepted settings args) h = main-ExplainsZero _ h

  -- For every command line and all answers of Amazon, an exit status of 0 means that help was asked for,
  -- that there are no arguments, that all instances were asked for and Amazon has answered, that one was
  -- to be shown and Amazon has answered, be it that there is none, or that the metric is fine: the
  -- instance is there, or each of its three average loads is below both thresholds, or what is free of
  -- it is above both.
  pub command-ParsedZero :
      (argv : List Text)
      → command_code (command fl aws argv) ≡ 0
      → ParsedZero (is_nil argv) (parse_args options_known argv)
  unfolding command
  command-ParsedZero argv h = parsed-ParsedZero (is_nil argv) (parse_args options_known argv) h
