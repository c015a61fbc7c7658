-- ===== src/AwsRds/Main.antt =====
-- `main`: from the parsed options to the exit status.
use puppet_stg_environment.Common.{
  ℕ, Option, none, some, Bool, true, false, not, [], ◌∷◌, ◌++◌, ◌==◌, is_nil, eqb, ◌&&◌,
  if◌then◌else◌,
}
use puppet_stg_environment.Common.Text.{Text, text_eq, codes, join}
use puppet_stg_environment.AwsRds.Floats.{Floats}
use puppet_stg_environment.AwsRds.Stats.{
  Instance, instances, server_error, broken, Aws, get_rds_info,
}
use puppet_stg_environment.AwsRds.Outcome.{Outcome, judged, usage_error, leaves, exception}
use puppet_stg_environment.AwsRds.Load.{check_load}
use puppet_stg_environment.AwsRds.Free.{Resource, storage, memory, check_free}

-- `bare` says that there are no arguments at all.
pub record Options : Type 0 where
  pub bare : Bool
  pub db_list : Bool
  pub ident : Option Text
  pub info : Bool
  pub metric : Option Text
  pub warn : Option Text
  pub crit : Option Text
  pub unit : Text

-- How the program ends: with a line and a status, after `pprint` of instances, after the help, by
-- `parser.error`, or by an exception that nothing catches.
pub data Ending : Type 0 where
  exits : ℕ → Text → Ending
  lists : Ending
  shows : Instance → Ending
  helps : Ending
  fails : Text → Ending
  raises : Ending

pub data Metric : Type 0 where
  status load : Metric
  free : Resource → Metric

unfoldable pub metric_of : Text → Option Metric
metric_of name =
    if name == codes "status"
    then some status
    else if name == codes "load"
    then some load
    else if name == codes "memory"
    then some (free memory)
    else if name == codes "storage"
    then some (free storage)
    else none

-- An option that is missing or empty is not true.
unfoldable pub given : Option Text → Option Text
given none = none
given (some t) = if is_nil t then none else some t

abbrev pub needs_thresholds : Metric → Bool
needs_thresholds status = false
needs_thresholds load = true
needs_thresholds (free r) = true

-- The `status` metric.
unfoldable pub check_status : {F : Type 0} → Aws F → Text → Outcome
check_status aws ident = elim (get_rds_info aws ident) [
  | none ↦ exception
  | some info ↦ elim info [
    | none ↦ judged 3 (codes "Unable to get RDS instance") none
    | some i ↦
        judged 0
          (join [] (i.engine ∷ codes " " ∷ i.engine_version ∷ codes ". Status: " ∷ i.status ∷ []))
          none
  ]
]

module _ {F : Type 0} (fl : Floats F) (aws : Aws F) where
  unfoldable pub check : Metric → Text → Text → Text → Text → Outcome
  check status ident warn crit unit = check_status aws ident
  check load ident warn crit unit = check_load fl aws ident warn crit
  check (free r) ident warn crit unit = check_free fl aws ident r warn crit unit

  -- `short_status[status]`
  abbrev pub short_status : ℕ → Text
  short_status n =
      if eqb n 0
      then codes "OK"
      else if eqb n 1
      then codes "WARN"
      else if eqb n 2
      then codes "CRIT"
      else codes "UNK"

  abbrev pub shown : Option Text → Text
  shown none = []
  shown (some perf) = perf

  -- The final output: performance data are shown unless the status is unknown.
  abbrev pub final_line : ℕ → Text → Option Text → Text
  final_line n note perf =
      if not (eqb n 3) && not (is_nil (shown perf))
      then join [] (short_status n ∷ codes " " ∷ note ∷ codes " | " ∷ shown perf ∷ [])
      else join [] (short_status n ∷ codes " " ∷ note ∷ [])

  unfoldable pub finish : Outcome → Ending
  finish (judged n note perf) = exits n (final_line n note perf)
  finish (usage_error message) = fails message
  finish (leaves n text) = exits n text
  finish exception = raises

  abbrev pub text_of : Option Text → Text
  text_of none = []
  text_of (some t) = t

  -- The checks of the thresholds, and the metric.
  unfoldable pub run_metric : Options → Text → Metric → Ending
  run_metric o ident m =
      if needs_thresholds m
      then elim (given o.warn) [
        | none ↦ fails (codes "Warning threshold is not set.")
        | some warn ↦ elim (given o.crit) [
          | none ↦ fails (codes "Critical threshold is not set.")
          | some crit ↦ finish (check m ident warn crit o.unit)
        ]
      ]
      else finish (check m ident (text_of o.warn) (text_of o.crit) o.unit)

  abbrev pub bad_metric : Ending
  bad_metric = fails (codes "Metric is not set or not valid.")

  -- `get_rds_info()` asks for all instances, and an answer of any kind is printed.
  unfoldable pub list_all : Ending
  list_all = elim aws.describe_all [
    | instances found ↦ lists
    | server_error ↦ lists
    | broken ↦ raises
  ]

  unfoldable pub show_info : Text → Ending
  show_info ident = elim (get_rds_info aws ident) [
    | none ↦ raises
    | some info ↦ elim info [
      | none ↦
          exits 0 (codes "No DB instance \"" ++ (ident ++ codes "\" found on your AWS account."))
      | some i ↦ shows i
    ]
  ]

  unfoldable pub choose_metric : Options → Text → Ending
  choose_metric o ident = elim (given o.metric) [
    | none ↦ bad_metric
    | some name ↦ elim (metric_of name) [ none ↦ bad_metric | some m ↦ run_metric o ident m ]
  ]

  -- The options in the order in which `main` looks at them.
  unfoldable pub main : Options → Ending
  main o = if o.bare then helps else if o.db_list then list_all else elim (given o.ident) [
    | none ↦ fails (codes "DB identifier is not set.")
    | some ident ↦ if o.info then show_info ident else choose_metric o ident
  ]

-- The exit status; `parser.error` leaves with 2, an exception with 1.
abbrev pub exit_code : Ending → ℕ
exit_code (exits n text) = n
exit_code lists = 0
exit_code (shows i) = 0
exit_code helps = 0
exit_code (fails message) = 2
exit_code raises = 1
