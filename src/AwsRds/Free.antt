-- ===== src/AwsRds/Free.antt =====
-- The `storage` and `memory` metrics: what is free of an instance against its thresholds.
pub mod Room
use puppet_stg_environment.Common.{
  ℕ, Option, none, some, Bool, true, false, List, [], ◌∷◌, ◌++◌, ◌==◌, if◌then◌else◌,
}
use puppet_stg_environment.Common.Text.{Text, text_eq, codes, join}
use puppet_stg_environment.Common.Dict.{Dict, lookup}
use puppet_stg_environment.AwsRds.Floats.{Floats}
use puppet_stg_environment.AwsRds.Stats.{Instance, Aws, get_rds_info, get_rds_stats}
use puppet_stg_environment.AwsRds.Outcome.{
  Outcome, judged, usage_error, leaves, exception, freeable_memory, free_storage_space,
}

pub data Resource : Type 0 where
  storage memory : Resource

abbrev pub resource_name : Resource → Text
resource_name storage = codes "storage"
resource_name memory = codes "memory"

-- `metrics[options.metric]`
abbrev pub cloudwatch_name : Resource → Text
cloudwatch_name storage = free_storage_space
cloudwatch_name memory = freeable_memory

-- Gigabytes of memory by instance class, as the literals of the source.
unfoldable pub db_classes : Dict Text Text
db_classes =
    (codes "db.t1.micro", codes "0.61")
    ∷ (codes "db.m1.small", codes "1.7")
    ∷ (codes "db.m1.medium", codes "3.75")
    ∷ (codes "db.m1.large", codes "7.5")
    ∷ (codes "db.m1.xlarge", codes "15")
    ∷ (codes "db.m2.xlarge", codes "17.1")
    ∷ (codes "db.m2.2xlarge", codes "34")
    ∷ (codes "db.m2.4xlarge", codes "68")
    ∷ (codes "db.cr1.8xlarge", codes "244")
    ∷ []

-- The thresholds of `options.unit`.
pub data Scale : Type 0 where
  percents gigabytes : Scale

unfoldable pub scale_of : Text → Option Scale
scale_of unit =
    if unit == codes "percent"
    then some percents
    else if unit == codes "GB"
    then some gigabytes
    else none

module _ {F : Type 0} (fl : Floats F) where
  -- The size of the resource, and how `%s` prints it; `none` is the `KeyError` of an unknown class.
  unfoldable pub size_of : Resource → Instance → Option (F × Text)
  size_of storage i = some (fl.of_nat i.allocated_storage, fl.show (fl.of_nat i.allocated_storage))
  size_of memory i = elim (lookup i.instance_class db_classes) [
    | none ↦ none
    | some t ↦ some (fl.literal t, t)
  ]

  -- 2 at or below the critical threshold, 1 at or below the warning threshold.
  unfoldable pub free_status : F → F → F → ℕ
  free_status warn crit val = if fl.le val crit then 2 else if fl.le val warn then 1 else 0

  -- `val`, with the text of `val_max`.
  abbrev pub value_for : Scale → F → F → Text → F × Text
  value_for percents gb pct size_text = (pct, codes "100")
  value_for gigabytes gb pct size_text = (gb, size_text)

  abbrev pub free_note : Resource → F → F → Text → Text
  free_note r free pct size_text = join [] (
      codes "Free "
      ∷ resource_name r
      ∷ codes ": "
      ∷ fl.fixed2 (fl.gibibytes free)
      ∷ codes " GB ("
      ∷ fl.fixed0 pct
      ∷ codes "%) of "
      ∷ size_text
      ∷ codes " GB"
      ∷ [])

  abbrev pub free_perf : Resource → F → F → F → Text → Text
  free_perf r val warn crit val_max = join [] (
      codes "free_"
      ∷ resource_name r
      ∷ codes "="
      ∷ join (codes ";") (fl.show val ∷ fl.show warn ∷ fl.show crit ∷ codes "0" ∷ val_max ∷ [])
      ∷ [])

  -- The judgement on bytes that are free, once the size is known. A size of zero is a
  -- `ZeroDivisionError`.
  unfoldable pub judge_free : Resource → Scale → F → F → F → F × Text → Outcome
  judge_free r scale warn crit free (size, size_text) =
      elim (fl.percent (fl.round2 (fl.gibibytes free)) size) [
        | none ↦ exception
        | some ratio ↦
            let v = value_for scale (fl.round2 (fl.gibibytes free)) (fl.round2 ratio) size_text in
            judged (free_status warn crit v.0) (free_note r free (fl.round2 ratio) size_text)
              (some (free_perf r v.0 warn crit v.1))
      ]

  unfoldable pub judge_instance : Resource → Scale → F → F → F → Instance → Outcome
  judge_instance r scale warn crit free i = elim (size_of r i) [
    | none ↦ leaves 2 (codes "Unknown DB instance class \"" ++ (i.instance_class ++ codes "\""))
    | some size ↦ judge_free r scale warn crit free size
  ]

  abbrev pub no_details : Outcome
  no_details = judged 3 (codes "Unable to get RDS details and statistics") none

  -- `if not info or not free`; 0 is not true either.
  unfoldable pub judge_answers : Resource → Scale → F → F → Option Instance → Option F → Outcome
  judge_answers r scale warn crit none free = no_details
  judge_answers r scale warn crit (some i) none = no_details
  judge_answers r scale warn crit (some i) (some free) =
      if fl.is_zero free then no_details else judge_instance r scale warn crit free i

  -- What Amazon is asked once the options are in order; an exception of either call ends the program.
  unfoldable pub ask_free : Aws F → Text → Resource → Scale → F → F → Outcome
  ask_free aws ident r scale warn crit = elim (get_rds_info aws ident) [
    | none ↦ exception
    | some info ↦ elim (get_rds_stats fl aws 60 60 (cloudwatch_name r) ident) [
      | none ↦ exception
      | some free ↦ judge_answers r scale warn crit info free
    ]
  ]

  abbrev pub not_integers : Outcome
  not_integers = usage_error (codes "Warning and critical thresholds should be integers.")

  unfoldable pub check_free : Aws F → Text → Resource → Text → Text → Text → Outcome
  check_free aws ident r warn_text crit_text unit = elim (fl.parse warn_text) [
    | none ↦ not_integers
    | some warn ↦ elim (fl.parse crit_text) [
      | none ↦ not_integers
      | some crit ↦
          if fl.lt warn crit
          then usage_error
              (codes "Parameter inconsistency: critical threshold is greater than warning.")
          else elim (scale_of unit) [
            | none ↦ usage_error (codes "Unit is not valid.")
            | some scale ↦ ask_free aws ident r scale warn crit
          ]
    ]
  ]
