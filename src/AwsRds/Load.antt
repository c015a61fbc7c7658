-- ===== src/AwsRds/Load.antt =====
-- The `load` metric: the averages over one, five and fifteen minutes against their thresholds.
pub mod Worst
pub mod Counts
pub mod Bounds
pub mod Below
use puppet_stg_environment.Common.{
  ℕ, suc, ◌+◌, ◌*◌, Option, none, some, Bool, true, false, List, [], ◌∷◌, ◌++◌, length, get_elem?,
  eqb, if◌then◌else◌,
}
use puppet_stg_environment.Common.Text.{Text, codes, split_on, join}
use puppet_stg_environment.Common.Decimal.{show_ℕ}
use puppet_stg_environment.AwsRds.Floats.{Floats}
use puppet_stg_environment.AwsRds.Stats.{Aws, get_rds_stats}
use puppet_stg_environment.AwsRds.Outcome.{Outcome, judged, usage_error, exception, cpu_utilization}

-- The variables of the loop; `status` is `None` at first.
pub record Progress : Type 0 where
  pub status : Option ℕ
  pub fail : Bool
  pub loads : List Text
  pub perf_data : List Text

-- What a round of the loop does: `missing` is its `break`, `inconsistent` the call of `parser.error`.
pub data Round : Type 0 where
  goes_on : Progress → Round
  missing inconsistent crashed : Round

abbrev pub start : Progress
start = record { status = none; fail = false; loads = []; perf_data = [] }

-- `n` for `i`: a statistic of one minute is sought in the last five.
abbrev pub minutes_back : ℕ → ℕ
minutes_back i = if eqb i 1 then 5 else i

-- `if status is None: status = OK`
abbrev pub final_status : Option ℕ → ℕ
final_status none = 0
final_status (some status) = status

module _ {F : Type 0} (fl : Floats F) where
  -- `[float(x) for x in texts]`
  unfoldable pub parse_all : List Text → Option (List F)
  parse_all [] = some []
  parse_all (t ∷ ts) =
      let rest = parse_all ts in
      elim (fl.parse t) [
        | none ↦ none
        | some x ↦ elim rest [ none ↦ none | some xs ↦ some (x ∷ xs) ]
      ]

  -- `'load%s=%s;%s;%s;0;100' % (i, load, warns[j], crits[j])`
  abbrev pub perf_item : ℕ → F → F → F → Text
  perf_item i load warn crit =
      codes "load"
      ++ (show_ℕ i
          ++ (codes "="
              ++ join (codes ";")
                  (fl.show load ∷ fl.show warn ∷ fl.show crit ∷ codes "0;100" ∷ [])))

  -- The comparisons of a round, which stop after a critical load.
  unfoldable pub compare : F → F → F → Progress → Round
  compare load warn crit p =
      if p.fail
      then goes_on p
      else if fl.lt crit warn
      then inconsistent
      else if fl.le crit load
      then goes_on (record p { status = some 2; fail = true })
      else if fl.le warn load
      then goes_on (record p { status = some 1 })
      else goes_on p

  module _ (aws : Aws F) (ident : Text) (warns crits : List F) where
    -- A round that has its load.
    unfoldable pub take_load : ℕ → ℕ → F → Progress → Round
    take_load i j load p = elim (get_elem? warns j) [
      | none ↦ crashed
      | some warn ↦ elim (get_elem? crits j) [
        | none ↦ crashed
        | some crit ↦ compare load warn crit (record p {
          loads = p.loads ++ fl.show load ∷ [];
          perf_data = p.perf_data ++ perf_item i load warn crit ∷ [];
        })
      ]
    ]

    -- `not load` holds of an empty result and of 0.
    unfoldable pub judge_load : ℕ → ℕ → Option F → Progress → Round
    judge_load i j none p = missing
    judge_load i j (some load) p = if fl.is_zero load then missing else take_load i j load p

    unfoldable pub round : ℕ → ℕ → Progress → Round
    round i j p = elim (get_rds_stats fl aws (i * 60) (minutes_back i * 60) cpu_utilization ident) [
      | none ↦ crashed
      | some o ↦ judge_load i j o p
    ]

    unfoldable pub rounds : List ℕ → ℕ → Progress → Round
    rounds [] j p = goes_on p
    rounds (i ∷ is) j p = elim (round i j p) [
      | goes_on q ↦ rounds is (suc j) q
      | missing ↦ missing
      | inconsistent ↦ inconsistent
      | crashed ↦ crashed
    ]

  unfoldable pub conclude_load : Round → Outcome
  conclude_load (goes_on p) =
      judged (final_status p.status)
        (codes "Load average: " ++ (join (codes "%, ") p.loads ++ codes "%"))
        (some (join (codes " ") p.perf_data))
  conclude_load missing = judged 3 (codes "Unable to get RDS statistics") none
  conclude_load inconsistent =
      usage_error (codes "Parameter inconsistency: warning threshold is greater than critical.")
  conclude_load crashed = exception

  abbrev pub bad_thresholds : Outcome
  bad_thresholds =
      usage_error
        (codes "Warning and critical thresholds should be 3 comma separated numbers, e.g. 20,15,10")

  unfoldable pub check_load : Aws F → Text → Text → Text → Outcome
  check_load aws ident warn crit = elim (parse_all (split_on 44 warn)) [
    | none ↦ bad_thresholds
    | some warns ↦ elim (parse_all (split_on 44 crit)) [
      | none ↦ bad_thresholds
      | some crits ↦
          if eqb (length warns + length crits) 6
          then conclude_load (rounds aws ident warns crits (1 ∷ 5 ∷ 15 ∷ []) 0 start)
          else bad_thresholds
    ]
  ]
