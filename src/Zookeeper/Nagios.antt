-- ===== src/Zookeeper/Nagios.antt =====
-- `NagiosHandler.analyze`
pub mod Levels
pub mod Order
use puppet_stg_environment.Common.{
  ℕ, Option, none, some, Bool, true, false, ◌&&◌, ◌||◌, List, [], ◌∷◌, ◌++◌, is_nil, if◌then◌else◌,
}
use puppet_stg_environment.Common.Int.{ℤ, ltb_ℤ}
use puppet_stg_environment.Common.Text.{Text, text_eq, codes, join}
use puppet_stg_environment.Common.Decimal.{show, int}
use puppet_stg_environment.Common.Dict.{lookup}
use puppet_stg_environment.Zookeeper.Value.{
  Value, Stats, ClusterStats, show_value, at_least, at_most, above, below,
}
use puppet_stg_environment.Zookeeper.Options.{Options, Outcome, fails, prints}

-- The three lists of the loop.
pub record Verdicts : Type 0 where
  pub warning_state : List Text
  pub critical_state : List Text
  pub values : List Text

-- `warning >= value > critical or warning <= value < critical`
unfoldable pub is_warning : ℤ → ℤ → Value → Bool
is_warning w c v = at_least w v && above v c || at_most w v && below v c

-- `(warning < critical and critical <= value) or (warning > critical and critical >= value)`
unfoldable pub is_critical : ℤ → ℤ → Value → Bool
is_critical w c v = ltb_ℤ w c && at_most c v || ltb_ℤ c w && at_least c v

-- `'%s=%s;%s;%s' % (host, value, warning, critical)`
unfoldable pub perfdata : ℤ → ℤ → Text → Value → Text
perfdata w c host v = host ++ (61 ∷ (show_value v ++ (59 ∷ (show w ++ (59 ∷ show c)))))

unfoldable pub judge : ℤ → ℤ → Text → Value → Verdicts → Verdicts
judge w c host v s =
    let values = s.values ++ perfdata w c host v ∷ [] in
    if is_warning w c v
    then record s { values = values; warning_state = s.warning_state ++ host ∷ [] }
    else if is_critical w c v
    then record s { values = values; critical_state = s.critical_state ++ host ∷ [] }
    else record s { values = values }

-- `if opts.key in stats:`
abbrev pub judge_entry : ℤ → ℤ → Text → Option Value → Verdicts → Verdicts
judge_entry w c host none s = s
judge_entry w c host (some v) s = judge w c host v s

-- The loop over `cluster_stats.items()`.
unfoldable pub judge_all : ℤ → ℤ → Text → ClusterStats → Verdicts → Verdicts
judge_all w c key [] s = s
judge_all w c key ((host, stats) ∷ cluster) s =
    judge_all w c key cluster (judge_entry w c host (lookup key stats) s)

abbrev pub no_verdicts : Verdicts
no_verdicts = record { warning_state = []; critical_state = []; values = [] }

headline : Text → Text → List Text → List Text → Text
headline word key hosts values =
    word
    ++ (codes " \""
        ++ (key
            ++ (codes "\" "
                ++ (join (codes ", ") hosts ++ (codes "!|" ++ join (codes " ") values)))))

-- The prints and the return value behind the loop.
unfoldable pub conclude : Text → Verdicts → Outcome
unfolding headline
conclude key s =
    if is_nil s.critical_state
    then (if is_nil s.warning_state
        then prints 0 (codes "Ok \"" ++ (key ++ (codes "\"!|" ++ join (codes " ") s.values)))
        else prints 1 (headline (codes "Warning") key s.warning_state s.values))
    else prints 2 (headline (codes "Critical") key s.critical_state s.values)

-- `int(opts.warning)`: no option is a `TypeError`, which is handled like the `ValueError`.
abbrev pub threshold : Option Text → Option ℤ
threshold none = none
threshold (some s) = int s

unfoldable pub analyze_key : Option Text → ℤ → ℤ → ClusterStats → Outcome
analyze_key none w c cluster = fails 2 (codes "You should specify a key name.")
analyze_key (some key) w c cluster = conclude key (judge_all w c key cluster no_verdicts)

invalid_thresholds : Outcome
invalid_thresholds = fails 2 (codes "Invalid values for \"warning\" and \"critical\".")

unfoldable pub analyze : Options → ClusterStats → Outcome
unfolding analyze_key invalid_thresholds
analyze opts cluster = elim (threshold opts.warning) [
  | none ↦ invalid_thresholds
  | some w ↦ elim (threshold opts.critical) [
    | none ↦ invalid_thresholds
    | some c ↦ analyze_key opts.key w c cluster
  ]
]
