-- ===== src/Zookeeper/Nagios/Levels.antt =====
-- The handler against a plain reading of its thresholds.
use puppet_stg_environment.Common.{
  ℕ, ◌+◌, ◌≤◌, ◌≡◌, refl, max, Option, none, some, Bool, true, false, inl, inr, List, [], ◌∷◌, ◌++◌,
  is_nil, arith, eqb, if◌then◌else◌, Option-cases, append_assoc, append-nil,
}
use puppet_stg_environment.Common.Int.{ℤ, ltb_ℤ}
use puppet_stg_environment.Common.Text.{Text, text_eq}
use puppet_stg_environment.Common.Dict.{lookup}
use puppet_stg_environment.Zookeeper.Value.{Value, num, str, ClusterStats, at_least, at_most}
use puppet_stg_environment.Zookeeper.Options.{Options}
use puppet_stg_environment.Zookeeper.Nagios.{
  Verdicts, is_warning, is_critical, perfdata, judge, judge_entry, judge_all, no_verdicts, conclude,
  threshold, analyze,
}

abbrev bit : Bool → ℕ
bit true = 1
bit false = 0

-- How many of the two thresholds a value has reached: upwards if the warning comes first, downwards
-- if it comes last, and none if the two are equal.
unfoldable pub level : ℤ → ℤ → Value → ℕ
level w c v =
    if ltb_ℤ w c
    then bit (at_most w v) + bit (at_most c v)
    else if ltb_ℤ c w
    then bit (at_least w v) + bit (at_least c v)
    else 0

is_warning-level : (w c : ℤ) (v : Value) → is_warning w c v ≡ eqb (level w c v) 1
unfolding is_warning level
is_warning-level w c (num z) = ground arith
is_warning-level w c (str s) = ground arith

is_critical-level : (w c : ℤ) (v : Value) → is_critical w c v ≡ eqb (level w c v) 2
unfolding is_critical level
is_critical-level w c (num z) = ground arith
is_critical-level w c (str s) = ground arith

pub level-le : (w c : ℤ) (v : Value) → level w c v ≤ 2
unfolding level
level-le w c v = ground arith

abbrev at_level : ℕ → ℤ → ℤ → Text → Option Value → List Text
at_level n w c host none = []
at_level n w c host (some v) = if eqb (level w c v) n then host ∷ [] else []

-- The servers whose value of the key is at a level, in order.
unfoldable pub hosts_at : ℕ → ℤ → ℤ → Text → ClusterStats → List Text
hosts_at n w c key [] = []
hosts_at n w c key ((host, stats) ∷ cluster) =
    at_level n w c host (lookup key stats) ++ hosts_at n w c key cluster

abbrev perfdata_of : ℤ → ℤ → Text → Option Value → List Text
perfdata_of w c host none = []
perfdata_of w c host (some v) = perfdata w c host v ∷ []

-- A value of the key for each server that states one.
unfoldable pub all_perfdata : ℤ → ℤ → Text → ClusterStats → List Text
all_perfdata w c key [] = []
all_perfdata w c key ((host, stats) ∷ cluster) =
    perfdata_of w c host (lookup key stats) ++ all_perfdata w c key cluster

abbrev with_lists : Verdicts → List Text → List Text → List Text → Verdicts
with_lists s warnings criticals values = record {
  warning_state = s.warning_state ++ warnings;
  critical_state = s.critical_state ++ criticals;
  values = s.values ++ values;
}

judge_entry-lists :
    (w c : ℤ) (host : Text) (o : Option Value) (s : Verdicts)
    → judge_entry w c host o s
      ≡ with_lists s (at_level 1 w c host o) (at_level 2 w c host o) (perfdata_of w c host o)
unfolding judge
judge_entry-lists w c host none s = simp append-nil
judge_entry-lists w c host (some v) s =
    rw (is_warning-level w c v, is_critical-level w c v)
      (ground (arith, append-nil s.warning_state, append-nil s.critical_state))

judge_all-lists :
    (w c : ℤ) (key : Text) (cluster : ClusterStats) (s : Verdicts)
    → judge_all w c key cluster s
      ≡ with_lists s
          (hosts_at 1 w c key cluster)
          (hosts_at 2 w c key cluster)
          (all_perfdata w c key cluster)
unfolding judge_all hosts_at all_perfdata
judge_all-lists w c key [] s = simp append-nil
judge_all-lists w c key ((host, stats) ∷ cluster) s = rw (
  judge_entry-lists w c host (lookup key stats) s,
  judge_all-lists w c key cluster (
      with_lists s (at_level 1 w c host (lookup key stats)) (at_level 2 w c host (lookup key stats))
        (perfdata_of w c host (lookup key stats))),
  append_assoc,
  append_assoc,
  append_assoc,
)

abbrev pub level_of : ℤ → ℤ → Option Value → ℕ
level_of w c none = 0
level_of w c (some v) = level w c v

-- The highest level that any server has reached.
unfoldable pub worst : ℤ → ℤ → Text → ClusterStats → ℕ
worst w c key [] = 0
worst w c key ((host, stats) ∷ cluster) =
    max (level_of w c (lookup key stats)) (worst w c key cluster)

abbrev status_from : List Text → List Text → ℕ
status_from criticals warnings = if is_nil criticals then (if is_nil warnings then 0 else 1) else 2

status_from-worst :
    (w c : ℤ) (key : Text) (cluster : ClusterStats)
    → status_from (hosts_at 2 w c key cluster) (hosts_at 1 w c key cluster) ≡ worst w c key cluster
unfolding hosts_at worst
status_from-worst w c key [] = refl
status_from-worst w c key ((host, stats) ∷ cluster) = elim (Option-cases (lookup key stats)) [
  | inl e ↦ rw e (rw (status_from-worst w c key cluster) (omega arith))
  | inr (v, e) ↦ rw e (ground (arith, level-le w c v, status_from-worst w c key cluster))
]

conclude-status :
    (key : Text) (s : Verdicts)
    → (conclude key s).status ≡ some (status_from s.critical_state s.warning_state)
unfolding conclude
conclude-status key s = ground arith

pub analyze-conclude :
    (opts : Options) (cluster : ClusterStats) {w c : ℤ} {key : Text}
    → threshold opts.warning ≡ some w
    → threshold opts.critical ≡ some c
    → opts.key ≡ some key
    → analyze opts cluster ≡ conclude key (judge_all w c key cluster no_verdicts)
unfolding analyze
analyze-conclude opts cluster ew ec ek = rw (analyze, ew, ec, ek)

-- With thresholds that are numbers and a key, the exit status is the highest number of thresholds
-- that any server's value of the key has reached; servers without the key do not count.
pub analyze-worst :
    (opts : Options) (cluster : ClusterStats) {w c : ℤ} {key : Text}
    → threshold opts.warning ≡ some w
    → threshold opts.critical ≡ some c
    → opts.key ≡ some key
    → (analyze opts cluster).status ≡ some (worst w c key cluster)
analyze-worst opts cluster {w} {c} {key} ew ec ek = rw (
  analyze-conclude opts cluster ew ec ek,
  conclude-status key (judge_all w c key cluster no_verdicts),
  judge_all-lists w c key cluster no_verdicts,
  status_from-worst w c key cluster,
)
