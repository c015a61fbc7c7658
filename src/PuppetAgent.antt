-- ===== src/PuppetAgent.antt =====
-- `profiles/files/nrpeplugins/check_puppet_agent_last_run.py`, the plugin that judges the last run of
-- the Puppet agent by the summary that it leaves. The YAML library is a parameter.
pub mod Ages
pub mod Thresholds
pub mod Sources
pub mod Healthy
mod Tests
use puppet_stg_environment.Common.{
  ℕ, Option, none, some, Bool, true, false, List, [], ◌∷◌, ◌==◌, if◌then◌else◌,
}
use puppet_stg_environment.Common.Int.{ℤ, pos, negsuc, ◌-ℤ◌, ◌*ℤ◌, ltb_ℤ}
use puppet_stg_environment.Common.Text.{Text, text_eq, codes}
use puppet_stg_environment.Common.Decimal.{int}
use puppet_stg_environment.Common.Getopt.{getopt}

-- A loaded document. A `float` is finite, in millionths; `infinite true` is above all numbers and
-- `infinite false` below them. `unordered` is a timestamp or a set, which cannot be compared with a
-- number, `other` a sequence or another value that can.
mutual
  pub data Yaml : Type 0 where
    null nan other unordered : Yaml
    boolean infinite : Bool → Yaml
    number float : ℤ → Yaml
    text : Text → Yaml
    mapping : Entries → Yaml

  pub data Entries : Type 0 where
    no_entries : Entries
    entry : Text → Yaml → Entries → Entries

-- `d[key]`, by a name.
pub data Subscript : Type 0 where
  found : Yaml → Subscript
  key_error type_error : Subscript

unfoldable pub lookup_entry : Text → Entries → Subscript
lookup_entry key no_entries = key_error
lookup_entry key (entry k v es) = if key == k then found v else lookup_entry key es

unfoldable pub subscript : Yaml → Text → Subscript
subscript (mapping es) key = lookup_entry key es
subscript _ key = type_error

abbrev pub then_subscript : Subscript → Text → Subscript
then_subscript (found y) key = subscript y key
then_subscript key_error key = key_error
then_subscript type_error key = type_error

-- `y > 0`, where Python 2 puts `None` before the numbers and texts and containers behind them; `none` is
-- a `TypeError`.
abbrev pub is_positive : Yaml → Option Bool
is_positive null = some false
is_positive nan = some false
is_positive unordered = none
is_positive (boolean b) = some b
is_positive (infinite above) = some above
is_positive (number z) = some (ltb_ℤ (pos 0) z)
is_positive (float z) = some (ltb_ℤ (pos 0) z)
is_positive other = some true
is_positive (text s) = some true
is_positive (mapping es) = some true

-- What the plugin prints. Times are in millionths of a second.
pub data Notice : Type 0 where
  bad_options undefined_deltas unreadable unloadable missing_data : Notice
  critical_age warning_age : ℤ → ℤ → Notice
  failures : Text → Notice
  okay : Notice

-- An exception that nothing catches leaves with 1.
pub data Ending : Type 0 where
  exits : ℕ → Notice → Ending
  uncaught : Ending

abbrev pub exit_code : Ending → ℕ
exit_code (exits n notice) = n
exit_code uncaught = 1

-- `summary` is the text of the file, unless it cannot be read, and `load` the YAML library.
pub record Machine : Type 0 where
  pub arguments : List Text
  pub summary : Option Text
  pub load : Text → Option Yaml

pub record Deltas : Type 0 where
  pub warning : Option ℤ
  pub critical : Option ℤ

-- The loop over the options; `none` is the `ValueError` of `int`.
unfoldable pub set_deltas : List (Text × Text) → Deltas → Option Deltas
set_deltas [] d = some d
set_deltas ((opt, arg) ∷ opts) d =
    if opt == codes "-w"
    then elim (int arg) [ none ↦ none | some n ↦ set_deltas opts (record d { warning = some n }) ]
    else if opt == codes "-c"
    then elim (int arg) [ none ↦ none | some n ↦ set_deltas opts (record d { critical = some n }) ]
    else set_deltas opts d

-- What the judgement is made from, or the end that comes before it.
pub record Facts : Type 0 where
  pub warning : ℤ
  pub critical : ℤ
  pub summary : Text
  pub last_run : Yaml
  pub resources : Yaml
  pub events : Yaml

pub data Gathered : Type 0 where
  stops : Ending → Gathered
  ready : Facts → Gathered

abbrev pub missing : Gathered
missing = stops (exits 2 missing_data)

-- The three values of the summary, in the order in which they are sought: only a `TypeError` is
-- caught.
unfoldable pub read_facts : ℤ → ℤ → Text → Yaml → Gathered
read_facts w c lrs status =
    elim (then_subscript (subscript status (codes "time")) (codes "last_run")) [
      | key_error ↦ stops uncaught
      | type_error ↦ missing
      | found t ↦ elim (then_subscript (subscript status (codes "resources")) (codes "failed")) [
        | key_error ↦ stops uncaught
        | type_error ↦ missing
        | found r ↦ elim (then_subscript (subscript status (codes "events")) (codes "failure")) [
          | key_error ↦ stops uncaught
          | type_error ↦ missing
          | found e ↦ ready (record {
            warning = w;
            critical = c;
            summary = lrs;
            last_run = t;
            resources = r;
            events = e;
          })
        ]
      ]
    ]

unfoldable pub load_facts : Machine → ℤ → ℤ → Gathered
load_facts m w c = elim m.summary [
  | none ↦ stops (exits 2 unreadable)
  | some lrs ↦ elim (m.load lrs) [
    | none ↦ stops (exits 2 unloadable)
    | some status ↦ read_facts w c lrs status
  ]
]

abbrev pub with_deltas : Machine → Option ℤ → Option ℤ → Gathered
with_deltas m (some w) (some c) = load_facts m w c
with_deltas m _ _ = stops (exits 2 undefined_deltas)

unfoldable pub gather : Machine → Gathered
gather m = elim (getopt (codes "w:c:") m.arguments) [
  | none ↦ stops (exits 2 bad_options)
  | some (opts, args) ↦ elim (set_deltas opts (record { warning = none; critical = none })) [
    | none ↦ stops uncaught
    | some d ↦ with_deltas m d.warning d.critical
  ]
]

abbrev pub seconds : ℤ → ℤ
seconds n = pos 1000000 *ℤ n

-- `resources_failures > 0 or events_failures > 0`
unfoldable pub judge_failures : Facts → Ending
judge_failures f = elim (is_positive f.resources) [
  | none ↦ uncaught
  | some failed ↦ if failed then exits 1 (failures f.summary) else elim (is_positive f.events) [
    | none ↦ uncaught
    | some failing ↦ if failing then exits 1 (failures f.summary) else exits 0 okay
  ]
]

-- The tests of the age and of the failures.
unfoldable pub judge_age : Facts → ℤ → Ending
judge_age f delta =
    if ltb_ℤ (seconds f.critical) delta
    then exits 2 (critical_age delta f.critical)
    else if ltb_ℤ (seconds f.warning) delta
    then exits 1 (warning_age delta f.warning)
    else judge_failures f

-- A time in millionths of a second: `unmatched` one whose age is above no number, `long_ago` one whose
-- age is above all of them, and `timeless` what cannot be taken from a time.
pub data Time : Type 0 where
  at : ℤ → Time
  unmatched long_ago timeless : Time

unfoldable pub time_of : Yaml → Time
time_of (number t) = at (seconds t)
time_of (float t) = at t
time_of (boolean b) = at (seconds (pos (if b then 1 else 0)))
time_of nan = unmatched
time_of (infinite above) = if above then unmatched else long_ago
time_of _ = timeless

-- `now - last_run_time` is a `TypeError` unless the time is a number; an infinite age cannot be printed
-- as a whole number, which is an `OverflowError`.
abbrev pub judge_time : Facts → Time → ℤ → Ending
judge_time f (at t) now = judge_age f (now -ℤ t)
judge_time f unmatched now = judge_failures f
judge_time f long_ago now = uncaught
judge_time f timeless now = uncaught

unfoldable pub judge : Facts → Yaml → ℤ → Ending
judge f y now = judge_time f (time_of y) now

abbrev pub conclude : Gathered → ℤ → Ending
conclude (stops e) now = e
conclude (ready f) now = judge f f.last_run now

unfoldable pub run : Machine → ℤ → Ending
run m now = conclude (gather m) now
