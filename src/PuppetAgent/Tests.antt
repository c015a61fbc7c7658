-- ===== src/PuppetAgent/Tests.antt =====
-- Runs of the plugin on concrete summaries, and its theorems at concrete data.
use puppet_stg_environment.Common.{ℕ, ◌≡◌, refl, ◌≤◌, ◌↔◌, none, some, false, List, [], ◌∷◌, arith}
use puppet_stg_environment.Common.Int.{pos, ◌*ℤ◌, ◌-ℤ◌}
use puppet_stg_environment.Common.Text.{Text, text_eq, codes, strip}
use puppet_stg_environment.Common.Decimal.{int, signed, unsigned, value_from}
use puppet_stg_environment.Common.Getopt.{short_has_arg, do_shorts, getopt_from, getopt}
use puppet_stg_environment.PuppetAgent.{
  number, float, boolean, mapping, Entries, no_entries, entry, key_error, lookup_entry, subscript,
  exit_code, Machine, Facts, set_deltas, read_facts, load_facts, gather, judge, judge_age,
  judge_failures, time_of, run,
}
use puppet_stg_environment.PuppetAgent.Healthy.{IsGood, run_ok_iff}
use puppet_stg_environment.PuppetAgent.Sources.{IsGathered}
use puppet_stg_environment.PuppetAgent.Ages.{run-le}

abbrev opts : List (Text × Text)
opts = (codes "-w", codes "3600") ∷ (codes "-c", codes "7200") ∷ []

abbrev section : Text → ℕ → Entries
section key n = entry key (number (pos n)) no_entries

abbrev arguments : List Text
arguments = codes "-w3600" ∷ codes "-c" ∷ codes "7200" ∷ codes "more" ∷ []

options_read : getopt (codes "w:c:") arguments ≡ some (opts, codes "more" ∷ [])
unfolding getopt_from do_shorts short_has_arg codes text_eq
options_read = refl

long_refused : getopt (codes "w:c:") (codes "-w" ∷ codes "1" ∷ codes "--help" ∷ []) ≡ none
unfolding getopt_from do_shorts short_has_arg codes text_eq
long_refused = refl

-- A run at second 1000 with no failures.
abbrev fine : Entries
fine = entry (codes "time") (mapping (section (codes "last_run") 1000)) (
    entry (codes "resources") (mapping (section (codes "failed") 0))
      (entry (codes "events") (mapping (section (codes "failure") 0)) no_entries))

-- A summary that holds its version only.
abbrev bare : Entries
bare = entry (codes "version") (mapping no_entries) no_entries

abbrev machine : Entries → Machine
machine es = record {
  arguments = arguments;
  summary = some (codes "---");
  load = λ text. some (mapping es);
}

fine_in_time : exit_code (run (machine fine) (pos 2000000000)) ≡ 0
unfolding run gather getopt_from do_shorts short_has_arg set_deltas load_facts read_facts subscript
    lookup_entry judge judge_age judge_failures time_of codes text_eq int signed unsigned value_from
    strip ◌*ℤ◌ ◌-ℤ◌
fine_in_time = refl

fine_too_late : exit_code (run (machine fine) (pos 9000000000)) ≡ 2
unfolding run gather getopt_from do_shorts short_has_arg set_deltas load_facts read_facts subscript
    lookup_entry judge judge_age judge_failures time_of codes text_eq int signed unsigned value_from
    strip ◌*ℤ◌ ◌-ℤ◌
fine_too_late = refl

run-le_example :
    exit_code (run (machine fine) (pos 2000000000))
    ≤ exit_code (run (machine fine) (pos 9000000000))
run-le_example = run-le (machine fine) (pos 2000000000) (pos 9000000000) (omega arith)

deltas_set :
    set_deltas opts (record { warning = none; critical = none })
    ≡ some (record { warning = some (pos 3600); critical = some (pos 7200) })
unfolding set_deltas codes text_eq int signed unsigned value_from strip
deltas_set = refl

no_time : lookup_entry (codes "time") bare ≡ key_error
unfolding lookup_entry codes text_eq
no_time = refl

-- A run with no failures.
run_ok_iff_example :
    (exit_code (run (machine fine) (pos 2000000000)) ≡ 0)
    ↔ ((f : Facts) × IsGathered (machine fine) f × IsGood f (pos 2000000000))
run_ok_iff_example = run_ok_iff (machine fine) (pos 2000000000)

facts_there : (f : Facts) × IsGathered (machine fine) f × IsGood f (pos 2000000000)
facts_there = (run_ok_iff (machine fine) (pos 2000000000)).0 fine_in_time

-- `failed: false` is no failure.
abbrev unfailed : Facts
unfailed = record {
  warning = pos 3600;
  critical = pos 7200;
  summary = codes "---";
  last_run = float (pos 1000500000);
  resources = boolean false;
  events = number (pos 0);
}

unfailed_passes : exit_code (judge unfailed unfailed.last_run (pos 2000000000)) ≡ 0
unfolding judge judge_age judge_failures time_of ◌*ℤ◌ ◌-ℤ◌
unfailed_passes = refl
