-- ===== src/Zookeeper/Ganglia.antt =====
-- `GangliaHandler.analyze`
pub mod Calls
use puppet_stg_environment.Common.{ℕ, Bool, true, false, Option, none, some, List, [], ◌∷◌, ◌++◌}
use puppet_stg_environment.Common.Int.{ℤ}
use puppet_stg_environment.Common.Text.{Text, codes}
use puppet_stg_environment.Common.Decimal.{show, int}
use puppet_stg_environment.Zookeeper.Value.{Value, num, str, Stats, ClusterStats}
use puppet_stg_environment.Zookeeper.Options.{Options, Outcome, fails}

-- `int(v)`
unfoldable pub int_value : Value → Option ℤ
int_value (num z) = some z
int_value (str s) = int s

-- `[opts.gmetric, '-n', k, '-v', str(int(v)), '-t', 'uint32']`
unfoldable pub gmetric_call : Text → Text → ℤ → List Text
gmetric_call gmetric k z =
    gmetric ∷ codes "-n" ∷ k ∷ codes "-v" ∷ show z ∷ codes "-t" ∷ codes "uint32" ∷ []

-- A value that is no number is passed over.
abbrev pub calls_for : Text → Text → Option ℤ → List (List Text)
calls_for gmetric k none = []
calls_for gmetric k (some z) = gmetric_call gmetric k z ∷ []

unfoldable pub send_all : Text → Stats → List (List Text)
send_all gmetric [] = []
send_all gmetric ((k, v) ∷ stats) = calls_for gmetric k (int_value v) ++ send_all gmetric stats

-- A binary that cannot be run is an `OSError` of the first call, which nothing catches: the traceback
-- goes to the standard error, and the status is 1.
abbrev pub sent : Bool → List (List Text) → Outcome
sent can_run [] = record { status = none; out = []; err = []; calls = [] }
sent true (call ∷ calls) = record { status = none; out = []; err = []; calls = call ∷ calls }
sent false (call ∷ calls) = fails 1 (codes "OSError")

-- The programs that are run are in `calls`; nothing looks at their results. `can_run` says which the
-- system can run.
unfoldable pub analyze : (Text → Bool) → Options → ClusterStats → Outcome
unfolding send_all
analyze can_run opts ((host, stats) ∷ []) =
    sent (can_run opts.gmetric) (send_all opts.gmetric stats)
analyze can_run opts cluster = fails 1 (codes "Only allowed to monitor a single node.")
