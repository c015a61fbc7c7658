-- ===== src/Zookeeper/Main/Outages.antt =====
-- What the program makes of servers that cannot be reached.
use puppet_stg_environment.Common.{Bool, ℕ, ◌≡◌, refl, Option, some, List, [], ◌∷◌, ◌++◌, arith}
use puppet_stg_environment.Common.Int.{ℤ}
use puppet_stg_environment.Common.Text.{Text}
use puppet_stg_environment.Zookeeper.Value.{ClusterStats}
use puppet_stg_environment.Zookeeper.Options.{Options}
use puppet_stg_environment.Zookeeper.Cluster.{Network, socket_error, query, get_cluster_stats}
use puppet_stg_environment.Zookeeper.Cluster.Failures.{get_cluster_stats_down, as_fields}
use puppet_stg_environment.Zookeeper.Nagios.{threshold}
use puppet_stg_environment.Zookeeper.Nagios.Levels.{worst, analyze-worst}
use puppet_stg_environment.Zookeeper.Main.{
  Handler, nagios, create_handler, Ended, exits, crashes, analyze, output_stats, run,
}

-- A server that cannot be reached, wherever it is listed, changes neither the exit status nor
-- anything that is printed.
run_down :
    (can_run : Text → Bool) (net : Network) (opts : Options) (before after : List (List Text))
    (host port : Text)
    → query net host port ≡ socket_error
    → run can_run net opts (before ++ (host ∷ port ∷ []) ∷ after)
      ≡ run can_run net opts (before ++ after)
unfolding run
run_down can_run net opts before after host port down =
    rw (run, get_cluster_stats_down net host port down before after)

-- No server can be reached.
abbrev pub AllDown : Network → List (Text × Text) → Type 0
AllDown net [] = Unit
AllDown net ((host, port) ∷ servers) = (query net host port ≡ socket_error) × AllDown net servers

all_down :
    (net : Network) (servers : List (Text × Text))
    → AllDown net servers
    → get_cluster_stats net (as_fields servers) ≡ some []
unfolding get_cluster_stats
all_down net [] h = refl
all_down net ((host, port) ∷ servers) h =
    rw (get_cluster_stats_down net host port h.0 [] (as_fields servers)) (all_down net servers h.1)

abbrev pub ExitsWith : Ended → Option ℕ → Type 0
ExitsWith (exits done) status = done.status ≡ status
ExitsWith crashes status = ⊥

pub output_stats-analyze :
    (can_run : Text → Bool) (opts : Options) (cluster : ClusterStats) {name : Text}
    {handler : Handler}
    → opts.output ≡ some name
    → create_handler name ≡ some handler
    → output_stats can_run opts cluster ≡ analyze can_run handler opts cluster
unfolding output_stats
output_stats-analyze can_run opts cluster e h = ground arith

-- With every server down, the Nagios handler exits with status 0, the one for a healthy cluster.
pub run-AllDown :
    (can_run : Text → Bool) (net : Network) (opts : Options) (servers : List (Text × Text))
    {w c : ℤ} {key name : Text}
    → opts.output ≡ some name
    → create_handler name ≡ some nagios
    → threshold opts.warning ≡ some w
    → threshold opts.critical ≡ some c
    → opts.key ≡ some key
    → AllDown net servers
    → ExitsWith (run can_run net opts (as_fields servers)) (some 0)
unfolding run analyze worst
run-AllDown can_run net opts servers eo eh ew ec ek down =
    rw (run, all_down net servers down, output_stats-analyze can_run opts [] eo eh)
      (analyze-worst opts [] ew ec ek)
