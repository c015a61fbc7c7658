-- ===== src/Zookeeper/Tests.antt =====
-- Runs of the plugin on concrete answers, and its theorems at concrete data.
use puppet_stg_environment.Common.{
  ◌≡◌, refl, none, some, true, false, [], ◌∷◌, All, ◌==◌, if◌then◌else◌,
}
use puppet_stg_environment.Common.Int.{pos}
use puppet_stg_environment.Common.Text.{Text, text_eq, codes, strip, readlines}
use puppet_stg_environment.Common.Text.Split.{lacks, lacks_sound}
use puppet_stg_environment.Common.Decimal.{int, signed, unsigned, value_from}
use puppet_stg_environment.Common.Dict.{lookup, insert, NodupKeys}
use puppet_stg_environment.Zookeeper.Value.{num, str, Stats, ClusterStats}
use puppet_stg_environment.Zookeeper.Options.{Options}
use puppet_stg_environment.Zookeeper.Mntr.{parse}
use puppet_stg_environment.Zookeeper.Mntr.RoundTrip.{IsField, IsEntry, print_mntr, parse-print_mntr}
use puppet_stg_environment.Zookeeper.Mntr.Invariant.{IsClean, parse-IsClean}
use puppet_stg_environment.Zookeeper.Stat.{parse_stat}
use puppet_stg_environment.Zookeeper.Stat.RoundTrip.{
  Report, IsPrintable, print_stat, figures, parse_stat-print_stat,
}
use puppet_stg_environment.Zookeeper.Cluster.{
  Network, socket_error, query, get_stats, get_cluster_stats,
}
use puppet_stg_environment.Zookeeper.Cluster.Failures.{
  get_cluster_stats_down, as_fields, answering, get_cluster_stats-answering,
}
use puppet_stg_environment.Zookeeper.Nagios.{threshold}
use puppet_stg_environment.Zookeeper.Nagios as Nagios
use puppet_stg_environment.Zookeeper.Nagios.Levels.{worst, level, analyze-worst}
use puppet_stg_environment.Zookeeper.Cacti as Cacti
use puppet_stg_environment.Zookeeper.Ganglia as Ganglia
use puppet_stg_environment.Zookeeper.Ganglia.Calls.{numeric_calls, analyze-parse}
use puppet_stg_environment.Zookeeper.Main.{nagios, create_handler}

field : (s : Text) → lacks 9 s ≡ true → lacks 10 s ≡ true → strip s ≡ s → IsField s
field s t n e = record { no_tab = lacks_sound 9 s t; no_newline = lacks_sound 10 s n; stripped = e }

abbrev pub sample : Stats
sample =
    (codes "zk_version", str (codes "3.4.6"))
    ∷ (codes "zk_avg_latency", num (pos 12))
    ∷ (codes "zk_server_state", str (codes "leader"))
    ∷ []

pub sample-IsEntry : All IsEntry sample
unfolding codes strip int signed unsigned value_from
sample-IsEntry = (
  (field _ refl refl refl, (λ e. cc), (field _ refl refl refl, refl)),
  (
    (field _ refl refl refl, (λ e. cc), tt),
    ((field _ refl refl refl, (λ e. cc), (field _ refl refl refl, refl)), tt),
  ),
)

pub sample-NodupKeys : NodupKeys sample
unfolding codes lookup text_eq
sample-NodupKeys = (refl, (refl, (refl, tt)))

parse-print_mntr_example : parse (print_mntr sample) ≡ sample
parse-print_mntr_example = parse-print_mntr sample sample-IsEntry sample-NodupKeys

parse-IsClean_example : IsClean (parse (codes "zk_version\t3.4.6\nbroken line\n"))
parse-IsClean_example = parse-IsClean (codes "zk_version\t3.4.6\nbroken line\n")

abbrev report : Report
report = record {
  version = codes "3.3.6";
  clients = codes " /10.0.0.7:5000[1](queued=0)" ∷ [];
  low = 0;
  avg = 3;
  high = 250;
  received = 1042;
  sent = 1041;
  outstanding = 0;
  zxid = codes "0x2f";
  mode = codes "follower";
  nodes = 17;
}

report-IsPrintable : IsPrintable report
unfolding codes strip
report-IsPrintable = record {
  version_line = lacks_sound 10 (codes "3.3.6") refl;
  version_stripped = refl;
  client_lines = (lacks_sound 10 (codes " /10.0.0.7:5000[1](queued=0)") refl, tt);
  clients_visible = (refl, tt);
  zxid_line = lacks_sound 10 (codes "0x2f") refl;
  mode_line = lacks_sound 10 (codes "follower") refl;
}

parse_stat-print_stat_example : parse_stat (print_stat report) ≡ some (figures report)
parse_stat-print_stat_example = parse_stat-print_stat report report-IsPrintable

-- Latencies with a decimal point, which newer servers print, do not match.
parse_stat_decimal :
    parse_stat (codes "v: 1\n\nLatency min/avg/max: 0/0.5/9\nMode: leader\n")
    ≡ some (
        (codes "zk_version", str (codes "1"))
        ∷ (codes "zk_server_state", str (codes "leader"))
        ∷ [])
unfolding parse_stat codes strip readlines insert text_eq unsigned value_from
parse_stat_decimal = refl

abbrev host_a : Text
host_a = codes "a"

abbrev host_b : Text
host_b = codes "b"

abbrev port : Text
port = codes "2181"

-- Only the host `a` answers.
abbrev net : Network
net host p cmd = if host == host_a then some (codes "zk_avg_latency\t12\n") else none

b_down : query net host_b port ≡ socket_error
unfolding query get_stats codes int signed unsigned value_from strip text_eq
b_down = refl

get_cluster_stats_down_example :
    get_cluster_stats net ((host_a ∷ port ∷ []) ∷ (host_b ∷ port ∷ []) ∷ [])
    ≡ get_cluster_stats net ((host_a ∷ port ∷ []) ∷ [])
get_cluster_stats_down_example =
    get_cluster_stats_down net host_b port b_down ((host_a ∷ port ∷ []) ∷ []) []

get_cluster_stats-answering_example :
    get_cluster_stats net (as_fields ((host_a, port) ∷ (host_b, port) ∷ []))
    ≡ some (answering net ((host_a, port) ∷ (host_b, port) ∷ []))
unfolding answering query get_stats codes int signed unsigned value_from strip text_eq lookup
get_cluster_stats-answering_example =
    get_cluster_stats-answering net ((host_a, port) ∷ (host_b, port) ∷ []) (tt, (tt, tt)) (refl, tt)

abbrev options : Options
options = record {
  servers = some (codes "a:2181,b:2181");
  output = some (codes "NAGIOS");
  key = some (codes "zk_avg_latency");
  warning = some (codes "10");
  critical = some (codes "20");
  leader = true;
  gmetric = codes "/usr/bin/gmetric";
}

abbrev key : Text
key = codes "zk_avg_latency"

abbrev slow : Stats
slow =
    (codes "zk_avg_latency", num (pos 25)) ∷ (codes "zk_server_state", str (codes "follower")) ∷ []

abbrev odd : Stats
odd = (codes "zk_avg_latency", str (codes "n/a")) ∷ []

abbrev cluster : ClusterStats
cluster = (codes "a:1", sample) ∷ (codes "b:1", slow) ∷ []

ten : threshold (some (codes "10")) ≡ some (pos 10)
unfolding codes int signed unsigned value_from strip
ten = refl

twenty : threshold (some (codes "20")) ≡ some (pos 20)
unfolding codes int signed unsigned value_from strip
twenty = refl

analyze-worst_example :
    (Nagios.analyze options cluster).status ≡ some (worst (pos 10) (pos 20) key cluster)
analyze-worst_example = analyze-worst options cluster ten twenty refl

worst_runs : worst (pos 10) (pos 20) key cluster ≡ 2
unfolding worst level codes lookup text_eq
worst_runs = refl

odd_value : lookup key odd ≡ some (str (codes "n/a"))
unfolding lookup codes text_eq
odd_value = refl

sample-is_leader : Cacti.is_leader sample ≡ true
unfolding Cacti.is_leader codes lookup text_eq
sample-is_leader = refl

slow-is_leader : Cacti.is_leader slow ≡ false
unfolding Cacti.is_leader codes lookup text_eq
slow-is_leader = refl

sample_latency : lookup key sample ≡ some (num (pos 12))
unfolding lookup codes text_eq
sample_latency = refl

analyze-parse_example :
    let done =
      Ganglia.analyze (λ program. true) options ((codes "a:1", parse (print_mntr sample)) ∷ []) in
    (done.calls ≡ numeric_calls (codes "/usr/bin/gmetric") (parse (print_mntr sample)))
    × (done.status ≡ none)
analyze-parse_example = analyze-parse (λ program. true) options (codes "a:1") (print_mntr sample)

nagios_named : create_handler (codes "NAGIOS") ≡ some nagios
unfolding create_handler codes text_eq
nagios_named = refl
