-- ===== src/Zookeeper/Main.antt =====
-- `create_handler`, `dump_stats` and `main`.
pub mod Outages
use puppet_stg_environment.Common.{
  ℕ, ◌-◌, zero, suc, Bool, Option, none, some, List, [], ◌∷◌, ◌++◌, map, length, leb, ◌&&◌, ◌==◌,
  if◌then◌else◌, ◌+◌,
}
use puppet_stg_environment.Common.Text.{Text, text_eq, codes}
use puppet_stg_environment.Zookeeper.Value.{Value, Stats, ClusterStats, show_value}
use puppet_stg_environment.Zookeeper.Options.{Options, Outcome, Print, line, fails}
use puppet_stg_environment.Zookeeper.Cluster.{Network, parse_servers, get_cluster_stats}
use puppet_stg_environment.Zookeeper.Nagios as Nagios
use puppet_stg_environment.Zookeeper.Cacti as Cacti
use puppet_stg_environment.Zookeeper.Ganglia as Ganglia

pub data Handler : Type 0 where
  nagios cacti ganglia : Handler

abbrev pub upper : ℕ → ℕ
upper c = if leb 97 c && leb c 122 then c - 32 else c

abbrev pub lower : ℕ → ℕ
lower c = if leb 65 c && leb c 90 then c + 32 else c

-- `name.capitalize()`
unfoldable pub capitalize : Text → Text
capitalize [] = []
capitalize (c ∷ s) = upper c ∷ map lower s

-- The classes of the module whose names end in `Handler`; `none` is the `KeyError`.
unfoldable pub class_named : Text → Option Handler
class_named name =
    if name == codes "Nagios"
    then some nagios
    else if name == codes "Cacti"
    then some cacti
    else if name == codes "Ganglia"
    then some ganglia
    else none

unfoldable pub create_handler : Text → Option Handler
unfolding class_named capitalize
create_handler name = class_named (capitalize name)

-- `can_run` is the system's side of the calls of a program.
unfoldable pub analyze : (Text → Bool) → Handler → Options → ClusterStats → Outcome
analyze can_run nagios = Nagios.analyze
analyze can_run cacti = Cacti.analyze
analyze can_run ganglia = Ganglia.analyze can_run

spaces : ℕ → Text
spaces zero = []
spaces (suc n) = 32 ∷ spaces n

-- `print "%30s" % key, ' ', value`
dump_entries : Stats → List Print
dump_entries [] = []
dump_entries ((key, value) ∷ stats) =
    line (spaces (30 - length key) ++ (key ++ (codes "   " ++ show_value value)))
    ∷ dump_entries stats

unfoldable pub dump_stats : ClusterStats → List Print
unfolding dump_entries spaces
dump_stats [] = []
dump_stats ((server, stats) ∷ cluster) =
    line (codes "Server: " ++ server) ∷ (dump_entries stats ++ (line [] ∷ dump_stats cluster))

-- How the program ends: a call of `sys.exit`, or an uncaught `ValueError`.
pub data Ended : Type 0 where
  exits : Outcome → Ended
  crashes : Ended

unfoldable pub output_stats : (Text → Bool) → Options → ClusterStats → Outcome
output_stats can_run opts cluster = elim opts.output [
  | none ↦ record { status = some 0; out = dump_stats cluster; err = []; calls = [] }
  | some name ↦ elim (create_handler name) [
    | none ↦ fails 1 (codes "undefined handler: " ++ name)
    | some handler ↦ analyze can_run handler opts cluster
  ]
]

module _ (can_run : Text → Bool) (net : Network) where
  -- `main` behind `parse_cli`, on the list of servers.
  unfoldable pub run : Options → List (List Text) → Ended
  unfolding output_stats
  run opts servers = elim (get_cluster_stats net servers) [
    | none ↦ crashes
    | some cluster ↦ exits (output_stats can_run opts cluster)
  ]

  -- The check of `parse_cli`, and `main`.
  unfoldable pub main : Options → Ended
  unfolding run
  main opts = elim opts.servers [
    | none ↦ exits (fails 2 (codes "The list of servers is mandatory"))
    | some servers ↦ run opts (parse_servers servers)
  ]
