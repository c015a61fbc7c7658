-- ===== src/Zookeeper/Cacti.antt =====
-- `CactiHandler.analyze`
pub mod Leader
use puppet_stg_environment.Common.{
  ℕ, Option, none, some, Bool, true, false, List, [], ◌∷◌, ◌++◌, map, eqb, if◌then◌else◌, ◌==◌,
}
use puppet_stg_environment.Common.Text.{Text, text_eq, codes}
use puppet_stg_environment.Common.Dict.{lookup, values}
use puppet_stg_environment.Zookeeper.Value.{Value, num, str, Stats, ClusterStats, show_value}
use puppet_stg_environment.Zookeeper.Options.{Options, Outcome, Print, item, fails, prints}

-- `x.get('zk_server_state', '') == 'leader'`
abbrev is_leader_state : Option Value → Bool
is_leader_state none = false
is_leader_state (some (num z)) = false
is_leader_state (some (str s)) = s == codes "leader"

unfoldable pub is_leader : Stats → Bool
is_leader x = is_leader_state (lookup (codes "zk_server_state") x)

-- The first of the servers that is the leader; `none` is the `IndexError`.
unfoldable pub find_leader : List Stats → Option Stats
find_leader [] = none
find_leader (x ∷ xs) = if is_leader x then some x else find_leader xs

unfoldable pub print_key : Text → Stats → Outcome
print_key key leader = elim (lookup key leader) [
  | none ↦ fails 2 (codes "Unknown key: \"" ++ (key ++ codes "\""))
  | some v ↦ prints 0 (show_value v)
]

-- `host.replace(':', '_')`
unfoldable pub replace_colons : Text → Text
replace_colons = map (λ c. if eqb c 58 then 95 else c)

abbrev pub items_of : Text → Text → Option Value → List Print
items_of host key none = []
items_of host key (some v) = item (replace_colons host ++ 58 ∷ show_value v) ∷ []

unfoldable pub print_all : Text → ClusterStats → List Print
unfolding replace_colons
print_all key [] = []
print_all key ((host, stats) ∷ cluster) =
    items_of host key (lookup key stats) ++ print_all key cluster

unfoldable pub report : Bool → Text → ClusterStats → Outcome
unfolding print_key
report true key cluster = elim (find_leader (values cluster)) [
  | none ↦ fails 3 (codes "No leader found.")
  | some leader ↦ print_key key leader
]
report false key cluster = record {
  status = none;
  out = print_all key cluster;
  err = [];
  calls = [];
}

unfoldable pub analyze : Options → ClusterStats → Outcome
unfolding report
analyze opts cluster = elim opts.key [
  | none ↦ fails 1 (codes "The key name is mandatory.")
  | some key ↦ report opts.leader key cluster
]
