-- ===== src/Zookeeper/Cluster.antt =====
-- `ZooKeeperServer` and `get_cluster_stats`: the servers are asked in turn, and one that cannot be
-- reached is left out. The network is a parameter: what a server sends for a command, or nothing
-- for a `socket.error`.
pub mod Failures
use puppet_stg_environment.Common.{
  ℕ, Option, none, some, List, [], ◌∷◌, ◌++◌, map, is_nil, take, if◌then◌else◌,
}
use puppet_stg_environment.Common.Int.{ℤ}
use puppet_stg_environment.Common.Text.{Text, text_eq, codes, split_on}
use puppet_stg_environment.Common.Decimal.{int}
use puppet_stg_environment.Common.Dict.{insert}
use puppet_stg_environment.Zookeeper.Value.{Stats, ClusterStats}
use puppet_stg_environment.Zookeeper.Mntr.{parse}
use puppet_stg_environment.Zookeeper.Stat.{parse_stat}

-- Host, port and command.
abbrev pub Network : Type 0
Network = Text → ℤ → Text → Option Text

-- What asking a server comes to: its statistics, or an exception.
pub data Answer : Type 0 where
  stats : Stats → Answer
  socket_error : Answer
  value_error : Answer

-- `opts.servers`: `host:port` pairs between commas, not yet checked to be pairs.
unfoldable pub parse_servers : Text → List (List Text)
parse_servers servers = map (split_on 58) (split_on 44 servers)

module _ (net : Network) where
  -- One `recv` of at most 2048 bytes.
  unfoldable pub send_cmd : Text → ℤ → Text → Option Text
  send_cmd host port cmd = elim (net host port cmd) [
    | none ↦ none
    | some reply ↦ some (take 2048 reply)
  ]

  ask_stat : Text → ℤ → Answer
  ask_stat host port = elim (send_cmd host port (codes "stat")) [
    | none ↦ socket_error
    | some reply ↦ elim (parse_stat reply) [ none ↦ value_error | some d ↦ stats d ]
  ]

  unfoldable pub get_stats : Text → ℤ → Answer
  unfolding ask_stat send_cmd
  get_stats host port = elim (send_cmd host port (codes "mntr")) [
    | none ↦ socket_error
    | some reply ↦ if is_nil reply then ask_stat host port else stats (parse reply)
  ]

  -- `ZooKeeperServer(host, port).get_stats()`; a port that is no number is a `ValueError`.
  unfoldable pub query : Text → Text → Answer
  query host port = elim (int port) [ none ↦ value_error | some p ↦ get_stats host p ]

  abbrev pub label : Text → Text → Text
  label host port = host ++ 58 ∷ port

  -- The body of the loop; `none` is a `ValueError` that ends the program.
  unfoldable pub visit : Text → Text → ClusterStats → Option ClusterStats
  visit host port gathered = elim (query host port) [
    | stats d ↦ some (insert (label host port) d gathered)
    | socket_error ↦ some gathered
    | value_error ↦ none
  ]

  -- The loop unpacks each entry into a pair; another length is a `ValueError` too.
  unfoldable pub gather : List (List Text) → ClusterStats → Option ClusterStats
  gather [] gathered = some gathered
  gather ((host ∷ port ∷ []) ∷ servers) gathered = elim (visit host port gathered) [
    | none ↦ none
    | some more ↦ gather servers more
  ]
  gather (_ ∷ servers) gathered = none

  unfoldable pub get_cluster_stats : List (List Text) → Option ClusterStats
  unfolding gather visit
  get_cluster_stats servers = gather servers []
