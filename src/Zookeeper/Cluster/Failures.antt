-- ===== src/Zookeeper/Cluster/Failures.antt =====
-- Servers that cannot be reached.
use puppet_stg_environment.Common.{
  ◌≡◌, refl, some, inl, inr, List, [], ◌∷◌, ◌++◌, append_assoc, append-nil, Option-cases,
}
use puppet_stg_environment.Common.Text.{Text, text_eq}
use puppet_stg_environment.Common.Dict.{
  insert, insert_fresh, NodupKeys, Fresh, insert-Fresh, Fresh-nil,
}
use puppet_stg_environment.Zookeeper.Value.{ClusterStats}
use puppet_stg_environment.Zookeeper.Cluster.{
  Network, Answer, stats, socket_error, value_error, query, label, visit, gather, get_cluster_stats,
}

module _ (net : Network) (host port : Text) (down : query net host port ≡ socket_error) where
  visit_down : (d : ClusterStats) → visit net host port d ≡ some d
  unfolding visit
  visit_down d = rw (visit, down)

  gather_down :
      (before after : List (List Text)) (d : ClusterStats)
      → gather net (before ++ (host ∷ port ∷ []) ∷ after) d ≡ gather net (before ++ after) d
  unfolding gather
  gather_down [] after d = rw (gather, visit_down d)
  gather_down ((h ∷ p ∷ []) ∷ before) after d = elim (Option-cases (visit net h p d)) [
    | inl e ↦ rw (gather, e)
    | inr (more, e) ↦ rw (gather, e) (gather_down before after more)
  ]
  gather_down (_ ∷ before) after d = refl

  -- A server that cannot be reached changes nothing: the statistics are those of the other servers,
  -- wherever it stands in the list, and errors of the others are raised as without it.
  pub get_cluster_stats_down :
      (before after : List (List Text))
      → get_cluster_stats net (before ++ (host ∷ port ∷ []) ∷ after)
        ≡ get_cluster_stats net (before ++ after)
  unfolding get_cluster_stats
  get_cluster_stats_down before after = gather_down before after []

abbrev pub as_fields : List (Text × Text) → List (List Text)
as_fields [] = []
as_fields ((host, port) ∷ servers) = (host ∷ port ∷ []) ∷ as_fields servers

module _ (net : Network) where
  abbrev pub kept : Text → Answer → ClusterStats → ClusterStats
  kept name (stats d) rest = (name, d) ∷ rest
  kept name socket_error rest = rest
  kept name value_error rest = rest

  -- The servers that answer, in order, under their labels.
  unfoldable pub answering : List (Text × Text) → ClusterStats
  answering [] = []
  answering ((host, port) ∷ servers) =
      kept (label net host port) (query net host port) (answering servers)

  abbrev pub NoValueError : Answer → Type 0
  NoValueError value_error = ⊥
  NoValueError _ = Unit {0}

  -- No server raises a `ValueError`.
  abbrev pub AreReadable : List (Text × Text) → Type 0
  AreReadable [] = Unit
  AreReadable ((host, port) ∷ servers) = NoValueError (query net host port) × AreReadable servers

  gather-kept :
      (host port : Text) (servers : List (Text × Text)) (d : ClusterStats)
      → ((d' : ClusterStats)
          → NodupKeys (answering servers)
          → Fresh d' (answering servers)
          → gather net (as_fields servers) d' ≡ some (d' ++ answering servers))
      → (a : Answer) → query net host port ≡ a
      → NoValueError a
      → NodupKeys (kept (label net host port) a (answering servers))
      → Fresh d (kept (label net host port) a (answering servers))
      → gather net ((host ∷ port ∷ []) ∷ as_fields servers) d
        ≡ some (d ++ kept (label net host port) a (answering servers))
  unfolding gather visit
  gather-kept host port servers d ih (stats st) e r u f =
      let name : Text = label net host port in
      rw (
        gather,
        visit,
        e,
        ih (insert name st d) u.1 (insert-Fresh name st d (answering servers) u.0 f.1),
        insert_fresh name st d f.0,
        append_assoc,
      )
  gather-kept host port servers d ih socket_error e r u f = rw (gather, visit, e) (ih d u f)
  gather-kept host port servers d ih value_error e r u f = absurd r

  gather-answering :
      (servers : List (Text × Text)) (d : ClusterStats)
      → AreReadable servers
      → NodupKeys (answering servers)
      → Fresh d (answering servers)
      → gather net (as_fields servers) d ≡ some (d ++ answering servers)
  unfolding gather answering
  gather-answering [] d r u f = rw append-nil
  gather-answering ((host, port) ∷ servers) d r u f =
      gather-kept host port servers d (λ d' u' f'. gather-answering servers d' r.1 u' f')
        (query net host port) refl r.0 u f

  -- Servers that are readable, and whose labels differ, are gathered exactly: each one that answers
  -- stands under `host:port` with its own statistics, and no other does.
  pub get_cluster_stats-answering :
      (servers : List (Text × Text))
      → AreReadable servers
      → NodupKeys (answering servers)
      → get_cluster_stats net (as_fields servers) ≡ some (answering servers)
  unfolding get_cluster_stats
  get_cluster_stats-answering servers r u =
      gather-answering servers [] r u (Fresh-nil (answering servers))
