-- ===== src/Zookeeper/Cacti/Leader.antt =====
-- The handler in leader mode.
use puppet_stg_environment.Common.{◌≡◌, refl, none, some, true, false, [], ◌∷◌, ◌++◌, All}
use puppet_stg_environment.Common.Text.{Text, text_eq}
use puppet_stg_environment.Common.Dict.{lookup, values}
use puppet_stg_environment.Zookeeper.Value.{Value, Stats, ClusterStats, show_value}
use puppet_stg_environment.Zookeeper.Options.{Options, prints}
use puppet_stg_environment.Zookeeper.Cacti.{is_leader, find_leader, print_key, report, analyze}

-- None of the servers is the leader.
abbrev pub NoLeader : ClusterStats → Type 0
NoLeader = All (λ e. is_leader e.1 ≡ false)

find_leader-append :
    (before after : ClusterStats) (host : Text) (leader : Stats)
    → NoLeader before
    → is_leader leader ≡ true
    → find_leader (values (before ++ (host, leader) ∷ after)) ≡ some leader
unfolding find_leader values
find_leader-append [] after host leader h e = rw e
find_leader-append (x ∷ before) after host leader h e =
    rw h.0 (find_leader-append before after host leader h.1 e)

find_leader-none : (cluster : ClusterStats) → NoLeader cluster → find_leader (values cluster) ≡ none
unfolding find_leader values
find_leader-none [] h = refl
find_leader-none (x ∷ cluster) h = rw h.0 (find_leader-none cluster h.1)

-- In leader mode the value of the first leader is printed, with status 0, whatever the servers
-- before and behind it state.
pub analyze_leader :
    (opts : Options) (before after : ClusterStats) (host : Text) (leader : Stats) {key : Text}
    {v : Value}
    → opts.key ≡ some key
    → opts.leader ≡ true
    → NoLeader before
    → is_leader leader ≡ true
    → lookup key leader ≡ some v
    → analyze opts (before ++ (host, leader) ∷ after) ≡ prints 0 (show_value v)
unfolding analyze
analyze_leader opts before after host leader ek el h e f =
    rw (analyze, ek, el, report, find_leader-append before after host leader h e, print_key, f)

-- A cluster with no leader is status 3 in leader mode.
pub analyze-NoLeader :
    (opts : Options) (cluster : ClusterStats) {key : Text}
    → opts.key ≡ some key
    → opts.leader ≡ true
    → NoLeader cluster
    → (analyze opts cluster).status ≡ some 3
unfolding analyze
analyze-NoLeader opts cluster ek el h = rw (ek, el, report, find_leader-none cluster h)
