-- ===== src/Zookeeper/Cli/Verdict.antt =====
-- From the command line and the states of the servers to the exit status for Nagios.
use puppet_stg_environment.Common.{
  Bool, ℕ, zero, suc, ◌≤◌, ◌≡◌, refl, sym, ap, Option, none, some, false, List, [], ◌∷◌, ◌++◌, All,
  is_nil, length, take, arith,
}
use puppet_stg_environment.Common.Int.{ℤ}
use puppet_stg_environment.Common.Text.{Text, text_eq, codes}
use puppet_stg_environment.Common.Decimal.{int}
use puppet_stg_environment.Common.Dict.{NodupKeys}
use puppet_stg_environment.Common.Optparse.Items.{arguments}
use puppet_stg_environment.Zookeeper.Value.{Stats, ClusterStats}
use puppet_stg_environment.Zookeeper.Options.{Options}
use puppet_stg_environment.Zookeeper.Mntr.RoundTrip.{IsEntry, print_mntr, parse-print_mntr}
use puppet_stg_environment.Zookeeper.Cluster.{
  Network, Answer, stats, socket_error, parse_servers, send_cmd, get_stats, query,
}
use puppet_stg_environment.Zookeeper.Cluster.Failures.{
  as_fields, answering, kept, NoValueError, AreReadable, get_cluster_stats-answering,
}
use puppet_stg_environment.Zookeeper.Nagios.{threshold}
use puppet_stg_environment.Zookeeper.Nagios.Levels.{worst, analyze-worst}
use puppet_stg_environment.Zookeeper.Main.{nagios, create_handler, analyze, run, main}
use puppet_stg_environment.Zookeeper.Main.Outages.{ExitsWith, output_stats-analyze}
use puppet_stg_environment.Zookeeper.Cli.{Ending, usage_error, informed, ended, command}
use puppet_stg_environment.Zookeeper.Cli.RoundTrip.{items, command-main}

-- A server, with its statistics if it is up.
pub record Server : Type 0 where
  pub host : Text
  pub port : Text
  pub number : ℤ
  pub state : Option Stats

-- What comes back for `mntr`: statistics that fit into one `recv`, or nothing from a server that is
-- down.
abbrev pub Replies : Option Text → Option Stats → Type 0
Replies reply none = reply ≡ none
Replies reply (some d) =
    (reply ≡ some (print_mntr d))
    × (All IsEntry d × NodupKeys d)
    × (is_nil d ≡ false)
    × (length (print_mntr d) ≤ 2048)

abbrev pub IsServed : Network → Server → Type 0
IsServed net s = (int s.port ≡ some s.number) × Replies (net s.host s.number (codes "mntr")) s.state

abbrev pub pairs : List Server → List (Text × Text)
pairs [] = []
pairs (s ∷ servers) = (s.host, s.port) ∷ pairs servers

abbrev with_state : Text → Option Stats → ClusterStats → ClusterStats
with_state name none rest = rest
with_state name (some d) rest = (name, d) ∷ rest

-- The statistics of the servers that are up.
abbrev pub up : List Server → ClusterStats
up [] = []
up (s ∷ servers) = with_state (s.host ++ 58 ∷ s.port) s.state (up servers)

take_all : (n : ℕ) (s : Text) → length s ≤ n → take n s ≡ s
take_all zero [] h = refl
take_all zero (c ∷ s) h = absurd (too_long (length s) h)
  where
    too_long : (m : ℕ) → suc m ≤ 0 → ⊥
    too_long m k = omega arith
take_all (suc n) [] h = refl
take_all (suc n) (c ∷ s) h = ap (λ t. c ∷ t) (take_all n s (omega arith))

print_mntr-is_nil : (d : Stats) → is_nil d ≡ false → is_nil (print_mntr d) ≡ false
print_mntr-is_nil [] h = cc
print_mntr-is_nil (([], v) ∷ d) h = refl
print_mntr-is_nil ((c ∷ k, v) ∷ d) h = refl

abbrev answer_of : Option Stats → Answer
answer_of none = socket_error
answer_of (some d) = stats d

query-answer_of :
    (net : Network) (host port : Text) (number : ℤ) (state : Option Stats)
    → int port ≡ some number
    → Replies (net host number (codes "mntr")) state
    → query net host port ≡ answer_of state
unfolding query get_stats send_cmd
query-answer_of net host port number none e r = rw (query, e, get_stats, send_cmd, r) refl
query-answer_of net host port number (some d) e (r, (entries, distinct), n, fits) =
    rw
      (
        query,
        e,
        get_stats,
        send_cmd,
        r,
        take_all 2048 (print_mntr d) fits,
        print_mntr-is_nil d n,
        parse-print_mntr d entries distinct,
      )
      refl

module _ (net : Network) where
  NoValueError-answer_of : (state : Option Stats) → NoValueError net (answer_of state)
  NoValueError-answer_of none = tt
  NoValueError-answer_of (some d) = tt

  pairs-AreReadable :
      (servers : List Server) → All (IsServed net) servers → AreReadable net (pairs servers)
  pairs-AreReadable [] h = tt
  pairs-AreReadable (s ∷ servers) ((e, r), h) = (
    rw (query-answer_of net s.host s.port s.number s.state e r) (NoValueError-answer_of s.state),
    pairs-AreReadable servers h,
  )

  kept-answer_of :
      (name : Text) (state : Option Stats) (rest : ClusterStats)
      → kept net name (answer_of state) rest ≡ with_state name state rest
  kept-answer_of name none rest = refl
  kept-answer_of name (some d) rest = refl

  answering-up :
      (servers : List Server)
      → All (IsServed net) servers
      → answering net (pairs servers) ≡ up servers
  unfolding answering
  answering-up [] h = refl
  answering-up (s ∷ servers) ((e, r), h) =
      rw (answering, query-answer_of net s.host s.port s.number s.state e r, answering-up servers h)
        (kept-answer_of (s.host ++ 58 ∷ s.port) s.state (up servers))

  run-up :
      (can_run : Text → Bool) (opts : Options) (servers : List Server) {w c : ℤ} {key name : Text}
      → opts.output ≡ some name
      → create_handler name ≡ some nagios
      → threshold opts.warning ≡ some w
      → threshold opts.critical ≡ some c
      → opts.key ≡ some key
      → All (IsServed net) servers
      → NodupKeys (up servers)
      → ExitsWith
          (run can_run net opts (as_fields (pairs servers)))
          (some (worst w c key (up servers)))
  unfolding run analyze
  run-up can_run opts servers eo eh ew ec ek h distinct =
      let same = answering-up servers h in
      rw
        (
          run,
          get_cluster_stats-answering net (pairs servers) (pairs-AreReadable servers h)
              (rw (sym same) at distinct),
          same,
          output_stats-analyze can_run opts (up servers) eo eh,
        )
        (analyze-worst opts (up servers) ew ec ek)

abbrev pub EndsWith : Ending → ℕ → Type 0
EndsWith (ended done) n = ExitsWith done (some n)
EndsWith usage_error n = ⊥
EndsWith informed n = ⊥

-- Take a command line that names the servers, the Nagios handler, thresholds that are numbers, and a
-- key. If each server is down, or is up and sends statistics that fit into one `recv`, and if their
-- labels differ, then the exit status is the highest number of thresholds that the key has reached on
-- a server that is up.
pub command-worst :
    (can_run : Text → Bool) (net : Network) (opts : Options) (servers : List Server) {w c : ℤ}
    {key name text : Text}
    → opts.servers ≡ some text
    → parse_servers text ≡ as_fields (pairs servers)
    → opts.output ≡ some name
    → create_handler name ≡ some nagios
    → threshold opts.warning ≡ some w
    → threshold opts.critical ≡ some c
    → opts.key ≡ some key
    → All (IsServed net) servers
    → NodupKeys (up servers)
    → EndsWith (command can_run net (arguments (items opts))) (worst w c key (up servers))
unfolding main
command-worst can_run net opts servers es ep eo eh ew ec ek h distinct =
    rw (command-main can_run net opts, main, es, ep)
      (run-up net can_run opts servers eo eh ew ec ek h distinct)
