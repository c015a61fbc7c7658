-- ===== src/Zookeeper/Cli/Tests.antt =====
-- Command lines of the plugin.
use puppet_stg_environment.Common.{
  ◌≡◌, ◌≤◌, Bool, refl, none, some, true, false, List, [], ◌∷◌, ◌==◌, length, nat_eq, if◌then◌else◌,
  arith,
}
use puppet_stg_environment.Common.Int.{pos}
use puppet_stg_environment.Common.Text.{Text, text_eq, codes, strip, split_on}
use puppet_stg_environment.Common.Decimal.{int, signed, unsigned, value_from, show, show_ℕ}
use puppet_stg_environment.Common.Dict.{NodupKeys, lookup-nil}
use puppet_stg_environment.Common.Optparse.{
  accepted, rejected, helped, parse_from, parse_args, scan, match_long, find_exact, find_letter,
  starting_with, scan_letters,
}
use puppet_stg_environment.Common.Text.Explicit.{split_value}
use puppet_stg_environment.Common.Optparse.Items.{arguments}
use puppet_stg_environment.Zookeeper.Value.{show_value}
use puppet_stg_environment.Zookeeper.Options.{Options}
use puppet_stg_environment.Zookeeper.Mntr.RoundTrip.{print_mntr}
use puppet_stg_environment.Zookeeper.Cluster.{Network, parse_servers}
use puppet_stg_environment.Zookeeper.Cluster.Failures.{as_fields}
use puppet_stg_environment.Zookeeper.Nagios.{threshold}
use puppet_stg_environment.Zookeeper.Nagios.Levels.{worst}
use puppet_stg_environment.Zookeeper.Main.{nagios, create_handler, class_named, capitalize, main}
use puppet_stg_environment.Zookeeper.Cli.{
  to_servers, to_key, to_leader, options_known, ended, command,
}
use puppet_stg_environment.Zookeeper.Cli.RoundTrip.{items, command-main}
use puppet_stg_environment.Zookeeper.Cli.Verdict.{
  Server, IsServed, pairs, up, EndsWith, command-worst,
}
use puppet_stg_environment.Zookeeper.Tests.{sample, sample-IsEntry, sample-NodupKeys}

-- Flags and a value behind one dash, the start of a long name, and an argument that is no option.
forms_read :
    parse_args options_known
      (codes "-lk" ∷ codes "zk_version" ∷ codes "--ser=a:1" ∷ codes "more" ∷ [])
    ≡ accepted
        ((to_leader, none)
          ∷ (to_key, some (codes "zk_version"))
          ∷ (to_servers, some (codes "a:1"))
          ∷ [])
        (codes "more" ∷ [])
unfolding parse_from scan split_value match_long find_exact find_letter starting_with scan_letters
    options_known codes text_eq nat_eq
forms_read = refl

unknown_letter : parse_args options_known (codes "-lx" ∷ codes "--help" ∷ []) ≡ rejected
unfolding parse_from scan split_value match_long find_exact find_letter starting_with scan_letters
    options_known codes text_eq nat_eq
unknown_letter = refl

value_missing : parse_args options_known (codes "-l" ∷ codes "--key" ∷ []) ≡ rejected
unfolding parse_from scan split_value match_long find_exact find_letter starting_with scan_letters
    options_known codes text_eq nat_eq
value_missing = refl

help_wins : parse_args options_known (codes "--help" ∷ codes "-x" ∷ []) ≡ helped []
unfolding parse_from scan split_value match_long find_exact find_letter starting_with scan_letters
    options_known codes text_eq nat_eq
help_wins = refl

abbrev can_run : Text → Bool
can_run program = true

abbrev silent : Network
silent host port cmd = none

abbrev given : Options
given = record {
  servers = some (codes "a:1,b:2");
  output = some (codes "nagios");
  key = some (codes "--odd-key");
  warning = some (codes "10");
  critical = none;
  leader = true;
  gmetric = codes "/usr/bin/gmetric";
}

command-main_example :
    command can_run silent (arguments (items given)) ≡ ended (main can_run silent given)
command-main_example = command-main can_run silent given

-- The first server is up, the second down.
abbrev half : Network
half host port cmd = if host == codes "a" then some (print_mntr sample) else none

abbrev servers : List Server
servers =
    record { host = codes "a"; port = codes "1"; number = pos 1; state = some sample }
    ∷ record { host = codes "b"; port = codes "2"; number = pos 2; state = none }
    ∷ []

abbrev watched : Options
watched = record {
  servers = some (codes "a:1,b:2");
  output = some (codes "nagios");
  key = some (codes "zk_avg_latency");
  warning = some (codes "10");
  critical = some (codes "20");
  leader = false;
  gmetric = codes "/usr/bin/gmetric";
}

sample_fits : length (print_mntr sample) ≤ 2048
unfolding codes show show_ℕ show_value
sample_fits = omega arith

a-IsServed :
    IsServed half
      (record { host = codes "a"; port = codes "1"; number = pos 1; state = some sample })
unfolding codes text_eq int signed unsigned value_from strip
a-IsServed = (refl, (refl, (sample-IsEntry, sample-NodupKeys), refl, sample_fits))

b-IsServed :
    IsServed half (record { host = codes "b"; port = codes "2"; number = pos 2; state = none })
unfolding codes text_eq int signed unsigned value_from strip
b-IsServed = (refl, refl)

servers_named : parse_servers (codes "a:1,b:2") ≡ as_fields (pairs servers)
unfolding parse_servers split_on codes
servers_named = refl

nagios_named : create_handler (codes "nagios") ≡ some nagios
unfolding create_handler class_named capitalize codes text_eq
nagios_named = refl

ten : threshold (some (codes "10")) ≡ some (pos 10)
unfolding codes int signed unsigned value_from strip
ten = refl

twenty : threshold (some (codes "20")) ≡ some (pos 20)
unfolding codes int signed unsigned value_from strip
twenty = refl

up-NodupKeys : NodupKeys (up servers)
up-NodupKeys = (lookup-nil _, tt)

command-worst_example :
    EndsWith
      (command can_run half (arguments (items watched)))
      (worst (pos 10) (pos 20) (codes "zk_avg_latency") (up servers))
command-worst_example =
    command-worst can_run half watched servers refl servers_named refl nagios_named ten twenty refl
      (a-IsServed, (b-IsServed, tt)) up-NodupKeys
