-- ===== src/AppReport/Tests.antt =====
-- Runs of the script on a concrete cluster, and its theorems there.
use puppet_stg_environment.Common.{
  ◌≡◌, refl, ◌↔◌, none, some, true, inl, [], List, ◌∷◌, ◌==◌, if◌then◌else◌, is_nil, contains, Any,
}
use puppet_stg_environment.Common.Text.{Text, text_eq, codes, strip, split_on, words}
use puppet_stg_environment.Common.Dict.{Dict, insert}
use puppet_stg_environment.AppReport.{
  contents, hosts, filter_match, is_match, hosts_of, all_hosts, gethosts, Ssh, sshcmd, Entry,
  connection_error, found, entry_of, gather,
}
use puppet_stg_environment.AppReport.Page.{
  field, collect, collect_entry, collect_all, sorted, version, traceback, run,
}
use puppet_stg_environment.AppReport.Selection.{IsHostOf, gethosts_iff}
use puppet_stg_environment.AppReport.Columns.{IsAscending, IsListed, sorted-collect_all}
use puppet_stg_environment.AppReport.Cells.{Says, version_iff}
use puppet_stg_environment.AppReport.Inventory.{Machine, reachable, unreachable}
use puppet_stg_environment.AppReport.Delivery.{IsBroken, run-IsBroken}

abbrev host_a : Text
host_a = codes "a.muc.domeus.com"

abbrev host_b : Text
host_b = codes "b.muc.domeus.com"

-- The third host is one of the exceptions, the last line a comment.
abbrev etc_hosts : Text
etc_hosts =
    codes
      "127.0.0.1 localhost\n10.0.0.1 a.muc.domeus.com a\n10.0.0.2 dshdc200.muc.domeus.com\n# b.muc.domeus.com\n"

abbrev flink : Text
flink = codes "ii  flink 1.7 amd64\n"

abbrev etl : Text
etl = codes "ii  etl-core 2.1 all\n"

-- The first host answers, the second does not.
abbrev ssh : Ssh
ssh host =
    if host == host_a
    then record { stderr = []; stdout = flink ∷ etl ∷ [] }
    else record { stderr = codes "ssh: connect\n" ∷ []; stdout = [] }

hosts_chosen : gethosts (contents etc_hosts) ≡ hosts (host_a ∷ host_b ∷ [])
unfolding gethosts all_hosts hosts_of filter_match is_match codes text_eq strip split_on words
hosts_chosen = refl

gethosts_iff_example :
    (contains (host_a ∷ host_b ∷ []) host_b ≡ true) ↔ Any (IsHostOf host_b) (split_on 10 etc_hosts)
gethosts_iff_example = gethosts_iff etc_hosts (host_a ∷ host_b ∷ []) hosts_chosen host_b

abbrev results : Dict Text Entry
results = (host_a, found flink (etl ∷ [])) ∷ (host_b, connection_error) ∷ []

results_gathered : gather ssh (host_a ∷ host_b ∷ []) [] ≡ results
unfolding gather insert entry_of sshcmd text_eq codes
results_gathered = refl

abbrev packages : List Text
packages = codes "flink" ∷ codes "etl-core" ∷ []

packages_collected : collect_all results [] ≡ some packages
unfolding collect_all collect_entry collect field codes text_eq strip words
packages_collected = refl

sorted-collect_all_example :
    IsAscending (sorted packages)
    × ((name : Text) → (contains (sorted packages) name ≡ true) ↔ Any (IsListed name) results)
sorted-collect_all_example = sorted-collect_all results packages packages_collected

version_iff_example :
    (version (codes "etl-core") (flink ∷ etl ∷ []) ≡ some (some (codes "2.1")))
    ↔ Says (codes "etl-core") (flink ∷ etl ∷ []) (some (codes "2.1"))
version_iff_example = version_iff (codes "etl-core") (flink ∷ etl ∷ []) (some (codes "2.1"))

-- What the machines have.
abbrev machines : Text → Machine
machines host =
    if host == host_a
    then reachable ((codes "flink", codes "1.7") ∷ (codes "etl-core", codes "2.1") ∷ [])
    else unreachable

-- The second host prints a line of one word.
abbrev broken_ssh : Ssh
broken_ssh host =
    if host == host_a
    then record { stderr = []; stdout = flink ∷ etl ∷ [] }
    else record { stderr = []; stdout = codes "dpkg-query:\n" ∷ [] }

b_chosen : contains (host_a ∷ host_b ∷ []) host_b ≡ true
unfolding codes text_eq
b_chosen = refl

b_answers : is_nil (broken_ssh host_b).stderr ≡ true
unfolding codes text_eq
b_answers = refl

b-IsBroken : IsBroken (broken_ssh host_b).stdout
unfolding codes text_eq field strip words
b-IsBroken = inl refl

run-IsBroken_example :
    run (contents etc_hosts) broken_ssh (codes "2019 May 02") (codes "www:/srv") ≡ traceback [] none
run-IsBroken_example =
    run-IsBroken (contents etc_hosts) broken_ssh (codes "2019 May 02") (codes "www:/srv")
      (host_a ∷ host_b ∷ []) host_b hosts_chosen b_chosen b_answers b-IsBroken
