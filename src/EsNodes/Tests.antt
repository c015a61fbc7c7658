-- ===== src/EsNodes/Tests.antt =====
-- Runs of the fact on a concrete cluster, and its theorem there.
use puppet_stg_environment.Common.{◌≡◌, refl, none, some, [], ◌∷◌, ◌==◌, if◌then◌else◌}
use puppet_stg_environment.Common.Text.{Text, text_eq, codes, join}
use puppet_stg_environment.Common.Text.Search.{is_infix}
use puppet_stg_environment.Common.Decimal.{show_ℕ}
use puppet_stg_environment.Common.Dict.{Dict, lookup, insert}
use puppet_stg_environment.EsNodes.{Open, url, first_response, Fact, add_node, add_nodes, run}
use puppet_stg_environment.EsNodes.Roles.{named, is_data, is_master, only_if, run-roles}

-- Only the second node answers.
abbrev open_url : Open
open_url u = if u == codes "http://host-es2:9200/_nodes" then some (codes "{}") else none

abbrev nodes_of : Text → Dict Text Text
nodes_of r =
    (codes "a1", codes "host-dsesm1")
    ∷ (codes "b2", codes "host-dsesd1")
    ∷ (codes "c3", codes "client")
    ∷ []

second_answers : first_response open_url (codes "host") (1 ∷ 2 ∷ 3 ∷ []) none ≡ some (codes "{}")
unfolding first_response url codes text_eq show_ℕ join
second_answers = refl

cluster_listed :
    run open_url nodes_of (codes "host")
    ≡ some (record {
      dsesd = (codes "host-dsesd1", codes "b2") ∷ [];
      dsesm = (codes "host-dsesm1", codes "a1") ∷ [];
    })
unfolding run first_response url codes text_eq show_ℕ join add_nodes add_node is_infix insert
cluster_listed = refl

run-roles_example :
    (f : Fact) × (run open_url nodes_of (codes "host") ≡ some f)
    × ((name : Text)
        → (lookup name f.dsesd ≡ only_if (is_data name) (named name (nodes_of (codes "{}")) none))
          × (lookup name f.dsesm
              ≡ only_if (is_master name) (named name (nodes_of (codes "{}")) none)))
run-roles_example = run-roles open_url nodes_of (codes "host") (codes "{}") second_answers
