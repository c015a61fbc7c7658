-- ===== src/EsNodes.antt =====
-- `es/facts.d/esnodes.py`, the external fact that lists the nodes of the Elasticsearch cluster by
-- their role. The HTTP requests and the JSON library are parameters.
pub mod Roles
mod Tests
use puppet_stg_environment.Common.{
  ℕ, Option, none, some, Bool, true, false, List, [], ◌∷◌, ◌++◌, ◌==◌, if◌then◌else◌,
}
use puppet_stg_environment.Common.Text.{Text, text_eq, codes, join}
use puppet_stg_environment.Common.Text.Search.{is_infix}
use puppet_stg_environment.Common.Decimal.{show_ℕ}
use puppet_stg_environment.Common.Dict.{Dict, insert}

-- `urlopen`; `none` is any exception of it.
abbrev pub Open : Type 0
Open = Text → Option Text

-- `"%s://%s-es%s:%s/%s"`
unfoldable pub url : Text → ℕ → Text
url nodename num =
    join [] (codes "http://" ∷ nodename ∷ codes "-es" ∷ show_ℕ num ∷ codes ":9200/_nodes" ∷ [])

-- The loop over the numbers, which asks no more once there is a response.
unfoldable pub first_response : Open → Text → List ℕ → Option Text → Option Text
first_response open_url nodename [] response = response
first_response open_url nodename (num ∷ nums) (some r) =
    first_response open_url nodename nums (some r)
first_response open_url nodename (num ∷ nums) none =
    first_response open_url nodename nums (open_url (url nodename num))

-- `ourfact['esnodes']`: the identifiers of the nodes by their names.
pub record Fact : Type 0 where
  pub dsesd : Dict Text Text
  pub dsesm : Dict Text Text

unfoldable pub add_node : Text → Text → Fact → Fact
add_node node name f =
    if is_infix (codes "dsesd") name
    then record f { dsesd = insert name node f.dsesd }
    else if is_infix (codes "dsesm") name
    then record f { dsesm = insert name node f.dsesm }
    else f

-- The loop over the identifiers, each with its name.
unfoldable pub add_nodes : Dict Text Text → Fact → Fact
add_nodes [] f = f
add_nodes ((node, name) ∷ nodes) f = add_nodes nodes (add_node node name f)

-- Nothing is printed without a response; `nodes_of` is `json.load(response)['nodes']`.
unfoldable pub run : Open → (Text → Dict Text Text) → Text → Option Fact
run open_url nodes_of nodename = elim (first_response open_url nodename (1 ∷ 2 ∷ 3 ∷ []) none) [
  | none ↦ none
  | some r ↦ some (add_nodes (nodes_of r) (record { dsesd = []; dsesm = [] }))
]
