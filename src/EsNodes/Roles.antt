-- ===== src/EsNodes/Roles.antt =====
-- Which nodes stand under which role.
use puppet_stg_environment.Common.{
  ◌≡◌, refl, ◌∙◌, ap, Option, none, some, Bool, false, [], ◌∷◌, ◌==◌, if◌then◌else◌, arith,
}
use puppet_stg_environment.Common.Text.{Text, text_eq, codes}
use puppet_stg_environment.Common.Text.Search.{is_infix}
use puppet_stg_environment.Common.Dict.{Dict, lookup, lookup-nil, lookup-insert}
use puppet_stg_environment.EsNodes.{Open, first_response, Fact, add_node, add_nodes, run}

abbrev pub is_data : Text → Bool
is_data name = is_infix (codes "dsesd") name

-- A name with both marks is one of a data node.
abbrev pub is_master : Text → Bool
is_master name = if is_data name then false else is_infix (codes "dsesm") name

-- The last of the nodes with a name, and `old` if there is none.
unfoldable pub named : Text → Dict Text Text → Option Text → Option Text
named name [] old = old
named name ((node, n) ∷ nodes) old = named name nodes (if name == n then some node else old)

abbrev pub only_if : Bool → Option Text → Option Text
only_if b o = if b then o else none

-- Looking up a name under both roles.
module _ (name : Text) where
  add_node-dsesd :
      (node n : Text) (f : Fact)
      → lookup name (add_node node n f).dsesd ≡ (
          if is_data n
          then (if name == n then some node else lookup name f.dsesd)
          else lookup name f.dsesd)
  unfolding add_node
  add_node-dsesd node n f = ground (arith, lookup-insert name n node f.dsesd)

  add_node-dsesm :
      (node n : Text) (f : Fact)
      → lookup name (add_node node n f).dsesm ≡ (
          if is_master n
          then (if name == n then some node else lookup name f.dsesm)
          else lookup name f.dsesm)
  unfolding add_node
  add_node-dsesm node n f = ground (arith, lookup-insert name n node f.dsesm)

  -- One step of the loop, for a table of names that satisfy a test.
  step :
      (test : Text → Bool) (node n : Text) (nodes : Dict Text Text) (old : Option Text)
      → (if test name
          then named name nodes (if test n then (if name == n then some node else old) else old)
          else (if test n then (if name == n then some node else old) else old))
        ≡ (if test name then named name ((node, n) ∷ nodes) old else old)
  unfolding named
  step test node n nodes old = ground arith

  add_nodes-dsesd :
      (nodes : Dict Text Text) (f : Fact)
      → lookup name (add_nodes nodes f).dsesd
        ≡ (if is_data name then named name nodes (lookup name f.dsesd) else lookup name f.dsesd)
  unfolding add_nodes named
  add_nodes-dsesd [] f = ground arith
  add_nodes-dsesd ((node, n) ∷ nodes) f =
      add_nodes-dsesd nodes (add_node node n f)
      ∙ (ap (λ o. if is_data name then named name nodes o else o) (add_node-dsesd node n f)
          ∙ step is_data node n nodes (lookup name f.dsesd))

  add_nodes-dsesm :
      (nodes : Dict Text Text) (f : Fact)
      → lookup name (add_nodes nodes f).dsesm
        ≡ (if is_master name then named name nodes (lookup name f.dsesm) else lookup name f.dsesm)
  unfolding add_nodes named
  add_nodes-dsesm [] f = ground arith
  add_nodes-dsesm ((node, n) ∷ nodes) f =
      add_nodes-dsesm nodes (add_node node n f)
      ∙ (ap (λ o. if is_master name then named name nodes o else o) (add_node-dsesm node n f)
          ∙ step is_master node n nodes (lookup name f.dsesm))

-- With a response, the fact lists each node name under the data role if it has the mark of one, else
-- under the master role if it has that mark, with the last identifier of the name, and nothing more.
pub run-roles :
    (open_url : Open) (nodes_of : Text → Dict Text Text) (nodename r : Text)
    → first_response open_url nodename (1 ∷ 2 ∷ 3 ∷ []) none ≡ some r
    → (f : Fact) × (run open_url nodes_of nodename ≡ some f)
      × ((name : Text)
          → (lookup name f.dsesd ≡ only_if (is_data name) (named name (nodes_of r) none))
            × (lookup name f.dsesm ≡ only_if (is_master name) (named name (nodes_of r) none)))
unfolding run
run-roles open_url nodes_of nodename r e = (
  _,
  rw (run, e) refl,
  λ name. (
    rw lookup-nil at (add_nodes-dsesd name (nodes_of r) (record { dsesd = []; dsesm = [] })),
    rw lookup-nil at (add_nodes-dsesm name (nodes_of r) (record { dsesd = []; dsesm = [] })),
  ),
)
