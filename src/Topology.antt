-- ===== src/Topology.antt =====
-- `hadoop/templates/etc/hadoop/conf-puppet/topology.py.erb`, the script that tells Hadoop the racks of
-- its hosts.
pub mod Racks
mod Tests
use puppet_stg_environment.Common.{ℕ, Option, none, some, List, [], ◌∷◌, map}
use puppet_stg_environment.Common.Text.{Text, text_eq, codes, strip, split_on, readlines}
use puppet_stg_environment.Common.Dict.{Dict, lookup, insert}

-- `_mapping`
abbrev pub Mapping : Type 0
Mapping = Dict Text Text

abbrev pub default_rack : Text
default_rack = codes "/rack0"

-- A line counts if it has two fields.
unfoldable pub store_fields : List Text → Mapping → Mapping
store_fields (host ∷ rack ∷ []) mapping = insert (strip host) (strip rack) mapping
store_fields _ mapping = mapping

unfoldable pub load_lines : List Text → Mapping → Mapping
load_lines [] mapping = mapping
load_lines (line ∷ lines) mapping = load_lines lines (store_fields (split_on 44 line) mapping)

-- `_load_topology`; `none` is a file that cannot be opened.
unfoldable pub load_topology : Option Text → Mapping
load_topology none = []
load_topology (some text) = load_lines (readlines text) []

unfoldable pub rack_of : Mapping → Text → Text
rack_of mapping host = elim (lookup host mapping) [ none ↦ default_rack | some rack ↦ rack ]

-- The lines that the script prints for its arguments.
unfoldable pub run : Option Text → List Text → List Text
run file hosts = map (rack_of (load_topology file)) hosts
