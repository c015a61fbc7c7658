-- ===== src/Topology/Tests.antt =====
-- A run of the script on a concrete table, and its theorem there.
use puppet_stg_environment.Common.{◌≡◌, refl, All, none, some, true, List, [], ◌∷◌}
use puppet_stg_environment.Common.Text.{Text, text_eq, codes, strip, split_on, readlines}
use puppet_stg_environment.Common.Text.Split.{Lacks, lacks, lacks_sound}
use puppet_stg_environment.Common.Dict.{lookup, insert}
use puppet_stg_environment.Topology.{store_fields, load_lines, load_topology, rack_of, run}
use puppet_stg_environment.Topology.Racks.{
  IsRow, print_table, last_rack, or_default, rack_of-last_rack,
}

abbrev table : List (List Text)
table =
    (codes "10.0.0.1" ∷ codes " /rack1" ∷ [])
    ∷ (codes "10.0.0.2" ∷ codes "/rack2" ∷ codes "spare" ∷ [])
    ∷ []

field : (f : Text) → lacks 44 f ≡ true → lacks 10 f ≡ true → Lacks 44 f × Lacks 10 f
field f c n = (lacks_sound 44 f c, lacks_sound 10 f n)

table-IsRow : All IsRow table
unfolding codes
table-IsRow = (
  (field (codes "10.0.0.1") refl refl, (field (codes " /rack1") refl refl, tt)),
  (
    (
      field (codes "10.0.0.2") refl refl,
      (field (codes "/rack2") refl refl, (field (codes "spare") refl refl, tt)),
    ),
    tt,
  ),
)

racks_printed :
    run (some (print_table table)) (codes "10.0.0.1" ∷ codes "10.0.0.2" ∷ [])
    ≡ codes "/rack1" ∷ codes "/rack0" ∷ []
unfolding run rack_of load_topology load_lines store_fields readlines split_on strip lookup insert
    codes text_eq
racks_printed = refl

rack_of-last_rack_example :
    rack_of (load_topology (some (print_table table))) (codes "10.0.0.1")
    ≡ or_default (last_rack (codes "10.0.0.1") table none)
rack_of-last_rack_example = rack_of-last_rack (codes "10.0.0.1") table table-IsRow
