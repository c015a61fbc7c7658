-- ===== src/Topology/Racks.antt =====
-- The racks of a table.
use puppet_stg_environment.Common.{
  ◌≡◌, refl, ◌∙◌, Option, none, some, List, [], ◌∷◌, ◌++◌, All, append_assoc, ◌==◌, if◌then◌else◌,
}
use puppet_stg_environment.Common.Text.{Text, text_eq, strip, split_on, readlines}
use puppet_stg_environment.Common.Text.Strip.{strip-append_space}
use puppet_stg_environment.Common.Text.Split.{
  Lacks, Lacks-append, split_on_lacking, split_on-append, readlines-append,
}
use puppet_stg_environment.Common.Dict.{lookup, lookup-nil, lookup-insert}
use puppet_stg_environment.Topology.{
  Mapping, default_rack, store_fields, load_lines, load_topology, rack_of,
}

-- A row of the table as a line without its newline.
abbrev pub print_row : List Text → Text
print_row [] = []
print_row (f ∷ []) = f
print_row (f ∷ g ∷ fs) = f ++ 44 ∷ print_row (g ∷ fs)

abbrev pub print_table : List (List Text) → Text
print_table [] = []
print_table (row ∷ rows) = print_row row ++ 10 ∷ print_table rows

-- No field holds a comma or a newline.
abbrev pub IsRow : List Text → Type 0
IsRow row = All (λ f. Lacks 44 f × Lacks 10 f) row

-- The rack that the last row with two fields gives a host, and `old` if there is none.
abbrev pub last_rack : Text → List (List Text) → Option Text → Option Text
last_rack host [] old = old
last_rack host ((h ∷ r ∷ []) ∷ rows) old =
    last_rack host rows (if host == strip h then some (strip r) else old)
last_rack host (_ ∷ rows) old = last_rack host rows old

abbrev pub or_default : Option Text → Text
or_default none = default_rack
or_default (some rack) = rack

print_row-Lacks : (row : List Text) → IsRow row → Lacks 10 (print_row row)
print_row-Lacks [] h = tt
print_row-Lacks (f ∷ []) h = h.0.1
print_row-Lacks (f ∷ g ∷ fs) h =
    Lacks-append 10 f (44 ∷ print_row (g ∷ fs)) h.0.1 (refl, print_row-Lacks (g ∷ fs) h.1)

-- The fields of the line, the last with the newline.
ended : List Text → List Text
ended [] = (10 ∷ []) ∷ []
ended (f ∷ []) = (f ++ 10 ∷ []) ∷ []
ended (f ∷ g ∷ fs) = f ∷ ended (g ∷ fs)

split_on-print_row :
    (row : List Text) → IsRow row → split_on 44 (print_row row ++ 10 ∷ []) ≡ ended row
unfolding ended
split_on-print_row [] h = split_on_lacking 44 (10 ∷ []) (refl, tt)
split_on-print_row (f ∷ []) h =
    split_on_lacking 44 (f ++ 10 ∷ []) (Lacks-append 44 f (10 ∷ []) h.0.0 (refl, tt))
split_on-print_row (f ∷ g ∷ fs) h =
    rw
      (
        append_assoc,
        split_on-append 44 f (print_row (g ∷ fs) ++ 10 ∷ []) h.0.0,
        split_on-print_row (g ∷ fs) h.1,
      )
      refl

-- What a row does to the rack of a host.
lookup-store_fields :
    (host : Text) (row : List Text) (rows : List (List Text)) (mapping : Mapping)
    → last_rack host rows (lookup host (store_fields (ended row) mapping))
      ≡ last_rack host (row ∷ rows) (lookup host mapping)
unfolding store_fields ended
lookup-store_fields host [] rows mapping = refl
lookup-store_fields host (h ∷ []) rows mapping = refl
lookup-store_fields host (h ∷ r ∷ []) rows mapping =
    rw (lookup-insert, strip-append_space r 10 refl) refl
lookup-store_fields host (h ∷ r ∷ x ∷ []) rows mapping = refl
lookup-store_fields host (h ∷ r ∷ x ∷ y ∷ fs) rows mapping = refl

load_lines-last_rack :
    (host : Text) (rows : List (List Text)) (mapping : Mapping)
    → All IsRow rows
    → lookup host (load_lines (readlines (print_table rows)) mapping)
      ≡ last_rack host rows (lookup host mapping)
unfolding load_lines readlines
load_lines-last_rack host [] mapping h = refl
load_lines-last_rack host (row ∷ rows) mapping h =
    rw
      (
        readlines-append (print_row row) (print_table rows) (print_row-Lacks row h.0),
        load_lines,
        split_on-print_row row h.0,
      )
      (load_lines-last_rack host rows (store_fields (ended row) mapping) h.1
        ∙ lookup-store_fields host row rows mapping)

-- For a file that holds a table, each host gets the rack of the last row of two fields that names it,
-- without the space around the fields, and the default rack if there is no such row. Rows with
-- another number of fields have no influence.
pub rack_of-last_rack :
    (host : Text) (rows : List (List Text))
    → All IsRow rows
    → rack_of (load_topology (some (print_table rows))) host ≡ or_default (last_rack host rows none)
unfolding rack_of load_topology
rack_of-last_rack host rows h = rw (rack_of, load_lines-last_rack host rows [] h, lookup-nil) refl
