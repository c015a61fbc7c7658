-- ===== src/AppReport/Table.antt =====
-- The page as the table of what the machines have installed.
use puppet_stg_environment.Common.{
  ◌≡◌, ◌↔◌, true, List, [], ◌∷◌, ◌++◌, if◌then◌else◌, is_nil, contains,
}
use puppet_stg_environment.Common.Text.{Text, text_eq}
use puppet_stg_environment.AppReport.Page.{page_head, page_end, Output, no_data_to_process}
use puppet_stg_environment.AppReport.Columns.{IsAscending}
use puppet_stg_environment.AppReport.Inventory.{Machine, IsInstalled, row}

abbrev pub rows : List Text → (Text → Machine) → List Text → List Text
rows columns machines [] = []
rows columns machines (host ∷ others) =
    row columns host (machines host) ++ rows columns machines others

abbrev pub table : Text → List Text → (Text → Machine) → List Text → List Text
table date columns machines order =
    (page_head date columns ++ rows columns machines order) ++ page_end

-- One of the hosts has the package.
abbrev pub IsSomewhere : List Text → (Text → Machine) → Text → Type 0
IsSomewhere chosen machines name =
    (host : Text) × (contains chosen host ≡ true) × IsInstalled name (machines host)

-- The columns are the names of the packages, and the order is one of the hosts, each without
-- repetition.
abbrev pub IsLayout : List Text → (Text → Machine) → List Text → List Text → Type 0
IsLayout chosen machines columns order =
    (IsAscending columns
      × ((name : Text) → (contains columns name ≡ true) ↔ IsSomewhere chosen machines name))
    × (IsAscending order × ((host : Text) → contains order host ≡ contains chosen host))

abbrev pub complaint : List Text → List Output
complaint chosen = if is_nil chosen then no_data_to_process ∷ [] else []
