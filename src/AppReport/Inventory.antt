-- ===== src/AppReport/Inventory.antt =====
-- What a host has installed, and how its answer and its row say so.
use puppet_stg_environment.Common.{
  ◌≡◌, refl, ◌∙◌, sym, ap, ◌↔◌, some, true, false, inl, inr, List, [], ◌∷◌, All, Any, is_nil,
  for_some, arith,
}
use puppet_stg_environment.Common.Text.{Text, text_eq}
use puppet_stg_environment.Common.Dict.{
  Dict, lookup, lookup-cons, lookup-nil, lookup_same, lookup_other,
}
use puppet_stg_environment.AppReport.{
  Ssh, Streams, lines, sshcmd, Entry, not_found, connection_error, found, entry_of,
}
use puppet_stg_environment.AppReport.Page.{
  field, version, done, before, cell, row_start, row_end, connection_row, write_cells, write_row,
}
use puppet_stg_environment.AppReport.Columns.{IsListed}
use puppet_stg_environment.AppReport.Complete.{IsComplete, HasLines}

-- The names and versions of packages; of a name that stands twice the first counts.
abbrev pub Inventory : Type 0
Inventory = Dict Text Text

pub data Machine : Type 0 where
  unreachable : Machine
  reachable : Inventory → Machine

-- The lines name these packages with these versions, in this order.
abbrev pub Lists : List Text → Inventory → Type 0
Lists [] [] = Unit
Lists (line ∷ others) ((name, ver) ∷ inventory) =
    ((field 1 line ≡ some name) × (field 2 line ≡ some ver)) × Lists others inventory
Lists _ _ = ⊥

-- What ssh gets of a machine: an error, or the lines of its inventory.
abbrev pub Answers : Machine → Streams → Type 0
Answers unreachable s = is_nil s.stderr ≡ false
Answers (reachable inventory) s = (is_nil s.stderr ≡ true) × Lists s.stdout inventory

abbrev pub Shows : Machine → Entry → Type 0
Shows unreachable connection_error = Unit
Shows (reachable []) not_found = Unit
Shows (reachable (item ∷ inventory)) (found soft others) = Lists (soft ∷ others) (item ∷ inventory)
Shows _ _ = ⊥

-- A machine has a package.
abbrev pub IsInstalled : Text → Machine → Type 0
IsInstalled name unreachable = ⊥
IsInstalled name (reachable inventory) = (ver : Text) × (lookup name inventory ≡ some ver)

abbrev cells : Inventory → List Text → List Text
cells inventory [] = row_end ∷ []
cells inventory (name ∷ names) = cell (lookup name inventory) ∷ cells inventory names

-- The row of a machine: one cell for each column, or one for all of them, and none for a machine that
-- has no package.
abbrev pub row : List Text → Text → Machine → List Text
row columns host unreachable = connection_row columns host ∷ []
row columns host (reachable []) = []
row columns host (reachable (item ∷ inventory)) = row_start host ∷ cells (item ∷ inventory) columns

lines-Shows :
    (answer : List Text) (inventory : Inventory)
    → Lists answer inventory
    → Shows (reachable inventory) (entry_of (lines answer))
unfolding entry_of
lines-Shows [] [] h = tt
lines-Shows (line ∷ answer) (item ∷ inventory) h = h
lines-Shows [] (item ∷ inventory) h = absurd h
lines-Shows (line ∷ answer) [] h = absurd h

pub entry_of-Shows :
    (ssh : Ssh) (host : Text) (m : Machine)
    → Answers m (ssh host)
    → Shows m (entry_of (sshcmd ssh host))
unfolding sshcmd entry_of
entry_of-Shows ssh host unreachable e = rw (sshcmd, e) tt
entry_of-Shows ssh host (reachable inventory) (e, h) =
    rw (sshcmd, e) (lines-Shows (ssh host).stdout inventory h)

version-lookup :
    (wanted : Text) (answer : List Text) (inventory : Inventory)
    → Lists answer inventory
    → version wanted answer ≡ some (lookup wanted inventory)
unfolding version
version-lookup wanted [] [] h = rw lookup-nil refl
version-lookup wanted (line ∷ answer) ((name, ver) ∷ inventory) ((e, f), h) =
    rw
      (
        version,
        e,
        f,
        version-lookup wanted answer inventory h,
        lookup-cons wanted name ver inventory,
      )
      (ground arith)
version-lookup wanted [] (item ∷ inventory) h = absurd h
version-lookup wanted (line ∷ answer) [] h = absurd h

write_cells-cells :
    (answer : List Text) (inventory : Inventory) (names : List Text)
    → Lists answer inventory
    → write_cells answer names ≡ done (cells inventory names)
unfolding write_cells before
write_cells-cells answer inventory [] h = refl
write_cells-cells answer inventory (name ∷ names) h =
    rw
      (
        write_cells,
        version-lookup name answer inventory h,
        write_cells-cells answer inventory names h,
      )
      refl

pub write_row-row :
    (columns : List Text) (host : Text) (m : Machine) (entry : Entry)
    → Shows m entry
    → write_row columns host entry ≡ done (row columns host m)
unfolding write_row before
write_row-row columns host unreachable connection_error h = refl
write_row-row columns host (reachable []) not_found h = refl
write_row-row columns host (reachable (item ∷ inventory)) (found soft others) h =
    ap (before (row_start host)) (write_cells-cells (soft ∷ others) (item ∷ inventory) columns h)
write_row-row columns host _ _ h = absurd h

Lists-IsComplete :
    (answer : List Text) (inventory : Inventory) → Lists answer inventory → All IsComplete answer
Lists-IsComplete [] [] h = tt
Lists-IsComplete (line ∷ answer) ((name, ver) ∷ inventory) ((e, f), h) =
    ((name, ver, e, f), Lists-IsComplete answer inventory h)
Lists-IsComplete [] (item ∷ inventory) h = absurd h
Lists-IsComplete (line ∷ answer) [] h = absurd h

pub Shows-HasLines : (m : Machine) (entry : Entry) → Shows m entry → HasLines entry
Shows-HasLines unreachable connection_error h = tt
Shows-HasLines (reachable []) not_found h = tt
Shows-HasLines (reachable (item ∷ inventory)) (found soft others) h =
    Lists-IsComplete (soft ∷ others) (item ∷ inventory) h
Shows-HasLines _ _ h = absurd h

module _ (name : Text) where
  listed-IsInstalled :
      (answer : List Text) (inventory : Inventory)
      → Lists answer inventory
      → Any (λ line. field 1 line ≡ some name) answer
      → IsInstalled name (reachable inventory)
  listed-IsInstalled (line ∷ answer) ((key, ver) ∷ inventory) ((e, f), h) a =
      elim (text_eq.dec name key) [
        | yes p ↦ (ver, lookup_same name key ver inventory p)
        | no d ↦ elim a [
          | inl q ↦ absurd (d (for_some (λ k. name ≡ k) name key (sym q ∙ e) refl))
          | inr b ↦
              let (v, r) = listed-IsInstalled answer inventory h b in
              (v, lookup_other name key ver inventory d ∙ r)
        ]
      ]
  listed-IsInstalled [] inventory h a = absurd a
  listed-IsInstalled (line ∷ answer) [] h a = absurd h

  installed-Any :
      (answer : List Text) (inventory : Inventory)
      → Lists answer inventory
      → IsInstalled name (reachable inventory)
      → Any (λ line. field 1 line ≡ some name) answer
  installed-Any (line ∷ answer) ((key, ver) ∷ inventory) ((e, f), h) (v, r) =
      elim (text_eq.dec name key) [
        | yes p ↦ inl (e ∙ ap some (sym p))
        | no d ↦
            inr (
              installed-Any answer inventory h (v, sym (lookup_other name key ver inventory d) ∙ r))
      ]
  installed-Any [] [] h (v, r) = cc (lookup-nil {V = Text} name, r)
  installed-Any [] (item ∷ inventory) h i = absurd h
  installed-Any (line ∷ answer) [] h i = absurd h

  pub IsListed-IsInstalled :
      (host : Text) (m : Machine) (entry : Entry)
      → Shows m entry
      → IsListed name (host, entry) ↔ IsInstalled name m
  IsListed-IsInstalled host unreachable connection_error h = (λ b. b, λ b. b)
  IsListed-IsInstalled host (reachable []) not_found h =
      (λ b. absurd b, λ (v, r). cc (lookup-nil {V = Text} name, r))
  IsListed-IsInstalled host (reachable (item ∷ inventory)) (found soft others) h = (
    listed-IsInstalled (soft ∷ others) (item ∷ inventory) h,
    installed-Any (soft ∷ others) (item ∷ inventory) h,
  )
  IsListed-IsInstalled host _ _ h = absurd h
