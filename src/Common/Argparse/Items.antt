-- ===== src/Common/Argparse/Items.antt =====
-- Options by their long names with their values, the arguments that they are written as, and what the
-- parser does for these.
pub mod Stored
use puppet_stg_environment.Common.Lists.{All}
use puppet_stg_environment.Common.Equality.{◌==◌}
use puppet_stg_environment.Common.Text.{Text, text_eq, codes}
use puppet_stg_environment.Common.Argparse.Sorts.{
  Kind, takes_one, takes_many, sets_flag, informs, Table, Sort, plain, dashes, unknown, ambiguous,
  option, classify, sort_all, any_ambiguous,
}
use puppet_stg_environment.Common.Argparse.Events.{
  Event, Turn, goes_on, stops, opening, store, Opened, done, waits, fails, idle, taking,
  drop_dashes, opened, step, events, parse_events,
}
use mathlib.Core.Path.{◌≡◌, refl, sym, ap, ◌∙◌}
use mathlib.Core.Bool.{Bool, true, false}
use mathlib.Core.Option.{Option, none, some}
use mathlib.Core.List.{List, [], ◌∷◌, ◌++◌, append-nil, append_assoc}

-- An option with its value or its values, the first apart, if they are given, or a flag.
pub data Item (D : Type 0) : Type 0 where
  one_item : Text → D → Option Text → Item D
  many_item : Text → D → Option (Text × List Text) → Item D
  flag_item : Text → D → Bool → Item D

module _ {D : Type 0} where
  abbrev pub argument : Item D → List Text
  argument (one_item name dest none) = []
  argument (one_item name dest (some value)) = name ∷ value ∷ []
  argument (many_item name dest none) = []
  argument (many_item name dest (some (value, values))) = name ∷ value ∷ values
  argument (flag_item name dest false) = []
  argument (flag_item name dest true) = name ∷ []

  abbrev pub arguments : List (Item D) → List Text
  arguments [] = []
  arguments (item ∷ items) = argument item ++ arguments items

  abbrev pub event : Item D → List (Event D)
  event (one_item name dest none) = []
  event (one_item name dest (some value)) = store dest (value ∷ []) ∷ []
  event (many_item name dest none) = []
  event (many_item name dest (some (value, values))) = store dest (value ∷ values) ∷ []
  event (flag_item name dest false) = []
  event (flag_item name dest true) = store dest [] ∷ []

  abbrev pub events_of : List (Item D) → List (Event D)
  events_of [] = []
  events_of (item ∷ items) = event item ++ events_of items

  -- The parser takes the name for that of the option.
  abbrev pub IsNamed : Table D → Kind → Text → D → Type 0
  IsNamed table kind name dest =
      (name == codes "--" ≡ false)
      × (classify table name ≡ option false (record { kind = kind; dest = dest }) none)

  -- The parser takes the text for a value.
  abbrev pub IsValue : Table D → Text → Type 0
  IsValue table value = (value == codes "--" ≡ false) × (classify table value ≡ plain)

  abbrev pub IsKnown : Table D → Item D → Type 0
  IsKnown table (one_item name dest none) = Unit
  IsKnown table (one_item name dest (some value)) =
      IsNamed table takes_one name dest × IsValue table value
  IsKnown table (many_item name dest none) = Unit
  IsKnown table (many_item name dest (some (value, values))) =
      IsNamed table takes_many name dest × IsValue table value × All (IsValue table) values
  IsKnown table (flag_item name dest false) = Unit
  IsKnown table (flag_item name dest true) = IsNamed table sets_flag name dest

  abbrev plain_all : List Text → List (Text × Sort D)
  plain_all [] = []
  plain_all (value ∷ values) = (value, plain) ∷ plain_all values

  abbrev named : Kind → Text → D → Text × Sort D
  named kind name dest = (name, option false (record { kind = kind; dest = dest }) none)

  abbrev sorted : Item D → List (Text × Sort D)
  sorted (one_item name dest none) = []
  sorted (one_item name dest (some value)) = named takes_one name dest ∷ (value, plain) ∷ []
  sorted (many_item name dest none) = []
  sorted (many_item name dest (some (value, values))) =
      named takes_many name dest ∷ (value, plain) ∷ plain_all values
  sorted (flag_item name dest false) = []
  sorted (flag_item name dest true) = named sets_flag name dest ∷ []

  abbrev sorted_all : List (Item D) → List (Text × Sort D)
  sorted_all [] = []
  sorted_all (item ∷ items) = sorted item ++ sorted_all items

  module _ (table : Table D) where
    sort_values :
        (values argv : List Text)
        → All (IsValue table) values
        → sort_all table (values ++ argv) ≡ plain_all values ++ sort_all table argv
    unfolding sort_all
    sort_values [] argv h = refl
    sort_values (value ∷ values) argv ((n, c), h) =
        rw (n, c) (ap (λ ss. (value, plain) ∷ ss) (sort_values values argv h))

    sort_argument :
        (item : Item D) (argv : List Text)
        → IsKnown table item
        → sort_all table (argument item ++ argv) ≡ sorted item ++ sort_all table argv
    unfolding sort_all
    sort_argument (one_item name dest none) argv h = refl
    sort_argument (one_item name dest (some value)) argv ((n, c), (m, d)) = rw (n, c, m, d) refl
    sort_argument (many_item name dest none) argv h = refl
    sort_argument (many_item name dest (some (value, values))) argv ((n, c), (m, d), h) =
        rw (n, c, m, d)
          (ap (λ ss. named takes_many name dest ∷ (value, plain) ∷ ss) (sort_values values argv h))
    sort_argument (flag_item name dest false) argv h = refl
    sort_argument (flag_item name dest true) argv (n, c) = rw (n, c) refl

    sort_arguments :
        (items : List (Item D))
        → All (IsKnown table) items
        → sort_all table (arguments items) ≡ sorted_all items
    unfolding sort_all
    sort_arguments [] h = refl
    sort_arguments (item ∷ items) (k, h) =
        sort_argument item (arguments items) k
        ∙ ap (λ ss. sorted item ++ ss) (sort_arguments items h)

    values-not_ambiguous :
        (values : List Text) (sorts : List (Text × Sort D))
        → any_ambiguous (plain_all values ++ sorts) ≡ any_ambiguous sorts
    unfolding any_ambiguous
    values-not_ambiguous [] sorts = refl
    values-not_ambiguous (value ∷ values) sorts = values-not_ambiguous values sorts

    argument-not_ambiguous :
        (item : Item D) (sorts : List (Text × Sort D))
        → any_ambiguous (sorted item ++ sorts) ≡ any_ambiguous sorts
    unfolding any_ambiguous
    argument-not_ambiguous (one_item name dest none) sorts = refl
    argument-not_ambiguous (one_item name dest (some value)) sorts = refl
    argument-not_ambiguous (many_item name dest none) sorts = refl
    argument-not_ambiguous (many_item name dest (some (value, values))) sorts =
        values-not_ambiguous values sorts
    argument-not_ambiguous (flag_item name dest false) sorts = refl
    argument-not_ambiguous (flag_item name dest true) sorts = refl

    arguments-not_ambiguous : (items : List (Item D)) → any_ambiguous (sorted_all items) ≡ false
    unfolding any_ambiguous
    arguments-not_ambiguous [] = refl
    arguments-not_ambiguous (item ∷ items) =
        argument-not_ambiguous item (sorted_all items) ∙ arguments-not_ambiguous items
