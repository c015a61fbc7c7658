-- ===== src/Common/Argparse/Sorts.antt =====
-- The options that `argparse` is told of, and what it takes each argument for.
use puppet_stg_environment.Common.Tests.{eqb, if◌then◌else◌}
use puppet_stg_environment.Common.Lists.{is_nil, take, drop}
use puppet_stg_environment.Common.Equality.{◌==◌, contains, nat_eq}
use puppet_stg_environment.Common.Text.{Text, text_eq, codes}
use puppet_stg_environment.Common.Text.Search.{is_prefix}
use puppet_stg_environment.Common.Text.Explicit.{Explicit, bare_name, with_value, split_value}
use puppet_stg_environment.Common.Decimal.{is_digit}
use puppet_stg_environment.Common.Dict.{Dict, lookup}
use mathlib.Core.Bool.{Bool, true, false, not, ◌&&◌}
use mathlib.Core.Option.{Option, none, some}
use mathlib.Core.List.{List, [], ◌∷◌, map}

pub data Kind : Type 0 where
  takes_one takes_many sets_flag informs : Kind

pub record Action (D : Type 0) : Type 0 where
  pub kind : Kind
  pub dest : D

-- `_option_string_actions`
abbrev pub Table : Type 0 → Type 0
Table D = Dict Text (Action D)

-- What an argument is taken for: a value, the two dashes, an option that is unknown or ambiguous, or
-- one that is known, with whether it has one dash only and what stands behind its `=` or its letter.
pub data Sort (D : Type 0) : Type 0 where
  plain dashes unknown ambiguous : Sort D
  option : Bool → Action D → Option Text → Sort D

-- Digits to the end, or to a newline that ends the text.
digits_end : Bool → Text → Bool
digits_end seen [] = seen
digits_end seen (c ∷ s) = if is_digit c then digits_end true s else seen && (eqb c 10 && is_nil s)

number_end : Bool → Text → Bool
number_end seen [] = seen
number_end seen (c ∷ s) =
    if is_digit c
    then number_end true s
    else if eqb c 46
    then digits_end false s
    else seen && (eqb c 10 && is_nil s)

-- `'^-\d+$|^-\d*\.\d+$'`
unfoldable pub is_negative_number : Text → Bool
unfolding digits_end number_end
is_negative_number [] = false
is_negative_number (c ∷ s) = eqb c 45 && number_end false s

abbrev is_single : Text → Bool
is_single (c ∷ d ∷ s) = not (eqb d 45)
is_single _ = true

module _ {D : Type 0} where
  -- The options that start the way a long name does.
  long_candidates : Text → Option Text → Table D → List (Sort D)
  long_candidates prefix value [] = []
  long_candidates prefix value ((name, action) ∷ table) =
      let rest = long_candidates prefix value table in
      if is_prefix prefix name then option (is_single name) action value ∷ rest else rest

  -- The option of the letter, with what stands behind it, and those that start that way.
  short_candidates : Text → Table D → List (Sort D)
  short_candidates arg [] = []
  short_candidates arg ((name, action) ∷ table) =
      let rest = short_candidates arg table in
      if name == take 2 arg
      then option (is_single name) action (some (drop 2 arg)) ∷ rest
      else if is_prefix arg name
      then option (is_single name) action none ∷ rest
      else rest

  long_parts : Table D → Explicit → List (Sort D)
  long_parts table (bare_name name) = long_candidates name none table
  long_parts table (with_value name value) = long_candidates name (some value) table

  -- `_get_option_tuples`
  unfoldable pub candidates : Table D → Text → List (Sort D)
  unfolding long_candidates short_candidates long_parts
  candidates table arg =
      if is_single arg then short_candidates arg table else long_parts table (split_value arg)

  choose : Text → List (Sort D) → Sort D
  choose arg [] =
      if is_negative_number arg then plain else if contains arg 32 then plain else unknown
  choose arg (s ∷ []) = s
  choose arg (s ∷ t ∷ ss) = ambiguous

  with_explicit : Table D → Text → Explicit → Sort D
  with_explicit table arg (bare_name name) = choose arg (candidates table arg)
  with_explicit table arg (with_value name value) = elim (lookup name table) [
    | some action ↦ option (is_single name) action (some value)
    | none ↦ choose arg (candidates table arg)
  ]

  dashed : Table D → Text → Bool → Sort D
  dashed table arg lone = elim (lookup arg table) [
    | some action ↦ option (is_single arg) action none
    | none ↦ if lone then plain else with_explicit table arg (split_value arg)
  ]

  -- `_parse_optional`
  unfoldable pub classify : Table D → Text → Sort D
  unfolding choose with_explicit dashed
  classify table [] = plain
  classify table (c ∷ s) = if eqb c 45 then dashed table (c ∷ s) (is_nil s) else plain

  abbrev as_plain : Text → Text × Sort D
  as_plain arg = (arg, plain)

  unfoldable pub sort_all : Table D → List Text → List (Text × Sort D)
  sort_all table [] = []
  sort_all table (arg ∷ argv) =
      let rest = sort_all table argv in
      if arg == codes "--"
      then (arg, dashes) ∷ map as_plain argv
      else (arg, classify table arg) ∷ rest

  unfoldable pub any_ambiguous : List (Text × Sort D) → Bool
  any_ambiguous [] = false
  any_ambiguous ((arg, ambiguous) ∷ sorts) = true
  any_ambiguous ((arg, _) ∷ sorts) = any_ambiguous sorts
