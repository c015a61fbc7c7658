-- ===== src/Common/Getopt.antt =====
-- The command line of Python's `getopt`, for options of one letter. The letters are given as a text,
-- where a colon stands behind each that takes a value.
use puppet_stg_environment.Common.Tests.{eqb, if◌then◌else◌}
use puppet_stg_environment.Common.Equality.{◌==◌}
use puppet_stg_environment.Common.Text.{Text, text_eq, codes}
use puppet_stg_environment.Common.Text.Search.{is_prefix}
use puppet_stg_environment.Common.Lists.{drop}
use Prim.Native.Nat.{ℕ}
use mathlib.Core.Bool.{Bool, true, false, not, ◌&&◌, ◌||◌}
use mathlib.Core.Option.{Option, none, some}
use mathlib.Core.List.{List, [], ◌∷◌, ◌++◌}

-- The options with their values, and the arguments behind them.
abbrev pub Parsed : Type 0
Parsed = List (Text × Text) × List Text

-- What the letters of an argument come to: an error, options, or options and the letter of a last one
-- that waits for its value.
pub data Shorts : Type 0 where
  refused : Shorts
  ready : List (Text × Text) → Shorts
  waiting : List (Text × Text) → ℕ → Shorts

-- `none` is the `GetoptError` of a letter that is unknown.
unfoldable pub short_has_arg : ℕ → Text → Option Bool
short_has_arg opt [] = none
short_has_arg opt (c ∷ shortopts) =
    if eqb opt c && not (eqb c 58)
    then some (is_prefix (58 ∷ []) shortopts)
    else short_has_arg opt shortopts

abbrev pub named : ℕ → Text
named opt = 45 ∷ opt ∷ []

add_first : Text × Text → Shorts → Shorts
add_first o refused = refused
add_first o (ready opts) = ready (o ∷ opts)
add_first o (waiting opts opt) = waiting (o ∷ opts) opt

with_value : ℕ → Text → Shorts
with_value opt [] = waiting [] opt
with_value opt (c ∷ optstring) = ready ((named opt, c ∷ optstring) ∷ [])

-- `do_shorts`
unfoldable pub do_shorts : Text → Text → Shorts
unfolding add_first with_value
do_shorts shortopts [] = ready []
do_shorts shortopts (opt ∷ optstring) =
    let rest = do_shorts shortopts optstring in
    elim (short_has_arg opt shortopts) [
      | none ↦ refused
      | some true ↦ with_value opt optstring
      | some false ↦ add_first (named opt, []) rest
    ]

abbrev pub add_opts : List (Text × Text) → Option Parsed → Option Parsed
add_opts opts none = none
add_opts opts (some (more, args)) = some (opts ++ more, args)

-- An argument that ends the options.
ends_options : Text → Bool
ends_options arg = not (is_prefix (45 ∷ []) arg) || (arg == codes "-")

-- The loop, with the letter that waits for its value; no option has a long name.
unfoldable pub getopt_from : Text → Option ℕ → List Text → Option Parsed
unfolding ends_options
getopt_from shortopts none [] = some ([], [])
getopt_from shortopts (some opt) [] = none
getopt_from shortopts (some opt) (value ∷ args) =
    add_opts ((named opt, value) ∷ []) (getopt_from shortopts none args)
getopt_from shortopts none (arg ∷ args) =
    if ends_options arg
    then some ([], arg ∷ args)
    else if arg == codes "--"
    then some ([], args)
    else if is_prefix (codes "--") arg
    then none
    else elim (do_shorts shortopts (drop 1 arg)) [
      | refused ↦ none
      | ready opts ↦ add_opts opts (getopt_from shortopts none args)
      | waiting opts opt ↦ add_opts opts (getopt_from shortopts (some opt) args)
    ]

abbrev pub getopt : Text → List Text → Option Parsed
getopt shortopts args = getopt_from shortopts none args
