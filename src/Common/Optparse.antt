-- ===== src/Common/Optparse.antt =====
-- The command line of Python's `optparse`, for options that store a value, set a flag, or print a
-- text and leave. An option is long (`--key value`, `--key=value`, or the start of one name only), or
-- a letter (`-k value`, `-kvalue`, or several flags behind one dash).
pub mod Items
pub mod Numbers
use puppet_stg_environment.Common.Text.Explicit.{Explicit, bare_name, with_value, split_value}
use puppet_stg_environment.Common.Tests.{eqb, if◌then◌else◌}
use puppet_stg_environment.Common.Equality.{◌==◌, contains, nat_eq}
use puppet_stg_environment.Common.Text.{Text, text_eq, codes}
use puppet_stg_environment.Common.Text.Search.{is_prefix}
use Prim.Native.Nat.{ℕ}
use mathlib.Core.Option.{Option, none, some}
use mathlib.Core.List.{List, [], ◌∷◌, ◌++◌}

pub data Kind : Type 0 where
  takes_value sets_flag informs : Kind

-- `D` are the places where the options store what they are given.
pub record Opt (D : Type 0) : Type 0 where
  pub letters : List ℕ
  pub long : Text
  pub kind : Kind
  pub dest : D

-- What an argument comes to: it is no option, it sets options, it does so and waits for the value of
-- the last, it is an error, or it ends the program with a text.
pub data Scan (D : Type 0) : Type 0 where
  positional refused informed : Scan D
  ready : List (D × Option Text) → Scan D
  waiting : List (D × Option Text) → D → Scan D

-- The settings and the arguments that are no options; an error; or the settings before an option that
-- prints a text and leaves.
pub data Parsed (D : Type 0) : Type 0 where
  accepted : List (D × Option Text) → List Text → Parsed D
  rejected : Parsed D
  helped : List (D × Option Text) → Parsed D

module _ {D : Type 0} where
  unfoldable pub find_letter : List (Opt D) → ℕ → Option (Opt D)
  find_letter [] c = none
  find_letter (o ∷ opts) c = if contains o.letters c then some o else find_letter opts c

  unfoldable pub find_exact : List (Opt D) → Text → Option (Opt D)
  find_exact [] name = none
  find_exact (o ∷ opts) name = if o.long == name then some o else find_exact opts name

  unfoldable pub starting_with : List (Opt D) → Text → List (Opt D)
  starting_with [] name = []
  starting_with (o ∷ opts) name =
      let rest = starting_with opts name in if is_prefix name o.long then o ∷ rest else rest

  abbrev the_only : List (Opt D) → Option (Opt D)
  the_only (o ∷ []) = some o
  the_only _ = none

  -- `_match_long_opt`; `none` is an unknown or an ambiguous name.
  unfoldable pub match_long : List (Opt D) → Text → Option (Opt D)
  match_long opts name = elim (find_exact opts name) [
    | some o ↦ some o
    | none ↦ the_only (starting_with opts name)
  ]

  abbrev pub set_first : D × Option Text → Scan D → Scan D
  set_first s (ready ss) = ready (s ∷ ss)
  set_first s (waiting ss d) = waiting (s ∷ ss) d
  set_first s other = other

  abbrev rest_as_value : D → Text → Scan D
  rest_as_value d [] = waiting [] d
  rest_as_value d (c ∷ s) = ready ((d, some (c ∷ s)) ∷ [])

  abbrev by_letter : Option (Opt D) → Text → Scan D → Scan D
  by_letter none s rest = refused
  by_letter (some o) s rest = elim o.kind [
    | takes_value ↦ rest_as_value o.dest s
    | sets_flag ↦ set_first (o.dest, none) rest
    | informs ↦ informed
  ]

  -- `_process_short_opts`, behind the dash.
  unfoldable pub scan_letters : List (Opt D) → Text → Scan D
  scan_letters opts [] = ready []
  scan_letters opts (c ∷ s) = by_letter (find_letter opts c) s (scan_letters opts s)

  abbrev by_name : Option (Opt D) → Option Text → Scan D
  by_name none value = refused
  by_name (some o) value = elim o.kind [
    | takes_value ↦ elim value [ none ↦ waiting [] o.dest | some v ↦ ready ((o.dest, some v) ∷ []) ]
    | sets_flag ↦ elim value [ none ↦ ready ((o.dest, none) ∷ []) | some v ↦ refused ]
    | informs ↦ elim value [ none ↦ informed | some v ↦ refused ]
  ]

  abbrev by_parts : List (Opt D) → Explicit → Scan D
  by_parts opts (bare_name name) = by_name (match_long opts name) none
  by_parts opts (with_value name value) = by_name (match_long opts name) (some value)

  -- `_process_args`, for one argument other than `--`.
  unfoldable pub scan : List (Opt D) → Text → Scan D
  scan opts [] = positional
  scan opts (c ∷ []) = positional
  scan opts (c ∷ d ∷ s) =
      if eqb c 45
      then (if eqb d 45 then by_parts opts (split_value (c ∷ d ∷ s)) else scan_letters opts (d ∷ s))
      else positional

  abbrev pub add_settings : List (D × Option Text) → Parsed D → Parsed D
  add_settings ss (accepted more args) = accepted (ss ++ more) args
  add_settings ss rejected = rejected
  add_settings ss (helped more) = helped (ss ++ more)

  abbrev pub add_arg : Text → Parsed D → Parsed D
  add_arg arg (accepted settings args) = accepted settings (arg ∷ args)
  add_arg arg rejected = rejected
  add_arg arg (helped settings) = helped settings

  -- `parse_args`, with the option that waits for its value.
  unfoldable pub parse_from : List (Opt D) → Option D → List Text → Parsed D
  parse_from opts none [] = accepted [] []
  parse_from opts (some d) [] = rejected
  parse_from opts (some d) (value ∷ argv) =
      add_settings ((d, some value) ∷ []) (parse_from opts none argv)
  parse_from opts none (arg ∷ argv) =
      let rest = parse_from opts none argv in
      if arg == codes "--" then accepted [] argv else elim (scan opts arg) [
        | positional ↦ add_arg arg rest
        | refused ↦ rejected
        | informed ↦ helped []
        | ready ss ↦ add_settings ss rest
        | waiting ss d ↦ add_settings ss (parse_from opts (some d) argv)
      ]

  abbrev pub parse_args : List (Opt D) → List Text → Parsed D
  parse_args opts argv = parse_from opts none argv
