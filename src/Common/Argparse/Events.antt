-- ===== src/Common/Argparse/Events.antt =====
-- What `argparse` does in turn for arguments that are sorted: `_parse_known_args`.
use puppet_stg_environment.Common.Tests.{if◌then◌else◌}
use puppet_stg_environment.Common.Equality.{◌==◌, nat_eq}
use puppet_stg_environment.Common.Text.{Text, text_eq, codes}
use puppet_stg_environment.Common.Dict.{lookup}
use mathlib.Core.Bool.{Bool, true, false, ◌||◌}
use mathlib.Core.Option.{Option, none, some}
use mathlib.Core.List.{List, [], ◌∷◌, ◌++◌}
use puppet_stg_environment.Common.Argparse.Sorts.{
  Kind, takes_one, takes_many, sets_flag, informs, Action, Table, Sort, plain, option, sort_all,
  any_ambiguous,
}

-- What the parser does in turn; a `ValueError` and an `IndexError` are its own.
pub data Event (D : Type 0) : Type 0 where
  store : D → List Text → Event D
  inform usage_error value_error index_error : Event D

unfoldable pub drop_dashes : List Text → List Text
drop_dashes [] = []
drop_dashes (value ∷ values) =
    let rest = drop_dashes values in if value == codes "--" then values else value ∷ rest

-- What the parser waits for, with what it has to do before.
pub data Pending (D : Type 0) : Type 0 where
  idle : Pending D
  one_for many_for : List (Event D) → D → Pending D
  taking : D → List Text → Pending D

-- What an argument does: the events, then either what is waited for and whether the argument is left
-- over, or the end.
pub data Turn (D : Type 0) : Type 0 where
  goes_on : List (Event D) → Pending D → Bool → Turn D
  stops : List (Event D) → Turn D

-- What follows from an option: what to do at once, or a failure, which drops all of the argument.
pub data Opened (D : Type 0) : Type 0 where
  done : List (Event D) → Opened D
  waits : Pending D → Opened D
  fails : Event D → Opened D

module _ {D : Type 0} where
  -- `_get_values` takes a first `--` out of the values.
  abbrev pub store_one : D → Text → Event D
  store_one dest value = if value == codes "--" then value_error else store dest (value ∷ [])

  before : Event D → Opened D → Opened D
  before e (done acts) = done (e ∷ acts)
  before e (waits idle) = waits idle
  before e (waits (one_for acts d)) = waits (one_for (e ∷ acts) d)
  before e (waits (many_for acts d)) = waits (many_for (e ∷ acts) d)
  before e (waits (taking d values)) = waits (taking d values)
  before e (fails f) = fails f

  -- With what stands behind the letter; an option that takes nothing leaves it to the next letters.
  open_kind : Kind → D → Text → Opened D → Opened D
  open_kind takes_one dest [] rest = waits (one_for [] dest)
  open_kind takes_one dest (c ∷ s) rest = done (store_one dest (c ∷ s) ∷ [])
  open_kind takes_many dest [] rest = waits (many_for [] dest)
  open_kind takes_many dest (c ∷ s) rest = done (store dest (drop_dashes ((c ∷ s) ∷ [])) ∷ [])
  open_kind sets_flag dest s rest = before (store dest []) rest
  open_kind informs dest s rest = before inform rest

  abbrev open_letter : Action D → Text → Opened D → Opened D
  open_letter action = open_kind action.kind action.dest

  letters : Table D → Text → Opened D
  letters table [] = done []
  letters table (c ∷ s) =
      let rest = letters table s in
      elim (lookup (45 ∷ c ∷ []) table) [
        | none ↦ fails usage_error
        | some action ↦ open_letter action s rest
      ]

  -- A flag with a value: the value of a single letter is more letters, and its first has to be there.
  more_letters : Table D → Bool → Action D → Text → Opened D
  more_letters table false action value = fails usage_error
  more_letters table true action [] = fails index_error
  more_letters table true action value = open_letter action [] (letters table value)

  -- `consume_optional`
  unfoldable pub opening : Table D → Bool → Action D → Option Text → Opened D
  unfolding before open_kind letters more_letters
  opening table single action none = open_letter action [] (done [])
  opening table single action (some value) = elim action.kind [
    | takes_one ↦ done (store_one action.dest value ∷ [])
    | takes_many ↦ done (store action.dest (drop_dashes (value ∷ [])) ∷ [])
    | sets_flag ↦ more_letters table single action value
    | informs ↦ more_letters table single action value
  ]

  -- What is still to do when the values of an option have ended; `none` if one is missing.
  flush : Pending D → Option (List (Event D))
  flush idle = some []
  flush (one_for acts d) = none
  flush (many_for acts d) = none
  flush (taking d values) = some (store d (drop_dashes values) ∷ [])

  value_step : Pending D → Text → Turn D
  value_step idle arg = goes_on [] idle true
  value_step (one_for acts d) arg = goes_on (acts ++ (store_one d arg ∷ [])) idle false
  value_step (many_for acts d) arg = goes_on acts (taking d (arg ∷ [])) false
  value_step (taking d values) arg = goes_on [] (taking d (values ++ (arg ∷ []))) false

  abbrev pub opened : List (Event D) → Opened D → Turn D
  opened acts (done more) = goes_on (acts ++ more) idle false
  opened acts (waits pending) = goes_on acts pending false
  opened acts (fails e) = stops (acts ++ (e ∷ []))

  option_step : Table D → Sort D → List (Event D) → Turn D
  option_step table (option single action value) acts =
      opened acts (opening table single action value)
  option_step table _ acts = goes_on acts idle true

  unfoldable pub step : Table D → Pending D → Text → Sort D → Turn D
  unfolding flush value_step option_step
  step table pending arg plain = value_step pending arg
  step table pending arg sort = elim (flush pending) [
    | none ↦ stops (usage_error ∷ [])
    | some acts ↦ option_step table sort acts
  ]

  -- An argument that is left over is an error at the end.
  finish : Bool → Option (List (Event D)) → List (Event D)
  finish extra none = usage_error ∷ []
  finish extra (some acts) = if extra then acts ++ (usage_error ∷ []) else acts

  unfoldable pub events : Table D → Pending D → Bool → List (Text × Sort D) → List (Event D)
  unfolding flush finish
  events table pending extra [] = finish extra (flush pending)
  events table pending extra ((arg, sort) ∷ sorts) = elim (step table pending arg sort) [
    | stops acts ↦ acts
    | goes_on acts next left ↦ acts ++ events table next (extra || left) sorts
  ]

  abbrev refuse_ambiguous : Table D → List (Text × Sort D) → List (Event D)
  refuse_ambiguous table sorts =
      if any_ambiguous sorts then usage_error ∷ [] else events table idle false sorts

  -- `parse_args`
  unfoldable pub parse_events : Table D → List Text → List (Event D)
  parse_events table argv = refuse_ambiguous table (sort_all table argv)
