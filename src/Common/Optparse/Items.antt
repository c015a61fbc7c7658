-- ===== src/Common/Optparse/Items.antt =====
-- Options as long names with their values, the arguments that they are written as, and what the
-- parser makes of these.
use puppet_stg_environment.Common.Lists.{All}
use puppet_stg_environment.Common.Equality.{◌==◌}
use puppet_stg_environment.Common.Text.{Text, text_eq, codes}
use puppet_stg_environment.Common.Optparse.{
  Opt, ready, waiting, scan, Parsed, accepted, rejected, helped, add_settings, parse_from,
  parse_args,
}
use mathlib.Core.Path.{◌≡◌, refl, sym, ap, ◌∙◌}
use mathlib.Core.Bool.{Bool, true, false}
use mathlib.Core.Option.{Option, none, some}
use mathlib.Core.List.{List, [], ◌∷◌, ◌++◌}

-- An option with its value if it is given, or a flag.
pub data Item (D : Type 0) : Type 0 where
  value_item : Text → D → Option Text → Item D
  flag_item : Text → D → Bool → Item D

module _ {D : Type 0} where
  abbrev pub argument : Item D → List Text
  argument (value_item name dest none) = []
  argument (value_item name dest (some value)) = name ∷ value ∷ []
  argument (flag_item name dest false) = []
  argument (flag_item name dest true) = name ∷ []

  abbrev pub arguments : List (Item D) → List Text
  arguments [] = []
  arguments (item ∷ items) = argument item ++ arguments items

  abbrev pub setting : Item D → List (D × Option Text)
  setting (value_item name dest none) = []
  setting (value_item name dest (some value)) = (dest, some value) ∷ []
  setting (flag_item name dest false) = []
  setting (flag_item name dest true) = (dest, none) ∷ []

  abbrev pub settings : List (Item D) → List (D × Option Text)
  settings [] = []
  settings (item ∷ items) = setting item ++ settings items

  -- The parser takes the name for that of the option.
  abbrev pub IsKnown : List (Opt D) → Item D → Type 0
  IsKnown opts (value_item name dest value) =
      (name == codes "--" ≡ false) × (scan opts name ≡ waiting [] dest)
  IsKnown opts (flag_item name dest b) =
      (name == codes "--" ≡ false) × (scan opts name ≡ ready ((dest, none) ∷ []))

  add_nothing : (p : Parsed D) → add_settings [] p ≡ p
  add_nothing (accepted ss args) = refl
  add_nothing rejected = refl
  add_nothing (helped ss) = refl

  parse-argument :
      (opts : List (Opt D)) (item : Item D) (argv : List Text)
      → IsKnown opts item
      → parse_args opts (argument item ++ argv) ≡ add_settings (setting item) (parse_args opts argv)
  unfolding parse_from
  parse-argument opts (value_item name dest none) argv n = sym (add_nothing _)
  parse-argument opts (value_item name dest (some value)) argv (n, e) =
      rw (parse_from, n, e) (add_nothing _)
  parse-argument opts (flag_item name dest false) argv n = sym (add_nothing _)
  parse-argument opts (flag_item name dest true) argv (n, e) = rw (parse_from, n, e) refl

  pub parse_args-arguments :
      (opts : List (Opt D)) (items : List (Item D))
      → All (IsKnown opts) items
      → parse_args opts (arguments items) ≡ accepted (settings items) []
  unfolding parse_from
  parse_args-arguments opts [] h = refl
  parse_args-arguments opts (item ∷ items) (k, h) =
      parse-argument opts item (arguments items) k
      ∙ ap (add_settings (setting item)) (parse_args-arguments opts items h)

-- What the options are after their settings.
module _ {D O : Type 0} (store : D → Option Text → O → O) where
  -- A later setting of the same option replaces the one before it.
  abbrev pub store_all : List (D × Option Text) → O → O
  store_all [] o = o
  store_all ((dest, value) ∷ ss) o = store_all ss (store dest value o)

  abbrev pub store_item : Item D → O → O
  store_item (value_item name dest none) o = o
  store_item (value_item name dest (some value)) o = store dest (some value) o
  store_item (flag_item name dest false) o = o
  store_item (flag_item name dest true) o = store dest none o

  abbrev pub store_items : List (Item D) → O → O
  store_items [] o = o
  store_items (item ∷ items) o = store_items items (store_item item o)

  pub store_all-settings :
      (items : List (Item D)) (o : O) → store_all (settings items) o ≡ store_items items o
  store_all-settings [] o = refl
  store_all-settings (value_item name dest none ∷ items) o = store_all-settings items o
  store_all-settings (value_item name dest (some value) ∷ items) o =
      store_all-settings items (store dest (some value) o)
  store_all-settings (flag_item name dest false ∷ items) o = store_all-settings items o
  store_all-settings (flag_item name dest true ∷ items) o =
      store_all-settings items (store dest none o)
