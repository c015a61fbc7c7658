-- ===== src/CheckIo/Cli/Items.antt =====
-- The options that the plugin is given, as arguments by their long names.
use puppet_stg_environment.Common.{refl, Option, none, some, Bool, true, false, List, [], ◌∷◌, All}
use puppet_stg_environment.Common.Text.{Text, text_eq, codes}
use puppet_stg_environment.Common.Dict.{lookup}
use puppet_stg_environment.Common.Argparse.{takes_one, takes_many, sets_flag, classify}
use puppet_stg_environment.Common.Argparse.Items.{
  Item, one_item, many_item, flag_item, IsKnown, IsNamed, IsValue,
}
use puppet_stg_environment.CheckIo.Arguments.{Given}
use puppet_stg_environment.CheckIo.Main.{given_devices}
use puppet_stg_environment.CheckIo.Cli.{
  to_timeout, to_averaging_period, to_sread_warn, to_sread_crit, to_swrite_warn, to_swrite_crit,
  to_util_warn, to_util_crit, Dest, number, to_verbose, to_devices, parser,
}

abbrev pub first_apart : Option (List Text) → Option (Text × List Text)
first_apart none = none
first_apart (some []) = none
first_apart (some (device ∷ devices)) = some (device, devices)

-- Each option that is given, by its long name.
abbrev pub items : Given → List (Item Dest)
items g =
    flag_item (codes "--verbose") to_verbose g.verbose
    ∷ one_item (codes "--timeout") (number to_timeout) g.timeout
    ∷ one_item (codes "--averaging-period") (number to_averaging_period) g.averaging_period
    ∷ one_item (codes "--sread-warn") (number to_sread_warn) g.sread_warn
    ∷ one_item (codes "--sread-crit") (number to_sread_crit) g.sread_crit
    ∷ one_item (codes "--swrite-warn") (number to_swrite_warn) g.swrite_warn
    ∷ one_item (codes "--swrite-crit") (number to_swrite_crit) g.swrite_crit
    ∷ one_item (codes "--util-warn") (number to_util_warn) g.util_warn
    ∷ one_item (codes "--util-crit") (number to_util_crit) g.util_crit
    ∷ many_item (codes "--devices") to_devices (first_apart g.devices)
    ∷ []

abbrev IsOptionalValue : Option Text → Type 0
IsOptionalValue none = Unit
IsOptionalValue (some value) = IsValue parser value

-- No value looks like an option.
pub record HasValues (g : Given) : Type 0 where
  pub timeout : IsOptionalValue g.timeout
  pub averaging_period : IsOptionalValue g.averaging_period
  pub sread_warn : IsOptionalValue g.sread_warn
  pub sread_crit : IsOptionalValue g.sread_crit
  pub swrite_warn : IsOptionalValue g.swrite_warn
  pub swrite_crit : IsOptionalValue g.swrite_crit
  pub util_warn : IsOptionalValue g.util_warn
  pub util_crit : IsOptionalValue g.util_crit
  pub devices : All (IsValue parser) (given_devices g.devices)

module _ (name : Text) (dest : Dest) where
  one-IsKnown :
      (o : Option Text)
      → IsNamed parser takes_one name dest
      → IsOptionalValue o
      → IsKnown parser (one_item name dest o)
  one-IsKnown none n v = tt
  one-IsKnown (some value) n v = (n, v)

  many-IsKnown :
      (o : Option (List Text))
      → IsNamed parser takes_many name dest
      → All (IsValue parser) (given_devices o)
      → IsKnown parser (many_item name dest (first_apart o))
  many-IsKnown none n v = tt
  many-IsKnown (some []) n v = tt
  many-IsKnown (some (device ∷ devices)) n (v, h) = (n, v, h)

  flag-IsKnown :
      (b : Bool) → IsNamed parser sets_flag name dest → IsKnown parser (flag_item name dest b)
  flag-IsKnown false n = tt
  flag-IsKnown true n = n

pub items-IsKnown : (g : Given) → HasValues g → All (IsKnown parser) (items g)
unfolding classify parser codes text_eq lookup
items-IsKnown g h = (
  flag-IsKnown (codes "--verbose") to_verbose g.verbose (refl, refl),
  (
    one-IsKnown (codes "--timeout") (number to_timeout) g.timeout (refl, refl) h.timeout,
    (
      one-IsKnown (codes "--averaging-period") (number to_averaging_period) g.averaging_period
          (refl, refl) h.averaging_period,
      (
        one-IsKnown (codes "--sread-warn") (number to_sread_warn) g.sread_warn (refl, refl)
            h.sread_warn,
        (
          one-IsKnown (codes "--sread-crit") (number to_sread_crit) g.sread_crit (refl, refl)
              h.sread_crit,
          (
            one-IsKnown (codes "--swrite-warn") (number to_swrite_warn) g.swrite_warn (refl, refl)
                h.swrite_warn,
            (
              one-IsKnown (codes "--swrite-crit") (number to_swrite_crit) g.swrite_crit (refl, refl)
                  h.swrite_crit,
              (
                one-IsKnown (codes "--util-warn") (number to_util_warn) g.util_warn (refl, refl)
                    h.util_warn,
                (
                  one-IsKnown (codes "--util-crit") (number to_util_crit) g.util_crit (refl, refl)
                      h.util_crit,
                  (
                    many-IsKnown (codes "--devices") to_devices g.devices (refl, refl) h.devices,
                    tt,
                  ),
                ),
              ),
            ),
          ),
        ),
      ),
    ),
  ),
)
