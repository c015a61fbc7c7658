-- ===== src/CheckIo/Arguments.antt =====
-- The command line: `IntRangeValidator`, the options as they are given, and the checks of `main`
-- on the validated ones.
pub mod Ranges
pub mod Checks
use puppet_stg_environment.Common.{
  ℕ, Option, none, some, Bool, true, false, List, [], ◌∷◌, not, ◌&&◌, ◌||◌, leb, if◌then◌else◌,
}
use puppet_stg_environment.Common.Int.{ℤ, pos, ◌+ℤ◌, leb_ℤ}
use puppet_stg_environment.Common.Text.{Text}
use puppet_stg_environment.Common.Decimal.{int}
use puppet_stg_environment.CheckIo.Message.{Message, literal}
use puppet_stg_environment.CheckIo.Device.{is_set}

-- `IntRangeValidator.__call__`; `none` is the `ArgumentError`.
abbrev below_range : Option ℤ → ℤ → Bool
below_range none val = false
below_range (some lower) val = leb_ℤ val lower

abbrev above_range : Option ℤ → ℤ → Bool
above_range none val = false
above_range (some upper) val = leb_ℤ upper val

in_range : Option ℤ → Option ℤ → ℤ → Option ℤ
in_range lower upper val =
    if below_range lower val then none else if above_range upper val then none else some val

unfoldable pub validate : Option ℤ → Option ℤ → Text → Option ℤ
unfolding in_range
validate lower upper string = elim (int string) [
  | none ↦ none
  | some val ↦ in_range lower upper val
]

-- The texts behind the options, as `argparse` finds them.
pub record Given : Type 0 where
  pub verbose : Bool
  pub timeout : Option Text
  pub averaging_period : Option Text
  pub sread_warn : Option Text
  pub sread_crit : Option Text
  pub swrite_warn : Option Text
  pub swrite_crit : Option Text
  pub util_warn : Option Text
  pub util_crit : Option Text
  pub devices : Option (List Text)

pub record Args : Type 0 where
  pub timeout : ℤ
  pub averaging_period : ℤ
  pub sread_warn : Option ℤ
  pub sread_crit : Option ℤ
  pub swrite_warn : Option ℤ
  pub swrite_crit : Option ℤ
  pub util_warn : ℤ
  pub util_crit : ℤ

-- An option with a default, and one without.
abbrev pub with_default : Option ℤ → Option ℤ → ℤ → Option Text → Option ℤ
with_default lower upper default none = some default
with_default lower upper default (some s) = validate lower upper s

abbrev pub optional : Option Text → Option (Option ℤ)
optional none = some none
optional (some s) = elim (validate (some (pos 0)) none s) [ none ↦ none | some z ↦ some (some z) ]

infixl 5 ◌>>=◌
abbrev pub ◌>>=◌ {ℓ κ} : {A : Type ℓ} {B : Type κ} → Option A → (A → Option B) → Option B
none >>= f = none
some a >>= f = f a

-- The numeric options; `none` is the usage error of `argparse`, status 2.
unfoldable pub parse_args : Given → Option Args
parse_args g = do
  timeout ← with_default (some (pos 0)) none (pos 6) g.timeout
  averaging_period ← with_default (some (pos 0)) none (pos 2) g.averaging_period
  sread_warn ← optional g.sread_warn
  sread_crit ← optional g.sread_crit
  swrite_warn ← optional g.swrite_warn
  swrite_crit ← optional g.swrite_crit
  util_warn ← with_default (some (pos 0)) (some (pos 99)) (pos 80) g.util_warn
  util_crit ← with_default (some (pos 1)) (some (pos 100)) (pos 90) g.util_crit
  some (record {
    timeout = timeout;
    averaging_period = averaging_period;
    sread_warn = sread_warn;
    sread_crit = sread_crit;
    swrite_warn = swrite_warn;
    swrite_crit = swrite_crit;
    util_warn = util_warn;
    util_crit = util_crit;
  })

-- `a >= b` of two limits, where `None` stands before every number.
unfoldable pub limit_ge : Option ℤ → Option ℤ → Bool
limit_ge a none = true
limit_ge none (some b) = false
limit_ge (some a) (some b) = leb_ℤ b a

module _ (sread_warn sread_crit swrite_warn swrite_crit : Option ℤ) where
  any_rate : Bool
  any_rate = is_set sread_warn || (is_set sread_crit || (is_set swrite_warn || is_set swrite_crit))

  all_rates : Bool
  all_rates = is_set sread_warn && (is_set sread_crit && (is_set swrite_warn && is_set swrite_crit))

  check_throughput : Option Message
  unfolding any_rate all_rates
  check_throughput =
      if any_rate && not all_rates
      then some (literal "All throughput limits should be defined (or none of them)." ∷ [])
      else if is_set sread_warn
      then (if limit_ge sread_warn sread_crit
          then some (
              literal "Read throughput warning threshold has to be lower than critical threshold"
              ∷ [])
          else if limit_ge swrite_warn swrite_crit
          then some (
              literal "Write throughput warning threshold has to be lower than critical threshold"
              ∷ [])
          else none)
      else none

-- The message of the first check that fails.
unfoldable pub check_args : Args → Option Message
unfolding check_throughput
check_args a =
    if leb_ℤ (a.timeout +ℤ pos 1) a.averaging_period
    then some
        (literal "Averaging period must be at least one second lower than script timeout." ∷ [])
    else if leb_ℤ a.util_crit a.util_warn
    then some (literal "Utilization warning threshold has to be less than critical threshold" ∷ [])
    else check_throughput a.sread_warn a.sread_crit a.swrite_warn a.swrite_crit
