-- ===== src/Entropy/Cli.antt =====
-- The options of the plugin, and the whole command.
use puppet_stg_environment.Common.{
  ℕ, suc, ◌≡◌, refl, ◌↔◌, Option, none, some, Bool, true, false, List, [], ◌∷◌, inl, inr, length,
  ltb, sym, Option-cases, arith,
}
use mathlib.Core.Path.{subst}
use mathlib.Core.Option.{some-injective}
use puppet_stg_environment.Common.Int.{ℤ, pos}
use puppet_stg_environment.Common.Text.{Text, codes}
use puppet_stg_environment.Common.Optparse.{
  takes_value, informs, Opt, Parsed, accepted, rejected, helped, parse_args,
}
use puppet_stg_environment.Common.Optparse.Numbers.{parse_int}
use puppet_stg_environment.Entropy.{Reads, Options, Ending, exit_code, run}
use puppet_stg_environment.Entropy.Enough.{HasRead, run_enough_iff}

pub data Dest : Type 0 where
  to_retries to_sleep to_watermark nowhere : Dest

abbrev number_option : ℕ → Text → Dest → Opt Dest
number_option letter long dest = record {
  letters = letter ∷ [];
  long = long;
  kind = takes_value;
  dest = dest;
}

unfoldable pub options_known : List (Opt Dest)
options_known =
    record { letters = 104 ∷ []; long = codes "--help"; kind = informs; dest = nowhere }
    ∷ number_option 114 (codes "--retries") to_retries
    ∷ number_option 115 (codes "--sleep") to_sleep
    ∷ number_option 119 (codes "--watermark") to_watermark
    ∷ []

abbrev pub defaults : Options
defaults = record { retries = pos 10; sleep = pos 250; watermark = pos 800; arguments = 0 }

unfoldable pub set_number : Dest → ℤ → Options → Options
set_number to_retries z o = record o { retries = z }
set_number to_sleep z o = record o { sleep = z }
set_number to_watermark z o = record o { watermark = z }
set_number nowhere z o = o

-- Every value is a number; `none` is the usage error.
unfoldable pub store_numbers : List (Dest × Option Text) → Options → Option Options
store_numbers [] o = some o
store_numbers ((dest, none) ∷ settings) o = store_numbers settings o
store_numbers ((dest, some value) ∷ settings) o = elim (parse_int value) [
  | none ↦ none
  | some z ↦ store_numbers settings (set_number dest z o)
]

-- How the script ends: by the usage error of the parser, which leaves with 2, by `--help`, or as
-- behind the parser.
pub data CommandEnding : Type 0 where
  parser_error informed : CommandEnding
  ended : Ending → CommandEnding

abbrev pub command_code : CommandEnding → ℕ
command_code parser_error = 2
command_code informed = 0
command_code (ended e) = exit_code e

module _ (exists : Bool) (reads : Reads) where
  abbrev inform : Option Options → CommandEnding
  inform none = parser_error
  inform (some o) = informed

  abbrev start : List Text → Option Options → CommandEnding
  start args none = parser_error
  start args (some o) = ended (run exists reads (record o { arguments = length args }))

  abbrev pub run_parsed : Parsed Dest → CommandEnding
  run_parsed rejected = parser_error
  run_parsed (helped settings) = inform (store_numbers settings defaults)
  run_parsed (accepted settings args) = start args (store_numbers settings defaults)

  unfoldable pub command : List Text → CommandEnding
  command argv = run_parsed (parse_args options_known argv)

  -- The options are numbers, and the parser gives help, or there are no further arguments, the file of
  -- the kernel is there, and the reads come to enough.
  abbrev pub HasEnough : Parsed Dest → Type 0
  HasEnough rejected = ⊥
  HasEnough (helped settings) = (o : Options) × (store_numbers settings defaults ≡ some o)
  HasEnough (accepted settings args) =
      (o : Options) × (store_numbers settings defaults ≡ some o)
      × (args ≡ [])
      × (exists ≡ true)
      × HasRead reads o.watermark o.sleep o.retries

suc-not_zero : (n : ℕ) → suc n ≡ 0 → ⊥
suc-not_zero n h = omega arith

some-not_none {ℓ} : {A : Type ℓ} (a : A) → none ≡ some a → ⊥
some-not_none a h = cc

ltb-suc : (n : ℕ) → ltb 0 (suc n) ≡ true
ltb-suc n = ground arith

cons-not_nil : (arg : Text) (args : List Text) → arg ∷ args ≡ [] → ⊥
cons-not_nil arg args h = cc

false-not_true : false ≡ true → ⊥
false-not_true h = cc

module _ (reads : Reads) where
  run_all_iff :
      (exists : Bool) (args : List Text) (o : Options)
      → (exit_code (run exists reads (record o { arguments = length args })) ≡ 0)
        ↔ ((args ≡ []) × (exists ≡ true) × HasRead reads o.watermark o.sleep o.retries)
  unfolding run
  run_all_iff exists (arg ∷ args) o =
      rw (run, ltb-suc (length args))
        (λ h. absurd (suc-not_zero 3 h), λ (n, e, s). absurd (cons-not_nil arg args n))
  run_all_iff false [] o = (λ h. absurd (suc-not_zero 3 h), λ (n, e, s). absurd (false-not_true e))
  run_all_iff true [] o =
      let enough = run_enough_iff reads (record o { arguments = 0 }) refl in
      (λ h. (refl, refl, enough.0 h), λ (n, e, s). enough.1 s)

  parsed_enough_iff :
      (exists : Bool) (p : Parsed Dest)
      → (command_code (run_parsed exists reads p) ≡ 0) ↔ HasEnough exists reads p
  parsed_enough_iff exists rejected = (λ h. suc-not_zero 1 h, λ h. absurd h)
  parsed_enough_iff exists (helped settings) =
      elim (Option-cases (store_numbers settings defaults)) [
        | inl e ↦ rw e (λ h. absurd (suc-not_zero 1 h), λ (o, k). absurd (some-not_none o k))
        | inr (o, e) ↦ rw e (λ h. (o, refl), λ h. refl)
      ]
  parsed_enough_iff exists (accepted settings args) =
      elim (Option-cases (store_numbers settings defaults)) [
        | inl e ↦
            rw e (λ h. absurd (suc-not_zero 1 h), λ (o, k, _, _, _). absurd (some-not_none o k))
        | inr (o, e) ↦ rw e (
          λ h. let (n, x, s) = (run_all_iff exists args o).0 h in (o, refl, n, x, s),
          λ (p, k, n, x, s). (run_all_iff exists args o).1 (
            n,
            x,
            subst (λ q. HasRead reads q.watermark q.sleep q.retries) (sym (some-injective o p k)) s,
          ),
        )
      ]

-- For every command line the exit status is 0 exactly if the values of the options are numbers and it
-- asks for help, or there are no further arguments, the file of the kernel is there, and one of the
-- first `retries` + 1 reads is a number at or above the watermark, where all reads before it are numbers
-- and, if there are any, the time to sleep is not negative.
pub command_enough_iff :
    (exists : Bool) (reads : Reads) (argv : List Text)
    → (command_code (command exists reads argv) ≡ 0)
      ↔ HasEnough exists reads (parse_args options_known argv)
unfolding command
command_enough_iff exists reads argv =
    parsed_enough_iff reads exists (parse_args options_known argv)
