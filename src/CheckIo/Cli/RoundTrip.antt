-- ===== src/CheckIo/Cli/RoundTrip.antt =====
-- Options written as arguments and read again.
use puppet_stg_environment.Common.{
  ◌≡◌, refl, ap, ◌∙◌, Option, none, some, Bool, true, false, inl, inr, List, [], ◌∷◌, ◌++◌, drop,
  Option-cases,
}
use puppet_stg_environment.Common.Int.{ℤ, pos}
use puppet_stg_environment.Common.Text.{Text, text_eq, codes}
use puppet_stg_environment.Common.Argparse.{Event}
use puppet_stg_environment.Common.Argparse.Items.{
  one_item, many_item, flag_item, arguments, event, events_of,
}
use puppet_stg_environment.Common.Argparse.Items.Stored.{parse_events-arguments}
use puppet_stg_environment.CheckIo.Run.{Result-cases}
use puppet_stg_environment.CheckIo.Arguments.{
  Given, Args, validate, with_default, optional, parse_args, ◌>>=◌,
}
use puppet_stg_environment.CheckIo.Main.{
  Surroundings, given_devices, validate_devices, parsed, main,
}
use puppet_stg_environment.CheckIo.Main as Main
use puppet_stg_environment.CheckIo.Cli.{
  Number, to_timeout, to_averaging_period, to_sread_warn, to_sread_crit, to_swrite_warn,
  to_swrite_crit, to_util_warn, to_util_crit, Dest, number, to_verbose, to_devices, parser,
  lower_bound, upper_bound, Namespace, set_number, take_values, take_all, Ended, ends, defaults,
  go_on, command,
}
use puppet_stg_environment.CheckIo.Cli.Items.{first_apart, items, HasValues, items-IsKnown}

abbrev finish : Surroundings → Given → Option Args → Ended
finish s g none = ends Main.usage_error
finish s g (some a) = ends (parsed s g a (validate_devices s.listing (given_devices g.devices)))

finish-main : (s : Surroundings) (g : Given) → finish s g (parse_args g) ≡ ends (main s g)
unfolding main
finish-main s g = elim (Option-cases (parse_args g)) [
  | inl e ↦ rw (main, e) refl
  | inr (a, e) ↦ rw (main, e) refl
]

abbrev namespace : Bool → Args → Namespace
namespace v a = record { verbose = v; args = a; devices = none }

module _ (s : Surroundings) (g : Given) where
  -- The end of the parser from here on.
  abbrev rest : List (Event Dest) → Namespace → Ended
  rest es n = go_on s (take_all s es n)

  module _ (x : Number) (name : Text) (es : List (Event Dest)) (v : Bool) where
    module _ (f : ℤ → Args) (d : ℤ) (k : ℤ → Option Args) where
      -- An option with a default, as `parse_args` reads it.
      number_stage :
          (o : Option Text)
          → ((z : ℤ) → set_number x z (f d) ≡ f z)
          → ((z : ℤ) → rest es (namespace v (f z)) ≡ finish s g (k z))
          → rest (event (one_item name (number x) o) ++ es) (namespace v (f d))
            ≡ finish s g (with_default (lower_bound x) (upper_bound x) d o >>= k)
      unfolding take_all take_values
      number_stage none e h = h d
      number_stage (some value) e h =
          elim (Option-cases (validate (lower_bound x) (upper_bound x) value)) [
            | inl c ↦ rw (take_all, take_values, c) refl
            | inr (z, c) ↦ rw (take_all, take_values, c, e z) (h z)
          ]

    module _ (f : Option ℤ → Args) (k : Option ℤ → Option Args) where
      -- One without.
      optional_stage :
          (o : Option Text)
          → (lower_bound x ≡ some (pos 0)) × (upper_bound x ≡ none)
          → ((z : ℤ) → set_number x z (f none) ≡ f (some z))
          → ((l : Option ℤ) → rest es (namespace v (f l)) ≡ finish s g (k l))
          → rest (event (one_item name (number x) o) ++ es) (namespace v (f none))
            ≡ finish s g (optional o >>= k)
      unfolding take_all take_values
      optional_stage none b e h = h none
      optional_stage (some value) (b, c) e h =
          elim (Option-cases (validate (some (pos 0)) none value)) [
            | inl d ↦ rw (take_all, take_values, optional, b, c, d) refl
            | inr (z, d) ↦ rw (take_all, take_values, optional, b, c, d, e z) (h (some z))
          ]

  devices_stage :
      (name : Text) (o : Option (List Text)) (a : Args)
      → g.devices ≡ o
      → rest (event (many_item name to_devices (first_apart o)) ++ []) (namespace g.verbose a)
        ≡ finish s g (some a)
  unfolding take_all take_values parsed validate_devices
  devices_stage name none a e = rw e refl
  devices_stage name (some []) a e = rw e refl
  devices_stage name (some (device ∷ devices)) a e =
      elim (Result-cases (validate_devices s.listing (device ∷ devices))) [
        | inl (x, d) ↦ rw (e, take_all, take_values, d) refl
        | inr (true, d) ↦ rw (e, take_all, take_values, d) refl
        | inr (false, d) ↦ rw (e, take_all, take_values, d) refl
      ]

  verbose_stage :
      (name : Text) (b : Bool) (es : List (Event Dest))
      → rest (event (flag_item name to_verbose b) ++ es) defaults
        ≡ rest es (namespace b defaults.args)
  unfolding take_all take_values
  verbose_stage name false es = refl
  verbose_stage name true es = refl

  abbrev args_of : ℤ → ℤ → Option ℤ → Option ℤ → Option ℤ → Option ℤ → ℤ → ℤ → Args
  args_of t p rw_ rc ww wc uw uc = record {
    timeout = t;
    averaging_period = p;
    sread_warn = rw_;
    sread_crit = rc;
    swrite_warn = ww;
    swrite_crit = wc;
    util_warn = uw;
    util_crit = uc;
  }

  stages : rest (events_of (items g)) defaults ≡ finish s g (parse_args g)
  unfolding parse_args set_number
  stages =
      verbose_stage (codes "--verbose") g.verbose (events_of (drop 1 (items g)))
      ∙ number_stage to_timeout (codes "--timeout") (events_of (drop 2 (items g))) g.verbose
          (λ z. args_of z (pos 2) none none none none (pos 80) (pos 90)) (pos 6) _ g.timeout
          (λ z. refl)
          (λ t.
            number_stage to_averaging_period (codes "--averaging-period")
              (events_of (drop 3 (items g))) g.verbose
              (λ z. args_of t z none none none none (pos 80) (pos 90)) (pos 2) _ g.averaging_period
              (λ z. refl)
              (λ p.
                optional_stage to_sread_warn (codes "--sread-warn") (events_of (drop 4 (items g)))
                  g.verbose (λ z. args_of t p z none none none (pos 80) (pos 90)) _ g.sread_warn
                  (refl, refl) (λ z. refl)
                  (λ rw_.
                    optional_stage to_sread_crit (codes "--sread-crit")
                      (events_of (drop 5 (items g))) g.verbose
                      (λ z. args_of t p rw_ z none none (pos 80) (pos 90)) _ g.sread_crit
                      (refl, refl) (λ z. refl)
                      (λ rc.
                        optional_stage to_swrite_warn (codes "--swrite-warn")
                          (events_of (drop 6 (items g))) g.verbose
                          (λ z. args_of t p rw_ rc z none (pos 80) (pos 90)) _ g.swrite_warn
                          (refl, refl) (λ z. refl)
                          (λ ww.
                            optional_stage to_swrite_crit (codes "--swrite-crit")
                              (events_of (drop 7 (items g))) g.verbose
                              (λ z. args_of t p rw_ rc ww z (pos 80) (pos 90)) _ g.swrite_crit
                              (refl, refl) (λ z. refl)
                              (λ wc.
                                number_stage to_util_warn (codes "--util-warn")
                                  (events_of (drop 8 (items g))) g.verbose
                                  (λ z. args_of t p rw_ rc ww wc z (pos 90)) (pos 80) _ g.util_warn
                                  (λ z. refl)
                                  (λ uw.
                                    number_stage to_util_crit (codes "--util-crit")
                                      (events_of (drop 9 (items g))) g.verbose
                                      (λ z. args_of t p rw_ rc ww wc uw z) (pos 90) _ g.util_crit
                                      (λ z. refl)
                                      (λ uc.
                                        devices_stage (codes "--devices") g.devices
                                          (args_of t p rw_ rc ww wc uw uc) refl))))))))

-- Whatever the options are, if no value looks like one of them, their arguments are read back as they
-- are: the command with the arguments of some options ends as `main` does with these options.
pub command-arguments :
    (s : Surroundings) (g : Given) → HasValues g → command s (arguments (items g)) ≡ ends (main s g)
unfolding command
command-arguments s g h =
    ap (λ es. go_on s (take_all s es defaults))
      (parse_events-arguments parser (items g) (items-IsKnown g h))
    ∙ stages s g
    ∙ finish-main s g
