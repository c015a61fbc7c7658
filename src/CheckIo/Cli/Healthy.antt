-- ===== src/CheckIo/Cli/Healthy.antt =====
-- What an exit status of 0 means, from the command line on.
use puppet_stg_environment.Common.{
  ◌≡◌, refl, Option, none, some, Bool, true, false, ◌⊎◌, List, [], ◌∷◌, arith,
}
use puppet_stg_environment.Common.Int.{ℤ, pos, ◌<ℤ◌}
use puppet_stg_environment.Common.Text.{Text}
use puppet_stg_environment.Common.Argparse.{
  Event, store, inform, usage_error, value_error, index_error, parse_events,
}
use puppet_stg_environment.CheckIo.Run.{Result, ok, raises}
use puppet_stg_environment.CheckIo.Arguments.{Args, validate}
use puppet_stg_environment.CheckIo.Arguments.Ranges.{
  IsInRange, IsLimit, AboveBound, BelowBound, validate-bounds,
}
use puppet_stg_environment.CheckIo.Main.{Surroundings, given_devices, validate_devices}
use puppet_stg_environment.CheckIo.Main.Healthy.{HasPassed, IsPrinted, run-HasPassed}
use puppet_stg_environment.CheckIo.Main.Endings.{suc-not_zero, handle-not_zero}
use puppet_stg_environment.CheckIo.Cli.{
  Number, to_timeout, to_averaging_period, to_sread_warn, to_sread_crit, to_swrite_warn,
  to_swrite_crit, to_util_warn, to_util_crit, Dest, number, to_verbose, to_devices, nowhere, parser,
  lower_bound, upper_bound, Namespace, default_args, defaults, set_number, Parse, taken, refused,
  told, crashed, number_taken, devices_taken, take_values, take_event, take_all, go_on, command,
  status,
}

default-IsInRange : IsInRange default_args
default-IsInRange = record {
  timeout = omega arith;
  averaging_period = omega arith;
  sread_warn = tt;
  sread_crit = tt;
  swrite_warn = tt;
  swrite_crit = tt;
  util_warn = (omega arith, omega arith);
  util_crit = (omega arith, omega arith);
}

in_ranges :
    (a : Args)
    → (pos 0 <ℤ a.timeout)
    → (pos 0 <ℤ a.averaging_period)
    → IsLimit a.sread_warn
    → IsLimit a.sread_crit
    → IsLimit a.swrite_warn
    → IsLimit a.swrite_crit
    → ((pos 0 <ℤ a.util_warn) × (a.util_warn <ℤ pos 99))
    → ((pos 1 <ℤ a.util_crit) × (a.util_crit <ℤ pos 100))
    → IsInRange a
in_ranges a t p rw_ rc ww wc uw uc = record {
  timeout = t;
  averaging_period = p;
  sread_warn = rw_;
  sread_crit = rc;
  swrite_warn = ww;
  swrite_crit = wc;
  util_warn = uw;
  util_crit = uc;
}

set_number-IsInRange :
    (x : Number) (z : ℤ) (a : Args)
    → AboveBound (lower_bound x) z × BelowBound (upper_bound x) z
    → IsInRange a
    → IsInRange (set_number x z a)
unfolding set_number
set_number-IsInRange to_timeout z a b r =
    in_ranges (record a { timeout = z }) b.0 r.averaging_period r.sread_warn r.sread_crit
      r.swrite_warn r.swrite_crit r.util_warn r.util_crit
set_number-IsInRange to_averaging_period z a b r =
    in_ranges (record a { averaging_period = z }) r.timeout b.0 r.sread_warn r.sread_crit
      r.swrite_warn r.swrite_crit r.util_warn r.util_crit
set_number-IsInRange to_sread_warn z a b r =
    in_ranges (record a { sread_warn = some z }) r.timeout r.averaging_period b.0 r.sread_crit
      r.swrite_warn r.swrite_crit r.util_warn r.util_crit
set_number-IsInRange to_sread_crit z a b r =
    in_ranges (record a { sread_crit = some z }) r.timeout r.averaging_period r.sread_warn b.0
      r.swrite_warn r.swrite_crit r.util_warn r.util_crit
set_number-IsInRange to_swrite_warn z a b r =
    in_ranges (record a { swrite_warn = some z }) r.timeout r.averaging_period r.sread_warn
      r.sread_crit b.0 r.swrite_crit r.util_warn r.util_crit
set_number-IsInRange to_swrite_crit z a b r =
    in_ranges (record a { swrite_crit = some z }) r.timeout r.averaging_period r.sread_warn
      r.sread_crit r.swrite_warn b.0 r.util_warn r.util_crit
set_number-IsInRange to_util_warn z a b r =
    in_ranges (record a { util_warn = z }) r.timeout r.averaging_period r.sread_warn r.sread_crit
      r.swrite_warn r.swrite_crit b r.util_crit
set_number-IsInRange to_util_crit z a b r =
    in_ranges (record a { util_crit = z }) r.timeout r.averaging_period r.sread_warn r.sread_crit
      r.swrite_warn r.swrite_crit r.util_warn b

-- The numbers of a namespace that the parser goes on with are in their ranges.
abbrev IsAllowed : Parse → Type 0
IsAllowed (taken n) = IsInRange n.args
IsAllowed _ = Unit

module _ (s : Surroundings) where
  number_taken-IsAllowed :
      (x : Number) (n : Namespace) (o : Option ℤ)
      → ((z : ℤ) → o ≡ some z → AboveBound (lower_bound x) z × BelowBound (upper_bound x) z)
      → IsInRange n.args
      → IsAllowed (number_taken x n o)
  number_taken-IsAllowed x n none b r = tt
  number_taken-IsAllowed x n (some z) b r = set_number-IsInRange x z n.args (b z refl) r

  devices_taken-IsAllowed :
      (values : List Text) (n : Namespace) (r : Result Bool)
      → IsInRange n.args
      → IsAllowed (devices_taken values n r)
  devices_taken-IsAllowed values n (raises e) r = tt
  devices_taken-IsAllowed values n (ok false) r = tt
  devices_taken-IsAllowed values n (ok true) r = r

  take_values-IsAllowed :
      (dest : Dest) (values : List Text) (n : Namespace)
      → IsInRange n.args
      → IsAllowed (take_values s dest values n)
  unfolding take_values
  take_values-IsAllowed (number x) [] n r = tt
  take_values-IsAllowed (number x) (value ∷ []) n r =
      number_taken-IsAllowed x n (validate (lower_bound x) (upper_bound x) value)
        (validate-bounds (lower_bound x) (upper_bound x) value) r
  take_values-IsAllowed (number x) (v ∷ w ∷ values) n r = tt
  take_values-IsAllowed to_verbose values n r = r
  take_values-IsAllowed to_devices values n r =
      devices_taken-IsAllowed values n (validate_devices s.listing values) r
  take_values-IsAllowed nowhere values n r = r

  take_event-IsAllowed :
      (event : Event Dest) (n : Namespace) → IsInRange n.args → IsAllowed (take_event s event n)
  take_event-IsAllowed (store dest values) n r = take_values-IsAllowed dest values n r
  take_event-IsAllowed inform n r = tt
  take_event-IsAllowed usage_error n r = tt
  take_event-IsAllowed value_error n r = tt
  take_event-IsAllowed index_error n r = tt

  abbrev then_all : List (Event Dest) → Parse → Parse
  then_all events p = elim p [
    | taken next ↦ take_all s events next
    | refused ↦ refused
    | told ↦ told
    | crashed e ↦ crashed e
  ]

  then_all-IsAllowed :
      (events : List (Event Dest)) (p : Parse)
      → ((n : Namespace) → IsInRange n.args → IsAllowed (take_all s events n))
      → IsAllowed p
      → IsAllowed (then_all events p)
  then_all-IsAllowed events (taken n) ih r = ih n r
  then_all-IsAllowed events refused ih r = tt
  then_all-IsAllowed events told ih r = tt
  then_all-IsAllowed events (crashed e) ih r = tt

  take_all-IsAllowed :
      (events : List (Event Dest)) (n : Namespace)
      → IsInRange n.args
      → IsAllowed (take_all s events n)
  unfolding take_all
  take_all-IsAllowed [] n r = r
  take_all-IsAllowed (event ∷ events) n r =
      then_all-IsAllowed events (take_event s event n) (take_all-IsAllowed events)
        (take_event-IsAllowed event n r)

  -- The arguments are in their ranges, and the run with them has printed an exception, or they fit
  -- together and it has found every device within its limits.
  abbrev pub HasFound : Namespace → Type 0
  HasFound n =
      IsInRange n.args
      × (IsPrinted s n.args n.verbose (given_devices n.devices)
          ⊎ HasPassed s n.args n.verbose (given_devices n.devices))

  -- What a status of 0 means for what the arguments are parsed to.
  abbrev pub EndsWell : Parse → Type 0
  EndsWell (taken n) = HasFound n
  EndsWell told = Unit
  EndsWell refused = ⊥
  EndsWell (crashed e) = ⊥

  go_on-EndsWell : (p : Parse) → IsAllowed p → status (go_on s p) ≡ 0 → EndsWell p
  go_on-EndsWell (taken n) r h = (r, run-HasPassed s n.args n.verbose (given_devices n.devices) h)
  go_on-EndsWell refused r h = suc-not_zero 1 h
  go_on-EndsWell told r h = tt
  go_on-EndsWell (crashed e) r h = handle-not_zero e h

-- Whatever the command line is, an exit status of 0 means that it asks for the help or the version, or
-- that it is parsed to arguments that lie in their ranges, and that these fit together, both samples
-- were read with them, and each device of the dictionary for the names has its rows of these and is
-- within its limits, or, with `--verbose` only, that an exception that is not expected was raised as
-- the alarm was set or, with arguments that fit together, by the measurement.
pub command-EndsWell :
    (s : Surroundings) (argv : List Text)
    → status (command s argv) ≡ 0
    → EndsWell s (take_all s (parse_events parser argv) defaults)
unfolding command
command-EndsWell s argv h =
    go_on-EndsWell s (take_all s (parse_events parser argv) defaults)
      (take_all-IsAllowed s (parse_events parser argv) defaults default-IsInRange) h
