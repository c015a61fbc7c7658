-- ===== src/CheckIo/Arguments/Ranges.antt =====
-- What the validators guarantee of the numeric options.
use puppet_stg_environment.Common.{◌≡◌, refl, ◌↔◌, Option, none, some, arith}
use mathlib.Core.Path.{subst}
use mathlib.Core.Option.{some-injective}
use puppet_stg_environment.Common.Int.{ℤ, pos, ◌<ℤ◌}
use puppet_stg_environment.Common.Text.{Text}
use puppet_stg_environment.Common.Decimal.{int, show}
use puppet_stg_environment.Common.Decimal.RoundTrip.{int-show}
use puppet_stg_environment.CheckIo.Arguments.{
  in_range, validate, Given, Args, with_default, optional, parse_args, ◌>>=◌,
}

-- A number is above a lower bound and below an upper one.
abbrev pub AboveBound : Option ℤ → ℤ → Type 0
AboveBound none z = Unit
AboveBound (some lower) z = lower <ℤ z

abbrev pub BelowBound : Option ℤ → ℤ → Type 0
BelowBound none z = Unit
BelowBound (some upper) z = z <ℤ upper

in_range_iff :
    (lower upper : Option ℤ) (z : ℤ)
    → (in_range lower upper z ≡ some z) ↔ (AboveBound lower z × BelowBound upper z)
unfolding in_range
in_range_iff none none z = ground arith
in_range_iff none (some upper) z = ground arith
in_range_iff (some lower) none z = ground arith
in_range_iff (some lower) (some upper) z = ground arith

in_range-eq : (lower upper : Option ℤ) (y z : ℤ) → in_range lower upper y ≡ some z → y ≡ z
unfolding in_range
in_range-eq none none y z h = ground arith
in_range-eq none (some upper) y z h = ground arith
in_range-eq (some lower) none y z h = ground arith
in_range-eq (some lower) (some upper) y z h = ground arith

-- A number that is written out is accepted exactly if it lies strictly between the bounds.
pub validate-show :
    (lower upper : Option ℤ) (z : ℤ)
    → (validate lower upper (show z) ≡ some z) ↔ (AboveBound lower z × BelowBound upper z)
unfolding validate
validate-show lower upper z = rw (validate, int-show z) (in_range_iff lower upper z)

from_int-bounds :
    (lower upper : Option ℤ) (o : Option ℤ) (z : ℤ)
    → (o >>= in_range lower upper) ≡ some z
    → AboveBound lower z × BelowBound upper z
from_int-bounds lower upper none z h = cc
from_int-bounds lower upper (some y) z h =
    let e = in_range-eq lower upper y z h in (in_range_iff lower upper z).0 (rw e at h)

pub validate-bounds :
    (lower upper : Option ℤ) (s : Text) (z : ℤ)
    → validate lower upper s ≡ some z
    → AboveBound lower z × BelowBound upper z
unfolding validate
validate-bounds lower upper s z h = from_int-bounds lower upper (int s) z (ground arith)

with_default-bounds :
    (lower upper : Option ℤ) (d : ℤ) (o : Option Text) (z : ℤ)
    → AboveBound lower d × BelowBound upper d
    → with_default lower upper d o ≡ some z
    → AboveBound lower z × BelowBound upper z
with_default-bounds lower upper d none z b h = rw (some-injective d z h) at b
with_default-bounds lower upper d (some s) z b h = validate-bounds lower upper s z h

-- A limit that is not given, or is above zero.
abbrev pub IsLimit : Option ℤ → Type 0
IsLimit none = Unit
IsLimit (some z) = pos 0 <ℤ z

abbrev some_limit : Option ℤ → Option (Option ℤ)
some_limit o = elim o [ none ↦ none | some z ↦ some (some z) ]

some_limit-IsLimit :
    (o : Option ℤ) (l : Option ℤ)
    → ((z : ℤ) → o ≡ some z → pos 0 <ℤ z)
    → some_limit o ≡ some l
    → IsLimit l
some_limit-IsLimit none l p h = cc
some_limit-IsLimit (some z) l p h = subst IsLimit (some-injective (some z) l h) (p z refl)

optional-IsLimit : (o : Option Text) (l : Option ℤ) → optional o ≡ some l → IsLimit l
optional-IsLimit none l h = subst IsLimit (some-injective none l h) tt
optional-IsLimit (some s) l h =
    some_limit-IsLimit (validate (some (pos 0)) none s) l
      (λ z e. (validate-bounds (some (pos 0)) none s z e).0) h

-- What holds of the numeric options once they are parsed.
pub record IsInRange (a : Args) : Type 0 where
  pub timeout : pos 0 <ℤ a.timeout
  pub averaging_period : pos 0 <ℤ a.averaging_period
  pub sread_warn : IsLimit a.sread_warn
  pub sread_crit : IsLimit a.sread_crit
  pub swrite_warn : IsLimit a.swrite_warn
  pub swrite_crit : IsLimit a.swrite_crit
  pub util_warn : (pos 0 <ℤ a.util_warn) × (a.util_warn <ℤ pos 99)
  pub util_crit : (pos 1 <ℤ a.util_crit) × (a.util_crit <ℤ pos 100)

>>=-eq-some {ℓ κ} :
    {A : Type ℓ} {B : Type κ} (m : Option A) (f : A → Option B) {b : B}
    → (m >>= f) ≡ some b
    → (a : A) × (m ≡ some a) × (f a ≡ some b)
>>=-eq-some none f h = cc
>>=-eq-some (some a) f h = (a, refl, h)

-- Options that are accepted lie in their ranges, the defaults included: the times and the
-- throughput limits above zero, the utilisation limits strictly between their bounds.
pub parse_args-IsInRange : (g : Given) (a : Args) → parse_args g ≡ some a → IsInRange a
unfolding parse_args
parse_args-IsInRange g a h =
    let (t, et, h1) = >>=-eq-some _ _ h in
    let (p, ep, h2) = >>=-eq-some _ _ h1 in
    let (rw_, erw, h3) = >>=-eq-some _ _ h2 in
    let (rc, erc, h4) = >>=-eq-some _ _ h3 in
    let (ww, eww, h5) = >>=-eq-some _ _ h4 in
    let (wc, ewc, h6) = >>=-eq-some _ _ h5 in
    let (uw, euw, h7) = >>=-eq-some _ _ h6 in
    let (uc, euc, h8) = >>=-eq-some _ _ h7 in
    subst IsInRange (some-injective _ a h8) (record {
      timeout =
          (with_default-bounds (some (pos 0)) none (pos 6) g.timeout t (omega arith, tt) et).0;
      averaging_period =
          (with_default-bounds (some (pos 0)) none (pos 2) g.averaging_period p (omega arith, tt)
            ep).0;
      sread_warn = optional-IsLimit g.sread_warn rw_ erw;
      sread_crit = optional-IsLimit g.sread_crit rc erc;
      swrite_warn = optional-IsLimit g.swrite_warn ww eww;
      swrite_crit = optional-IsLimit g.swrite_crit wc ewc;
      util_warn =
          with_default-bounds (some (pos 0)) (some (pos 99)) (pos 80) g.util_warn uw
            (omega arith, omega arith) euw;
      util_crit =
          with_default-bounds (some (pos 1)) (some (pos 100)) (pos 90) g.util_crit uc
            (omega arith, omega arith) euc;
    })
