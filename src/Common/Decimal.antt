-- ===== src/Common/Decimal.antt =====
-- `str(n)` and `int(s)` for whole numbers.
pub mod RoundTrip
use puppet_stg_environment.Common.Tests.{ltb, leb, eqb, if◌then◌else◌}
use puppet_stg_environment.Common.Int.{ℤ, pos, negsuc, sub_ℕ}
use puppet_stg_environment.Common.Text.{Text, strip}
use Prim.Native.Nat.{ℕ, zero, suc, ◌+◌, ◌-◌, ◌*◌, ◌/◌, ◌%◌}
use mathlib.Core.Bool.{Bool, ◌&&◌}
use mathlib.Core.Option.{Option, none, some}
use mathlib.Core.List.{[], ◌∷◌}

abbrev pub is_digit : ℕ → Bool
is_digit c = leb 48 c && leb c 57

-- The decimal digits of `n` in front of `acc`; fuel above `n` is enough.
unfoldable pub digits_onto : ℕ → ℕ → Text → Text
digits_onto zero n acc = acc
digits_onto (suc fuel) n acc =
    let rest = digits_onto fuel (n / 10) ((48 + n % 10) ∷ acc) in
    if ltb n 10 then (48 + n) ∷ acc else rest

unfoldable pub show_ℕ : ℕ → Text
unfolding digits_onto
show_ℕ n = digits_onto (suc n) n []

-- `str(z)`
unfoldable pub show : ℤ → Text
show (pos n) = show_ℕ n
show (negsuc n) = 45 ∷ show_ℕ (suc n)

-- The value of a run of digits after `acc`; anything else is refused.
unfoldable pub value_from : ℕ → Text → Option ℕ
value_from acc [] = some acc
value_from acc (c ∷ s) =
    let rest = value_from (acc * 10 + (c - 48)) s in if is_digit c then rest else none

unfoldable pub unsigned : Text → Option ℕ
unfolding value_from
unsigned [] = none
unsigned (c ∷ s) = value_from 0 (c ∷ s)

unfoldable pub signed : Text → Option ℤ
signed [] = none
signed (c ∷ s) =
    if eqb c 45
    then elim (unsigned s) [ none ↦ none | some n ↦ some (sub_ℕ 0 n) ]
    else elim (unsigned (if eqb c 43 then s else c ∷ s)) [ none ↦ none | some n ↦ some (pos n) ]

-- `int(s)`; `none` is the `ValueError`.
unfoldable pub int : Text → Option ℤ
int s = signed (strip s)
