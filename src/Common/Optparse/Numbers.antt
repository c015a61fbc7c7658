-- ===== src/Common/Optparse/Numbers.antt =====
-- The values of options of the type `int`: decimal, and by their first characters hexadecimal, binary or
-- octal.
use puppet_stg_environment.Common.Tests.{leb, ltb, eqb, if◌then◌else◌}
use puppet_stg_environment.Common.Lists.{take, drop, is_nil}
use puppet_stg_environment.Common.Equality.{◌==◌}
use puppet_stg_environment.Common.Int.{ℤ, pos, sub_ℕ}
use puppet_stg_environment.Common.Text.{Text, text_eq, codes, strip}
use puppet_stg_environment.Common.Decimal.{int}
use Prim.Native.Nat.{ℕ, ◌+◌, ◌-◌, ◌*◌}
use mathlib.Core.Bool.{Bool, false, ◌&&◌, ◌||◌}
use mathlib.Core.Option.{Option, none, some}
use mathlib.Core.List.{[], ◌∷◌}

-- 36 is no digit of any radix.
unfoldable pub digit_value : ℕ → ℕ
digit_value c =
    if leb 48 c && leb c 57
    then c - 48
    else if leb 97 c && leb c 122
    then c - 87
    else if leb 65 c && leb c 90
    then c - 55
    else 36

unfoldable pub value_in : ℕ → ℕ → Text → Option ℕ
value_in radix acc [] = some acc
value_in radix acc (c ∷ s) =
    let rest = value_in radix (acc * radix + digit_value c) s in
    if ltb (digit_value c) radix then rest else none

abbrev digits_in : ℕ → Text → Option ℕ
digits_in radix s = if is_nil s then none else value_in radix 0 s

-- `0x`, `0o` or `0b`, in either case.
abbrev has_mark : ℕ → Text → Bool
has_mark letter (c ∷ d ∷ s) = eqb c 48 && (eqb d letter || eqb (d + 32) letter)
has_mark letter _ = false

unsigned_in : ℕ → ℕ → Text → Option ℕ
unsigned_in radix letter s =
    if has_mark letter s then digits_in radix (drop 2 s) else digits_in radix s

signed_in : ℕ → ℕ → Text → Option ℤ
signed_in radix letter [] = none
signed_in radix letter (c ∷ s) =
    if eqb c 45
    then elim (unsigned_in radix letter s) [ none ↦ none | some n ↦ some (sub_ℕ 0 n) ]
    else elim (unsigned_in radix letter (if eqb c 43 then s else c ∷ s)) [
      | none ↦ none
      | some n ↦ some (pos n)
    ]

-- `int(s, radix)`
unfoldable pub int_in : ℕ → ℕ → Text → Option ℤ
unfolding unsigned_in signed_in
int_in radix letter s = signed_in radix letter (strip s)

abbrev or_zero : Text → Text
or_zero s = if is_nil s then codes "0" else s

-- `_parse_int`; `none` is the usage error.
unfoldable pub parse_int : Text → Option ℤ
parse_int s =
    if has_mark 120 s
    then int_in 16 120 s
    else if has_mark 98 s
    then int_in 2 98 (or_zero (drop 2 s))
    else if take 1 s == codes "0"
    then int_in 8 111 s
    else int s
