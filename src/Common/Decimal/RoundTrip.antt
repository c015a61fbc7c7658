-- ===== src/Common/Decimal/RoundTrip.antt =====
-- `int` reads what `str` writes.
use puppet_stg_environment.Common.Tests.{ltb, eqb, Bool-cases, ltb→lt}
use puppet_stg_environment.Common.Lists.{All, All-map}
use puppet_stg_environment.Common.Int.{ℤ, pos, negsuc}
use puppet_stg_environment.Common.Text.{Text, is_space}
use puppet_stg_environment.Common.Text.Strip.{HasNoSpace, strip_of_no_space}
use puppet_stg_environment.Common.Text.Split.{Lacks}
use puppet_stg_environment.Common.Decimal.{
  is_digit, digits_onto, show_ℕ, show, value_from, unsigned, signed, int,
}
use Prim.Native.Nat.{ℕ, zero, suc, ◌+◌, ◌*◌, ◌/◌, ◌%◌, ◌<◌}
use mathlib.Core.Path.{◌≡◌, refl, ap, ◌∙◌}
use mathlib.Core.Logic.{inl, inr}
use mathlib.Core.Bool.{true, false, ◌||◌}
use mathlib.Core.Option.{some}
use mathlib.Core.List.{[], ◌∷◌}
use native.Mathlib.Omega.{arith}

abbrev pub AllDigits : Text → Type 0
AllDigits = All (λ c. is_digit c ≡ true)

is_digit_lem : (d : ℕ) → d < 10 → is_digit (48 + d) ≡ true
is_digit_lem d h = ground arith

value_from_digit :
    (v d : ℕ) (acc : Text) → d < 10 → value_from v ((48 + d) ∷ acc) ≡ value_from (v * 10 + d) acc
unfolding value_from
value_from_digit v d acc h = rw (is_digit_lem d h) (ap (λ x. value_from x acc) (omega arith))

value_from-digits_onto :
    (fuel n : ℕ) (acc : Text) → n < fuel → value_from 0 (digits_onto fuel n acc) ≡ value_from n acc
unfolding digits_onto
value_from-digits_onto zero n acc h = elim h [ ]
value_from-digits_onto (suc fuel) n acc h = elim (Bool-cases (ltb n 10)) [
  | inl e ↦
      rw e (value_from_digit 0 n acc (ltb→lt n 10 e) ∙ ap (λ x. value_from x acc) (omega arith))
  | inr e ↦ rw e (
      value_from-digits_onto fuel (n / 10) ((48 + n % 10) ∷ acc) (ground arith)
      ∙ value_from_digit (n / 10) (n % 10) acc (omega arith)
      ∙ ap (λ x. value_from x acc) (omega arith))
]

digits_onto-AllDigits :
    (fuel n : ℕ) (acc : Text) → AllDigits acc → AllDigits (digits_onto fuel n acc)
unfolding digits_onto
digits_onto-AllDigits zero n acc h = h
digits_onto-AllDigits (suc fuel) n acc h =
    ground (arith, digits_onto-AllDigits fuel (n / 10) ((48 + n % 10) ∷ acc))

-- A written number has a first digit.
digits_onto-cons :
    (fuel n c : ℕ) (s : Text) → (d : ℕ) × (t : Text) × (digits_onto fuel n (c ∷ s) ≡ d ∷ t)
unfolding digits_onto
digits_onto-cons zero n c s = (c, s, refl)
digits_onto-cons (suc fuel) n c s = elim (Bool-cases (ltb n 10)) [
  | inl e ↦ (48 + n, c ∷ s, rw e)
  | inr e ↦ rw e (digits_onto-cons fuel (n / 10) (48 + n % 10) (c ∷ s))
]

show_ℕ-cons : (n : ℕ) → (d : ℕ) × (t : Text) × (show_ℕ n ≡ d ∷ t)
unfolding show_ℕ
show_ℕ-cons n = elim (Bool-cases (ltb n 10)) [
  | inl e ↦ (48 + n, [], rw e)
  | inr e ↦ rw e (digits_onto-cons n (n / 10) (48 + n % 10) [])
]

pub show_ℕ-AllDigits : (n : ℕ) → AllDigits (show_ℕ n)
unfolding show_ℕ
show_ℕ-AllDigits n = digits_onto-AllDigits (suc n) n [] tt

pub value_from-show_ℕ : (n : ℕ) → value_from 0 (show_ℕ n) ≡ some n
unfolding show_ℕ value_from
value_from-show_ℕ n = value_from-digits_onto (suc n) n [] (omega arith)

unsigned-cons :
    (n d : ℕ) (t : Text) → show_ℕ n ≡ d ∷ t → (is_digit d ≡ true) × (unsigned (d ∷ t) ≡ some n)
unfolding unsigned
unsigned-cons n d t e = ((rw e at (show_ℕ-AllDigits n)).0, rw e at (value_from-show_ℕ n))

pub unsigned-show_ℕ : (n : ℕ) → unsigned (show_ℕ n) ≡ some n
unsigned-show_ℕ n = let (d, t, e) = show_ℕ-cons n in rw e (unsigned-cons n d t e).1

show_ℕ-HasNoSpace : (n : ℕ) → HasNoSpace (show_ℕ n)
show_ℕ-HasNoSpace n =
    All-map (λ c. is_digit c ≡ true) (λ c. is_space c ≡ false) (show_ℕ n) (λ c h. ground arith)
      (show_ℕ-AllDigits n)

-- A written integer holds no whitespace.
pub show-HasNoSpace : (z : ℤ) → HasNoSpace (show z)
unfolding show
show-HasNoSpace (pos n) = show_ℕ-HasNoSpace n
show-HasNoSpace (negsuc n) = (refl, show_ℕ-HasNoSpace (suc n))

-- A character that is neither a digit nor the minus sign does not occur in a written integer.
pub show_ℕ-Lacks : (n c : ℕ) → is_digit c ≡ false → Lacks c (show_ℕ n)
show_ℕ-Lacks n c h =
    All-map (λ x. is_digit x ≡ true) (λ x. eqb x c ≡ false) (show_ℕ n) (λ x d. ground arith)
      (show_ℕ-AllDigits n)

pub show-Lacks : (z : ℤ) (c : ℕ) → is_digit c || eqb c 45 ≡ false → Lacks c (show z)
unfolding show
show-Lacks (pos n) c h = show_ℕ-Lacks n c (ground arith)
show-Lacks (negsuc n) c h = (ground arith, show_ℕ-Lacks (suc n) c (ground arith))

signed-cons :
    (n d : ℕ) (t : Text)
    → is_digit d ≡ true
    → unsigned (d ∷ t) ≡ some n
    → signed (d ∷ t) ≡ some (pos n)
unfolding signed
signed-cons n d t h u = ground arith

signed-minus :
    (n d : ℕ) (t : Text) → unsigned (d ∷ t) ≡ some (suc n) → signed (45 ∷ d ∷ t) ≡ some (negsuc n)
unfolding signed
signed-minus n d t u = ground arith

signed-show : (z : ℤ) → signed (show z) ≡ some z
unfolding show
signed-show (pos n) =
    let (d, t, e) = show_ℕ-cons n in
    let h = unsigned-cons n d t e in rw e (signed-cons n d t h.0 h.1)
signed-show (negsuc n) =
    let (d, t, e) = show_ℕ-cons (suc n) in
    let h = unsigned-cons (suc n) d t e in rw e (signed-minus n d t h.1)

-- `int(str(z)) == z`
pub int-show : (z : ℤ) → int (show z) ≡ some z
unfolding int
int-show z = rw (strip_of_no_space (show z) (show-HasNoSpace z)) (signed-show z)
