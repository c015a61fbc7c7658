-- ===== src/CheckIo/Diskstats/Fields.antt =====
-- Python's `==` on fields: numbers and texts are never equal to each other.
use mathlib.Core.Bool.{Bool-discrete}
use mathlib.Core.Logic.{dite}
use puppet_stg_environment.Common.{◌≡◌, arith, eqb, Bool, true, false, Eq, ◌==◌}
use puppet_stg_environment.Common.Int.{ℤ, pos, negsuc}
use puppet_stg_environment.Common.Text.{text_eq}
use puppet_stg_environment.CheckIo.Diskstats.{Field, num, word}

int_beq : ℤ → ℤ → Bool
int_beq (pos m) (pos n) = eqb m n
int_beq (negsuc m) (negsuc n) = eqb m n
int_beq _ _ = false

field_beq : Field → Field → Bool
field_beq (num x) (num y) = int_beq x y
field_beq (word s) (word t) = s == t
field_beq _ _ = false

int_beq-sound : (x y : ℤ) → int_beq x y ≡ true → x ≡ y
unfolding int_beq
int_beq-sound (pos m) (pos n) h = ground arith
int_beq-sound (negsuc m) (negsuc n) h = ground arith
int_beq-sound _ _ h = cc

int_beq_refl : (x : ℤ) → int_beq x x ≡ true
unfolding int_beq
int_beq_refl (pos n) = ground arith
int_beq_refl (negsuc n) = ground arith

field_beq-sound : (f g : Field) → field_beq f g ≡ true → f ≡ g
unfolding field_beq
field_beq-sound (num x) (num y) h = rw (int_beq-sound x y h)
field_beq-sound (word s) (word t) h = ground arith
field_beq-sound _ _ h = cc

field_beq_refl : (f : Field) → field_beq f f ≡ true
unfolding field_beq
field_beq_refl (num x) = int_beq_refl x
field_beq_refl (word s) = ground arith

instance unfoldable pub field_eq : Eq Field
unfolding field_beq int_beq field_beq-sound field_beq_refl int_beq-sound int_beq_refl
field_eq = record {
  dec = λ f g.
      dite (Bool-discrete (field_beq f g) true) (λ same. yes (field_beq-sound f g same))
        (λ differ. no (λ p. differ (rw p (field_beq_refl g))));
}
