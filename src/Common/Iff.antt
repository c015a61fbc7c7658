-- ===== src/Common/Iff.antt =====
-- Equivalences of disjunctions.
use mathlib.Core.Path.{◌≡◌, refl}
use mathlib.Core.Logic.{◌↔◌, ◌⊎◌, inl, inr}
use mathlib.Core.Bool.{Bool, true, false, ◌||◌}
use mathlib.Core.Option.{some}

-- What holds of a value holds of what it is known to be.
pub for_some {ℓ κ} : {A : Type ℓ} (P : A → Type κ) (x y : A) → some x ≡ some y → P x → P y
for_some {A = A} P x y h p = rw (some_injective x y h) at p
  where
    some_injective : (u v : A) → some u ≡ some v → u ≡ v
    some_injective u v e = cc

pub or_iff :
    (a b : Bool) (P Q : Type 0) → (a ≡ true) ↔ P → (b ≡ true) ↔ Q → ((a || b) ≡ true) ↔ (P ⊎ Q)
or_iff true b P Q p q = (λ t. inl (p.0 t), λ _. refl)
or_iff false b P Q p q = (λ t. inr (q.0 t), λ x. elim x [ inl y ↦ cc (p.1 y) | inr y ↦ q.1 y ])

-- Two steps that each add an alternative.
pub add_iff : {A B C Q R : Type 0} → A ↔ (B ⊎ R) → B ↔ (C ⊎ Q) → A ↔ (C ⊎ (Q ⊎ R))
add_iff ab bc = (
  λ a. elim (ab.0 a) [
    | inl b ↦ elim (bc.0 b) [ inl c ↦ inl c | inr q ↦ inr (inl q) ]
    | inr r ↦ inr (inr r)
  ],
  λ x. elim x [
    | inl c ↦ ab.1 (inl (bc.1 (inl c)))
    | inr y ↦ elim y [ inl q ↦ ab.1 (inl (bc.1 (inr q))) | inr r ↦ ab.1 (inr r) ]
  ],
)

pub iff_trans : {A B C : Type 0} → A ↔ B → B ↔ C → A ↔ C
iff_trans ab bc = (λ a. bc.0 (ab.0 a), λ c. ab.1 (bc.1 c))
