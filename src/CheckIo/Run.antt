-- ===== src/CheckIo/Run.antt =====
-- Python's control flow in this plugin: a value, an exception, or the `SystemExit` of an exit.
use puppet_stg_environment.Common.{◌≡◌, refl, ◌⊎◌, inl, inr}
use puppet_stg_environment.Common.Int.{ℤ}
use puppet_stg_environment.Common.Text.{Text}

-- The exceptions that can be raised; an `IOError` carries its file and the name of its number.
pub data Exn : Type 0 where
  script_timeout : ℤ → Exn
  io_error : Text → Text → Exn
  type_error index_error zero_division_error value_error overflow_error : Exn

pub data Result {ℓ} (A : Type ℓ) : Type ℓ where
  ok : A → Result A
  raises : Exn → Result A

infixl 5 ◌>>=◌
abbrev pub ◌>>=◌ {ℓ κ} : {A : Type ℓ} {B : Type κ} → Result A → (A → Result B) → Result B
ok a >>= f = f a
raises e >>= f = raises e

pub Result-cases {ℓ} :
    {A : Type ℓ} (r : Result A) → ((e : Exn) × (r ≡ raises e)) ⊎ ((a : A) × (r ≡ ok a))
Result-cases (ok a) = inr (a, refl)
Result-cases (raises e) = inl (e, refl)

pub ok-raises {ℓ} : {A : Type ℓ} (x : A) (e : Exn) → raises e ≡ ok x → ⊥
ok-raises x e h = cc

-- The parts of a chain that returns.
pub >>=-ok {ℓ κ} :
    {A : Type ℓ} {B : Type κ} (m : Result A) (f : A → Result B) (y : B)
    → (m >>= f) ≡ ok y
    → (x : A) × (m ≡ ok x) × (f x ≡ ok y)
>>=-ok (ok x) f y h = (x, refl, h)
>>=-ok (raises e) f y h = absurd (ok-raises y e h)

pub ok-injective {ℓ} : {A : Type ℓ} (x y : A) → ok x ≡ ok y → x ≡ y
ok-injective x y h = cc

-- What holds of a value holds of what it is known to be.
pub for_ok {ℓ κ} : {A : Type ℓ} (P : A → Type κ) (x y : A) → ok x ≡ ok y → P x → P y
for_ok P x y h p = rw (ok-injective x y h) at p
