-- ===== src/CheckIo/Device/Sampled.antt =====
-- A device that is within its limits has been sampled twice.
use puppet_stg_environment.Common.{ℕ, ◌≡◌, refl, sym, ap, ◌∙◌, List, [], ◌∷◌, arith}
use puppet_stg_environment.Common.Int.{ℤ}
use puppet_stg_environment.CheckIo.Run.{ok, ok-injective}
use puppet_stg_environment.CheckIo.Message.{Message}
use puppet_stg_environment.CheckIo.Diskstats.{Row}
use puppet_stg_environment.CheckIo.Device.{Device, Verdict, check_data, check_limits}

abbrev HasTwo : List Row → Type 0
HasTwo rows =
    (first : Row) × (second : Row) × (others : List Row) × (rows ≡ first ∷ second ∷ others)

-- A device has its two samples.
abbrev pub IsSampled : Device → Type 0
IsSampled d = HasTwo d.performance_data

three-not_zero : ◌≡◌ {A = ℕ} 3 0 → ⊥
three-not_zero h = omega arith

not_unknown : (x y : Verdict) → x.0 ≡ 3 → y.0 ≡ 0 → ok x ≡ ok y → ⊥
not_unknown x y a b h = three-not_zero (sym a ∙ ap (λ v. v.0) (ok-injective x y h) ∙ b)

check_data-HasTwo :
    (maxsize : ℤ) (d : Device) (rows : List Row) (message : Message)
    → check_data maxsize d rows ≡ ok (0, message)
    → HasTwo rows
unfolding check_data
check_data-HasTwo maxsize d [] message h = absurd (not_unknown _ _ refl refl h)
check_data-HasTwo maxsize d (x ∷ []) message h = absurd (not_unknown _ _ refl refl h)
check_data-HasTwo maxsize d (x ∷ y ∷ rows) message h = (x, y, rows, refl)

pub check_limits-IsSampled :
    (maxsize : ℤ) (d : Device) (message : Message)
    → check_limits maxsize d ≡ ok (0, message)
    → IsSampled d
unfolding check_limits
check_limits-IsSampled maxsize d message h =
    check_data-HasTwo maxsize d d.performance_data message h
