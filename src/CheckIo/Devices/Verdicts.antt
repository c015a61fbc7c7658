-- ===== src/CheckIo/Devices/Verdicts.antt =====
-- What the verdicts say of the devices.
use Prim.Native.Nat.{max}
use puppet_stg_environment.Common.{ℕ, ◌≡◌, ap, ◌∙◌, List, [], ◌∷◌, All, arith}
use puppet_stg_environment.Common.Int.{ℤ}
use puppet_stg_environment.CheckIo.Run.{ok, >>=-ok, ok-injective}
use puppet_stg_environment.CheckIo.Message.{Message}
use puppet_stg_environment.CheckIo.NagiosData.Worst.{worst}
use puppet_stg_environment.CheckIo.Diskstats.{Field}
use puppet_stg_environment.CheckIo.Device.{Device, Verdict, check_limits}
use puppet_stg_environment.CheckIo.Device.Sampled.{IsSampled, check_limits-IsSampled}
use puppet_stg_environment.CheckIo.Devices.{Devices, check_all}

-- A device has its two samples, and they are within its limits.
abbrev pub IsFine : ℤ → Field × Device → Type 0
IsFine maxsize (key, d) =
    IsSampled d × ((message : Message) × (check_limits maxsize d ≡ ok (0, message)))

max_zero : (m n : ℕ) → max m n ≡ 0 → (m ≡ 0) × (n ≡ 0)
max_zero m n h = (omega arith, omega arith)

with_status :
    (maxsize : ℤ) (d : Device) (v : Verdict)
    → check_limits maxsize d ≡ ok v
    → v.0 ≡ 0
    → check_limits maxsize d ≡ ok (0, v.1)
with_status maxsize d v e z = e ∙ ap (λ n. ok (n, v.1)) z

pub check_all-IsFine :
    (maxsize : ℤ) (ds : Devices) (vs : List Verdict)
    → check_all maxsize ds ≡ ok vs
    → worst vs ≡ 0
    → All (IsFine maxsize) ds
unfolding check_all worst
check_all-IsFine maxsize [] vs e w = tt
check_all-IsFine maxsize ((key, d) ∷ ds) vs e w =
    let (v, ev, h) = >>=-ok (check_limits maxsize d) _ vs e in
    let (us, eu, k) = >>=-ok (check_all maxsize ds) _ vs h in
    let (z, y) = max_zero v.0 (worst us) (ap worst (ok-injective _ _ k) ∙ w) in
    let fine = with_status maxsize d v ev z in
    ((check_limits-IsSampled maxsize d v.1 fine, (v.1, fine)), check_all-IsFine maxsize ds us eu y)
