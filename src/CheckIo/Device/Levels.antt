-- ===== src/CheckIo/Device/Levels.antt =====
-- `checkLimits` against a plain reading of the limits.
use puppet_stg_environment.Common.{
  ℕ, ◌≤◌, ◌≡◌, refl, max, none, some, true, inl, inr, List, ◌∷◌, if◌then◌else◌, arith, Bool-cases,
}
use puppet_stg_environment.Common.Int.{ℤ, pos, ◌*ℤ◌, ltb_ℤ}
use puppet_stg_environment.CheckIo.Run.{Result, ok, raises}
use puppet_stg_environment.CheckIo.Message.{Piece, literal}
use puppet_stg_environment.CheckIo.Diskstats.{Row}
use puppet_stg_environment.CheckIo.Device.{
  Device, difference, unwrap, is_set, excess, Verdict, check_rate, check_rates, quotient_above,
  check_util, device_text, check_limits,
}

-- 2 above the critical limit, 1 above the warning limit, and 0 otherwise.
unfoldable pub rate_level : ℤ → ℤ → ℤ → ℕ
rate_level value warn crit = if ltb_ℤ crit value then 2 else if ltb_ℤ warn value then 1 else 0

pub rate_level-le : (value warn crit : ℤ) → rate_level value warn crit ≤ 2
unfolding rate_level
rate_level-le value warn crit = ground arith

-- The same of the share of the period, in percent, that the device was busy.
unfoldable pub util_level : Device → ℤ → ℕ
util_level d tbusy =
    let numerator = pos 100 *ℤ tbusy in
    let denominator = pos 1000 *ℤ d.averaging_period in
    if quotient_above numerator denominator d.util_crit
    then 2
    else if quotient_above numerator denominator d.util_warn
    then 1
    else 0

pub util_level-le : (d : Device) (tbusy : ℤ) → util_level d tbusy ≤ 2
unfolding util_level
util_level-le d tbusy = ground arith

-- The status of a result that is no exception.
abbrev pub HasStatus : Result Verdict → ℕ → Type 0
HasStatus (ok v) s = v.0 ≡ s
HasStatus (raises e) s = ⊥

check_rate-level :
    (ct wt : Piece) (value c w : ℤ) (v : Verdict)
    → v.0 ≤ 2
    → is_set (some c) ≡ true
    → is_set (some w) ≡ true
    → (u : Verdict) × (check_rate ct wt value (some c) (some w) v ≡ ok u)
      × (u.0 ≡ max v.0 (rate_level value w c))
unfolding check_rate excess rate_level
check_rate-level ct wt value c w v h hc hw = elim (Bool-cases (ltb_ℤ c value)) [
  | inl e ↦ rw (e, hc) (_, refl, omega arith)
  | inr e ↦ elim (Bool-cases (ltb_ℤ w value)) [
    | inl f ↦ rw (e, f, hw) (_, refl, ground arith)
    | inr f ↦ rw (e, f) (_, refl, omega arith)
  ]
]

check_util-level :
    (d : Device) (tbusy : ℤ) (v : Verdict)
    → v.0 ≤ 2
    → is_set (some (pos 1000 *ℤ d.averaging_period)) ≡ true
    → (u : Verdict) × (check_util d tbusy v ≡ ok u) × (u.0 ≡ max v.0 (util_level d tbusy))
unfolding check_util util_level
check_util-level d tbusy v h hd =
    let above = quotient_above (pos 100 *ℤ tbusy) (pos 1000 *ℤ d.averaging_period) in
    elim (Bool-cases (above d.util_crit)) [
      | inl e ↦ rw (check_util, hd, e) (_, refl, omega arith)
      | inr e ↦ elim (Bool-cases (above d.util_warn)) [
        | inl f ↦ rw (check_util, hd, e, f) (_, refl, ground arith)
        | inr f ↦ rw (check_util, hd, e, f) (_, refl, omega arith)
      ]
    ]

-- The four throughput limits are given, and none of them is zero.
pub record HasThroughput (d : Device) (rw_ rc ww wc : ℤ) : Type 0 where
  pub read_warn : d.sread_warn ≡ some rw_
  pub read_crit : d.sread_crit ≡ some rc
  pub write_warn : d.swrite_warn ≡ some ww
  pub write_crit : d.swrite_crit ≡ some wc
  pub read_warn_set : is_set (some rw_) ≡ true
  pub read_crit_set : is_set (some rc) ≡ true
  pub write_warn_set : is_set (some ww) ≡ true
  pub write_crit_set : is_set (some wc) ≡ true

-- What the two samples say: sectors read and written, and milliseconds busy, before the correction
-- of negative differences.
pub record HasSamples (d : Device) (sread swrite tbusy : ℤ) : Type 0 where
  pub first : Row
  pub second : Row
  pub others : List Row
  pub sampled : d.performance_data ≡ first ∷ second ∷ others
  pub read : difference first second 2 ≡ ok sread
  pub written : difference first second 6 ≡ ok swrite
  pub busy : difference first second 9 ≡ ok tbusy

rates-level :
    (d : Device) (sread swrite : ℤ) (v : Verdict) {rw_ rc ww wc : ℤ}
    → v.0 ≡ 0
    → HasThroughput d rw_ rc ww wc
    → (u : Verdict) × (check_rates d sread swrite v ≡ ok u)
      × (u.0 ≡ max (rate_level sread rw_ rc) (rate_level swrite ww wc))
unfolding check_rates
rates-level d sread swrite v {rw_} {rc} {ww} {wc} h t =
    let (a, ea, la) =
      check_rate-level (literal "sectors read/s critical threshold exceeded by ")
        (literal "sectors read/s warning threshold exceeded by ") sread rc rw_ v (omega arith)
        t.read_crit_set t.read_warn_set in
    let (b, eb, lb) =
      check_rate-level (literal "sectors write/s critical threshold exceeded by ")
        (literal "sectors write/s warning threshold exceeded by ") swrite wc ww a
        (omega (arith, rate_level-le sread rw_ rc)) t.write_crit_set t.write_warn_set in
    (
      b,
      rw (
        check_rates, t.read_crit, t.read_crit_set, t.read_warn, ea, t.write_crit, t.write_warn, eb,
      ),
      omega (arith, la, lb),
    )

-- With no limit on the sectors read, the throughput is not looked at.
rates_unset :
    (d : Device) (sread swrite : ℤ) (v : Verdict)
    → d.sread_crit ≡ none
    → check_rates d sread swrite v ≡ ok v
unfolding check_rates
rates_unset d sread swrite v h = rw (check_rates, h)

pub zero_max : (n : ℕ) → max 0 n ≡ n
zero_max n = omega arith

module _ (maxsize : ℤ) (d : Device) {sread swrite tbusy : ℤ}
    (s : HasSamples d sread swrite tbusy) where
  check_limits-rates :
      is_set (some (pos 1000 *ℤ d.averaging_period)) ≡ true
      → (v : Verdict) → v.0 ≤ 2
      → check_rates d (unwrap maxsize sread) (unwrap maxsize swrite) (device_text d.name) ≡ ok v
      → HasStatus (check_limits maxsize d) (max v.0 (util_level d (unwrap maxsize tbusy)))
  unfolding check_limits check_rates check_util util_level
  check_limits-rates period v h e =
      let (u, eu, lu) = check_util-level d (unwrap maxsize tbusy) v h period in
      rw (check_limits, s.sampled, s.read, s.written, s.busy, e, eu) lu

  -- With two samples and all throughput limits, the status of a device is the highest of the levels
  -- of its reading, its writing and its utilisation.
  pub check_limits-levels :
      {rw_ rc ww wc : ℤ}
      → HasThroughput d rw_ rc ww wc
      → is_set (some (pos 1000 *ℤ d.averaging_period)) ≡ true
      → HasStatus (check_limits maxsize d) (
          max
            (max
              (rate_level (unwrap maxsize sread) rw_ rc)
              (rate_level (unwrap maxsize swrite) ww wc))
            (util_level d (unwrap maxsize tbusy)))
  check_limits-levels {rw_} {rc} {ww} {wc} t period =
      let (v, e, l) =
        rates-level d (unwrap maxsize sread) (unwrap maxsize swrite) (device_text d.name) refl t in
      rw (← l) (
        check_limits-rates period v
          (omega (
            arith,
            l,
            rate_level-le (unwrap maxsize sread) rw_ rc,
            rate_level-le (unwrap maxsize swrite) ww wc,
          ))
          e)

  -- With two samples and no throughput limits, it is the level of its utilisation.
  pub check_limits-util :
      d.sread_crit ≡ none
      → is_set (some (pos 1000 *ℤ d.averaging_period)) ≡ true
      → HasStatus (check_limits maxsize d) (util_level d (unwrap maxsize tbusy))
  check_limits-util unset period = rw zero_max at (
      check_limits-rates period (device_text d.name) (omega arith)
        (rates_unset d (unwrap maxsize sread) (unwrap maxsize swrite) (device_text d.name) unset))
