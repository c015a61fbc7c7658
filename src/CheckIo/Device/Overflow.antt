-- ===== src/CheckIo/Device/Overflow.antt =====
-- Counters that wrap. The kernel's counters are unsigned words, of twice the range of the positive
-- signed numbers whose largest is `sys.maxsize`.
use Prim.Native.Nat.{max}
use puppet_stg_environment.Common.{ℕ, ◌+◌, ◌-◌, ◌*◌, ◌≤◌, ◌<◌, ◌≡◌, refl, some, true, arith}
use puppet_stg_environment.Common.Int.{ℤ, pos, ◌-ℤ◌, ◌+ℤ◌, ◌*ℤ◌}
use puppet_stg_environment.CheckIo.Device.{Device, unwrap, is_set, check_limits}
use puppet_stg_environment.CheckIo.Device.Levels.{
  rate_level, util_level, HasSamples, HasThroughput, HasStatus, check_limits-levels, zero_max,
}

-- The difference that the program works with, in terms of the sectors that were really counted: a
-- counter of `2 * half` values has gone from `old` past its end to `new`.
unwrap-wrapped :
    (half old new grown : ℕ)
    → 0 < half
    → old < 2 * half
    → new < old
    → grown ≡ new + 2 * half - old
    → unwrap (pos (half - 1)) (pos new -ℤ pos old) ≡ pos grown -ℤ pos (half + 1)
unfolding unwrap ◌-ℤ◌ ◌+ℤ◌
unwrap-wrapped half old new grown h o n g = ground arith

rate_level_wrapped :
    (half grown warn crit : ℕ)
    → grown ≤ half
    → rate_level (pos grown -ℤ pos (half + 1)) (pos warn) (pos crit) ≡ 0
unfolding rate_level ◌-ℤ◌
rate_level_wrapped half grown warn crit h = ground arith

-- A counter of sectors read that wraps is never reported: if it grew by at most half its range, the
-- status of the device is that of its writing and its utilisation alone, however low the limits
-- for reading are.
pub check_limits_wrapped_read :
    (d : Device) (half old new rw_ rc : ℕ) {swrite tbusy ww wc : ℤ}
    → old < 2 * half
    → new < old
    → new + 2 * half - old ≤ half
    → HasSamples d (pos new -ℤ pos old) swrite tbusy
    → HasThroughput d (pos rw_) (pos rc) ww wc
    → is_set (some (pos 1000 *ℤ d.averaging_period)) ≡ true
    → HasStatus (check_limits (pos (half - 1)) d) (
        max
          (rate_level (unwrap (pos (half - 1)) swrite) ww wc)
          (util_level d (unwrap (pos (half - 1)) tbusy)))
check_limits_wrapped_read d half old new rw_ rc o n g s t period =
    let e = unwrap-wrapped half old new (new + 2 * half - old) (omega arith) o n refl in
    let z = rate_level_wrapped half (new + 2 * half - old) rw_ rc g in
    rw (e, z, zero_max) at (check_limits-levels (pos (half - 1)) d s t period)
