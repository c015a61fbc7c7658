-- ===== src/CheckIo/Device/Rates.antt =====
-- The limits are stated per second, and compared with the whole averaging period.
use Prim.Native.Nat.{max}
use puppet_stg_environment.Common.{ℕ, ◌*◌, ◌≤◌, ◌<◌, ◌≡◌, some, true, arith}
use puppet_stg_environment.Common.Int.{ℤ, pos, ◌*ℤ◌}
use puppet_stg_environment.CheckIo.Device.{Device, unwrap, is_set, check_limits}
use puppet_stg_environment.CheckIo.Device.Levels.{
  rate_level, util_level-le, rate_level-le, HasSamples, HasThroughput, HasStatus,
  check_limits-levels,
}

unwrap_pos : (maxsize : ℤ) (n : ℕ) → unwrap maxsize (pos n) ≡ pos n
unfolding unwrap
unwrap_pos maxsize n = ground arith

rate_level_above : (n w c : ℕ) → c < n → rate_level (pos n) (pos w) (pos c) ≡ 2
unfolding rate_level
rate_level_above n w c h = ground arith

pub period_set : (n : ℕ) → 0 < n → is_set (some (pos 1000 *ℤ pos n)) ≡ true
unfolding ◌*ℤ◌
period_set n h = ground arith

max_two : (a b : ℕ) → a ≤ 2 → b ≤ 2 → max (max 2 a) b ≡ 2
max_two a b h k = omega arith

-- A device that reads steadily below the warning limit, in sectors per second, is reported as
-- critical once its sectors of the whole period exceed the critical limit.
pub check_limits_steady_read :
    (maxsize : ℤ) (d : Device) (rate period rw_ rc : ℕ) {swrite tbusy ww wc : ℤ}
    → d.averaging_period ≡ pos period
    → 0 < period
    → rate ≤ rw_
    → rc < rate * period
    → HasSamples d (pos (rate * period)) swrite tbusy
    → HasThroughput d (pos rw_) (pos rc) ww wc
    → HasStatus (check_limits maxsize d) 2
check_limits_steady_read maxsize d rate period rw_ rc {swrite} {tbusy} {ww} {wc} a p below over s
      t =
    rw
      (
        unwrap_pos maxsize (rate * period),
        rate_level_above (rate * period) rw_ rc over,
        max_two _ _ (rate_level-le (unwrap maxsize swrite) ww wc)
            (util_level-le d (unwrap maxsize tbusy)),
      )
      at (check_limits-levels maxsize d s t (rw a (period_set period p)))
