-- ===== src/Entropy/Enough.antt =====
-- The end of the whole script with an exit status of 0.
use puppet_stg_environment.Common.{ℕ, ◌+◌, ◌≡◌, ◌<◌, sym, ◌↔◌, true, [], arith}
use puppet_stg_environment.Common.Int.{ℤ, pos, negsuc, ◌≤ℤ◌}
use mathlib.Core.Path.{subst}
use puppet_stg_environment.Entropy.{Reads, Options, exit_code, round_count, run}
use puppet_stg_environment.Entropy.Attempts.{IsLow, IsHigh, Succeeds, rounds-Succeeds}

-- One of the first `retries` + 1 reads is high, and those before it are low.
pub record HasRead (reads : Reads) (watermark sleep retries : ℤ) : Type 0 where
  pub before : ℕ
  pub in_time : pos before ≤ℤ retries
  pub low : (i : ℕ) → i < before → IsLow reads watermark sleep i
  pub high : IsHigh reads watermark before

round_count_iff : (n : ℕ) (z : ℤ) → (n < round_count z) ↔ (pos n ≤ℤ z)
round_count_iff n (pos m) = ground arith
round_count_iff n (negsuc m) = ground arith

zero_plus : (n : ℕ) → 0 + n ≡ n
zero_plus n = omega arith

Succeeds-HasRead :
    (reads : Reads) (watermark sleep retries : ℤ)
    → Succeeds reads watermark sleep (round_count retries) 0 ↔ HasRead reads watermark sleep retries
Succeeds-HasRead reads watermark sleep retries = (
  λ s. record {
    before = s.before;
    in_time = (round_count_iff s.before retries).0 s.in_time;
    low = λ i h. subst (IsLow reads watermark sleep) (zero_plus i) (s.low i h);
    high = subst (IsHigh reads watermark) (zero_plus s.before) s.high;
  },
  λ r. record {
    before = r.before;
    in_time = (round_count_iff r.before retries).1 r.in_time;
    low = λ i h. subst (IsLow reads watermark sleep) (sym (zero_plus i)) (r.low i h);
    high = subst (IsHigh reads watermark) (sym (zero_plus r.before)) r.high;
  },
)

-- With no further arguments and the kernel's file there, the exit status is 0 exactly if one of the
-- first `retries` + 1 reads is a number at or above the watermark and all reads before it are numbers,
-- after which the time to sleep is not negative.
pub run_enough_iff :
    (reads : Reads) (o : Options)
    → o.arguments ≡ 0
    → (exit_code (run true reads o) ≡ 0) ↔ HasRead reads o.watermark o.sleep o.retries
unfolding run
run_enough_iff reads o e =
    let rounds_iff = rounds-Succeeds reads o.watermark o.sleep (round_count o.retries) 0 [] in
    let read_iff = Succeeds-HasRead reads o.watermark o.sleep o.retries in
    rw (run, e) (λ h. read_iff.0 (rounds_iff.0 h), λ r. rounds_iff.1 (read_iff.1 r))
