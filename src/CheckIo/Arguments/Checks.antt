-- ===== src/CheckIo/Arguments/Checks.antt =====
-- Which arguments `main` accepts.
use puppet_stg_environment.Common.{
  ◌≡◌, ◌↔◌, Option, none, some, Bool, true, false, arith, if◌then◌else◌,
}
use puppet_stg_environment.Common.Int.{ℤ, pos, ◌<ℤ◌, ◌≤ℤ◌, ◌+ℤ◌, leb_ℤ}
use puppet_stg_environment.CheckIo.Message.{Message}
use puppet_stg_environment.CheckIo.Arguments.{Args, limit_ge, check_throughput, check_args}
use puppet_stg_environment.CheckIo.Arguments.Ranges.{IsLimit, IsInRange}

-- No throughput limit, or all four in order.
abbrev pub AreConsistent : Option ℤ → Option ℤ → Option ℤ → Option ℤ → Type 0
AreConsistent none none none none = Unit {0}
AreConsistent (some rw_) (some rc) (some ww) (some wc) = (rw_ <ℤ rc) × (ww <ℤ wc)
AreConsistent _ _ _ _ = ⊥

throughput_iff :
    (rw_ rc ww wc : Option ℤ)
    → IsLimit rw_
    → IsLimit rc
    → IsLimit ww
    → IsLimit wc
    → (check_throughput rw_ rc ww wc ≡ none) ↔ AreConsistent rw_ rc ww wc
unfolding check_throughput limit_ge
throughput_iff none none none none h k l m = ground arith
throughput_iff (some x) (some y) (some z) (some t) h k l m = ground arith
throughput_iff _ _ _ _ h k l m = ground arith

gates :
    (b c : Bool) (m n : Message) (t : Option Message)
    → ((if b then some m else if c then some n else t) ≡ none)
      ↔ ((b ≡ false) × (c ≡ false) × (t ≡ none))
gates true c m n t = ground arith
gates false true m n t = ground arith
gates false false m n t = ground arith

period_iff : (t p : ℤ) → pos 0 <ℤ t → (leb_ℤ (t +ℤ pos 1) p ≡ false) ↔ (p ≤ℤ t)
unfolding ◌+ℤ◌
period_iff t p h = ground arith

limits_iff : (w c : ℤ) → (leb_ℤ c w ≡ false) ↔ (w <ℤ c)
limits_iff w c = ground arith

-- Arguments in their ranges pass all checks exactly if the averaging period is at most the timeout,
-- the utilisation limits ascend, and the throughput limits are all absent or all given and
-- ascending.
pub check_args_iff :
    (a : Args)
    → IsInRange a
    → (check_args a ≡ none) ↔ (
        (a.averaging_period ≤ℤ a.timeout)
        × (a.util_warn <ℤ a.util_crit)
        × AreConsistent a.sread_warn a.sread_crit a.swrite_warn a.swrite_crit)
unfolding check_args
check_args_iff a h =
    let t =
      throughput_iff a.sread_warn a.sread_crit a.swrite_warn a.swrite_crit h.sread_warn h.sread_crit
        h.swrite_warn h.swrite_crit in
    let p = period_iff a.timeout a.averaging_period h.timeout in
    let u = limits_iff a.util_warn a.util_crit in
    let g =
      gates (leb_ℤ (a.timeout +ℤ pos 1) a.averaging_period) (leb_ℤ a.util_crit a.util_warn) _ _ _ in
    (λ e. (p.0 (g.0 e).0, u.0 (g.0 e).1, t.0 (g.0 e).2), λ (x, y, z). g.1 (p.1 x, u.1 y, t.1 z))
