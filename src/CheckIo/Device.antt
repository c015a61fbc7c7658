-- ===== src/CheckIo/Device.antt =====
-- `Device`: the limits and the samples of one block device, and `checkLimits`. `maxsize` is
-- Python's `sys.maxsize`.
pub mod Levels
pub mod Sampled
pub mod Overflow
pub mod Rates
use puppet_stg_environment.Common.{
  ℕ, Option, none, some, Bool, true, false, not, List, [], ◌∷◌, ◌++◌, length, ltb, eqb,
  if◌then◌else◌,
}
use puppet_stg_environment.Common.Int.{ℤ, pos, negsuc, ◌+ℤ◌, ◌-ℤ◌, ◌*ℤ◌, ltb_ℤ}
use puppet_stg_environment.Common.Text.{codes}
use puppet_stg_environment.CheckIo.Run.{Result, ok, raises, type_error, zero_division_error, ◌>>=◌}
use puppet_stg_environment.CheckIo.Message.{Piece, Message, txt, int, fixed2, literal}
use puppet_stg_environment.CheckIo.Diskstats.{Field, num, word, Row, field_at}

pub record Device : Type 0 where
  pub name : Field
  pub averaging_period : ℤ
  pub sread_warn : Option ℤ
  pub sread_crit : Option ℤ
  pub swrite_warn : Option ℤ
  pub swrite_crit : Option ℤ
  pub util_warn : ℤ
  pub util_crit : ℤ
  pub performance_data : List Row

unfoldable pub add_performance_data : Row → Device → Device
add_performance_data row d = record d { performance_data = d.performance_data ++ row ∷ [] }

abbrev pub piece_of : Field → Piece
piece_of (num z) = int z
piece_of (word s) = txt s

-- `b - a` of two fields: a text has no difference.
unfoldable pub minus : Field → Field → Result ℤ
minus (num b) (num a) = ok (b -ℤ a)
minus _ _ = raises type_error

-- `performance_data[1][i] - performance_data[0][i]`
unfoldable pub difference : Row → Row → ℕ → Result ℤ
unfolding minus
difference first second i = do b ← field_at second i; a ← field_at first i; minus b a

-- `if z < 0: z += sys.maxsize`
unfoldable pub unwrap : ℤ → ℤ → ℤ
unwrap maxsize z = if ltb_ℤ z (pos 0) then z +ℤ maxsize else z

-- `if limit:`
abbrev pub is_set : Option ℤ → Bool
is_set none = false
is_set (some (pos n)) = not (eqb n 0)
is_set (some (negsuc n)) = true

-- The test `value > limit`, and what the message of its branch computes: the excess `tmp`, and the
-- limit that it is divided by. Python 2 puts `None` before every number, and cannot subtract it.
unfoldable pub excess : ℤ → Option ℤ → Result (Option (ℤ × ℤ))
excess value none = raises type_error
excess value (some limit) =
    if ltb_ℤ limit value
    then (if is_set (some limit)
        then ok (some (value -ℤ limit, limit))
        else raises zero_division_error)
    else ok none

-- The status and the message so far.
abbrev pub Verdict : Type 0
Verdict = ℕ × Message

-- `"… threshold exceeded by {0}/{1:.2f}%, ".format(tmp, 100 * (tmp)/limit)`
abbrev exceeded : Piece → ℤ × ℤ → Message
exceeded what (tmp, limit) =
    what ∷ int tmp ∷ literal "/" ∷ fixed2 (pos 100 *ℤ tmp) limit ∷ literal "%, " ∷ []

-- `if status < 1: status = 1`
abbrev at_least_warning : ℕ → ℕ
at_least_warning status = if ltb status 1 then 1 else status

warn_rate : Piece → Verdict → Option (ℤ × ℤ) → Verdict
warn_rate what v none = v
warn_rate what (status, message) (some e) = (at_least_warning status, message ++ exceeded what e)

-- The limits of reading, or those of writing.
unfoldable pub check_rate : Piece → Piece → ℤ → Option ℤ → Option ℤ → Verdict → Result Verdict
unfolding warn_rate
check_rate crit_text warn_text value crit warn v = excess value crit >>= λ o. elim o [
  | some e ↦ ok (2, v.1 ++ exceeded crit_text e)
  | none ↦ excess value warn >>= λ w. ok (warn_rate warn_text v w)
]

unfoldable pub check_rates : Device → ℤ → ℤ → Verdict → Result Verdict
check_rates d sread swrite v =
    if is_set d.sread_crit
    then (do
      v1 ←
          check_rate (literal "sectors read/s critical threshold exceeded by ")
            (literal "sectors read/s warning threshold exceeded by ") sread d.sread_crit
            d.sread_warn v
      check_rate (literal "sectors write/s critical threshold exceeded by ")
          (literal "sectors write/s warning threshold exceeded by ") swrite d.swrite_crit
          d.swrite_warn v1)
    else ok v

-- `numerator / denominator > limit`, the true division of the module, over a denominator that is
-- not zero.
unfoldable pub quotient_above : ℤ → ℤ → ℤ → Bool
quotient_above numerator (pos d) limit = ltb_ℤ (limit *ℤ pos d) numerator
quotient_above numerator (negsuc d) limit = ltb_ℤ numerator (limit *ℤ negsuc d)

abbrev over_limit : Piece → ℤ → ℤ → ℤ → Message
over_limit what numerator denominator limit =
    what ∷ fixed2 numerator denominator ∷ literal "%>" ∷ int limit ∷ literal "%)" ∷ []

unfoldable pub check_util : Device → ℤ → Verdict → Result Verdict
check_util d tbusy (status, message) =
    let numerator = pos 100 *ℤ tbusy in
    let denominator = pos 1000 *ℤ d.averaging_period in
    if is_set (some denominator)
    then ok (
        if quotient_above numerator denominator d.util_crit
        then (
          2,
          message
              ++ over_limit (literal "I/O utilization critical threshold exceeded (") numerator
                  denominator d.util_crit,
        )
        else if quotient_above numerator denominator d.util_warn
        then (
          at_least_warning status,
          message
              ++ over_limit (literal "I/O utilization warning threshold exceeded (") numerator
                  denominator d.util_warn,
        )
        else (status, message))
    else raises zero_division_error

-- `if status == 0: message += "OK"`
abbrev conclude : Verdict → Verdict
conclude (status, message) =
    (status, if eqb status 0 then message ++ literal "OK" ∷ [] else message)

abbrev device_text : Field → Verdict
device_text name = (0, literal "Device " ∷ piece_of name ∷ literal ": " ∷ [])

check_samples : ℤ → Device → Row → Row → Result Verdict
check_samples maxsize d first second = do
  sread ← difference first second 2
  swrite ← difference first second 6
  tbusy ← difference first second 9
  v ← check_rates d (unwrap maxsize sread) (unwrap maxsize swrite) (device_text d.name)
  w ← check_util d (unwrap maxsize tbusy) v
  ok (conclude w)

check_data : ℤ → Device → List Row → Result Verdict
check_data maxsize d (first ∷ second ∷ rows) = check_samples maxsize d first second
check_data maxsize d _ =
    ok (3, literal "Cannot determine the state of the device " ∷ piece_of d.name ∷ [])

unfoldable pub check_limits : ℤ → Device → Result Verdict
unfolding check_data check_samples
check_limits maxsize d = check_data maxsize d d.performance_data
