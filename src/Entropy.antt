-- ===== src/Entropy.antt =====
-- `profiles/files/nrpeplugins/check_entropy`, the plugin that reads the kernel's entropy several
-- times until there is enough of it. What the reads give is a parameter.
pub mod Attempts
pub mod Enough
pub mod Cli
mod Tests
use puppet_stg_environment.Common.{
  ℕ, zero, suc, ◌+◌, ◌-◌, Option, none, some, Bool, true, false, List, [], ◌∷◌, ◌++◌, is_nil, ltb,
  if◌then◌else◌,
}
use puppet_stg_environment.Common.Int.{ℤ, pos, negsuc, leb_ℤ, ltb_ℤ}
use puppet_stg_environment.Common.Text.{Text, rstrip}
use puppet_stg_environment.Common.Decimal.{int}

-- The line that the n-th read gives, counted from 0; `none` is an `IOError`.
abbrev pub Reads : Type 0
Reads = ℕ → Option Text

pub record Options : Type 0 where
  pub retries : ℤ
  pub sleep : ℤ
  pub watermark : ℤ
  pub arguments : ℕ

-- What is printed: the complaints, enough bytes after so many attempts, or too few in all of them.
pub data Output : Type 0 where
  usage missing empty not_number : Output
  enough : ℤ → ℕ → Output
  too_little : List ℤ → Output

-- An exception that nothing catches, of a read or of `min([])`, leaves with 1.
pub data Ending : Type 0 where
  exits : ℕ → Output → Ending
  uncaught : Ending

abbrev pub exit_code : Ending → ℕ
exit_code (exits n _) = n
exit_code uncaught = 1

-- One read: the number, or the end that comes before it.
pub data Attempt : Type 0 where
  stops : Ending → Attempt
  number : ℤ → Attempt

abbrev pub parse_number : Text → Attempt
parse_number line = elim (int line) [ none ↦ stops (exits 4 not_number) | some z ↦ number z ]

unfoldable pub attempt : Option Text → Attempt
attempt none = stops uncaught
attempt (some line) =
    if is_nil (rstrip line) then stops (exits 4 empty) else parse_number (rstrip line)

-- The end of the loop: `min` and `max` of no values are a `ValueError`.
abbrev pub give_up : List ℤ → Ending
give_up [] = uncaught
give_up (v ∷ values) = exits 1 (too_little (v ∷ values))

-- The loop with so many rounds to go, after `tries`; a negative time to sleep is an `IOError`.
unfoldable pub rounds : Reads → ℤ → ℤ → ℕ → ℕ → List ℤ → Ending
rounds reads watermark sleep zero tries values = give_up values
rounds reads watermark sleep (suc left) tries values =
    let rest = rounds reads watermark sleep left (suc tries) in
    elim (attempt (reads tries)) [
      | stops e ↦ e
      | number avail ↦
          if leb_ℤ watermark avail
          then exits 0 (enough avail tries)
          else if ltb_ℤ sleep (pos 0)
          then uncaught
          else rest (values ++ avail ∷ [])
    ]

-- `tries <= retries` holds in `retries + 1` rounds, and in none for a negative number.
abbrev pub round_count : ℤ → ℕ
round_count (pos n) = suc n
round_count (negsuc n) = 0

-- `exists` says whether the file of the kernel is there.
unfoldable pub run : Bool → Reads → Options → Ending
run exists reads o =
    if ltb 0 o.arguments
    then exits 4 usage
    else if exists
    then rounds reads o.watermark o.sleep (round_count o.retries) 0 []
    else exits 4 missing
