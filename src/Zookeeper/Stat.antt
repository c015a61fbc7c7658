-- ===== src/Zookeeper/Stat.antt =====
-- `_parse_stat`: the answer to the four-letter word `stat`, which servers without `mntr` give.
pub mod RoundTrip
use puppet_stg_environment.Common.{
  ℕ, Option, none, some, String, List, [], ◌∷◌, is_nil, eqb, if◌then◌else◌, ◌++◌,
}
use puppet_stg_environment.Common.Int.{pos}
use puppet_stg_environment.Common.Text.{Text, text_eq, codes, strip, readlines}
use puppet_stg_environment.Common.Decimal.{is_digit, unsigned}
use puppet_stg_environment.Common.Dict.{insert}
use puppet_stg_environment.Zookeeper.Value.{Value, num, str, Stats}

-- `re.match(literal + ..., line)`: the rest of the line behind a literal start.
unfoldable pub after_prefix : Text → Text → Option Text
after_prefix [] s = some s
after_prefix (c ∷ p) [] = none
after_prefix (c ∷ p) (d ∷ s) = if eqb c d then after_prefix p s else none

unfoldable pub leading_digits : Text → Text
leading_digits [] = []
leading_digits (c ∷ s) = let more = leading_digits s in if is_digit c then c ∷ more else []

unfoldable pub after_digits : Text → Text
after_digits [] = []
after_digits (c ∷ s) = let rest = after_digits s in if is_digit c then rest else c ∷ s

-- `(\d+)` and `int` of the group: its number, and what stands behind it.
unfoldable pub number : Text → Option (ℕ × Text)
number s = elim (unsigned (leading_digits s)) [ none ↦ none | some n ↦ some (n, after_digits s) ]

-- `(.*)` stops at a newline.
unfoldable pub to_newline : Text → Text
to_newline [] = []
to_newline (c ∷ s) = let rest = to_newline s in if eqb c 10 then [] else c ∷ rest

infixl 5 ◌>>=◌
abbrev ◌>>=◌ {ℓ κ} : {A : Type ℓ} {B : Type κ} → Option A → (A → Option B) → Option B
none >>= f = none
some a >>= f = f a

match_latency : Text → Option Stats
match_latency line = do
  s ← after_prefix (codes "Latency min/avg/max: ") line
  (low, s1) ← number s
  s2 ← after_prefix (codes "/") s1
  (avg, s3) ← number s2
  s4 ← after_prefix (codes "/") s3
  (high, _) ← number s4
  some (
      (codes "zk_min_latency", num (pos low))
      ∷ (codes "zk_avg_latency", num (pos avg))
      ∷ (codes "zk_max_latency", num (pos high))
      ∷ [])

match_count : String → String → Text → Option Stats
match_count start key line = do
  s ← after_prefix (codes start) line
  (n, _) ← number s
  some ((codes key, num (pos n)) ∷ [])

match_mode : Text → Option Stats
match_mode line = do
  s ← after_prefix (codes "Mode: ") line
  some ((codes "zk_server_state", str (to_newline s)) ∷ [])

-- The first match sets its keys, and the loop goes on with the next line.
first_match : List (Option Stats) → Stats
first_match [] = []
first_match (none ∷ ms) = first_match ms
first_match (some entries ∷ ms) = entries

match_line : Text → Stats
unfolding first_match match_latency match_count match_mode
match_line line = first_match (
    match_latency line
    ∷ match_count "Received: " "zk_packets_received" line
    ∷ match_count "Sent: " "zk_packets_sent" line
    ∷ match_count "Outstanding: " "zk_outstanding_requests" line
    ∷ match_mode line
    ∷ match_count "Node count: " "zk_znode_count" line
    ∷ [])

set_all : Stats → Stats → Stats
set_all [] result = result
set_all ((k, v) ∷ entries) result = set_all entries (insert k v result)

match_lines : List Text → Stats → Stats
unfolding set_all
match_lines [] result = result
match_lines (line ∷ lines) result = match_lines lines (set_all (match_line line) result)

-- `while h.readline().strip(): pass` reads up to the first blank line, or to the end.
skip_lines : List Text → List Text
skip_lines [] = []
skip_lines (line ∷ lines) = if is_nil (strip line) then lines else skip_lines lines

-- `version[version.index(':')+1:]`; `none` is the `ValueError` of a line with no colon.
after_colon : Text → Option Text
after_colon [] = none
after_colon (c ∷ s) = if eqb c 58 then some s else after_colon s

parse_stat_lines : List Text → Option Stats
parse_stat_lines [] = some []
parse_stat_lines (version ∷ lines) = elim (after_colon version) [
  | none ↦ none
  | some s ↦ some (match_lines (skip_lines lines) ((codes "zk_version", str (strip s)) ∷ []))
]

-- The statistics, or `none` for the `ValueError` of a first line with no colon.
unfoldable pub parse_stat : Text → Option Stats
unfolding parse_stat_lines after_colon skip_lines match_lines match_line number leading_digits
    after_digits after_prefix to_newline
parse_stat reply = parse_stat_lines (readlines reply)
