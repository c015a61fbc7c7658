-- ===== src/Zookeeper/Mntr/Invariant.antt =====
-- What `_parse` guarantees of its result, whatever the server has sent.
use puppet_stg_environment.Common.{
  ◌≡◌, ◌≢◌, none, inl, inr, List, [], ◌∷◌, arith, All, is_nil, Bool-cases, Option-cases,
}
use puppet_stg_environment.Common.Text.{Text, text_eq, strip, readlines}
use puppet_stg_environment.Common.Text.Strip.{strip_idem}
use puppet_stg_environment.Common.Decimal.{int}
use puppet_stg_environment.Common.Dict.{NodupKeys, insert-NodupKeys, insert-All}
use puppet_stg_environment.Zookeeper.Value.{Value, num, str, Stats, to_value}
use puppet_stg_environment.Zookeeper.Mntr.{
  Line, pair, value_error, parse_fields, parse_line, store_line, parse_lines, parse,
}

-- A text value is trimmed and is no number.
abbrev pub IsReadValue : Value → Type 0
IsReadValue (num z) = Unit
IsReadValue (str s) = (strip s ≡ s) × (int s ≡ none)

abbrev pub IsRead : Text × Value → Type 0
IsRead (k, v) = (k ≢ []) × (strip k ≡ k) × IsReadValue v

-- The dictionary's entries are trimmed and classified, and no key stands twice.
abbrev pub IsClean : Stats → Type 0
IsClean d = All IsRead d × NodupKeys d

abbrev Yields : Line → Type 0
Yields (pair k v) = IsRead (k, v)
Yields (value_error message) = Unit

to_value-IsReadValue : (s : Text) → IsReadValue (to_value (strip s))
unfolding to_value
to_value-IsReadValue s = elim (Option-cases (int (strip s))) [
  | inl e ↦ rw (to_value, e) (strip_idem s, e)
  | inr (z, e) ↦ rw (to_value, e) tt
]

parse_fields-Yields : (line : Text) (fields : List Text) → Yields (parse_fields line fields)
unfolding parse_fields
parse_fields-Yields line (k ∷ v ∷ []) = elim (Bool-cases (is_nil (strip k))) [
  | inl e ↦ rw e tt
  | inr e ↦ rw e (ground arith, strip_idem k, to_value-IsReadValue v)
]
parse_fields-Yields line _ = tt

store_line-IsClean : (l : Line) (d : Stats) → Yields l → IsClean d → IsClean (store_line l d)
unfolding store_line
store_line-IsClean (pair k v) d y (h, u) = (insert-All IsRead k v d y h, insert-NodupKeys k v d u)
store_line-IsClean (value_error message) d y h = h

parse_lines-IsClean : (ls : List Text) (d : Stats) → IsClean d → IsClean (parse_lines ls d)
unfolding parse_lines parse_line
parse_lines-IsClean [] d h = h
parse_lines-IsClean (l ∷ ls) d h =
    parse_lines-IsClean ls _ (store_line-IsClean _ d (parse_fields-Yields l _) h)

-- Every result of `_parse` is clean: its keys are non-empty, trimmed and pairwise distinct, and
-- its text values are trimmed and are no integers.
pub parse-IsClean : (reply : Text) → IsClean (parse reply)
unfolding parse
parse-IsClean reply = parse_lines-IsClean (readlines reply) [] (tt, tt)
