-- ===== src/Zookeeper/Mntr.antt =====
-- `_parse_line` and `_parse`: the answer to the four-letter word `mntr`.
pub mod RoundTrip
pub mod Invariant
use puppet_stg_environment.Common.{[], ◌∷◌, ◌++◌, List, is_nil, if◌then◌else◌}
use puppet_stg_environment.Common.Text.{Text, text_eq, codes, strip, split_on, readlines}
use puppet_stg_environment.Common.Dict.{insert}
use puppet_stg_environment.Zookeeper.Value.{Value, Stats, to_value}

-- What `_parse_line` returns, or the message of the `ValueError` that it raises.
pub data Line : Type 0 where
  pair : Text → Value → Line
  value_error : Text → Line

parse_fields : Text → List Text → Line
parse_fields line (key ∷ value ∷ []) =
    if is_nil (strip key)
    then value_error (codes "The key is mandatory and should not be empty")
    else pair (strip key) (to_value (strip value))
parse_fields line _ = value_error (codes "Found invalid line: " ++ line)

unfoldable pub parse_line : Text → Line
unfolding parse_fields
parse_line line = parse_fields line (split_on 9 line)

-- `result[key] = value`, and a broken line is ignored.
unfoldable pub store_line : Line → Stats → Stats
store_line (pair key value) result = insert key value result
store_line (value_error message) result = result

unfoldable pub parse_lines : List Text → Stats → Stats
parse_lines [] result = result
parse_lines (line ∷ lines) result = parse_lines lines (store_line (parse_line line) result)

unfoldable pub parse : Text → Stats
parse reply = parse_lines (readlines reply) []
