-- ===== src/Zookeeper/Value.antt =====
-- The values of the statistics: whole numbers, and texts that are none. Python 2 puts every number
-- before every text.
use puppet_stg_environment.Common.{Bool, true, false, none, some}
use puppet_stg_environment.Common.Int.{ℤ, ltb_ℤ, leb_ℤ}
use puppet_stg_environment.Common.Text.{Text}
use puppet_stg_environment.Common.Decimal.{show, int}
use puppet_stg_environment.Common.Dict.{Dict}

pub data Value : Type 0 where
  num : ℤ → Value
  str : Text → Value

-- The statistics of one server, and those of the cluster by server.
abbrev pub Stats : Type 0
Stats = Dict Text Value

abbrev pub ClusterStats : Type 0
ClusterStats = Dict Text Stats

-- `'%s' % value`
unfoldable pub show_value : Value → Text
show_value (num z) = show z
show_value (str s) = s

-- `value = int(value)`, and the text itself where that fails.
unfoldable pub to_value : Text → Value
to_value s = elim (int s) [ none ↦ str s | some z ↦ num z ]

-- A threshold `t` against a value: `t >= value`, `t <= value`, `value > t` and `value < t`.
abbrev pub at_least : ℤ → Value → Bool
at_least t (num z) = leb_ℤ z t
at_least t (str s) = false

abbrev pub at_most : ℤ → Value → Bool
at_most t (num z) = leb_ℤ t z
at_most t (str s) = true

abbrev pub above : Value → ℤ → Bool
above (num z) t = ltb_ℤ t z
above (str s) t = true

abbrev pub below : Value → ℤ → Bool
below (num z) t = ltb_ℤ z t
below (str s) t = false
