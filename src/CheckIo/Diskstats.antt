-- ===== src/CheckIo/Diskstats.antt =====
-- `fetchPerformanceData` and the search for devices: the rows of `/proc/diskstats`.
pub mod Fields
pub mod Discovery
use puppet_stg_environment.Common.{
  ℕ, Option, none, some, Bool, true, false, not, List, [], ◌∷◌, ◌++◌, map, get_elem?, if◌then◌else◌,
  ◌||◌, eqb,
}
use puppet_stg_environment.Common.Int.{ℤ, pos}
use puppet_stg_environment.Common.Text.{Text, readlines, words}
use puppet_stg_environment.Common.Decimal.{int, is_digit}
use puppet_stg_environment.CheckIo.Run.{Result, ok, raises, type_error, index_error, ◌>>=◌}

-- A field that is a whole number becomes one.
pub data Field : Type 0 where
  num : ℤ → Field
  word : Text → Field

abbrev pub Row : Type 0
Row = List Field

-- `toInt`
unfoldable pub to_int : Text → Field
to_int s = elim (int s) [ none ↦ word s | some z ↦ num z ]

-- `[[toInt(y) for y in x.split()] for x in list(fh)]`
unfoldable pub parse_rows : Text → List Row
unfolding to_int
parse_rows text = map (λ line. map to_int (words line)) (readlines text)

-- `row[i]`
unfoldable pub field_at : Row → ℕ → Result Field
field_at row i = elim (get_elem? row i) [ none ↦ raises index_error | some f ↦ ok f ]

abbrev member : ℕ → List ℕ → Bool
member n [] = false
member n (m ∷ ms) = eqb n m || member n ms

-- Majors whose devices count unless their names end in a digit: Compaq arrays, IDE, SCSI, virtual.
abbrev pub disk_majors : List ℕ
disk_majors =
    (72 ∷ 73 ∷ 74 ∷ 75 ∷ 76 ∷ 77 ∷ 78 ∷ 79 ∷ 104 ∷ 105 ∷ 106 ∷ 107 ∷ 108 ∷ 109 ∷ 110 ∷ 111 ∷ [])
    ++ ((3 ∷ 22 ∷ 33 ∷ 34 ∷ 56 ∷ 57 ∷ 88 ∷ 89 ∷ 90 ∷ 91 ∷ [])
        ++ ((8 ∷ 21 ∷ 65 ∷ 66 ∷ 67 ∷ 68 ∷ 69 ∷ 70 ∷ 71 ∷ 128 ∷ 129 ∷ 130 ∷ 131 ∷ 132 ∷ 133 ∷ 134
              ∷ 135 ∷ [])
            ++ (202 ∷ 254 ∷ [])))

-- Majors whose devices always count: the device mapper, DRBD and ATA raids.
abbrev pub whole_majors : List ℕ
whole_majors = 253 ∷ 147 ∷ 114 ∷ []

-- `x[0] in majors`
unfoldable pub is_major : Field → List ℕ → Bool
is_major (num (pos n)) majors = member n majors
is_major _ majors = false

ends_in_digit : Text → Result Bool
ends_in_digit [] = raises index_error
ends_in_digit (c ∷ []) = ok (is_digit c)
ends_in_digit (c ∷ d ∷ s) = ends_in_digit (d ∷ s)

-- `x[2][-1].isdigit()`
unfoldable pub is_partition : Field → Result Bool
unfolding ends_in_digit
is_partition (num z) = raises type_error
is_partition (word name) = ends_in_digit name

-- The condition of the comprehension, with its short circuits.
pub is_whole_disk : Row → Result Bool
is_whole_disk row = do name ← field_at row 2; partition ← is_partition name; ok (not partition)

unfoldable pub is_selected : Row → Result Bool
unfolding is_whole_disk
is_selected row = do
  major ← field_at row 0
  whole ← if is_major major disk_majors then is_whole_disk row else ok false
  ok (whole || is_major major whole_majors)

pub keep_selected : Row → Bool → Result (List Field) → Result (List Field)
keep_selected row false rest = rest
keep_selected row true rest = do name ← field_at row 2; names ← rest; ok (name ∷ names)

-- The names of the block devices to watch where none are given.
unfoldable pub discover : List Row → Result (List Field)
unfolding keep_selected
discover [] = ok []
discover (row ∷ rows) =
    let rest = discover rows in is_selected row >>= λ b. keep_selected row b rest
