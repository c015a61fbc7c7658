-- ===== src/AppReport/Page.antt =====
-- `getReport`: from the data to the page, and the run of the script.
use puppet_stg_environment.Common.{
  ℕ, Option, none, some, Bool, true, false, List, [], ◌∷◌, ◌++◌, map, ◌==◌, eqb, ltb, is_nil,
  length, contains, get_elem?, if◌then◌else◌,
}
use puppet_stg_environment.Common.Text.{Text, text_eq, codes, strip, words}
use puppet_stg_environment.Common.Decimal.{show_ℕ}
use puppet_stg_environment.Common.Dict.{Dict, keys, lookup}
use puppet_stg_environment.AppReport.{
  FileRead, Notice, hosts, quits, index_error, gethosts, Ssh, Entry, not_found, connection_error,
  found, gather,
}

-- `soft.strip().split()[i]`; `none` is an `IndexError`.
unfoldable pub field : ℕ → Text → Option Text
field i soft = get_elem? (words (strip soft)) i

-- `packages` after the lines of a host.
unfoldable pub collect : List Text → List Text → Option (List Text)
collect [] packages = some packages
collect (soft ∷ others) packages = elim (field 1 soft) [
  | none ↦ none
  | some name ↦ collect others (if contains packages name then packages else packages ++ name ∷ [])
]

unfoldable pub collect_entry : Entry → List Text → Option (List Text)
collect_entry (found soft others) packages = collect (soft ∷ others) packages
collect_entry _ packages = some packages

unfoldable pub collect_all : Dict Text Entry → List Text → Option (List Text)
collect_all [] packages = some packages
collect_all ((host, entry) ∷ results) packages = elim (collect_entry entry packages) [
  | none ↦ none
  | some more ↦ collect_all results more
]

-- The order of texts: by the first character that differs.
unfoldable pub text_lt : Text → Text → Bool
text_lt s [] = false
text_lt [] (d ∷ t) = true
text_lt (c ∷ s) (d ∷ t) = if eqb c d then text_lt s t else ltb c d

unfoldable pub place : Text → List Text → List Text
place s [] = s ∷ []
place s (t ∷ ts) = if text_lt t s then t ∷ place s ts else s ∷ t ∷ ts

-- `sorted`
unfoldable pub sorted : List Text → List Text
sorted [] = []
sorted (s ∷ ss) = place s (sorted ss)

-- `ver` after the inner loop; the outer `none` is an `IndexError`.
unfoldable pub version : Text → List Text → Option (Option Text)
version wanted [] = some none
version wanted (soft ∷ others) =
    let rest = version wanted others in
    elim (field 1 soft) [
      | none ↦ none
      | some name ↦
          if wanted == name
          then elim (field 2 soft) [ none ↦ none | some ver ↦ some (some ver) ]
          else rest
    ]

-- What has been written to the page when a part of the loop is done, or an `IndexError` ends it.
pub data Written : Type 0 where
  done : List Text → Written
  broken : List Text → Written

unfoldable pub before : Text → Written → Written
before s (done texts) = done (s ∷ texts)
before s (broken texts) = broken (s ∷ texts)

unfoldable pub followed_by : Written → Written → Written
followed_by (broken texts) rest = broken texts
followed_by (done texts) (done more) = done (texts ++ more)
followed_by (done texts) (broken more) = broken (texts ++ more)

unfoldable pub cell : Option Text → Text
cell none = codes "<TD></TD>"
cell (some ver) =
    if is_nil ver then codes "<TD></TD>" else codes "<TD ALIGN=CENTER>" ++ ver ++ codes "</TD>"

abbrev pub row_end : Text
row_end = codes "</TR>\n"

unfoldable pub write_cells : List Text → List Text → Written
write_cells answer [] = done (row_end ∷ [])
write_cells answer (wanted ∷ packages) =
    let rest = write_cells answer packages in
    elim (version wanted answer) [ none ↦ broken [] | some ver ↦ before (cell ver) rest ]

abbrev pub connection_row : List Text → Text → Text
connection_row packages host =
    codes "<TR><TD BGCOLOR=\"#9f8f60\" ALIGN=CENTER>"
    ++ host
    ++ codes "</TD><TD COLSPAN="
    ++ show_ℕ (length packages)
    ++ codes " ALIGN=CENTER>Connection error</TD></TR>\n"

abbrev pub row_start : Text → Text
row_start host = codes "<TR><TD ALIGN=CENTER BGCOLOR=\"#9f8f60\">" ++ host ++ codes "</TD>"

unfoldable pub write_row : List Text → Text → Entry → Written
write_row packages host not_found = done []
write_row packages host connection_error = done (connection_row packages host ∷ [])
write_row packages host (found soft others) =
    before (row_start host) (write_cells (soft ∷ others) packages)

-- `data[host]` never fails, the hosts being those of the data.
unfoldable pub write_rows : Dict Text Entry → List Text → List Text → Written
write_rows results packages [] = done []
write_rows results packages (host ∷ others) =
    let rest = write_rows results packages others in
    elim (lookup host results) [
      | none ↦ broken []
      | some entry ↦ followed_by (write_row packages host entry) rest
    ]

abbrev pub page_start : Text → List Text
page_start date =
    codes
      "<!DOCTYPE HTML PUBLIC \"-//W3C//DTD HTML 4.01//EN\" \"http://www.w3.org/TR/html4/strict.dtd\">\n"
    ∷ codes "<HTML>\n"
    ∷ codes "<HEAD>\n"
    ∷ codes "<STYLE>\n"
    ∷ codes "table thead {position: sticky; top: 0; background: #fff;}\n"
    ∷ codes "</STYLE>"
    ∷ codes "<TITLE>BIGDATA packages report</TITLE>\n"
    ∷ codes "<BODY>\n"
    ∷ codes "<TABLE BORDER=1>\n"
    ∷ codes "<div><thead>\n"
    ∷ codes "<TR>\n"
    ∷ (codes "<TH>" ++ date ++ codes "</TH>")
    ∷ []

abbrev heading : Text → Text
heading wanted = codes "<TH BGCOLOR=\"#797986\">" ++ wanted ++ codes "</TH>"

abbrev pub page_head : Text → List Text → List Text
page_head date packages =
    page_start date ++ map heading packages ++ codes "</TR>\n" ∷ codes "</thead></div>\n" ∷ []

abbrev pub page_end : List Text
page_end = codes "</TABLE>\n" ∷ codes "</BODY>\n" ∷ codes "</HTML>\n" ∷ []

-- What comes of `getReport`: the `IndexError` of the first loop leaves no page.
pub data Outcome : Type 0 where
  no_page : Outcome
  page : Written → Outcome

unfoldable pub write_page : Text → Dict Text Entry → Outcome
write_page date results = elim (collect_all results []) [
  | none ↦ no_page
  | some packages ↦ page (
      followed_by
        (followed_by (done (page_head date (sorted packages)))
          (write_rows results (sorted packages) (sorted (keys results))))
        (done page_end))
]

-- `exit` after the message stands without parentheses, so that the loops follow.
pub data Output : Type 0 where
  notice : Notice → Output
  no_data_to_process : Output

abbrev pub complaints : Dict Text Entry → List Output
complaints results = if is_nil results then no_data_to_process ∷ [] else []

-- How the script ends: by `exit()`, by a traceback, with what has been written if the page was
-- opened, or after the copy of the page.
pub data Ending : Type 0 where
  exits : List Output → Ending
  traceback : List Output → Option (List Text) → Ending
  copied : List Output → List Text → List Text → Ending

abbrev pub copy : Text → List Text
copy targetlocation = codes "scp" ∷ codes "report.html" ∷ targetlocation ∷ []

unfoldable pub finish : Text → List Output → Outcome → Ending
finish targetlocation output no_page = traceback output none
finish targetlocation output (page (broken texts)) = traceback output (some texts)
finish targetlocation output (page (done texts)) = copied output texts (copy targetlocation)

abbrev pub report : Text → Text → Dict Text Entry → Ending
report date targetlocation results =
    finish targetlocation (complaints results) (write_page date results)

unfoldable pub run : FileRead → Ssh → Text → Text → Ending
run file ssh date targetlocation = elim (gethosts file) [
  | index_error ↦ traceback [] none
  | quits why ↦ exits (notice why ∷ [])
  | hosts chosen ↦ report date targetlocation (gather ssh chosen [])
]
