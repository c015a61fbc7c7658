-- ===== src/AppReport.antt =====
-- `reporting/templates/bdapps/getReport.py.erb`, the report on the versions of the packages that the
-- hosts of the cluster have. `/etc/hosts`, the answers of ssh, the date and the target of the copy
-- are parameters.
pub mod Page
pub mod Selection
pub mod Columns
pub mod Cells
pub mod Complete
pub mod Inventory
pub mod Gathered
pub mod Table
pub mod Delivery
mod Tests
use puppet_stg_environment.Common.{
  ℕ, Option, none, some, Bool, true, false, not, ◌&&◌, ◌||◌, List, [], ◌∷◌, ◌++◌, ◌==◌, eqb, is_nil,
  contains, get_elem?, if◌then◌else◌,
}
use puppet_stg_environment.Common.Text.{Text, text_eq, codes, strip, split_on, words}
use puppet_stg_environment.Common.Dict.{Dict, insert}

-- `/etc/hosts`; an error has a number and a text.
pub data FileRead : Type 0 where
  contents : Text → FileRead
  unreadable : ℕ → Text → FileRead

pub data Notice : Type 0 where
  io_error : ℕ → Text → Notice
  unexpected_error : Notice

-- What comes of `gethosts`: the hosts, `exit()` after a notice, or an uncaught `IndexError`.
pub data Hosts : Type 0 where
  hosts : List Text → Hosts
  quits : Notice → Hosts
  index_error : Hosts

abbrev pub hostexception : List Text
hostexception = codes "dshdc1100.muc.domeus.com" ∷ codes "dshdc200.muc.domeus.com" ∷ []

abbrev pub domain : Text
domain = codes "muc.domeus.com"

-- A dot of the pattern stands for any character but a newline.
unfoldable pub is_match : Text → Text → Bool
is_match [] s = true
is_match (c ∷ p) [] = false
is_match (c ∷ p) (d ∷ s) = (if eqb c 46 then not (eqb d 10) else eqb c d) && is_match p s

-- `filter.match(entry)`
unfoldable pub filter_match : Text → Bool
filter_match [] = is_match domain []
filter_match (c ∷ s) = is_match domain (c ∷ s) || not (eqb c 10) && filter_match s

-- Adds the second of the words unless the first is one of the exceptions.
abbrev pub unless_excepted : List Text → Option Text → Option Text → Option (List Text)
unless_excepted exceptions none host = none
unless_excepted exceptions (some name) host =
    if contains exceptions name then some [] else elim host [ none ↦ none | some h ↦ some (h ∷ []) ]

-- What an entry adds to the hosts; `none` is the `IndexError` of an entry with no second word.
unfoldable pub hosts_of : Text → Option (List Text)
hosts_of entry =
    if is_nil entry
    then some []
    else if filter_match entry
    then unless_excepted hostexception (get_elem? (words (strip entry)) 1)
        (get_elem? (words entry) 1)
    else some []

unfoldable pub all_hosts : List Text → Option (List Text)
all_hosts [] = some []
all_hosts (entry ∷ entries) =
    let rest = all_hosts entries in
    elim (hosts_of entry) [
      | none ↦ none
      | some more ↦ elim rest [ none ↦ none | some others ↦ some (more ++ others) ]
    ]

abbrev listed : Option (List Text) → Hosts
listed none = index_error
listed (some chosen) = hosts chosen

-- The `exit()` for an empty file is caught by the bare `except`.
unfoldable pub gethosts : FileRead → Hosts
gethosts (unreadable number message) = quits (io_error number message)
gethosts (contents []) = quits unexpected_error
gethosts (contents (c ∷ s)) = listed (all_hosts (split_on 10 (c ∷ s)))

-- What the command leaves on its two streams.
pub record Streams : Type 0 where
  pub stderr : List Text
  pub stdout : List Text

abbrev pub Ssh : Type 0
Ssh = Text → Streams

-- The lines, or the text '-1'.
pub data Reply : Type 0 where
  lines : List Text → Reply
  minus_one : Reply

unfoldable pub sshcmd : Ssh → Text → Reply
sshcmd ssh host = if is_nil (ssh host).stderr then lines (ssh host).stdout else minus_one

-- The texts 'NotFound' and 'ConnectionError', or the lines, of which there is at least one.
pub data Entry : Type 0 where
  not_found connection_error : Entry
  found : Text → List Text → Entry

unfoldable pub entry_of : Reply → Entry
entry_of minus_one = connection_error
entry_of (lines []) = not_found
entry_of (lines (line ∷ others)) = found line others

-- The loop of `getData`, from what it has so far.
unfoldable pub gather : Ssh → List Text → Dict Text Entry → Dict Text Entry
gather ssh [] result = result
gather ssh (host ∷ others) result =
    gather ssh others (insert host (entry_of (sshcmd ssh host)) result)
