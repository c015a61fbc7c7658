-- ===== src/AppReport/Delivery.antt =====
-- Runs that have no rows to write, or that break off.
use puppet_stg_environment.Common.{
  ◌≡◌, refl, none, true, false, inl, inr, List, [], ◌∷◌, ◌++◌, Any, is_nil, contains, Option-cases,
}
use puppet_stg_environment.Common.Text.{Text, text_eq}
use puppet_stg_environment.Common.Dict.{Dict, keys}
use puppet_stg_environment.AppReport.{
  FileRead, hosts, gethosts, Ssh, lines, sshcmd, Entry, found, entry_of, gather,
}
use puppet_stg_environment.AppReport.Page.{
  field, collect, collect_entry, collect_all, sorted, followed_by, write_rows, page_head, page_end,
  no_page, write_page, no_data_to_process, copied, traceback, copy, finish, run,
}
use puppet_stg_environment.AppReport.Gathered.{contains-lookup, lookup-Any, is_nil-gather}

-- Without a host the script says that there are no data, and yet writes and copies a page with no
-- rows.
pub run_nobody :
    (etc_hosts : FileRead) (ssh : Ssh) (date targetlocation : Text)
    → gethosts etc_hosts ≡ hosts []
    → run etc_hosts ssh date targetlocation
      ≡ copied (no_data_to_process ∷ []) (page_head date [] ++ page_end) (copy targetlocation)
unfolding run finish gather write_page collect_all followed_by sorted keys write_rows
run_nobody etc_hosts ssh date targetlocation e = rw (run, e) refl

-- Some line has no second word.
abbrev pub IsBroken : List Text → Type 0
IsBroken answer = Any (λ line. field 1 line ≡ none) answer

abbrev HasBroken : Text × Entry → Type 0
HasBroken (host, found soft others) = IsBroken (soft ∷ others)
HasBroken (host, _) = ⊥

collect-none : (answer packages : List Text) → IsBroken answer → collect answer packages ≡ none
unfolding collect
collect-none [] packages b = absurd b
collect-none (soft ∷ others) packages (inl e) = rw (collect, e) refl
collect-none (soft ∷ others) packages (inr b) = elim (Option-cases (field 1 soft)) [
  | inl e ↦ rw (collect, e) refl
  | inr (name, e) ↦ rw (collect, e) (collect-none others _ b)
]

collect_entry-none :
    (host : Text) (entry : Entry) (packages : List Text)
    → HasBroken (host, entry)
    → collect_entry entry packages ≡ none
unfolding collect_entry
collect_entry-none host (found soft others) packages b = collect-none (soft ∷ others) packages b
collect_entry-none host _ packages b = absurd b

collect_all-none :
    (results : Dict Text Entry) (packages : List Text)
    → Any HasBroken results
    → collect_all results packages ≡ none
unfolding collect_all
collect_all-none [] packages b = absurd b
collect_all-none ((host, entry) ∷ results) packages (inl b) =
    rw (collect_all, collect_entry-none host entry packages b) refl
collect_all-none ((host, entry) ∷ results) packages (inr b) =
    elim (Option-cases (collect_entry entry packages)) [
      | inl e ↦ rw (collect_all, e) refl
      | inr (more, e) ↦ rw (collect_all, e) (collect_all-none results more b)
    ]

write_page-no_page :
    (date : Text) (results : Dict Text Entry)
    → Any HasBroken results
    → write_page date results ≡ no_page
unfolding write_page
write_page-no_page date results b = rw (write_page, collect_all-none results [] b) refl

entry_of-HasBroken :
    (ssh : Ssh) (host : Text)
    → is_nil (ssh host).stderr ≡ true
    → IsBroken (ssh host).stdout
    → HasBroken (host, entry_of (sshcmd ssh host))
unfolding sshcmd entry_of
entry_of-HasBroken ssh host e b = rw (sshcmd, e) (answered (ssh host).stdout b)
  where
    answered : (answer : List Text) → IsBroken answer → HasBroken (host, entry_of (lines answer))
    answered [] c = absurd c
    answered (line ∷ others) c = c

contains-is_nil : (xs : List Text) (x : Text) → contains xs x ≡ true → is_nil xs ≡ false
contains-is_nil [] x h = cc
contains-is_nil (y ∷ xs) x h = refl

-- One line without a second word, on any of the hosts, ends the script with an uncaught `IndexError`
-- before the page is opened, and the other hosts are not reported either.
pub run-IsBroken :
    (etc_hosts : FileRead) (ssh : Ssh) (date targetlocation : Text) (chosen : List Text)
    (host : Text)
    → gethosts etc_hosts ≡ hosts chosen
    → contains chosen host ≡ true
    → is_nil (ssh host).stderr ≡ true
    → IsBroken (ssh host).stdout
    → run etc_hosts ssh date targetlocation ≡ traceback [] none
unfolding run finish
run-IsBroken etc_hosts ssh date targetlocation chosen host e c n b =
    let broken_entry =
      lookup-Any HasBroken host (entry_of (sshcmd ssh host)) (gather ssh chosen [])
        (contains-lookup ssh host chosen c) (entry_of-HasBroken ssh host n b) in
    rw
      (
        run,
        e,
        write_page-no_page date (gather ssh chosen []) broken_entry,
        is_nil-gather ssh chosen,
        contains-is_nil chosen host c,
      )
      refl
