-- ===== src/Zookeeper/Mntr/RoundTrip.antt =====
-- A well-formed answer to `mntr` is read back whole.
use puppet_stg_environment.Common.{
  ◌≡◌, refl, sym, ap, ◌≢◌, none, [], ◌∷◌, ◌++◌, All, append_assoc, append-nil,
}
use puppet_stg_environment.Common.Text.{Text, text_eq, strip, readlines}
use puppet_stg_environment.Common.Text.Strip.{strip_of_no_space, strip-append_space}
use puppet_stg_environment.Common.Text.Split.{
  Lacks, Lacks-append, split_on_lacking, split_on-append, readlines-append,
}
use puppet_stg_environment.Common.Decimal.{show, int}
use puppet_stg_environment.Common.Decimal.RoundTrip.{int-show, show-HasNoSpace, show-Lacks}
use puppet_stg_environment.Common.Dict.{
  insert, NodupKeys, Fresh, insert-Fresh, insert_fresh, Fresh-nil,
}
use puppet_stg_environment.Zookeeper.Value.{Value, num, str, Stats, show_value, to_value}
use puppet_stg_environment.Zookeeper.Mntr.{
  pair, parse_fields, parse_line, store_line, parse_lines, parse,
}

-- A field of a line: no tab, no newline, and no whitespace round it.
pub record IsField (s : Text) : Type 0 where
  pub no_tab : Lacks 9 s
  pub no_newline : Lacks 10 s
  pub stripped : strip s ≡ s

-- A value that is written and read as itself: a text must be no number.
abbrev pub IsPlain : Value → Type 0
IsPlain (num z) = Unit
IsPlain (str s) = IsField s × (int s ≡ none)

abbrev pub IsEntry : Text × Value → Type 0
IsEntry (k, v) = IsField k × (k ≢ []) × IsPlain v

-- The server's answer: a line `key<TAB>value` for each entry.
abbrev pub print_entry : Text → Value → Text
print_entry k v = k ++ 9 ∷ show_value v

abbrev pub print_mntr : Stats → Text
print_mntr [] = []
print_mntr ((k, v) ∷ d) = print_entry k v ++ 10 ∷ print_mntr d

show_value-IsField : (v : Value) → IsPlain v → IsField (show_value v)
unfolding show_value
show_value-IsField (num z) h = record {
  no_tab = show-Lacks z 9 refl;
  no_newline = show-Lacks z 10 refl;
  stripped = strip_of_no_space (show z) (show-HasNoSpace z);
}
show_value-IsField (str s) h = h.0

to_value-show_value : (v : Value) → IsPlain v → to_value (show_value v) ≡ v
unfolding to_value show_value
to_value-show_value (num z) h = rw (to_value, int-show z)
to_value-show_value (str s) h = rw (to_value, h.1)

parse_fields_pair :
    (line k v : Text)
    → k ≢ []
    → strip k ≡ k
    → parse_fields line (k ∷ v ∷ []) ≡ pair k (to_value (strip v))
unfolding parse_fields
parse_fields_pair line [] v ne h = absurd (ne refl)
parse_fields_pair line (c ∷ k) v ne h = rw h

parse_line-print_entry :
    (k : Text) (v : Value) → IsEntry (k, v) → parse_line (print_entry k v ++ 10 ∷ []) ≡ pair k v
unfolding parse_line
parse_line-print_entry k v (field, ne, plain) =
    let shown = show_value-IsField v plain in
    rw
      (
        append_assoc,
        split_on-append 9 k (show_value v ++ 10 ∷ []) field.no_tab,
        split_on_lacking 9 (show_value v ++ 10 ∷ [])
            (Lacks-append 9 (show_value v) (10 ∷ []) shown.no_tab (refl, tt)),
        parse_fields_pair _ k (show_value v ++ 10 ∷ []) ne field.stripped,
        strip-append_space (show_value v) 10 refl,
        shown.stripped,
      )
      (ap (pair k) (to_value-show_value v plain))

print_entry-Lacks : (k : Text) (v : Value) → IsEntry (k, v) → Lacks 10 (print_entry k v)
print_entry-Lacks k v (field, ne, plain) =
    Lacks-append 10 k (9 ∷ show_value v) field.no_newline
      (refl, (show_value-IsField v plain).no_newline)

parse_lines-print_mntr :
    (d acc : Stats)
    → All IsEntry d
    → NodupKeys d
    → Fresh acc d
    → parse_lines (readlines (print_mntr d)) acc ≡ acc ++ d
unfolding parse_lines store_line readlines
parse_lines-print_mntr [] acc h u f = sym (append-nil acc)
parse_lines-print_mntr ((k, v) ∷ d) acc h u f =
    rw
      (
        readlines-append (print_entry k v) (print_mntr d) (print_entry-Lacks k v h.0),
        parse_lines,
        parse_line-print_entry k v h.0,
        store_line,
        parse_lines-print_mntr d (insert k v acc) h.1 u.1 (insert-Fresh k v acc d u.0 f.1),
        insert_fresh k v acc f.0,
      )
      (append_assoc acc ((k, v) ∷ []) d)

-- Reading what a server prints gives back its statistics, keys, values and order.
pub parse-print_mntr : (d : Stats) → All IsEntry d → NodupKeys d → parse (print_mntr d) ≡ d
unfolding parse
parse-print_mntr d h u = parse_lines-print_mntr d [] h u (Fresh-nil d)
