-- ===== src/AppReport/Columns.antt =====
-- The columns of the table.
use puppet_stg_environment.Common.{
  for_some, or_iff, add_iff, ℕ, eqb_iff, ◌≡◌, refl, ◌∙◌, ap, ◌↔◌, ◌≢◌, ◌⊎◌, inl, inr, some, true,
  false, ◌||◌, List, [], ◌∷◌, ◌++◌, ◌==◌, eqb, Any, contains, contains-append, if◌then◌else◌,
  Bool-cases, Option-cases, arith,
}
use puppet_stg_environment.Common.Text.{Text, text_eq}
use puppet_stg_environment.Common.Dict.{Dict}
use puppet_stg_environment.AppReport.{Entry, not_found, connection_error, found}
use puppet_stg_environment.AppReport.Page.{
  field, collect, collect_entry, collect_all, text_lt, place, sorted,
}

-- The first name of a list, if there is one, comes after a name.
abbrev Above : Text → List Text → Type 0
Above s [] = Unit
Above s (t ∷ ts) = text_lt s t ≡ true

-- Each name comes after the one before it, so that no name stands twice.
abbrev pub IsAscending : List Text → Type 0
IsAscending [] = Unit
IsAscending (s ∷ ss) = Above s ss × IsAscending ss

abbrev pub IsDistinct : List Text → Type 0
IsDistinct [] = Unit
IsDistinct (s ∷ ss) = (contains ss s ≡ false) × IsDistinct ss

-- A line of a host names a package.
abbrev pub IsListed : Text → Text × Entry → Type 0
IsListed name (host, found soft others) = Any (λ line. field 1 line ≡ some name) (soft ∷ others)
IsListed name (host, _) = ⊥

text_lt_tail : (c e : ℕ) (s t : Text) → (c ∷ s) ≢ (e ∷ t) → eqb c e ≡ true → s ≢ t
text_lt_tail c e s t d h p = d (let q : c ≡ e = (eqb_iff c e).0 h in cc)

text_lt_total : (s t : Text) → s ≢ t → text_lt t s ≡ false → text_lt s t ≡ true
unfolding text_lt
text_lt_total [] [] d h = absurd (d refl)
text_lt_total [] (c ∷ t) d h = refl
text_lt_total (c ∷ s) [] d h = cc
text_lt_total (c ∷ s) (e ∷ t) d h = elim (Bool-cases (eqb c e)) [
  | inl f ↦ rw f (text_lt_total s t (text_lt_tail c e s t d f) (ground arith))
  | inr f ↦ rw f (ground arith)
]

contains-place : (s x : Text) (ts : List Text) → contains (place s ts) x ≡ (x == s || contains ts x)
unfolding place
contains-place s x [] = refl
contains-place s x (t ∷ ts) = ground (arith, contains-place s x ts)

pub contains-sorted : (ss : List Text) (x : Text) → contains (sorted ss) x ≡ contains ss x
unfolding sorted
contains-sorted [] x = refl
contains-sorted (s ∷ ss) x =
    contains-place s x (sorted ss) ∙ ap (λ b. x == s || b) (contains-sorted ss x)

place-Above : (s t : Text) (ts : List Text) → text_lt t s ≡ true → Above t ts → Above t (place s ts)
unfolding place
place-Above s t [] h a = h
place-Above s t (u ∷ ts) h a = ground arith

not_in : (s t : Text) (ts : List Text) → contains (t ∷ ts) s ≡ false → s ≢ t
not_in s t ts n p = ground arith

place-IsAscending :
    (s : Text) (ts : List Text) → contains ts s ≡ false → IsAscending ts → IsAscending (place s ts)
unfolding place
place-IsAscending s [] n a = (tt, tt)
place-IsAscending s (t ∷ ts) n a = elim (Bool-cases (text_lt t s)) [
  | inl e ↦ rw e (place-Above s t ts e a.0, place-IsAscending s ts (ground arith) a.1)
  | inr e ↦ rw e (text_lt_total s t (not_in s t ts n) e, a)
]

pub sorted-IsAscending : (ss : List Text) → IsDistinct ss → IsAscending (sorted ss)
unfolding sorted
sorted-IsAscending [] d = tt
sorted-IsAscending (s ∷ ss) d =
    place-IsAscending s (sorted ss) (contains-sorted ss s ∙ d.0) (sorted-IsAscending ss d.1)

append-IsDistinct :
    (ss : List Text) (s : Text) → contains ss s ≡ false → IsDistinct ss → IsDistinct (ss ++ s ∷ [])
append-IsDistinct [] s n d = (refl, tt)
append-IsDistinct (t ∷ ss) s n d = (
  rw (contains-append ss (s ∷ []) t) (ground (arith, d.0)),
  append-IsDistinct ss s (ground arith) d.1,
)

-- What the packages are after some lines.
module _ (name : Text) where
  one_name : (n : Text) → ((name == n || false) ≡ true) ↔ (some n ≡ some name)
  one_name n = ground arith

  unchanged :
      (packages more : List Text)
      → some packages ≡ some more
      → (contains more name ≡ true) ↔ ((contains packages name ≡ true) ⊎ ⊥)
  unchanged packages more h =
      for_some (λ m. (contains m name ≡ true) ↔ ((contains packages name ≡ true) ⊎ ⊥)) packages more
        h (λ t. inl t, λ x. elim x [ inl t ↦ t | inr b ↦ absurd b ])

  contains-added :
      (packages : List Text) (n : Text)
      → (contains (if contains packages n then packages else packages ++ n ∷ []) name ≡ true)
        ↔ ((contains packages name ≡ true) ⊎ (some n ≡ some name))
  contains-added packages n = elim (Bool-cases (contains packages n)) [
    | inl e ↦ rw e (λ t. inl t, λ x. elim x [ inl t ↦ t | inr p ↦ cc ])
    | inr e ↦
        rw (e, contains-append packages (n ∷ []) name)
          (or_iff (contains packages name) (name == n || false) (contains packages name ≡ true)
            (some n ≡ some name) (λ t. t, λ t. t) (one_name n))
  ]

  collect-Any :
      (answer packages more : List Text)
      → collect answer packages ≡ some more
      → (contains more name ≡ true)
        ↔ ((contains packages name ≡ true) ⊎ Any (λ line. field 1 line ≡ some name) answer)
  unfolding collect
  collect-Any [] packages more h = unchanged packages more h
  collect-Any (soft ∷ others) packages more h = elim (Option-cases (field 1 soft)) [
    | inl e ↦ cc (rw (collect, e) at h)
    | inr (n, e) ↦
        add_iff
          (collect-Any others (if contains packages n then packages else packages ++ n ∷ []) more
            (rw (collect, e) at h))
          (rw e (contains-added packages n))
  ]

  collect_entry-IsListed :
      (host : Text) (entry : Entry) (packages more : List Text)
      → collect_entry entry packages ≡ some more
      → (contains more name ≡ true)
        ↔ ((contains packages name ≡ true) ⊎ IsListed name (host, entry))
  unfolding collect_entry
  collect_entry-IsListed host (found soft others) packages more h =
      collect-Any (soft ∷ others) packages more h
  collect_entry-IsListed host not_found packages more h = unchanged packages more h
  collect_entry-IsListed host connection_error packages more h = unchanged packages more h

  collect_all-IsListed :
      (results : Dict Text Entry) (packages more : List Text)
      → collect_all results packages ≡ some more
      → (contains more name ≡ true)
        ↔ ((contains packages name ≡ true) ⊎ Any (IsListed name) results)
  unfolding collect_all
  collect_all-IsListed [] packages more h = unchanged packages more h
  collect_all-IsListed ((host, entry) ∷ results) packages more h =
      elim (Option-cases (collect_entry entry packages)) [
        | inl e ↦ cc (rw (collect_all, e) at h)
        | inr (ps, e) ↦
            add_iff (collect_all-IsListed results ps more (rw (collect_all, e) at h))
              (collect_entry-IsListed host entry packages ps e)
      ]

added-IsDistinct :
    (packages : List Text) (n : Text)
    → IsDistinct packages
    → IsDistinct (if contains packages n then packages else packages ++ n ∷ [])
added-IsDistinct packages n d = elim (Bool-cases (contains packages n)) [
  | inl e ↦ rw e d
  | inr e ↦ rw e (append-IsDistinct packages n e d)
]

collect-IsDistinct :
    (answer packages more : List Text)
    → collect answer packages ≡ some more
    → IsDistinct packages
    → IsDistinct more
unfolding collect
collect-IsDistinct [] packages more h d = for_some IsDistinct packages more h d
collect-IsDistinct (soft ∷ others) packages more h d = elim (Option-cases (field 1 soft)) [
  | inl e ↦ cc (rw (collect, e) at h)
  | inr (n, e) ↦
      collect-IsDistinct others _ more (rw (collect, e) at h) (added-IsDistinct packages n d)
]

collect_entry-IsDistinct :
    (entry : Entry) (packages more : List Text)
    → collect_entry entry packages ≡ some more
    → IsDistinct packages
    → IsDistinct more
unfolding collect_entry
collect_entry-IsDistinct (found soft others) packages more h d =
    collect-IsDistinct (soft ∷ others) packages more h d
collect_entry-IsDistinct not_found packages more h d = for_some IsDistinct packages more h d
collect_entry-IsDistinct connection_error packages more h d = for_some IsDistinct packages more h d

collect_all-IsDistinct :
    (results : Dict Text Entry) (packages more : List Text)
    → collect_all results packages ≡ some more
    → IsDistinct packages
    → IsDistinct more
unfolding collect_all
collect_all-IsDistinct [] packages more h d = for_some IsDistinct packages more h d
collect_all-IsDistinct ((host, entry) ∷ results) packages more h d =
    elim (Option-cases (collect_entry entry packages)) [
      | inl e ↦ cc (rw (collect_all, e) at h)
      | inr (ps, e) ↦
          collect_all-IsDistinct results ps more (rw (collect_all, e) at h)
            (collect_entry-IsDistinct entry packages ps e d)
    ]

nothing_or : {A P : Type 0} → A ↔ ((false ≡ true) ⊎ P) → A ↔ P
nothing_or i = (λ a. elim (i.0 a) [ inl f ↦ cc | inr p ↦ p ], λ p. i.1 (inr p))

-- When the packages have been collected, the columns are in ascending order without repetition, and
-- they are exactly the names that stand in the lines of the hosts.
pub sorted-collect_all :
    (results : Dict Text Entry) (packages : List Text)
    → collect_all results [] ≡ some packages
    → IsAscending (sorted packages)
      × ((name : Text) → (contains (sorted packages) name ≡ true) ↔ Any (IsListed name) results)
sorted-collect_all results packages h = (
  sorted-IsAscending packages (collect_all-IsDistinct results [] packages h tt),
  λ name.
      rw (contains-sorted packages name)
        (nothing_or (collect_all-IsListed name results [] packages h)),
)
