-- ===== src/AppReport/Selection.antt =====
-- Which hosts the report asks.
use puppet_stg_environment.Common.{
  for_some, or_iff, ◌≡◌, refl, ap, ◌↔◌, inl, inr, Option, none, some, Bool, true, false, List, [],
  ◌∷◌, ◌++◌, Any, contains, contains-append, get_elem?, if◌then◌else◌, Bool-cases, Option-cases,
  arith,
}
use puppet_stg_environment.Common.Text.{Text, text_eq, codes, strip, split_on, words}
use puppet_stg_environment.Common.Text.Words.{words-strip}
use puppet_stg_environment.AppReport.{
  contents, hosts, listed, hostexception, unless_excepted, is_match, filter_match, hosts_of,
  all_hosts, gethosts,
}

-- An entry of the domain that has the host for its second word, and the host is no exception.
abbrev pub IsHostOf : Text → Text → Type 0
IsHostOf host entry =
    (filter_match entry ≡ true)
    × ((get_elem? (words entry) 1 ≡ some host) × (contains hostexception host ≡ false))

none_excepted :
    (exceptions : List Text) (name host : Text)
    → contains exceptions name ≡ true
    → some name ≡ some host
    → contains exceptions host ≡ false
    → ⊥
none_excepted exceptions name host e p n = cc

one_kept :
    (exceptions : List Text) (name host : Text)
    → contains exceptions name ≡ false
    → (contains (name ∷ []) host ≡ true)
      ↔ ((some name ≡ some host) × (contains exceptions host ≡ false))
one_kept exceptions name host e = ground arith

contains-unless_excepted :
    (exceptions : List Text) (o : Option Text) (host : Text) (more : List Text)
    → unless_excepted exceptions o o ≡ some more
    → (contains more host ≡ true) ↔ ((o ≡ some host) × (contains exceptions host ≡ false))
contains-unless_excepted exceptions none host more h = cc
contains-unless_excepted exceptions (some name) host more h =
    elim (Bool-cases (contains exceptions name)) [
      | inl e ↦
          for_some
            (λ m.
              (contains m host ≡ true)
              ↔ ((some name ≡ some host) × (contains exceptions host ≡ false)))
            [] more (rw e at h)
            (λ t. cc, λ (p, n). absurd (none_excepted exceptions name host e p n))
      | inr e ↦
          for_some
            (λ m.
              (contains m host ≡ true)
              ↔ ((some name ≡ some host) × (contains exceptions host ≡ false)))
            (name ∷ []) more (rw e at h) (one_kept exceptions name host e)
    ]

contains-guarded :
    (b : Bool) (o : Option (List Text)) (P : Type 0) (host : Text) (more : List Text)
    → ((m : List Text) → o ≡ some m → (contains m host ≡ true) ↔ P)
    → (if b then o else some []) ≡ some more
    → (contains more host ≡ true) ↔ ((b ≡ true) × P)
contains-guarded true o P host more k h = (λ t. (refl, (k more h).0 t), λ (_, p). (k more h).1 p)
contains-guarded false o P host more k h =
    for_some (λ m. (contains m host ≡ true) ↔ ((false ≡ true) × P)) [] more h
      (λ t. cc, λ (t, p). cc)

no_match : filter_match [] ≡ false
unfolding filter_match is_match codes
no_match = refl

hosts_of-IsHostOf :
    (host entry : Text) (more : List Text)
    → hosts_of entry ≡ some more
    → (contains more host ≡ true) ↔ IsHostOf host entry
unfolding hosts_of
hosts_of-IsHostOf host [] more h =
    for_some (λ m. (contains m host ≡ true) ↔ IsHostOf host []) [] more h
      (λ t. cc, λ (t, _). cc (t, no_match))
hosts_of-IsHostOf host (c ∷ s) more h =
    contains-guarded (filter_match (c ∷ s))
      (unless_excepted hostexception (get_elem? (words (strip (c ∷ s))) 1)
        (get_elem? (words (c ∷ s)) 1))
      ((get_elem? (words (c ∷ s)) 1 ≡ some host) × (contains hostexception host ≡ false)) host more
      (λ m k.
        contains-unless_excepted hostexception (get_elem? (words (c ∷ s)) 1) host m
          (rw (words-strip (c ∷ s)) at k))
      h

all_hosts-IsHostOf :
    (host : Text) (entries : List Text) (chosen : List Text)
    → all_hosts entries ≡ some chosen
    → (contains chosen host ≡ true) ↔ Any (IsHostOf host) entries
unfolding all_hosts
all_hosts-IsHostOf host [] chosen h =
    for_some (λ m. (contains m host ≡ true) ↔ ⊥) [] chosen h (λ t. cc, λ b. absurd b)
all_hosts-IsHostOf host (entry ∷ entries) chosen h = elim (Option-cases (hosts_of entry)) [
  | inl e ↦ cc (rw (all_hosts, e) at h)
  | inr (more, e) ↦ elim (Option-cases (all_hosts entries)) [
    | inl f ↦ cc (rw (all_hosts, e, f) at h)
    | inr (others, f) ↦
        for_some (λ m. (contains m host ≡ true) ↔ Any (IsHostOf host) (entry ∷ entries))
          (more ++ others) chosen (rw (all_hosts, e, f) at h)
          (rw (contains-append more others host) (
            or_iff (contains more host) (contains others host) (IsHostOf host entry)
              (Any (IsHostOf host) entries) (hosts_of-IsHostOf host entry more e)
              (all_hosts-IsHostOf host entries others f)))
  ]
]

hosts_injective : (xs ys : List Text) → hosts xs ≡ hosts ys → xs ≡ ys
hosts_injective xs ys h = cc

listed-hosts :
    (o : Option (List Text)) (chosen : List Text) → listed o ≡ hosts chosen → o ≡ some chosen
listed-hosts none chosen h = cc
listed-hosts (some xs) chosen h = ap some (hosts_injective xs chosen h)

-- When `gethosts` returns, a host is among the hosts exactly if some line of the file matches the
-- domain and has it for its second word, and it is none of the exceptions.
pub gethosts_iff :
    (text : Text) (chosen : List Text)
    → gethosts (contents text) ≡ hosts chosen
    → (host : Text) → (contains chosen host ≡ true) ↔ Any (IsHostOf host) (split_on 10 text)
unfolding gethosts
gethosts_iff [] chosen h host = cc
gethosts_iff (c ∷ s) chosen h host =
    all_hosts-IsHostOf host (split_on 10 (c ∷ s)) chosen (listed-hosts _ chosen h)
