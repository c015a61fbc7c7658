-- ===== src/AppReport/Complete.antt =====
-- Lines with a name and a version keep the loops from an `IndexError`.
use puppet_stg_environment.Common.{
  ◌≡◌, refl, ◌∙◌, Option, some, List, [], ◌∷◌, ◌==◌, All, All-map, Bool-cases, inl, inr, arith,
}
use puppet_stg_environment.Common.Text.{Text, text_eq}
use puppet_stg_environment.Common.Dict.{Dict, keys, lookup, lookup-cons}
use puppet_stg_environment.AppReport.{Entry, not_found, connection_error, found}
use puppet_stg_environment.AppReport.Page.{
  field, collect, collect_entry, collect_all, text_lt, place, sorted,
}

-- A line has a name and a version.
abbrev pub IsComplete : Text → Type 0
IsComplete line =
    (name : Text) × (ver : Text) × (field 1 line ≡ some name) × (field 2 line ≡ some ver)

abbrev pub HasLines : Entry → Type 0
HasLines (found soft others) = All IsComplete (soft ∷ others)
HasLines _ = Unit

abbrev pub HasAll : Text × Entry → Type 0
HasAll (host, entry) = HasLines entry

abbrev pub Collected : Option (List Text) → Type 0
Collected o = (packages : List Text) × (o ≡ some packages)

collect-Collected :
    (answer packages : List Text) → All IsComplete answer → Collected (collect answer packages)
unfolding collect
collect-Collected [] packages h = (packages, refl)
collect-Collected (soft ∷ others) packages ((name, _, e, _), h) =
    rw (collect, e) (collect-Collected others _ h)

collect_entry-Collected :
    (entry : Entry) (packages : List Text)
    → HasLines entry
    → Collected (collect_entry entry packages)
unfolding collect_entry
collect_entry-Collected (found soft others) packages h =
    collect-Collected (soft ∷ others) packages h
collect_entry-Collected not_found packages h = (packages, refl)
collect_entry-Collected connection_error packages h = (packages, refl)

pub collect_all-Collected :
    (results : Dict Text Entry) (packages : List Text)
    → All HasAll results
    → Collected (collect_all results packages)
unfolding collect_all
collect_all-Collected [] packages h = (packages, refl)
collect_all-Collected ((host, entry) ∷ results) packages (e, h) =
    let (more, c) = collect_entry-Collected entry packages e in
    rw (collect_all, c) (collect_all-Collected results more h)

abbrev pub IsKnown : Dict Text Entry → Text → Type 0
IsKnown results host = (entry : Entry) × (lookup host results ≡ some entry) × HasLines entry

IsKnown-later :
    (results : Dict Text Entry) (host key : Text) (entry : Entry)
    → HasLines entry
    → IsKnown results host
    → IsKnown ((key, entry) ∷ results) host
IsKnown-later results host key entry h (other, e, k) = elim (Bool-cases (host == key)) [
  | inl p ↦ (entry, lookup-cons host key entry results ∙ rw p refl, h)
  | inr p ↦ (other, lookup-cons host key entry results ∙ rw p e, k)
]

pub keys-IsKnown :
    (results : Dict Text Entry) → All HasAll results → All (IsKnown results) (keys results)
unfolding keys
keys-IsKnown [] h = tt
keys-IsKnown ((host, entry) ∷ results) (e, h) = (
  (entry, lookup-cons host host entry results ∙ ground arith, e),
  All-map _ _ (keys results) (λ key k. IsKnown-later results key host entry e k)
      (keys-IsKnown results h),
)

place-All : (P : Text → Type 0) (s : Text) (ss : List Text) → P s → All P ss → All P (place s ss)
unfolding place
place-All P s [] p h = (p, tt)
place-All P s (t ∷ ts) p (q, h) = elim (Bool-cases (text_lt t s)) [
  | inl e ↦ rw e (q, place-All P s ts p h)
  | inr e ↦ rw e (p, (q, h))
]

pub sorted-All : (P : Text → Type 0) (ss : List Text) → All P ss → All P (sorted ss)
unfolding sorted
sorted-All P [] h = tt
sorted-All P (s ∷ ss) (p, h) = place-All P s (sorted ss) p (sorted-All P ss h)
