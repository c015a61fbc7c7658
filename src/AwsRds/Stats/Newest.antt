-- ===== src/AwsRds/Stats/Newest.antt =====
-- The point that counts is the newest.
use puppet_stg_environment.Common.{
  ℕ, ◌≡◌, refl, ap, ◌∙◌, ◌≤◌, Option, none, some, inl, inr, List, [], ◌∷◌, ◌++◌, All, All-map,
  Bool-cases, ltb, leb, get_elem?, if◌then◌else◌, arith,
}
use puppet_stg_environment.Common.Text.{Text}
use puppet_stg_environment.AwsRds.Floats.{Floats}
use puppet_stg_environment.AwsRds.Stats.{
  Point, place, sorted, reverse, arranged, rounded_average, get_rds_stats, Aws,
}

module _ {F : Type 0} where
  abbrev or_else : Point F → Option (Point F) → Point F
  or_else p none = p
  or_else p (some q) = q

  abbrev newer : Point F → Option (Point F) → Point F
  newer p none = p
  newer p (some q) = if ltb q.timestamp p.timestamp then p else q

  -- The point with the highest timestamp, the last of several.
  abbrev pub newest : List (Point F) → Option (Point F)
  newest [] = none
  newest (p ∷ ps) = some (newer p (newest ps))

  abbrev last : List (Point F) → Option (Point F)
  last [] = none
  last (p ∷ ps) = some (or_else p (last ps))

  abbrev FromTime : ℕ → List (Point F) → Type 0
  FromTime n ps = All (λ (q : Point F). n ≤ q.timestamp) ps

  abbrev IsSorted : List (Point F) → Type 0
  IsSorted [] = Unit
  IsSorted (p ∷ ps) = FromTime p.timestamp ps × IsSorted ps

  place-FromTime :
      (n : ℕ) (p : Point F) (qs : List (Point F))
      → n ≤ p.timestamp
      → FromTime n qs
      → FromTime n (place p qs)
  place-FromTime n p [] h k = (h, tt)
  place-FromTime n p (q ∷ qs) h k = elim (Bool-cases (leb p.timestamp q.timestamp)) [
    | inl e ↦ rw e (h, k)
    | inr e ↦ rw e (k.0, place-FromTime n p qs h k.1)
  ]

  place-IsSorted : (p : Point F) (qs : List (Point F)) → IsSorted qs → IsSorted (place p qs)
  place-IsSorted p [] s = (tt, tt)
  place-IsSorted p (q ∷ qs) s = elim (Bool-cases (leb p.timestamp q.timestamp)) [
    | inl e ↦ rw e ((ground arith, All-map _ _ qs (λ x h. ground arith) s.0), s)
    | inr e ↦ rw e (place-FromTime q.timestamp p qs (ground arith) s.0, place-IsSorted p qs s.1)
  ]

  sorted-IsSorted : (ps : List (Point F)) → IsSorted (sorted ps)
  sorted-IsSorted [] = tt
  sorted-IsSorted (p ∷ ps) = place-IsSorted p (sorted ps) (sorted-IsSorted ps)

  last-FromTime :
      (n : ℕ) (q : Point F) (qs : List (Point F))
      → n ≤ q.timestamp
      → FromTime n qs
      → n ≤ (or_else q (last qs)).timestamp
  last-FromTime n q [] h k = h
  last-FromTime n q (x ∷ qs) h k = last-FromTime n x qs k.0 k.1

  last-place :
      (p : Point F) (qs : List (Point F))
      → IsSorted qs
      → last (place p qs) ≡ some (newer p (last qs))
  last-place p [] s = refl
  last-place p (q ∷ qs) s = elim (Bool-cases (leb p.timestamp q.timestamp)) [
    | inl e ↦ rw e (ground (arith, last-FromTime q.timestamp q qs (omega arith) s.0))
    | inr e ↦ rw e (ground (arith, last-place p qs s.1))
  ]

  last-sorted : (ps : List (Point F)) → last (sorted ps) ≡ newest ps
  last-sorted [] = refl
  last-sorted (p ∷ ps) =
      last-place p (sorted ps) (sorted-IsSorted ps) ∙ ap (λ o. some (newer p o)) (last-sorted ps)

  first-snoc :
      (xs : List (Point F)) (p : Point F)
      → get_elem? (xs ++ p ∷ []) 0 ≡ some (or_else p (get_elem? xs 0))
  first-snoc [] p = refl
  first-snoc (x ∷ xs) p = refl

  first-reverse : (ps : List (Point F)) → get_elem? (reverse ps) 0 ≡ last ps
  first-reverse [] = refl
  first-reverse (p ∷ ps) =
      first-snoc (reverse ps) p ∙ ap (λ o. some (or_else p o)) (first-reverse ps)

  first-arranged : (ps : List (Point F)) → get_elem? (arranged ps) 0 ≡ newest ps
  first-arranged [] = refl
  first-arranged (p ∷ []) = refl
  first-arranged (p ∷ q ∷ ps) = first-reverse (sorted (p ∷ q ∷ ps)) ∙ last-sorted (p ∷ q ∷ ps)

  -- A statistic is the rounded average of its newest point, and is missing if there are no points.
  pub get_rds_stats-newest :
      (fl : Floats F) (aws : Aws F) (step seconds : ℕ) (metric ident : Text)
      (points : List (Point F))
      → aws.statistics step seconds metric ident ≡ some points
      → get_rds_stats fl aws step seconds metric ident
        ≡ some (elim (newest points) [ none ↦ none | some p ↦ some (fl.round2 p.average) ])
  unfolding get_rds_stats rounded_average
  get_rds_stats-newest fl aws step seconds metric ident points e =
      rw (get_rds_stats, e, rounded_average, first-arranged points) refl
