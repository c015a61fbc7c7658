-- ===== src/AwsRds/Load/Bounds.antt =====
-- The variables of the loop of the `load` metric, whatever Amazon answers.
use puppet_stg_environment.Common.{
  ℕ, suc, ◌*◌, refl, inl, inr, Option, none, some, List, [], ◌∷◌, Bool-cases, Option-cases,
  get_elem?, arith,
}
use puppet_stg_environment.Common.Text.{Text}
use puppet_stg_environment.AwsRds.Floats.{Floats}
use puppet_stg_environment.AwsRds.Stats.{Aws, get_rds_stats}
use puppet_stg_environment.AwsRds.Outcome.{cpu_utilization}
use puppet_stg_environment.AwsRds.Load.{
  Progress, Round, goes_on, missing, inconsistent, crashed, minutes_back, compare, take_load,
  judge_load, round, rounds,
}
use puppet_stg_environment.AwsRds.Load.Worst.{IsSound}

-- A round that goes on leaves its variables sound.
abbrev pub KeepsSound : Round → Type 0
KeepsSound (goes_on q) = IsSound q
KeepsSound _ = Unit

abbrev then_round : Round → (Progress → Round) → Round
then_round r f = elim r [
  | goes_on q ↦ f q
  | missing ↦ missing
  | inconsistent ↦ inconsistent
  | crashed ↦ crashed
]

then_round-KeepsSound :
    (r : Round) (f : Progress → Round)
    → KeepsSound r
    → ((q : Progress) → IsSound q → KeepsSound (f q))
    → KeepsSound (then_round r f)
then_round-KeepsSound (goes_on q) f h k = k q h
then_round-KeepsSound missing f h k = tt
then_round-KeepsSound inconsistent f h k = tt
then_round-KeepsSound crashed f h k = tt

module _ {F : Type 0} (fl : Floats F) where
  compare-KeepsSound :
      (load warn crit : F) (p : Progress) → IsSound p → KeepsSound (compare fl load warn crit p)
  unfolding compare
  compare-KeepsSound load warn crit p (inr (f, c)) = rw (compare, f) (inr (refl, c))
  compare-KeepsSound load warn crit p (inl (f, c)) = elim (Bool-cases (fl.lt crit warn)) [
    | inl h ↦ rw (compare, f, h) tt
    | inr h ↦ elim (Bool-cases (fl.le crit load)) [
      | inl e ↦ rw (compare, f, h, e) (inr (refl, refl))
      | inr e ↦ elim (Bool-cases (fl.le warn load)) [
        | inl g ↦ rw (compare, f, h, e, g) (inl (refl, omega arith))
        | inr g ↦ rw (compare, f, h, e, g) (inl (refl, c))
      ]
    ]
  ]

  module _ (aws : Aws F) (ident : Text) (warns crits : List F) where
    take_load-KeepsSound :
        (i j : ℕ) (load : F) (p : Progress)
        → IsSound p
        → KeepsSound (take_load fl aws ident warns crits i j load p)
    unfolding take_load
    take_load-KeepsSound i j load p s = elim (Option-cases (get_elem? warns j)) [
      | inl w ↦ rw (take_load, w) tt
      | inr (warn, w) ↦ elim (Option-cases (get_elem? crits j)) [
        | inl c ↦ rw (take_load, w, c) tt
        | inr (crit, c) ↦ rw (take_load, w, c) (compare-KeepsSound load warn crit _ s)
      ]
    ]

    judge_load-KeepsSound :
        (i j : ℕ) (o : Option F) (p : Progress)
        → IsSound p
        → KeepsSound (judge_load fl aws ident warns crits i j o p)
    unfolding judge_load
    judge_load-KeepsSound i j none p s = tt
    judge_load-KeepsSound i j (some load) p s = elim (Bool-cases (fl.is_zero load)) [
      | inl e ↦ rw (judge_load, e) tt
      | inr e ↦ rw (judge_load, e) (take_load-KeepsSound i j load p s)
    ]

    pub round-KeepsSound :
        (i j : ℕ) (p : Progress) → IsSound p → KeepsSound (round fl aws ident warns crits i j p)
    unfolding round
    round-KeepsSound i j p s =
        elim (Option-cases
          (get_rds_stats fl aws (i * 60) (minutes_back i * 60) cpu_utilization ident)) [
            | inl e ↦ rw (round, e) tt
            | inr (o, e) ↦ rw (round, e) (judge_load-KeepsSound i j o p s)
          ]

    rounds-KeepsSound :
        (is : List ℕ) (j : ℕ) (p : Progress)
        → IsSound p
        → KeepsSound (rounds fl aws ident warns crits is j p)
    unfolding rounds
    rounds-KeepsSound [] j p s = s
    rounds-KeepsSound (i ∷ is) j p s =
        then_round-KeepsSound (round fl aws ident warns crits i j p) _ (round-KeepsSound i j p s)
          (λ q t. rounds-KeepsSound is (suc j) q t)
