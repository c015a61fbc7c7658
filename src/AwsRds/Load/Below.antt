-- ===== src/AwsRds/Load/Below.antt =====
-- What a status of 0 of the `load` metric means.
use puppet_stg_environment.Common.{
  ℕ, suc, ◌+◌, ◌*◌, ◌≡◌, refl, sym, inl, inr, none, some, false, List, [], ◌∷◌, length, Bool-cases,
  Option-cases, get_elem?, eqb, arith,
}
use mathlib.Core.Path.{subst}
use puppet_stg_environment.Common.Text.{Text, split_on}
use puppet_stg_environment.AwsRds.Floats.{Floats}
use puppet_stg_environment.AwsRds.Stats.{Aws, get_rds_stats}
use puppet_stg_environment.AwsRds.Outcome.{cpu_utilization, IsOk}
use puppet_stg_environment.AwsRds.Load.{
  Progress, Round, goes_on, missing, inconsistent, crashed, start, minutes_back, parse_all, compare,
  take_load, judge_load, round, rounds, conclude_load, check_load,
}
use puppet_stg_environment.AwsRds.Load.Worst.{code, IsSound, HasLoad}
use puppet_stg_environment.AwsRds.Load.Bounds.{KeepsSound, round-KeepsSound}

-- If the round goes on with a status of 0, the status was 0 before, and this holds.
abbrev Explains : Progress → Round → Type 0 → Type 0
Explains p (goes_on q) X = code q ≡ 0 → (code p ≡ 0) × X
Explains p _ X = Unit

Explains-map : (p : Progress) (r : Round) (X Y : Type 0) → (X → Y) → Explains p r X → Explains p r Y
Explains-map p (goes_on q) X Y f e = λ h. let (z, x) = e h in (z, f x)
Explains-map p missing X Y f e = tt
Explains-map p inconsistent X Y f e = tt
Explains-map p crashed X Y f e = tt

abbrev then_round : Round → (Progress → Round) → Round
then_round r f = elim r [
  | goes_on q ↦ f q
  | missing ↦ missing
  | inconsistent ↦ inconsistent
  | crashed ↦ crashed
]

Explains-onto :
    (p q : Progress) (r : Round) (X Y : Type 0)
    → (code q ≡ 0 → (code p ≡ 0) × X)
    → Explains q r Y
    → Explains p r (X × Y)
Explains-onto p q (goes_on t) X Y e k = λ h. let (z, y) = k h in let (w, x) = e z in (w, (x, y))
Explains-onto p q missing X Y e k = tt
Explains-onto p q inconsistent X Y e k = tt
Explains-onto p q crashed X Y e k = tt

Explains-then :
    (p : Progress) (r : Round) (f : Progress → Round) (X Y : Type 0)
    → KeepsSound r
    → Explains p r X
    → ((q : Progress) → IsSound q → Explains q (f q) Y)
    → Explains p (then_round r f) (X × Y)
Explains-then p (goes_on q) f X Y s e k = Explains-onto p q (f q) X Y e (k q s)
Explains-then p missing f X Y s e k = tt
Explains-then p inconsistent f X Y s e k = tt
Explains-then p crashed f X Y s e k = tt

module _ {F : Type 0} (fl : Floats F) where
  -- The load is below its thresholds, and these ascend.
  abbrev pub IsUnder : F → F → F → Type 0
  IsUnder load warn crit =
      (fl.lt crit warn ≡ false) × (fl.le crit load ≡ false) × (fl.le warn load ≡ false)

  compare-Explains :
      (load warn crit : F) (p : Progress)
      → IsSound p
      → Explains p (compare fl load warn crit p) (IsUnder load warn crit)
  unfolding compare
  compare-Explains load warn crit p (inr (f, c)) = rw (compare, f) (λ h. absurd (omega arith))
  compare-Explains load warn crit p (inl (f, c)) = elim (Bool-cases (fl.lt crit warn)) [
    | inl h ↦ rw (compare, f, h) tt
    | inr h ↦ elim (Bool-cases (fl.le crit load)) [
      | inl e ↦ rw (compare, f, h, e) (λ z. absurd (omega arith))
      | inr e ↦ elim (Bool-cases (fl.le warn load)) [
        | inl g ↦ rw (compare, f, h, e, g) (λ z. absurd (omega arith))
        | inr g ↦ rw (compare, f, h, e, g) (λ z. (z, (refl, refl, refl)))
      ]
    ]
  ]

  module _ (aws : Aws F) (ident : Text) (warns crits : List F) where
    -- The average over `i` minutes is there and below the thresholds at `j`.
    abbrev pub IsBelow : ℕ → ℕ → Type 0
    IsBelow i j =
        (load warn crit : F) × HasLoad fl aws ident i load
        × (get_elem? warns j ≡ some warn)
        × (get_elem? crits j ≡ some crit)
        × IsUnder load warn crit

    abbrev pub AreBelow : List ℕ → ℕ → Type 0
    AreBelow [] j = Unit
    AreBelow (i ∷ is) j = IsBelow i j × AreBelow is (suc j)

    take_load-Explains :
        (i j : ℕ) (load : F) (p : Progress)
        → HasLoad fl aws ident i load
        → IsSound p
        → Explains p (take_load fl aws ident warns crits i j load p) (IsBelow i j)
    unfolding take_load
    take_load-Explains i j load p a s = elim (Option-cases (get_elem? warns j)) [
      | inl w ↦ rw (take_load, w) tt
      | inr (warn, w) ↦ elim (Option-cases (get_elem? crits j)) [
        | inl c ↦ rw (take_load, w, c) tt
        | inr (crit, c) ↦
            rw (take_load, w, c)
              (Explains-map p _ (IsUnder load warn crit) _
                (λ u. (load, warn, crit, a, refl, refl, u)) (compare-Explains load warn crit _ s))
      ]
    ]

    round-take :
        (i j : ℕ) (load : F) (p : Progress)
        → HasLoad fl aws ident i load
        → round fl aws ident warns crits i j p ≡ take_load fl aws ident warns crits i j load p
    unfolding round judge_load
    round-take i j load p (e, z) = rw (round, e, judge_load, z) refl

    round-Explains :
        (i j : ℕ) (p : Progress)
        → IsSound p
        → Explains p (round fl aws ident warns crits i j p) (IsBelow i j)
    unfolding round judge_load
    round-Explains i j p s =
        elim (Option-cases
          (get_rds_stats fl aws (i * 60) (minutes_back i * 60) cpu_utilization ident)) [
            | inl e ↦ rw (round, e) tt
            | inr (none, e) ↦ rw (round, e) tt
            | inr (some load, e) ↦ elim (Bool-cases (fl.is_zero load)) [
              | inl z ↦ rw (round, e, judge_load, z) tt
              | inr z ↦
                  subst (λ r. Explains p r (IsBelow i j)) (sym (round-take i j load p (e, z)))
                    (take_load-Explains i j load p (e, z) s)
            ]
          ]

    rounds-Explains :
        (is : List ℕ) (j : ℕ) (p : Progress)
        → IsSound p
        → Explains p (rounds fl aws ident warns crits is j p) (AreBelow is j)
    unfolding rounds
    rounds-Explains [] j p s = λ h. (h, tt)
    rounds-Explains (i ∷ is) j p s =
        Explains-then p (round fl aws ident warns crits i j p) _ (IsBelow i j) (AreBelow is (suc j))
          (round-KeepsSound fl aws ident warns crits i j p s) (round-Explains i j p s)
          (λ q t. rounds-Explains is (suc j) q t)

  -- The thresholds are numbers, and each average is there, is not zero and is
  -- below those of its place.
  pub record IsQuiet (aws : Aws F) (ident warn crit : Text) : Type 0 where
    pub warns : List F
    pub crits : List F
    pub read_warns : parse_all fl (split_on 44 warn) ≡ some warns
    pub read_crits : parse_all fl (split_on 44 crit) ≡ some crits
    pub below : AreBelow aws ident warns crits (1 ∷ 5 ∷ 15 ∷ []) 0

  concluded-below : (X : Type 0) (r : Round) → Explains start r X → IsOk (conclude_load fl r) → X
  unfolding conclude_load
  concluded-below X (goes_on q) e h = let (z, x) = e h in x
  concluded-below X missing e h = absurd (omega arith)
  concluded-below X inconsistent e h = absurd h
  concluded-below X crashed e h = absurd h

  -- The status of the `load` metric is 0 only with thresholds that ascend and averages below them.
  pub check_load-IsQuiet :
      (aws : Aws F) (ident warn crit : Text)
      → IsOk (check_load fl aws ident warn crit)
      → IsQuiet aws ident warn crit
  unfolding check_load
  check_load-IsQuiet aws ident warn crit h = elim (Option-cases (parse_all fl (split_on 44 warn))) [
    | inl w ↦ absurd (rw (check_load, w) at h)
    | inr (ws, w) ↦ elim (Option-cases (parse_all fl (split_on 44 crit))) [
      | inl c ↦ absurd (rw (check_load, w, c) at h)
      | inr (cs, c) ↦ elim (Bool-cases (eqb (length ws + length cs) 6)) [
        | inl e ↦ record {
          warns = ws;
          crits = cs;
          read_warns = w;
          read_crits = c;
          below =
              concluded-below _ _
                (rounds-Explains aws ident ws cs (1 ∷ 5 ∷ 15 ∷ []) 0 start
                  (inl (refl, omega arith)))
                (rw (check_load, w, c, e) at h);
        }
        | inr e ↦ absurd (rw (check_load, w, c, e) at h)
      ]
    ]
  ]
