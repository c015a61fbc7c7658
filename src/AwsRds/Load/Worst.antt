-- ===== src/AwsRds/Load/Worst.antt =====
-- The status of the `load` metric with all three averages there.
use Prim.Native.Nat.{max}
use puppet_stg_environment.Common.{
  ℕ, suc, ◌≡◌, refl, ◌≤◌, ◌*◌, ◌∙◌, ◌⊎◌, inl, inr, some, true, false, List, [], ◌∷◌, ◌++◌,
  Bool-cases, get_elem?, if◌then◌else◌, arith,
}
use puppet_stg_environment.Common.Text.{Text, split_on}
use puppet_stg_environment.AwsRds.Floats.{Floats}
use puppet_stg_environment.AwsRds.Stats.{Aws, get_rds_stats}
use puppet_stg_environment.AwsRds.Outcome.{Outcome, judged, cpu_utilization}
use puppet_stg_environment.AwsRds.Load.{
  Progress, Round, goes_on, start, minutes_back, parse_all, perf_item, compare, take_load,
  judge_load, round, rounds, final_status, conclude_load, check_load,
}

-- The outcome is a status.
abbrev pub JudgedAs : Outcome → ℕ → Type 0
JudgedAs (judged status note perf) n = status ≡ n
JudgedAs _ n = ⊥

abbrev pub code : Progress → ℕ
code p = final_status p.status

-- The comparisons stop exactly once the status is critical.
abbrev pub IsSound : Progress → Type 0
IsSound p = ((p.fail ≡ false) × (code p ≤ 1)) ⊎ ((p.fail ≡ true) × (code p ≡ 2))

-- The round went on, and took a load of this level into account.
abbrev pub Adds : Progress → ℕ → Round → Type 0
Adds p n r = (q : Progress) × (r ≡ goes_on q) × IsSound q × (code q ≡ max (code p) n)

zero_max : (n : ℕ) → max 0 n ≡ n
zero_max n = omega arith

module _ {F : Type 0} (fl : Floats F) where
  -- 2 at the critical threshold, 1 at the warning threshold, and 0 below them.
  abbrev pub load_level : F → F → F → ℕ
  load_level load warn crit = if fl.le crit load then 2 else if fl.le warn load then 1 else 0

  compare-Adds :
      (load warn crit : F) (p : Progress)
      → IsSound p
      → fl.lt crit warn ≡ false
      → Adds p (load_level load warn crit) (compare fl load warn crit p)
  unfolding compare
  compare-Adds load warn crit p (inr (f, c)) h = (p, rw (compare, f) refl, inr (f, c), ground arith)
  compare-Adds load warn crit p (inl (f, c)) h = elim (Bool-cases (fl.le crit load)) [
    | inl e ↦ (
      record p { status = some 2; fail = true },
      rw (compare, f, h, e) refl,
      inr (refl, refl),
      rw e (omega arith),
    )
    | inr e ↦ elim (Bool-cases (fl.le warn load)) [
      | inl g ↦ (
        record p { status = some 1 },
        rw (compare, f, h, e, g) refl,
        inl (f, omega arith),
        rw (e, g) (omega arith),
      )
      | inr g ↦ (p, rw (compare, f, h, e, g) refl, inl (f, c), rw (e, g) (omega arith))
    ]
  ]

  module _ (aws : Aws F) (ident : Text) where
    -- The average over `i` minutes is there, and is not zero.
    abbrev pub HasLoad : ℕ → F → Type 0
    HasLoad i load =
        (get_rds_stats fl aws (i * 60) (minutes_back i * 60) cpu_utilization ident
          ≡ some (some load))
        × (fl.is_zero load ≡ false)

    module _ (warns crits : List F) where
      pub round-Adds :
          (i j : ℕ) (load warn crit : F) (p : Progress)
          → HasLoad i load
          → get_elem? warns j ≡ some warn
          → get_elem? crits j ≡ some crit
          → fl.lt crit warn ≡ false
          → IsSound p
          → Adds p (load_level load warn crit) (round fl aws ident warns crits i j p)
      unfolding round judge_load take_load
      round-Adds i j load warn crit p (a, b) w c h s =
          let (q, e, t, l) =
            compare-Adds load warn crit
              (record p {
                loads = p.loads ++ fl.show load ∷ [];
                perf_data = p.perf_data ++ perf_item fl i load warn crit ∷ [];
              })
              s h in
          (q, rw (round, a, judge_load, b, take_load, w, c) e, t, l)

      pub rounds-step :
          (i : ℕ) (is : List ℕ) (j : ℕ) (p q : Progress)
          → round fl aws ident warns crits i j p ≡ goes_on q
          → rounds fl aws ident warns crits (i ∷ is) j p
            ≡ rounds fl aws ident warns crits is (suc j) q
      unfolding rounds
      rounds-step i is j p q e = rw (rounds, e) refl

      rounds-worst :
          (l1 l2 l3 w1 w2 w3 c1 c2 c3 : F)
          → warns ≡ w1 ∷ w2 ∷ w3 ∷ []
          → crits ≡ c1 ∷ c2 ∷ c3 ∷ []
          → HasLoad 1 l1 × HasLoad 5 l2 × HasLoad 15 l3
          → (fl.lt c1 w1 ≡ false) × (fl.lt c2 w2 ≡ false) × (fl.lt c3 w3 ≡ false)
          → Adds start
              (max (load_level l1 w1 c1) (max (load_level l2 w2 c2) (load_level l3 w3 c3)))
              (rounds fl aws ident warns crits (1 ∷ 5 ∷ 15 ∷ []) 0 start)
      unfolding rounds
      rounds-worst l1 l2 l3 w1 w2 w3 c1 c2 c3 w c (a1, a2, a3) (h1, h2, h3) =
          let (p, ep, sp, lp) =
            round-Adds 1 0 l1 w1 c1 start a1 (rw w refl) (rw c refl) h1 (inl (refl, omega arith)) in
          let (q, eq, sq, lq) = round-Adds 5 1 l2 w2 c2 p a2 (rw w refl) (rw c refl) h2 sp in
          let (r, er, sr, lr) = round-Adds 15 2 l3 w3 c3 q a3 (rw w refl) (rw c refl) h3 sq in
          (
            r,
            rounds-step 1 (5 ∷ 15 ∷ []) 0 start p ep
                ∙ (rounds-step 5 (15 ∷ []) 1 p q eq ∙ rounds-step 15 [] 2 q r er),
            sr,
            omega (arith, lp, lq, lr),
          )

    -- With the three averages there and no warning threshold above its critical one, the status is
    -- the highest level of an average, and it does not matter that a critical one ends the comparisons.
    pub check_load-worst :
        (warn crit : Text) (l1 l2 l3 w1 w2 w3 c1 c2 c3 : F)
        → parse_all fl (split_on 44 warn) ≡ some (w1 ∷ w2 ∷ w3 ∷ [])
        → parse_all fl (split_on 44 crit) ≡ some (c1 ∷ c2 ∷ c3 ∷ [])
        → HasLoad 1 l1 × HasLoad 5 l2 × HasLoad 15 l3
        → (fl.lt c1 w1 ≡ false) × (fl.lt c2 w2 ≡ false) × (fl.lt c3 w3 ≡ false)
        → JudgedAs
            (check_load fl aws ident warn crit)
            (max (load_level l1 w1 c1) (max (load_level l2 w2 c2) (load_level l3 w3 c3)))
    unfolding check_load conclude_load
    check_load-worst warn crit l1 l2 l3 w1 w2 w3 c1 c2 c3 w c a h =
        let (p, e, _, l) = rounds-worst _ _ l1 l2 l3 w1 w2 w3 c1 c2 c3 refl refl a h in
        rw (check_load, w, c, e) (l ∙ zero_max _)
