-- ===== src/AwsRds/Load/Counts.antt =====
-- Lists of thresholds whose lengths are wrong and add up to six.
use puppet_stg_environment.Common.{
  ℕ, ◌≡◌, refl, ◌∙◌, inl, some, none, false, [], ◌∷◌, get_elem?, List, arith,
}
use puppet_stg_environment.Common.Text.{Text, split_on}
use puppet_stg_environment.AwsRds.Floats.{Floats}
use puppet_stg_environment.AwsRds.Stats.{Aws}
use puppet_stg_environment.AwsRds.Outcome.{exception}
use puppet_stg_environment.AwsRds.Load.{
  Progress, crashed, start, parse_all, take_load, judge_load, round, rounds, conclude_load,
  check_load,
}
use puppet_stg_environment.AwsRds.Load.Worst.{HasLoad, round-Adds, rounds-step}

module _ {F : Type 0} (fl : Floats F) (aws : Aws F) (ident : Text) where
  round_unlisted :
      (warns crits : List F) (i j : ℕ) (load : F) (p : Progress)
      → HasLoad fl aws ident i load
      → get_elem? warns j ≡ none
      → round fl aws ident warns crits i j p ≡ crashed
  unfolding round judge_load take_load
  round_unlisted warns crits i j load p (a, b) w = rw (round, a, judge_load, b, take_load, w) refl

  rounds_crash :
      (warns crits : List F) (i : ℕ) (is : List ℕ) (j : ℕ) (p : Progress)
      → round fl aws ident warns crits i j p ≡ crashed
      → rounds fl aws ident warns crits (i ∷ is) j p ≡ crashed
  unfolding rounds
  rounds_crash warns crits i is j p e = rw (rounds, e) refl

  -- Two warning and four critical thresholds pass the check of their number, and the third average
  -- then ends the program with an exception.
  pub check_load_two_and_four :
      (warn crit : Text) (l1 l2 l3 w1 w2 c1 c2 c3 c4 : F)
      → parse_all fl (split_on 44 warn) ≡ some (w1 ∷ w2 ∷ [])
      → parse_all fl (split_on 44 crit) ≡ some (c1 ∷ c2 ∷ c3 ∷ c4 ∷ [])
      → HasLoad fl aws ident 1 l1 × HasLoad fl aws ident 5 l2 × HasLoad fl aws ident 15 l3
      → (fl.lt c1 w1 ≡ false) × (fl.lt c2 w2 ≡ false)
      → check_load fl aws ident warn crit ≡ exception
  unfolding check_load conclude_load
  check_load_two_and_four warn crit l1 l2 l3 w1 w2 c1 c2 c3 c4 w c (a1, a2, a3) (h1, h2) =
      let ws = w1 ∷ w2 ∷ [] in
      let cs = c1 ∷ c2 ∷ c3 ∷ c4 ∷ [] in
      let (p, ep, sp, _) =
        round-Adds fl aws ident ws cs 1 0 l1 w1 c1 start a1 refl refl h1
          (inl (refl, omega arith)) in
      let (q, eq, _, _) = round-Adds fl aws ident ws cs 5 1 l2 w2 c2 p a2 refl refl h2 sp in
      let e =
        rounds-step fl aws ident ws cs 1 (5 ∷ 15 ∷ []) 0 start p ep
        ∙ (rounds-step fl aws ident ws cs 5 (15 ∷ []) 1 p q eq
            ∙ rounds_crash ws cs 15 [] 2 q (round_unlisted ws cs 15 2 l3 q a3 refl)) in
      rw (check_load, w, c, e) refl
