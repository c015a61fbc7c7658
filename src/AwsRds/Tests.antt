-- ===== src/AwsRds/Tests.antt =====
-- Runs of the plugin with exact hundredths in place of floating-point numbers, and its theorems at
-- concrete data.
use Prim.Native.Nat.{max}
use puppet_stg_environment.Common.{
  ℕ, ◌≡◌, refl, ◌*◌, ◌/◌, Option, none, some, [], ◌∷◌, ltb, leb, eqb, if◌then◌else◌, ◌==◌,
}
use puppet_stg_environment.Common.Text.{Text, text_eq, codes, split_on}
use puppet_stg_environment.Common.Decimal.{unsigned, value_from, show_ℕ}
use puppet_stg_environment.AwsRds.Floats.{Floats}
use puppet_stg_environment.AwsRds.Stats.{
  Point, Instance, instances, Aws, get_rds_stats, rounded_average,
}
use puppet_stg_environment.AwsRds.Stats.Newest.{newest, get_rds_stats-newest}
use puppet_stg_environment.AwsRds.Outcome.{cpu_utilization}
use puppet_stg_environment.AwsRds.Load.{parse_all, check_load}
use puppet_stg_environment.AwsRds.Load.Worst.{JudgedAs, load_level, HasLoad, check_load-worst}

abbrev parse_hundredths : Text → Option ℕ
parse_hundredths t = elim (unsigned t) [ none ↦ none | some n ↦ some (n * 100) ]

abbrev percent_hundredths : ℕ → ℕ → Option ℕ
percent_hundredths a b = if eqb b 0 then none else some (a * 10000 / b)

-- A number is kept as its hundredths.
abbrev pub hundredths : Floats ℕ
hundredths = record {
  parse = parse_hundredths;
  of_nat = λ n. n * 100;
  literal = λ t. elim (parse_hundredths t) [ none ↦ 0 | some n ↦ n ];
  le = leb;
  lt = ltb;
  is_zero = λ n. eqb n 0;
  round2 = λ n. n;
  gibibytes = λ n. n / 1073741824;
  percent = percent_hundredths;
  show = show_ℕ;
  fixed0 = λ n. show_ℕ (n / 100);
  fixed2 = show_ℕ;
}

abbrev point : ℕ → ℕ → Point ℕ
point t a = record { timestamp = t; average = a }

abbrev instance_down : Instance
instance_down = record {
  engine = codes "mysql";
  engine_version = codes "5.6.13";
  status = codes "storage-full";
  allocated_storage = 10;
  instance_class = codes "db.m1.small";
}

-- The load is 90 percent over one minute, 50 over the longer times; nothing is free.
abbrev pub aws : Aws ℕ
aws = record {
  describe = λ ident. instances (instance_down ∷ []);
  describe_all = instances (instance_down ∷ []);
  statistics = λ step seconds metric ident.
      if metric == cpu_utilization
      then some (
          if eqb step 60
          then point 3 1000 ∷ point 5 9000 ∷ point 4 2000 ∷ []
          else point 1 5000 ∷ [])
      else some (point 1 0 ∷ []);
}

abbrev ident : Text
ident = codes "db1"

one_minute :
    aws.statistics 60 300 cpu_utilization ident
    ≡ some (point 3 1000 ∷ point 5 9000 ∷ point 4 2000 ∷ [])
unfolding codes text_eq
one_minute = refl

get_rds_stats-newest_example :
    get_rds_stats hundredths aws 60 300 cpu_utilization ident
    ≡ some (elim (newest (point 3 1000 ∷ point 5 9000 ∷ point 4 2000 ∷ [])) [
      | none ↦ none
      | some p ↦ some p.average
    ])
get_rds_stats-newest_example =
    get_rds_stats-newest hundredths aws 60 300 cpu_utilization ident
      (point 3 1000 ∷ point 5 9000 ∷ point 4 2000 ∷ []) one_minute

loads :
    HasLoad hundredths aws ident 1 9000
    × HasLoad hundredths aws ident 5 5000
    × HasLoad hundredths aws ident 15 5000
unfolding get_rds_stats rounded_average codes text_eq
loads = ((refl, refl), (refl, refl), (refl, refl))

three_warns : parse_all hundredths (split_on 44 (codes "60,40,30")) ≡ some (6000 ∷ 4000 ∷ 3000 ∷ [])
unfolding parse_all split_on codes unsigned value_from
three_warns = refl

three_crits : parse_all hundredths (split_on 44 (codes "80,60,60")) ≡ some (8000 ∷ 6000 ∷ 6000 ∷ [])
unfolding parse_all split_on codes unsigned value_from
three_crits = refl

check_load-worst_example :
    JudgedAs (check_load hundredths aws ident (codes "60,40,30") (codes "80,60,60")) (
      max
        (load_level hundredths 9000 6000 8000)
        (max (load_level hundredths 5000 4000 6000) (load_level hundredths 5000 3000 6000)))
check_load-worst_example =
    check_load-worst hundredths aws ident (codes "60,40,30") (codes "80,60,60") 9000 5000 5000 6000
      4000 3000 8000 6000 6000 three_warns three_crits loads (refl, refl, refl)

two_warns : parse_all hundredths (split_on 44 (codes "60,40")) ≡ some (6000 ∷ 4000 ∷ [])
unfolding parse_all split_on codes unsigned value_from
two_warns = refl

four_crits :
    parse_all hundredths (split_on 44 (codes "80,60,60,9")) ≡ some (8000 ∷ 6000 ∷ 6000 ∷ 900 ∷ [])
unfolding parse_all split_on codes unsigned value_from
four_crits = refl
