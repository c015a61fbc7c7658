-- ===== src/AwsRds/Stats.antt =====
-- `get_rds_info` and `get_rds_stats`: what is asked of Amazon, and which point of a statistic counts.
pub mod Newest
use puppet_stg_environment.Common.{
  ℕ, Option, none, some, List, [], ◌∷◌, ◌++◌, leb, get_elem?, if◌then◌else◌,
}
use puppet_stg_environment.Common.Text.{Text}
use puppet_stg_environment.AwsRds.Floats.{Floats}

pub record Point (F : Type 0) : Type 0 where
  pub timestamp : ℕ
  pub average : F

-- The attributes of an instance that the plugin reads; `engine_version` is that of either spelling.
pub record Instance : Type 0 where
  pub engine : Text
  pub engine_version : Text
  pub status : Text
  pub allocated_storage : ℕ
  pub instance_class : Text

-- What becomes of `connect_rds` and `get_all_dbinstances`: an answer, the `BotoServerError` that the
-- plugin catches, or another exception.
pub data Described : Type 0 where
  instances : List Instance → Described
  server_error broken : Described

-- Amazon's side. `statistics step seconds metric ident` are the averages over the last so many
-- seconds in steps; `none` is an exception of the library.
pub record Aws (F : Type 0) : Type 0 where
  pub describe : Text → Described
  pub describe_all : Described
  pub statistics : ℕ → ℕ → Text → Text → Option (List (Point F))

-- `get_rds_info(ident)`: the outer `none` is an exception, such as the `IndexError` of an empty list, the
-- inner one `None`.
unfoldable pub get_rds_info : {F : Type 0} → Aws F → Text → Option (Option Instance)
get_rds_info aws ident = elim (aws.describe ident) [
  | server_error ↦ some none
  | broken ↦ none
  | instances found ↦ elim (get_elem? found 0) [ none ↦ none | some i ↦ some (some i) ]
]

module _ {F : Type 0} where
  abbrev pub place : Point F → List (Point F) → List (Point F)
  place p [] = p ∷ []
  place p (q ∷ qs) = if leb p.timestamp q.timestamp then p ∷ q ∷ qs else q ∷ place p qs

  -- `sorted(result, key=lambda k: k['Timestamp'])`
  abbrev pub sorted : List (Point F) → List (Point F)
  sorted [] = []
  sorted (p ∷ ps) = place p (sorted ps)

  abbrev pub reverse : List (Point F) → List (Point F)
  reverse [] = []
  reverse (p ∷ ps) = reverse ps ++ p ∷ []

  -- The points in the order in which the first one is taken.
  abbrev pub arranged : List (Point F) → List (Point F)
  arranged (p ∷ q ∷ ps) = reverse (sorted (p ∷ q ∷ ps))
  arranged ps = ps

  -- `float('%.2f' % result[0]['Average'])`, or an empty list.
  unfoldable pub rounded_average : Floats F → List (Point F) → Option F
  rounded_average fl points = elim (get_elem? (arranged points) 0) [
    | none ↦ none
    | some p ↦ some (fl.round2 p.average)
  ]

  -- `get_rds_stats`: the outer `none` is an exception, the inner one an empty result.
  unfoldable pub get_rds_stats : Floats F → Aws F → ℕ → ℕ → Text → Text → Option (Option F)
  get_rds_stats fl aws step seconds metric ident = elim (aws.statistics step seconds metric ident) [
    | none ↦ none
    | some points ↦ some (rounded_average fl points)
  ]
