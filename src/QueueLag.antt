-- ===== src/QueueLag.antt =====
-- `profiles/templates/collectdplugins/kafka_queue_lag.py.erb`, the collectd plugin that sums the lag
-- of Kafka consumers by topic. The requests to Burrow and the JSON library are parameters.
pub mod Sums
pub mod Failures
mod Tests
use puppet_stg_environment.Common.{
  ℕ, Option, none, some, Bool, true, false, List, [], ◌∷◌, ◌++◌, ◌==◌, if◌then◌else◌,
}
use puppet_stg_environment.Common.Int.{ℤ, ◌+ℤ◌}
use puppet_stg_environment.Common.Text.{Text, text_eq, codes}
use puppet_stg_environment.Common.Dict.{Dict, lookup, insert}

pub record Partition : Type 0 where
  pub topic : Text
  pub current_lag : ℤ

-- A value that goes to collectd.
pub record Dispatched : Type 0 where
  pub plugin_instance : Text
  pub type_instance : Text
  pub value : ℤ

-- `none` of a request is a `RequestException`. The rest reads the parts of an answer that are used;
-- `none` is an answer that is no JSON or lacks them, which is a `ValueError`, `KeyError` or `TypeError`.
pub record Burrow : Type 0 where
  pub request : Text → Option Text
  pub clusters : Text → Option (List Text)
  pub consumers : Text → Option (List Text)
  pub partitions : Text → Option (List Partition)

-- How a run ends: at its end, by the `NameError` of `sys`, which the handlers of a `RequestException`
-- name without an import, or by the exception of a bad answer.
pub data End : Type 0 where
  finished name_error bad_answer : End

-- What was dispatched, and the end.
pub record Outcome : Type 0 where
  pub dispatched : List Dispatched
  pub end : End

-- `http://localhost:8000/v3/kafka` and what follows it.
abbrev pub address : Text → Text
address path = codes "http://localhost:8000/v3/kafka" ++ path

-- One round of the loop over the partitions.
unfoldable pub add_lag : Partition → Dict Text ℤ → Dict Text ℤ
add_lag p lag = elim (lookup p.topic lag) [
  | some z ↦ insert p.topic (z +ℤ p.current_lag) lag
  | none ↦ insert p.topic p.current_lag lag
]

unfoldable pub add_lags : List Partition → Dict Text ℤ → Dict Text ℤ
add_lags [] lag = lag
add_lags (p ∷ ps) lag = add_lags ps (add_lag p lag)

-- The loop over the sums.
unfoldable pub dispatch_all : Text → Dict Text ℤ → List Dispatched
dispatch_all consumer [] = []
dispatch_all consumer ((topic, lag) ∷ lags) =
    record { plugin_instance = consumer; type_instance = topic; value = lag }
    ∷ dispatch_all consumer lags

abbrev pub stops : End → Outcome
stops end = record { dispatched = []; end = end }

-- A part of the run, and the rest, which does not happen after an exception.
abbrev pub then_run : List Dispatched → Outcome → Outcome
then_run ds o = record { dispatched = ds ++ o.dispatched; end = o.end }

abbrev pub followed_by : Outcome → Outcome → Outcome
followed_by o next = elim o.end [
  | finished ↦ then_run o.dispatched next
  | name_error ↦ o
  | bad_answer ↦ o
]

module _ (b : Burrow) where
  abbrev pub ask_lag : Text → Text → Option Text
  ask_lag cluster consumer =
      b.request
        (address (codes "/" ++ (cluster ++ (codes "/consumer/" ++ (consumer ++ codes "/lag")))))

  -- A round of the loop over the consumers.
  unfoldable pub visit_consumer : Text → Text → Outcome
  visit_consumer cluster consumer = elim (ask_lag cluster consumer) [
    | none ↦ stops name_error
    | some raw ↦ elim (b.partitions raw) [
      | none ↦ stops bad_answer
      | some partitions ↦ record {
        dispatched = dispatch_all consumer (add_lags partitions []);
        end = finished;
      }
    ]
  ]

  unfoldable pub visit_consumers : Text → List Text → Outcome
  visit_consumers cluster [] = stops finished
  visit_consumers cluster (consumer ∷ consumers) =
      followed_by (visit_consumer cluster consumer) (visit_consumers cluster consumers)

  -- `get_consumers` and the loop over them.
  unfoldable pub visit_cluster : Text → Outcome
  visit_cluster cluster = elim (b.request (address (codes "/" ++ (cluster ++ codes "/consumer")))) [
    | none ↦ stops name_error
    | some raw ↦ elim (b.consumers raw) [
      | none ↦ stops bad_answer
      | some consumers ↦ visit_consumers cluster consumers
    ]
  ]

  unfoldable pub visit_clusters : List Text → Outcome
  visit_clusters [] = stops finished
  visit_clusters (cluster ∷ clusters) =
      followed_by (visit_cluster cluster) (visit_clusters clusters)

  -- `queue_lag`, with `get_clusters` on its default host and port.
  unfoldable pub queue_lag : Outcome
  queue_lag = elim (b.request (address [])) [
    | none ↦ stops name_error
    | some raw ↦ elim (b.clusters raw) [
      | none ↦ stops bad_answer
      | some clusters ↦ visit_clusters clusters
    ]
  ]
