-- ===== src/QueueLag/Tests.antt =====
-- A run of the plugin on a concrete cluster, and its theorem there.
use puppet_stg_environment.Common.{ℕ, ◌≡◌, refl, none, some, List, [], ◌∷◌, if◌then◌else◌, ◌==◌}
use puppet_stg_environment.Common.Int.{pos, ◌+ℤ◌}
use puppet_stg_environment.Common.Text.{Text, text_eq, codes}
use puppet_stg_environment.Common.Dict.{lookup, insert}
use puppet_stg_environment.QueueLag.{
  Partition, Burrow, address, add_lag, add_lags, dispatch_all, name_error, visit_consumer,
  visit_consumers, visit_cluster, visit_clusters, queue_lag,
}
use puppet_stg_environment.QueueLag.Failures.{until_failure, try_all, queue_lag-until_failure}
use puppet_stg_environment.QueueLag.Sums.{has_topic, sum_of, add_lags-sum_of}

abbrev partition : Text → ℕ → Partition
partition topic n = record { topic = topic; current_lag = pos n }

abbrev clicks : Text
clicks = codes "clicks"

abbrev three : List Partition
three = partition clicks 5 ∷ partition (codes "views") 1 ∷ partition clicks 7 ∷ []

-- The second consumer's lag cannot be asked for.
abbrev burrow : Burrow
burrow = record {
  request = λ url. if url == address (codes "/main/consumer/two/lag") then none else some [];
  clusters = λ raw. some (codes "main" ∷ codes "more" ∷ []);
  consumers = λ raw. some (codes "one" ∷ codes "two" ∷ codes "one" ∷ []);
  partitions = λ raw. some three;
}

dispatched_before_the_failure : queue_lag burrow ≡ record {
  dispatched =
      record { plugin_instance = codes "one"; type_instance = clicks; value = pos 12 }
      ∷ record { plugin_instance = codes "one"; type_instance = codes "views"; value = pos 1 }
      ∷ [];
  end = name_error;
}
unfolding queue_lag visit_clusters visit_cluster visit_consumers visit_consumer dispatch_all
    add_lags add_lag lookup insert codes text_eq ◌+ℤ◌
dispatched_before_the_failure = refl

add_lags-sum_of_example :
    lookup clicks (add_lags three [])
    ≡ (if has_topic clicks three then some (sum_of clicks three) else none)
add_lags-sum_of_example = add_lags-sum_of clicks three

queue_lag-until_failure_example :
    queue_lag burrow ≡ until_failure (try_all burrow (burrow.request (address [])))
queue_lag-until_failure_example = queue_lag-until_failure burrow
