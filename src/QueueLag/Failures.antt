-- ===== src/QueueLag/Failures.antt =====
-- Where a run ends, and what it has dispatched by then.
use puppet_stg_environment.Common.{
  ◌≡◌, refl, sym, ap, ◌∙◌, Option, none, some, inl, inr, List, [], ◌∷◌, ◌++◌, map, append_assoc,
  Option-cases,
}
use puppet_stg_environment.Common.Text.{Text, codes}
use puppet_stg_environment.QueueLag.{
  Partition, Dispatched, Burrow, End, finished, name_error, bad_answer, Outcome, address, ask_lag,
  dispatch_all, add_lags, stops, then_run, followed_by, visit_consumer, visit_consumers,
  visit_cluster, visit_clusters, queue_lag,
}

-- One thing that the run tries: it gives values, a request fails, or its answer is no good.
pub data Attempt : Type 0 where
  gives : List Dispatched → Attempt
  unanswered unreadable : Attempt

-- The values before the first failure, and its exception.
abbrev pub until_failure : List Attempt → Outcome
until_failure [] = stops finished
until_failure (unanswered ∷ attempts) = stops name_error
until_failure (unreadable ∷ attempts) = stops bad_answer
until_failure (gives ds ∷ attempts) = then_run ds (until_failure attempts)

-- Everything that would be tried, in order, if nothing failed before.
module _ (b : Burrow) where
  abbrev pub lag_of : Text → Option (List Partition) → Attempt
  lag_of consumer none = unreadable
  lag_of consumer (some partitions) = gives (dispatch_all consumer (add_lags partitions []))

  abbrev pub try_consumer : Text → Option Text → Attempt
  try_consumer consumer none = unanswered
  try_consumer consumer (some raw) = lag_of consumer (b.partitions raw)

  -- The consumers in the answer of a cluster.
  abbrev pub try_consumers : Text → Option (List Text) → List Attempt
  try_consumers cluster none = unreadable ∷ []
  try_consumers cluster (some consumers) =
      map (λ consumer. try_consumer consumer (ask_lag b cluster consumer)) consumers

  abbrev pub try_cluster : Text → Option Text → List Attempt
  try_cluster cluster none = unanswered ∷ []
  try_cluster cluster (some raw) = try_consumers cluster (b.consumers raw)

  abbrev pub ask_consumers : Text → Option Text
  ask_consumers cluster = b.request (address (codes "/" ++ (cluster ++ codes "/consumer")))

  abbrev pub each_cluster : List Text → List Attempt
  each_cluster [] = []
  each_cluster (cluster ∷ clusters) =
      try_cluster cluster (ask_consumers cluster) ++ each_cluster clusters

  abbrev pub try_clusters : Option (List Text) → List Attempt
  try_clusters none = unreadable ∷ []
  try_clusters (some clusters) = each_cluster clusters

  abbrev pub try_all : Option Text → List Attempt
  try_all none = unanswered ∷ []
  try_all (some raw) = try_clusters (b.clusters raw)

-- Attempts that are divided, at a point that is not seen from outside.
followed_by-then_run :
    (ds : List Dispatched) (o next : Outcome)
    → followed_by (then_run ds o) next ≡ then_run ds (followed_by o next)
followed_by-then_run ds o next = ended o.end o.dispatched
  where
    ended :
        (e : End) (more : List Dispatched)
        → followed_by (record { dispatched = ds ++ more; end = e }) next
          ≡ then_run ds (followed_by (record { dispatched = more; end = e }) next)
    ended finished more =
        ap (λ all. record { dispatched = all; end = next.end })
          (append_assoc ds more next.dispatched)
    ended name_error more = refl
    ended bad_answer more = refl

until_failure-append :
    (xs ys : List Attempt)
    → until_failure (xs ++ ys) ≡ followed_by (until_failure xs) (until_failure ys)
until_failure-append [] ys = refl
until_failure-append (unanswered ∷ xs) ys = refl
until_failure-append (unreadable ∷ xs) ys = refl
until_failure-append (gives ds ∷ xs) ys =
    ap (then_run ds) (until_failure-append xs ys)
    ∙ sym (followed_by-then_run ds (until_failure xs) (until_failure ys))

module _ (b : Burrow) where
  consumer-until :
      (cluster consumer : Text) (attempts : List Attempt)
      → until_failure (try_consumer b consumer (ask_lag b cluster consumer) ∷ attempts)
        ≡ followed_by (visit_consumer b cluster consumer) (until_failure attempts)
  unfolding visit_consumer
  consumer-until cluster consumer attempts = elim (Option-cases (ask_lag b cluster consumer)) [
    | inl e ↦ rw (visit_consumer, e) refl
    | inr (raw, e) ↦ elim (Option-cases (b.partitions raw)) [
      | inl p ↦ rw (visit_consumer, e, p) refl
      | inr (partitions, p) ↦ rw (visit_consumer, e, p) refl
    ]
  ]

  consumers-until :
      (cluster : Text) (consumers : List Text)
      → visit_consumers b cluster consumers
        ≡ until_failure (try_consumers b cluster (some consumers))
  unfolding visit_consumers
  consumers-until cluster [] = refl
  consumers-until cluster (consumer ∷ consumers) =
      ap (followed_by (visit_consumer b cluster consumer)) (consumers-until cluster consumers)
      ∙ sym (consumer-until cluster consumer (try_consumers b cluster (some consumers)))

  cluster-until :
      (cluster : Text)
      → visit_cluster b cluster ≡ until_failure (try_cluster b cluster (ask_consumers b cluster))
  unfolding visit_cluster
  cluster-until cluster = elim (Option-cases (ask_consumers b cluster)) [
    | inl e ↦ rw (visit_cluster, e) refl
    | inr (raw, e) ↦ elim (Option-cases (b.consumers raw)) [
      | inl c ↦ rw (visit_cluster, e, c) refl
      | inr (consumers, c) ↦ rw (visit_cluster, e, c) (consumers-until cluster consumers)
    ]
  ]

  clusters-until :
      (clusters : List Text) → visit_clusters b clusters ≡ until_failure (each_cluster b clusters)
  unfolding visit_clusters
  clusters-until [] = refl
  clusters-until (cluster ∷ clusters) =
      ap (λ o. followed_by o (visit_clusters b clusters)) (cluster-until cluster)
      ∙ ap (followed_by (until_failure (try_cluster b cluster (ask_consumers b cluster))))
          (clusters-until clusters)
      ∙ sym (
          until_failure-append (try_cluster b cluster (ask_consumers b cluster))
            (each_cluster b clusters))

  -- A run tries the list of clusters, then for each of them the list of its consumers and the lag of each
  -- of these, in order, and ends at the first that fails, with the `NameError` of a failing request or
  -- the exception of a bad answer: what comes before is dispatched, and nothing behind it.
  pub queue_lag-until_failure : queue_lag b ≡ until_failure (try_all b (b.request (address [])))
  unfolding queue_lag
  queue_lag-until_failure = elim (Option-cases (b.request (address []))) [
    | inl e ↦ rw (queue_lag, e) refl
    | inr (raw, e) ↦ elim (Option-cases (b.clusters raw)) [
      | inl c ↦ rw (queue_lag, e, c) refl
      | inr (clusters, c) ↦ rw (queue_lag, e, c) (clusters-until clusters)
    ]
  ]
