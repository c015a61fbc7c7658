-- ===== src/QueueLag/Sums.antt =====
-- The lag of a topic is the sum over its partitions.
use puppet_stg_environment.Common.{
  ◌≡◌, refl, ◌∙◌, ap, sym, Option, none, some, Bool, false, inl, inr, ◌||◌, List, [], ◌∷◌, ◌==◌,
  Bool-cases, Option-cases, if◌then◌else◌, arith,
}
use puppet_stg_environment.Common.Int.{ℤ, pos, ◌+ℤ◌, int_laws}
use puppet_stg_environment.Common.Text.{Text, text_eq}
use puppet_stg_environment.Common.Dict.{Dict, lookup, lookup-nil, lookup-insert, insert}
use puppet_stg_environment.QueueLag.{Partition, add_lag, add_lags}

-- Whether a topic has a partition, and the sum of the lags of its partitions.
abbrev pub has_topic : Text → List Partition → Bool
has_topic topic [] = false
has_topic topic (p ∷ ps) = topic == p.topic || has_topic topic ps

abbrev pub sum_of : Text → List Partition → ℤ
sum_of topic [] = pos 0
sum_of topic (p ∷ ps) =
    if topic == p.topic then p.current_lag +ℤ sum_of topic ps else sum_of topic ps

-- A value with more partitions.
abbrev plus : Text → List Partition → Option ℤ → Option ℤ
plus topic ps none = if has_topic topic ps then some (sum_of topic ps) else none
plus topic ps (some z) = some (z +ℤ sum_of topic ps)

add_zero : (z : ℤ) → z +ℤ pos 0 ≡ z
add_zero z = omega int_laws

add_assoc : (x y z : ℤ) → (x +ℤ y) +ℤ z ≡ x +ℤ (y +ℤ z)
add_assoc x y z = omega int_laws

plus_nil : (topic : Text) (o : Option ℤ) → plus topic [] o ≡ o
plus_nil topic none = refl
plus_nil topic (some z) = ap some (add_zero z)

abbrev plus_one : ℤ → Option ℤ → Option ℤ
plus_one l none = some l
plus_one l (some z) = some (z +ℤ l)

add_lag-absent :
    (p : Partition) (lag : Dict Text ℤ)
    → lookup p.topic lag ≡ none
    → add_lag p lag ≡ insert p.topic p.current_lag lag
unfolding add_lag
add_lag-absent p lag e = rw (add_lag, e) refl

add_lag-present :
    (p : Partition) (lag : Dict Text ℤ) (z : ℤ)
    → lookup p.topic lag ≡ some z
    → add_lag p lag ≡ insert p.topic (z +ℤ p.current_lag) lag
unfolding add_lag
add_lag-present p lag z e = rw (add_lag, e) refl

lookup-add_lag :
    (topic : Text) (p : Partition) (lag : Dict Text ℤ)
    → lookup topic (add_lag p lag)
      ≡ (if topic == p.topic then plus_one p.current_lag (lookup topic lag) else lookup topic lag)
lookup-add_lag topic p lag = elim (Option-cases (lookup p.topic lag)) [
  | inl e ↦ rw (add_lag-absent p lag e, lookup-insert) (ground (arith, e))
  | inr (z, e) ↦ rw (add_lag-present p lag z e, lookup-insert) (ground (arith, e))
]

plus-cons :
    (topic : Text) (p : Partition) (ps : List Partition) (o : Option ℤ)
    → plus topic ps (if topic == p.topic then plus_one p.current_lag o else o)
      ≡ plus topic (p ∷ ps) o
plus-cons topic p ps none = elim (Bool-cases (topic == p.topic)) [
  | inl e ↦ rw e refl
  | inr e ↦ rw e refl
]
plus-cons topic p ps (some z) = elim (Bool-cases (topic == p.topic)) [
  | inl e ↦ rw e (ap some (add_assoc z p.current_lag (sum_of topic ps)))
  | inr e ↦ rw e refl
]

lookup-add_lags :
    (topic : Text) (ps : List Partition) (lag : Dict Text ℤ)
    → lookup topic (add_lags ps lag) ≡ plus topic ps (lookup topic lag)
unfolding add_lags
lookup-add_lags topic [] lag = sym (plus_nil topic (lookup topic lag))
lookup-add_lags topic (p ∷ ps) lag =
    lookup-add_lags topic ps (add_lag p lag)
    ∙ (ap (plus topic ps) (lookup-add_lag topic p lag) ∙ plus-cons topic p ps (lookup topic lag))

-- The sums of a consumer hold exactly the topics that have a partition, each with the sum of the
-- lags of all its partitions.
pub add_lags-sum_of :
    (topic : Text) (ps : List Partition)
    → lookup topic (add_lags ps []) ≡ (if has_topic topic ps then some (sum_of topic ps) else none)
add_lags-sum_of topic ps = lookup-add_lags topic ps [] ∙ ap (plus topic ps) (lookup-nil topic)
