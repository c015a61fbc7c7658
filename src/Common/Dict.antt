-- ===== src/Common/Dict.antt =====
-- Dictionaries as association lists. The list's order stands for the order of iteration, which
-- Python 2 leaves open. Proofs elsewhere go by the laws; tests unfold the operations.
use puppet_stg_environment.Common.Tests.{if◌then◌else◌}
use puppet_stg_environment.Common.Lists.{All}
use puppet_stg_environment.Common.Equality.{Eq, ◌==◌}
use mathlib.Core.Path.{◌≡◌, refl}
use mathlib.Core.Logic.{◌≢◌}
use mathlib.Core.Option.{Option, none, some}
use mathlib.Core.List.{List, [], ◌∷◌, ◌++◌}
use native.Mathlib.Omega.{arith}

abbrev pub Dict {ℓ κ} : Type ℓ → Type κ → Type (ℓ ⊔ κ)
Dict K V = List (K × V)

unfoldable pub keys {ℓ κ} : {K : Type ℓ} {V : Type κ} → Dict K V → List K
keys [] = []
keys ((k, _) ∷ d) = k ∷ keys d

unfoldable pub values {ℓ κ} : {K : Type ℓ} {V : Type κ} → Dict K V → List V
values [] = []
values ((_, v) ∷ d) = v ∷ values d

module _ {ℓ κ} {K : Type ℓ} {V : Type κ} ⦃e : Eq K⦄ where
  -- `d.get(k)`
  unfoldable pub lookup : K → Dict K V → Option V
  lookup k [] = none
  lookup k ((j, v) ∷ d) = if k == j then some v else lookup k d

  -- `d[k] = v`
  unfoldable pub insert : K → V → Dict K V → Dict K V
  insert k v [] = (k, v) ∷ []
  insert k v ((j, w) ∷ d) = if k == j then (k, v) ∷ d else (j, w) ∷ insert k v d

  -- No key stands twice.
  abbrev pub NodupKeys : Dict K V → Type κ
  NodupKeys [] = Unit
  NodupKeys ((k, _) ∷ d) = (lookup k d ≡ none) × NodupKeys d

  pub lookup-nil : (k : K) → lookup k [] ≡ none
  unfolding lookup
  lookup-nil k = refl

  pub lookup-cons :
      (j k : K) (v : V) (d : Dict K V)
      → lookup j ((k, v) ∷ d) ≡ (if j == k then some v else lookup j d)
  unfolding lookup
  lookup-cons j k v d = refl

  pub lookup_same : (j k : K) (v : V) (d : Dict K V) → j ≡ k → lookup j ((k, v) ∷ d) ≡ some v
  unfolding lookup
  lookup_same j k v d p = ground (arith, p)

  pub lookup_other : (j k : K) (v : V) (d : Dict K V) → j ≢ k → lookup j ((k, v) ∷ d) ≡ lookup j d
  unfolding lookup
  lookup_other j k v d p = ground arith

  pub lookup-insert :
      (j k : K) (v : V) (d : Dict K V)
      → lookup j (insert k v d) ≡ (if j == k then some v else lookup j d)
  unfolding insert lookup
  lookup-insert j k v [] = refl
  lookup-insert j k v (_ ∷ d) = ground (arith, lookup-insert j k v d)

  pub insert-NodupKeys : (k : K) (v : V) (d : Dict K V) → NodupKeys d → NodupKeys (insert k v d)
  unfolding insert
  insert-NodupKeys k v [] _ = (lookup-nil k, tt)
  insert-NodupKeys k v ((j, _) ∷ d) (fresh, u) =
      ground (arith, insert-NodupKeys k v d u, lookup-insert j k v d)

  -- A fresh key goes to the end.
  pub insert_fresh :
      (k : K) (v : V) (d : Dict K V) → lookup k d ≡ none → insert k v d ≡ d ++ (k, v) ∷ []
  unfolding insert lookup
  insert_fresh k v [] h = refl
  insert_fresh k v ((j, w) ∷ d) h = ground (arith, insert_fresh k v d)

  -- The keys of the second dictionary are not in the first.
  abbrev pub Fresh : Dict K V → Dict K V → Type κ
  Fresh acc [] = Unit
  Fresh acc ((k, _) ∷ d) = (lookup k acc ≡ none) × Fresh acc d

  pub insert-Fresh :
      (k : K) (v : V) (acc d : Dict K V)
      → lookup k d ≡ none
      → Fresh acc d
      → Fresh (insert k v acc) d
  unfolding lookup
  insert-Fresh k v acc [] h f = tt
  insert-Fresh k v acc ((j, w) ∷ d) h f =
      ground (arith, lookup-insert j k v acc, insert-Fresh k v acc d)

  pub Fresh-nil : (d : Dict K V) → Fresh [] d
  Fresh-nil [] = tt
  Fresh-nil ((k, v) ∷ d) = (lookup-nil k, Fresh-nil d)

  pub insert-All {μ} :
      (P : K × V → Type μ) (k : K) (v : V) (d : Dict K V)
      → P (k, v)
      → All P d
      → All P (insert k v d)
  unfolding insert
  insert-All P k v [] p h = (p, tt)
  insert-All P k v ((j, w) ∷ d) p h = ground (arith, insert-All P k v d p h.1)
