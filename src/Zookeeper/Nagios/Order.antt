-- ===== src/Zookeeper/Nagios/Order.antt =====
-- The order of the servers, equal thresholds, and values that are no numbers.
use mathlib.Core.Logic.{∥∥₁_elim}
use mathlib.Core.List.{Perm, Permᴰ}
use native.Mathlib.Nat.{ℕ_set}
use puppet_stg_environment.Common.{◌≤◌, ◌≡◌, refl, ◌∙◌, Option, none, some, [], ◌∷◌, ◌++◌, arith}
use puppet_stg_environment.Common.Int.{ℤ, ◌<ℤ◌}
use puppet_stg_environment.Common.Text.{Text, text_eq}
use puppet_stg_environment.Common.Dict.{lookup}
use puppet_stg_environment.Zookeeper.Value.{Value, str, Stats, ClusterStats}
use puppet_stg_environment.Zookeeper.Options.{Options}
use puppet_stg_environment.Zookeeper.Nagios.{threshold, analyze}
use puppet_stg_environment.Zookeeper.Nagios.Levels.{level, level-le, level_of, worst, analyze-worst}

module _ (w c : ℤ) (key : Text) where
  worst-Permᴰ : {xs ys : ClusterStats} → Permᴰ xs ys → worst w c key xs ≡ worst w c key ys
  unfolding worst
  worst-Permᴰ Permᴰ.nil = refl
  worst-Permᴰ (Permᴰ.cons e p) = rw (e, worst-Permᴰ p)
  worst-Permᴰ (Permᴰ.swap e f) = rw (e, f) (omega arith)
  worst-Permᴰ (Permᴰ.trans p q) = worst-Permᴰ p ∙ worst-Permᴰ q

  worst-Perm : {xs ys : ClusterStats} → Perm xs ys → worst w c key xs ≡ worst w c key ys
  worst-Perm p = ∥∥₁_elim p (ℕ_set _ _) worst-Permᴰ

-- The order in which the dictionary is walked has no influence on the exit status.
analyze-Perm :
    (opts : Options) {cluster cluster' : ClusterStats} {w c : ℤ} {key : Text}
    → threshold opts.warning ≡ some w
    → threshold opts.critical ≡ some c
    → opts.key ≡ some key
    → Perm cluster cluster'
    → (analyze opts cluster).status ≡ (analyze opts cluster').status
analyze-Perm opts {cluster} {cluster'} {w} {c} {key} ew ec ek p = rw (
  analyze-worst opts cluster ew ec ek,
  analyze-worst opts cluster' ew ec ek,
  worst-Perm w c key p,
)

level_equal : (t : ℤ) (o : Option Value) → level_of t t o ≡ 0
unfolding level
level_equal t none = refl
level_equal t (some v) = ground arith

worst_equal : (t : ℤ) (key : Text) (cluster : ClusterStats) → worst t t key cluster ≡ 0
unfolding worst
worst_equal t key [] = refl
worst_equal t key ((host, stats) ∷ cluster) =
    rw (level_equal t (lookup key stats), worst_equal t key cluster)

-- With equal thresholds no value is ever reported: the status is 0 whatever the servers state.
pub analyze_equal_thresholds :
    (opts : Options) (cluster : ClusterStats) {t : ℤ} {key : Text}
    → threshold opts.warning ≡ some t
    → threshold opts.critical ≡ some t
    → opts.key ≡ some key
    → (analyze opts cluster).status ≡ some 0
analyze_equal_thresholds opts cluster {t} {key} ew ec ek =
    rw (analyze-worst opts cluster ew ec ek, worst_equal t key cluster)

level_of-le : (w c : ℤ) (o : Option Value) → level_of w c o ≤ 2
level_of-le w c none = omega arith
level_of-le w c (some v) = level-le w c v

worst-le : (w c : ℤ) (key : Text) (cluster : ClusterStats) → worst w c key cluster ≤ 2
unfolding worst
worst-le w c key [] = omega arith
worst-le w c key ((host, stats) ∷ cluster) =
    ground (arith, level_of-le w c (lookup key stats), worst-le w c key cluster)

level_str : (w c : ℤ) (s : Text) → w <ℤ c → level w c (str s) ≡ 2
unfolding level
level_str w c s h = ground arith

worst_text :
    (w c : ℤ) (key host s : Text) (stats : Stats) (before after : ClusterStats)
    → w <ℤ c
    → lookup key stats ≡ some (str s)
    → worst w c key (before ++ (host, stats) ∷ after) ≡ 2
unfolding worst
worst_text w c key host s stats [] after h e =
    rw (e, level_str w c s h) (omega (arith, worst-le w c key after))
worst_text w c key host s stats (x ∷ before) after h e =
    rw (worst_text w c key host s stats before after h e)
      (omega (arith, level_of-le w c (lookup key x.1)))

-- With ascending thresholds a server whose value of the key is a text makes the status critical,
-- whatever it says and whatever the other servers state.
pub analyze_text_value :
    (opts : Options) (before after : ClusterStats) (host s : Text) (stats : Stats) {w c : ℤ}
    {key : Text}
    → threshold opts.warning ≡ some w
    → threshold opts.critical ≡ some c
    → opts.key ≡ some key
    → w <ℤ c
    → lookup key stats ≡ some (str s)
    → (analyze opts (before ++ (host, stats) ∷ after)).status ≡ some 2
analyze_text_value opts before after host s stats {w} {c} {key} ew ec ek h e = rw (
  analyze-worst opts (before ++ (host, stats) ∷ after) ew ec ek,
  worst_text w c key host s stats before after h e,
)
