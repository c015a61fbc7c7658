-- ===== src/ClusterHealth/Healthy.antt =====
-- When a node is reported as healthy.
use puppet_stg_environment.Common.{
  ◌≡◌, refl, ◌∙◌, ap, sym, Option, none, some, true, false, List, [], ◌∷◌, All, is_nil, contains,
  if◌then◌else◌,
}
use puppet_stg_environment.Common.Text.{Text, text_eq, split_on}
use puppet_stg_environment.ClusterHealth.{
  Node, Report, runs_avahi, is_unconfigured, is_unset, is_closed, check_system, mount_points,
  check_mounts, finish, run,
}

-- All entries of `fstab` are mounted, or no data mount is there.
abbrev pub AreMounted : Text → Option (List Text) → List Text → Type 0
AreMounted [] points entries = Unit
AreMounted (c ∷ s) none entries = ⊥
AreMounted (c ∷ s) (some points) entries = All (λ entry. contains points entry ≡ true) entries

pub record IsHealthy (n : Node) : Type 0 where
  pub no_avahi : runs_avahi n ≡ false
  pub configured : is_unconfigured n ≡ false
  pub set : is_unset n ≡ false
  pub writable : is_closed n ≡ false
  pub mounted :
      AreMounted n.data_mounts (mount_points (split_on 10 n.data_mounts)) (split_on 10 n.fstab)

if_empty : (m : Text) (a b : Option Report) → m ≡ [] → (if is_nil m then a else b) ≡ a
if_empty [] a b h = refl
if_empty (c ∷ s) a b h = cc

-- With no data disk mounted at all, `fstab` has no influence on the outcome.
pub run_nothing_mounted :
    (n : Node) (fstab : Text) → n.data_mounts ≡ [] → run (record n { fstab = fstab }) ≡ run n
unfolding run check_mounts check_system finish
run_nothing_mounted n fstab e =
    ap (λ o. finish (record n { fstab = fstab }) o) (if_empty n.data_mounts _ _ e)
    ∙ sym (ap (λ o. finish n o) (if_empty n.data_mounts _ _ e))
