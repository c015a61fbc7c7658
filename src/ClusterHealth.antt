-- ===== src/ClusterHealth.antt =====
-- `profiles/files/nrpeplugins/check_cluster_health.py`, the plugin that checks the configuration of
-- a node of the cluster. What its commands print is a parameter.
pub mod Healthy
mod Tests
use puppet_stg_environment.Common.{
  ℕ, suc, Option, none, some, Bool, true, false, not, ◌&&◌, List, [], ◌∷◌, ◌++◌, is_nil, get_elem?,
  eqb, contains, if◌then◌else◌,
}
use puppet_stg_environment.Common.Text.{Text, text_eq, codes, split_on, words}
use puppet_stg_environment.Common.Text.Search.{is_infix}

-- The node: what `getoutput` returns for each command, whether the file `ipv6off.conf` exists, and
-- the mode of `/tmp`.
pub record Node : Type 0 where
  pub ps : Text
  pub has_ipv6off : Bool
  pub grep_ipv6 : Text → Text
  pub bindv6only : Text
  pub tmp_mode : ℕ
  pub data_mounts : Text
  pub fstab : Text
  pub addresses : Text

pub record Report : Type 0 where
  pub status : ℕ
  pub error_msg : Text

-- How the program ends; an `IndexError` leaves with 1.
pub data Ending : Type 0 where
  exits : ℕ → Text → Ending
  index_error : Ending

abbrev pub exit_code : Ending → ℕ
exit_code (exits n text) = n
exit_code index_error = 1

-- `status = 2; errorMsg = errorMsg + text`, if a test says so.
unfoldable pub critical_if : Bool → Text → Report → Report
critical_if b text r = if b then record { status = 2; error_msg = r.error_msg ++ text } else r

abbrev pub conf_file : Node → Text
conf_file n = if n.has_ipv6off then codes "/etc/sysctl.d/ipv6off.conf" else codes "/etc/sysctl.conf"

module _ (n : Node) where
  abbrev pub runs_avahi : Bool
  runs_avahi = is_infix (codes "avahi-daemon") n.ps

  abbrev pub is_unconfigured : Bool
  is_unconfigured =
      not (is_infix (codes "net.ipv6.bindv6only = 0") (n.grep_ipv6 (conf_file n)))
      && not (is_infix (codes "net.ipv6.conf.all.disable_ipv6=1") (n.grep_ipv6 (conf_file n)))

  abbrev pub is_unset : Bool
  is_unset = not (is_infix (codes "0") n.bindv6only)

  -- 17407 is 41777 in octal.
  abbrev pub is_closed : Bool
  is_closed = not (eqb n.tmp_mode 17407)

  -- The checks up to that of `/tmp`.
  unfoldable pub check_system : Report
  check_system = critical_if is_closed (codes "/tmp not set to 41777") (
      critical_if is_unset (codes "net.ipv6.bindv6only proc not set to 0") (
        critical_if is_unconfigured (codes "net.ipv6.bindv6only config not set to 0") (
          critical_if runs_avahi (codes "Avahi daemon running")
            (record { status = 0; error_msg = [] }))))

-- `map(lambda line: line.split()[2], lines)`
unfoldable pub mount_points : List Text → Option (List Text)
mount_points [] = some []
mount_points (line ∷ lines) =
    let rest = mount_points lines in
    elim (get_elem? (words line) 2) [
      | none ↦ none
      | some point ↦ elim rest [ none ↦ none | some points ↦ some (point ∷ points) ]
    ]

-- The loop over the entries of `fstab`: the missing ones, and the status that counts them.
unfoldable pub check_entries : List Text → List Text → ℕ × Text → ℕ × Text
check_entries points [] s = s
check_entries points (entry ∷ entries) (status, failed) = check_entries points entries (
    if contains points entry
    then (status, failed)
    else (suc status, failed ++ (codes " " ++ entry)))

abbrev pub conclude_entries : Report → ℕ × Text → Report
conclude_entries r (status, failed) =
    if eqb status 0
    then record r { status = status }
    else record { status = 2; error_msg = r.error_msg ++ (failed ++ codes " not mounted") }

-- The check of the data mounts, which is made only if there are any; `none` is the `IndexError`.
unfoldable pub check_mounts : Node → Report → Option Report
check_mounts n r =
    if is_nil n.data_mounts then some r else elim (mount_points (split_on 10 n.data_mounts)) [
      | none ↦ none
      | some points ↦
          some (conclude_entries r (check_entries points (split_on 10 n.fstab) (r.status, [])))
    ]

unfoldable pub finish : Node → Option Report → Ending
finish n none = index_error
finish n (some r) =
    if eqb r.status 0
    then exits 0 (codes "Cluster node Ok." ++ n.addresses)
    else exits r.status r.error_msg

unfoldable pub run : Node → Ending
run n = finish n (check_mounts n (check_system n))
