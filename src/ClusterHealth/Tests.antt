-- ===== src/ClusterHealth/Tests.antt =====
-- Runs of the plugin on concrete nodes, and its theorems at concrete data.
use puppet_stg_environment.Common.{◌≡◌, refl, true, []}
use puppet_stg_environment.Common.Text.{Text, text_eq, codes, split_on, words}
use puppet_stg_environment.Common.Text.Search.{is_infix}
use puppet_stg_environment.ClusterHealth.{
  Node, exit_code, critical_if, check_system, mount_points, check_entries, check_mounts, finish,
  run,
}

abbrev node : Text → Node
node mounts = record {
  ps = codes "root 1 init";
  has_ipv6off = true;
  grep_ipv6 = λ file. codes "net.ipv6.bindv6only = 0";
  bindv6only = codes "0";
  tmp_mode = 17407;
  data_mounts = mounts;
  fstab = codes "/data1\n/data2";
  addresses = codes "10.0.0.7";
}

both_mounted :
    exit_code (run (node (codes "/dev/sdb on /data1 type ext4\n/dev/sdc on /data2 type ext4"))) ≡ 0
unfolding run check_mounts mount_points check_entries check_system critical_if finish is_infix
    split_on words codes text_eq
both_mounted = refl

one_mounted : exit_code (run (node (codes "/dev/sdb on /data1 type ext4"))) ≡ 2
unfolding run check_mounts mount_points check_entries check_system critical_if finish is_infix
    split_on words codes text_eq
one_mounted = refl

-- Both data disks are missing, and the node is reported as healthy.
none_mounted : exit_code (run (node [])) ≡ 0
unfolding run check_mounts check_system critical_if finish is_infix codes
none_mounted = refl
