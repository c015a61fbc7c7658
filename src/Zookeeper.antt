-- ===== src/Zookeeper.antt =====
-- `profiles/files/nrpeplugins/check_zookeeper.py`, the plugin that reads the statistics of a
-- ZooKeeper cluster and reports them to Nagios, Cacti or Ganglia.
pub mod Value
pub mod Mntr
pub mod Stat
pub mod Cluster
pub mod Options
pub mod Nagios
pub mod Cacti
pub mod Ganglia
pub mod Main
pub mod Cli
mod Tests
