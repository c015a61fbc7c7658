-- ===== src/CheckIo.antt =====
-- `profiles/files/nrpeplugins/check_io.py`, the plugin that samples `/proc/diskstats` twice and
-- reports the load of the disks to Nagios.
pub mod Run
pub mod Message
pub mod NagiosData
pub mod Diskstats
pub mod Device
pub mod Arguments
pub mod Devices
pub mod Main
pub mod Cli
mod Tests
