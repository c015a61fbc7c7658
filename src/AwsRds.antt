-- ===== src/AwsRds.antt =====
-- `profiles/files/nrpeplugins/pmp-check-aws-rds.py`, the plugin that judges a database instance of
-- Amazon RDS by its CloudWatch statistics.
pub mod Floats
pub mod Stats
pub mod Outcome
pub mod Load
pub mod Free
pub mod Main
pub mod Cli
mod Tests
