-- ===== src/EtlServer.antt =====
-- `profiles/files/nrpeplugins/check_etl_server.py`, the plugin that asks the ETL server for its state.
-- What the `curl` of the state prints is a parameter.
use puppet_stg_environment.Common.{ℕ, ◌++◌, ◌==◌, if◌then◌else◌}
use puppet_stg_environment.Common.Text.{Text, text_eq, codes}

-- The exit status and the line that is printed.
pub record Report : Type 0 where
  pub status : ℕ
  pub error_msg : Text

abbrev message : Text → Text → Text
message level state = level ++ (codes ": ETL Server operating in " ++ (state ++ codes " state"))

unfoldable pub run : Text → Report
run state =
    if state == codes "NORMAL"
    then record { status = 0; error_msg = message (codes "OK") state }
    else if state == codes "SWEEPER"
    then record { status = 1; error_msg = message (codes "WARNING") state }
    else record { status = 2; error_msg = message (codes "CRITICAL") state }
