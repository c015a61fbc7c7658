-- ===== src/CheckIo/NagiosData.antt =====
-- `NagiosData`: the exit status and message that the checks build up.
pub mod Worst
use puppet_stg_environment.Common.{ℕ, List, [], ◌∷◌, ◌++◌, ltb, eqb, if◌then◌else◌}
use puppet_stg_environment.Common.Text.{codes}
use puppet_stg_environment.CheckIo.Message.{Message, literal, is_empty}

pub record NagiosData : Type 0 where
  pub exit_status : ℕ
  pub exit_message : Message

-- What `exit` prints, and the status it ends the program with.
pub record Exit : Type 0 where
  pub code : ℕ
  pub printed : Message

-- `__init__`
abbrev pub initial : NagiosData
initial = record { exit_status = 0; exit_message = [] }

unfoldable pub exit : NagiosData → Exit
unfolding is_empty codes
exit n =
    if is_empty n.exit_message
    then (if eqb n.exit_status 0
        then record { code = 0; printed = literal "Everything is OK" ∷ [] }
        else record {
          code = 3;
          printed = literal "Script terminated abnormally for unknown reason" ∷ [];
        })
    else record { code = n.exit_status; printed = n.exit_message }

-- `updateData` with one status and one message, the way `main` calls it: one round of its loop.
unfoldable pub update_one : ℕ → Message → NagiosData → NagiosData
update_one status message n = record {
  exit_status = if ltb n.exit_status status then status else n.exit_status;
  exit_message = n.exit_message ++ (message ++ literal " " ∷ []);
}

-- The loop of `main` over the verdicts on the devices.
unfoldable pub update_data : List (ℕ × Message) → NagiosData → NagiosData
update_data [] n = n
update_data ((status, message) ∷ new_data) n = update_data new_data (update_one status message n)

unfoldable pub set_data : ℕ → Message → NagiosData → NagiosData
set_data status message n = record { exit_status = status; exit_message = message }
