-- ===== src/AwsRds/Outcome.antt =====
-- What the check of a metric comes to.
use puppet_stg_environment.Common.{ℕ, ◌≡◌, Option}
use puppet_stg_environment.Common.Text.{Text, codes}

-- `judged status note perf_data` goes on to the final output; `usage_error` is `parser.error`,
-- `leaves` an exit inside the check.
pub data Outcome : Type 0 where
  judged : ℕ → Text → Option Text → Outcome
  usage_error : Text → Outcome
  leaves : ℕ → Text → Outcome
  exception : Outcome

-- The status is that of everything in order.
abbrev pub IsOk : Outcome → Type 0
IsOk (judged status note perf) = status ≡ 0
IsOk (leaves status text) = status ≡ 0
IsOk _ = ⊥

-- The name of the CloudWatch metric behind each option of the plugin that has one.
abbrev pub cpu_utilization : Text
cpu_utilization = codes "CPUUtilization"

abbrev pub freeable_memory : Text
freeable_memory = codes "FreeableMemory"

abbrev pub free_storage_space : Text
free_storage_space = codes "FreeStorageSpace"
