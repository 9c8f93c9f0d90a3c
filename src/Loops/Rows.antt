-- ===== src/Loops/Rows.antt =====
-- repositories/loopRepository.ts and db/loopSchemaMigration.ts: the rows of the loop table, which is
-- keyed by the loop's id, and the records read from them.
use discordagent.Base.{ℕ, String, Bool, true, false, Option}
use discordagent.Dict.{Dict}
use discordagent.Tasks.Rows.{ProjectRow}

pub data ScheduledLoopStatus : Type 0 where
  active running stopped terminal : ScheduledLoopStatus

-- `status IN ('active', 'running')`.
unfoldable pub is_live : ScheduledLoopStatus → Bool
is_live active = true
is_live running = true
is_live stopped = false
is_live terminal = false

pub record LoopRow : Type 0 where
  pub project_id : String
  pub channel_id : String
  pub thread_id : String
  pub prompt : String
  pub interval_ms : ℕ
  pub iteration : ℕ
  pub next_run_at : Option ℕ
  pub status : ScheduledLoopStatus
  pub started_by : String
  pub started_at : ℕ
  pub updated_at : ℕ
  pub stopped_at : Option ℕ
  pub stop_reason : Option String

pub record LoopStore : Type 0 where
  pub projects : Dict ProjectRow
  pub loops : Dict LoopRow

pub record ScheduledLoopRecord : Type 0 where
  pub id : String
  pub project_name : String
  pub channel_id : String
  pub thread_id : String
  pub prompt : String
  pub interval_ms : ℕ
  pub iteration : ℕ
  pub next_run_at : Option ℕ
  pub status : ScheduledLoopStatus
  pub started_by : String
  pub started_at : ℕ
  pub updated_at : ℕ
  pub stopped_at : Option ℕ
  pub stop_reason : Option String

-- The interval is a natural number here: a negative one or a fraction is refused as 0 is.
pub record CreateScheduledLoopInput : Type 0 where
  pub id : String
  pub project_name : String
  pub channel_id : String
  pub thread_id : String
  pub prompt : String
  pub interval_ms : ℕ
  pub started_by : String
  pub started_at : Option ℕ

-- One constructor for each `throw`, and one for a constraint that the INSERT violates.
pub data LoopError : Type 0 where
  interval_not_positive : LoopError
  channel_taken : String → LoopError
  project_not_found : String → LoopError
  constraint_failed : LoopError
