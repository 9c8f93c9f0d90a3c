-- ===== src/Usage/Rows.antt =====
-- repositories/usageRepository.ts and db/schema.ts: snapshots, reservations and observations.
use discordagent.Base.{ℕ, String, Option, List}
use discordagent.Dict.{Dict}
use discordagent.Tasks.Rows.{AgentProviderId}

pub data EstimateConfidence : Type 0 where
  low_confidence : EstimateConfidence
  medium_confidence : EstimateConfidence
  high_confidence : EstimateConfidence

pub data ReservationStatus : Type 0 where
  held : ReservationStatus
  released : ReservationStatus
  consumed_hold : ReservationStatus

pub record UsageSnapshot : Type 0 where
  pub provider : AgentProviderId
  pub window_type : String
  pub utilization : Option ℕ
  pub remaining : Option ℕ
  pub resets_at : Option ℕ
  pub captured_at : ℕ

-- A reservation without its id, which is its key.
pub record UsageReservation : Type 0 where
  pub task_id : Option String
  pub provider : AgentProviderId
  pub task_class : String
  pub low : ℕ
  pub high : ℕ
  pub confidence : EstimateConfidence
  pub status : ReservationStatus
  pub actual_cost : Option ℕ
  pub created_at : ℕ
  pub released_at : Option ℕ

pub record UsageObservation : Type 0 where
  pub provider : AgentProviderId
  pub task_class : String
  pub actual_cost : ℕ
  pub token_count : Option ℕ
  pub duration_ms : Option ℕ
  pub recorded_at : ℕ

-- Snapshots and observations are in the order of their insertion.
pub record UsageStore : Type 0 where
  pub snapshots : List UsageSnapshot
  pub reservations : Dict UsageReservation
  pub observations : List UsageObservation

pub record HoldInput : Type 0 where
  pub provider : AgentProviderId
  pub task_class : String
  pub low : ℕ
  pub high : ℕ
  pub confidence : EstimateConfidence

pub data UsagePosture : Type 0 where
  unknown : UsagePosture
  healthy : UsagePosture
  cautious : UsagePosture
  restricted : UsagePosture
  preserve : UsagePosture
  exhausted : UsagePosture

-- A `UsageAdmissionError` with its posture and whether it says to narrow the scope; an `Error` by its
-- message; and a violated constraint of the table.
pub data UsageError : Type 0 where
  not_admitted : UsagePosture → (narrow : String) → UsageError
  usage_failed : String → UsageError
  usage_constraint : UsageError
