-- ===== src/Launches/Rows.antt =====
-- repositories/factoryFloorLaunchRepository.ts: launch states, keyed by their state id, and the
-- bindings that they are checked against. The columns that the trusted context fixes are one record;
-- the project's name is read by a join.
use discordagent.Base.{ℕ, String, Option}
use discordagent.Dict.{Dict}
use discordagent.Tasks.Rows.{ProjectRow}

pub data FactoryFloorLaunchContextKind : Type 0 where
  project_kind run_kind : FactoryFloorLaunchContextKind

pub record FactoryFloorLaunchContext : Type 0 where
  pub application_id : String
  pub installation_type : String
  pub installation_owner_id : String
  pub guild_id : String
  pub channel_id : String
  pub thread_id : Option String
  pub principal_id : String
  pub factory_floor_project_id : String
  pub surface_id : Option String
  pub run_id : Option String
  pub context_kind : FactoryFloorLaunchContextKind

pub record LaunchRow : Type 0 where
  pub interaction_id : String
  pub context : FactoryFloorLaunchContext
  pub local_project_id : String
  pub created_at : ℕ
  pub expires_at : ℕ
  pub consumed_at : Option ℕ
  pub invalidated_at : Option ℕ
  pub invalidation_reason : Option String

pub record ProjectBindingRow : Type 0 where
  pub factory_floor_project_id : String
  pub guild_id : String
  pub retired_at : Option ℕ

pub record SurfaceRow : Type 0 where
  pub local_project_id : String
  pub guild_id : String
  pub channel_id : String
  pub thread_id : Option String
  pub retired_at : Option ℕ

pub record RunRow : Type 0 where
  pub local_project_id : String
  pub surface_id : String
  pub retired_at : Option ℕ

pub record LaunchStore : Type 0 where
  pub projects : Dict ProjectRow
  pub project_bindings : Dict ProjectBindingRow
  pub surfaces : Dict SurfaceRow
  pub runs : Dict RunRow
  pub launches : Dict LaunchRow

pub record FactoryFloorLaunchRecord : Type 0 where
  pub state_id : String
  pub project_name : String
  pub row : LaunchRow

pub record CreateFactoryFloorLaunchInput : Type 0 where
  pub state_id : String
  pub interaction_id : String
  pub project_name : String
  pub context : FactoryFloorLaunchContext
  pub created_at : Option ℕ
  pub expires_at : ℕ

pub record ConsumeFactoryFloorLaunchInput : Type 0 where
  pub state_id : String
  pub now : ℕ
  pub project_name : String
  pub expected : FactoryFloorLaunchContext

pub record NormalizedCreateLaunchInput : Type 0 where
  pub state_id : String
  pub interaction_id : String
  pub project_name : String
  pub context : FactoryFloorLaunchContext
  pub created_at : ℕ
  pub expires_at : ℕ
  pub local_project_id : String

-- One constructor for each `throw`; `conflict` is `FactoryFloorLaunchConflictError`.
pub data LaunchError : Type 0 where
  missing : String → LaunchError
  invalid : String → LaunchError
  launch_expiry_invalid : LaunchError
  installation_type_invalid : LaunchError
  launch_context_invalid : LaunchError
  project_not_found : LaunchError
  conflict : String → LaunchError
