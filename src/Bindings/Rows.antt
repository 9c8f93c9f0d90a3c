-- ===== src/Bindings/Rows.antt =====
-- repositories/factoryFloorBindingRepository.ts and db/factoryFloorBindingsMigration.ts: the three
-- tables of bindings, each keyed by its primary key.
use discordagent.Base.{ℕ, String, Option}
use discordagent.Dict.{Dict}
use discordagent.Tasks.Rows.{ProjectRow}

pub record ProjectBindingRow : Type 0 where
  pub factory_floor_project_id : String
  pub guild_id : String
  pub created_at : ℕ
  pub updated_at : ℕ
  pub retired_at : Option ℕ

pub record SurfaceBindingRow : Type 0 where
  pub local_project_id : String
  pub guild_id : String
  pub channel_id : String
  pub thread_id : Option String
  pub message_id : Option String
  pub activity_instance_id : Option String
  pub created_at : ℕ
  pub updated_at : ℕ
  pub retired_at : Option ℕ

pub record RunBindingRow : Type 0 where
  pub local_project_id : String
  pub surface_id : String
  pub created_at : ℕ
  pub updated_at : ℕ
  pub retired_at : Option ℕ

pub record BindingStore : Type 0 where
  pub projects : Dict ProjectRow
  pub project_bindings : Dict ProjectBindingRow
  pub surfaces : Dict SurfaceBindingRow
  pub runs : Dict RunBindingRow

pub record BindProjectInput : Type 0 where
  pub project_name : String
  pub factory_floor_project_id : String
  pub guild_id : String

pub record BindSurfaceInput : Type 0 where
  pub project_name : String
  pub guild_id : String
  pub channel_id : String
  pub thread_id : Option String
  pub message_id : Option String
  pub activity_instance_id : Option String

pub record BindRunInput : Type 0 where
  pub project_name : String
  pub surface_id : String
  pub run_id : String

-- `Error`s by their messages, `FactoryFloorBindingConflictError`s by their codes, and a violated
-- primary key.
pub data BindingError : Type 0 where
  failed : String → BindingError
  conflict : String → BindingError
  constraint_failed : BindingError
