-- ===== src/Launches/Validation.antt =====
-- repositories/factoryFloorLaunchRepository.ts: `required`, `optional`, `timestamp` and
-- `validateInput`. Times are natural numbers.
use discordagent.Base.{
  ℕ, String, Bool, true, false, not, ◌&&◌, ◌||◌, ◌==◌, Option, none, some, Result, ok, err, ◌>>=◌,
  ◌>>◌, throw_if, leb, is_empty, if◌then◌else◌,
}
use discordagent.Dict.{get, is_some}
use discordagent.Text.{trim}
use discordagent.Tasks.Rows.{TaskHost}
use discordagent.Tasks.Repository.{find_project, or_now}
use discordagent.Launches.Rows.{
  FactoryFloorLaunchContextKind, project_kind, run_kind, FactoryFloorLaunchContext,
  ProjectBindingRow, SurfaceRow, RunRow, LaunchStore, CreateFactoryFloorLaunchInput,
  NormalizedCreateLaunchInput, LaunchError, missing, invalid, launch_expiry_invalid,
  installation_type_invalid, launch_context_invalid, project_not_found, conflict,
}

unfoldable pub required : String → String → Result LaunchError String
required value field =
    let normalized = trim value in
    if is_empty normalized then err (missing field) else ok normalized

abbrev pub nonempty : String → Option String
nonempty t = if is_empty t then none else some t

unfoldable pub optional : Option String → Option String
optional none = none
optional (some value) = nonempty (trim value)

unfoldable pub timestamp : ℕ → String → Result LaunchError ℕ
timestamp value field = if leb value 9007199254740991 then ok value else err (invalid field)

abbrev pub opt_beq : Option String → Option String → Bool
opt_beq none none = true
opt_beq (some s) (some t) = s == t
opt_beq none (some t) = false
opt_beq (some s) none = false

abbrev pub kind_beq : FactoryFloorLaunchContextKind → FactoryFloorLaunchContextKind → Bool
kind_beq project_kind project_kind = true
kind_beq run_kind run_kind = true
kind_beq project_kind run_kind = false
kind_beq run_kind project_kind = false

-- A project context names neither a surface nor a run, a run context both.
abbrev pub misfit : FactoryFloorLaunchContextKind → Option String → Option String → Bool
misfit project_kind surface run = is_some surface || is_some run
misfit run_kind surface run = not (is_some surface) || not (is_some run)

abbrev normalized :
    FactoryFloorLaunchContext
    → String
    → String
    → String
    → String
    → String
    → String
    → FactoryFloorLaunchContext
normalized c application owner guild channel principal project = record c {
  application_id = application;
  installation_owner_id = owner;
  guild_id = guild;
  channel_id = channel;
  thread_id = optional c.thread_id;
  principal_id = principal;
  factory_floor_project_id = project;
  surface_id = optional c.surface_id;
  run_id = optional c.run_id;
}

-- The fields of a context and the project's name, trimmed.
unfoldable pub normalize_context :
    FactoryFloorLaunchContext → String → Result LaunchError (FactoryFloorLaunchContext × String)
normalize_context c name = do
  application_id ← required c.application_id "application_id"
  installation_owner_id ← required c.installation_owner_id "installation_owner_id"
  guild_id ← required c.guild_id "guild_id"
  channel_id ← required c.channel_id "channel_id"
  principal_id ← required c.principal_id "principal_id"
  project_name ← required name "project_name"
  factory_floor_project_id ← required c.factory_floor_project_id "factory_floor_project_id"
  ok (
    normalized c application_id installation_owner_id guild_id channel_id principal_id
        factory_floor_project_id,
    project_name,
  )

unfoldable pub bound_project : FactoryFloorLaunchContext → Option ProjectBindingRow → Bool
bound_project c none = false
bound_project c (some b) =
    not (is_some b.retired_at)
    && b.factory_floor_project_id == c.factory_floor_project_id
    && b.guild_id == c.guild_id
    && b.guild_id == c.installation_owner_id

unfoldable pub bound_surface : FactoryFloorLaunchContext → String → Option SurfaceRow → Bool
bound_surface c project_id none = false
bound_surface c project_id (some s) =
    not (is_some s.retired_at)
    && s.local_project_id == project_id
    && s.guild_id == c.guild_id
    && s.channel_id == c.channel_id
    && (not (is_some c.thread_id) || opt_beq s.thread_id c.thread_id)

unfoldable pub bound_run : FactoryFloorLaunchContext → String → Option RunRow → Bool
bound_run c project_id none = false
bound_run c project_id (some r) =
    not (is_some r.retired_at)
    && r.local_project_id == project_id
    && opt_beq (some r.surface_id) c.surface_id

abbrev lookup {ℓ} : {V : Type ℓ} → (String → Option V) → Option String → Option V
lookup f none = none
lookup f (some id) = f id

-- The bindings that a run context is checked against.
unfoldable pub check_run :
    LaunchStore
    → FactoryFloorLaunchContext
    → String
    → FactoryFloorLaunchContextKind
    → Result LaunchError (Unit {0})
check_run s c project_id project_kind = ok tt
check_run s c project_id run_kind = do
  throw_if (not (bound_surface c project_id (lookup (λ id. get id s.surfaces) c.surface_id)))
      (conflict "surface_binding_mismatch")
  throw_if (not (bound_run c project_id (lookup (λ id. get id s.runs) c.run_id)))
      (conflict "run_binding_mismatch")
  ok tt

abbrev found_project : Option String → Result LaunchError String
found_project none = err project_not_found
found_project (some id) = ok id

-- The checks that follow the fields.
unfoldable pub check_bindings :
    TaskHost → LaunchStore → FactoryFloorLaunchContext → String → Result LaunchError String
check_bindings h s c project_name = do
  throw_if (misfit c.context_kind c.surface_id c.run_id) launch_context_invalid
  project_id ← found_project (find_project h project_name s.projects)
  throw_if (not (bound_project c (get project_id s.project_bindings)))
      (conflict "project_binding_mismatch")
  check_run s c project_id c.context_kind
  ok project_id

unfoldable pub validate_input :
    TaskHost
    → LaunchStore
    → CreateFactoryFloorLaunchInput
    → ℕ
    → Result LaunchError NormalizedCreateLaunchInput
validate_input h s input clock = do
  created_at ← timestamp (or_now input.created_at clock) "created_at"
  expires_at ← timestamp input.expires_at "expires_at"
  throw_if (leb expires_at created_at) launch_expiry_invalid
  throw_if (not (input.context.installation_type == "guild")) installation_type_invalid
  state_id ← required input.state_id "state_id"
  interaction_id ← required input.interaction_id "interaction_id"
  named ← normalize_context input.context input.project_name
  project_id ← check_bindings h s named.0 named.1
  ok (record {
    state_id = state_id;
    interaction_id = interaction_id;
    project_name = named.1;
    context = named.0;
    created_at = created_at;
    expires_at = expires_at;
    local_project_id = project_id;
  })
