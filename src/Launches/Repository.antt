-- ===== src/Launches/Repository.antt =====
-- repositories/factoryFloorLaunchRepository.ts: creation, consumption, invalidation and cleanup of
-- launch states. `toLowerCase` is a parameter of the comparison of project names in
-- `sameTrustedContext`.
use discordagent.Base.{
  ℕ, String, Bool, false, not, ◌&&◌, ◌==◌, Option, none, some, [], ◌∷◌, Result, ok, err, ◌>>=◌, ltb,
  if◌then◌else◌, length, ◌-◌,
}
use discordagent.Dict.{Dict, get, set, has, is_some}
use discordagent.Tasks.Rows.{TaskHost}
use discordagent.Tasks.Repository.{find_project}
use discordagent.Launches.Rows.{
  FactoryFloorLaunchContext, LaunchRow, LaunchStore, FactoryFloorLaunchRecord,
  CreateFactoryFloorLaunchInput, ConsumeFactoryFloorLaunchInput, NormalizedCreateLaunchInput,
  LaunchError, conflict,
}
use discordagent.Launches.Validation.{
  required, timestamp, opt_beq, kind_beq, normalize_context, validate_input,
}

abbrev pub Reply : Type 0 → Type 0
Reply A = LaunchStore × Result LaunchError A

-- A row of `SELECT_LAUNCH`.
unfoldable pub joined_launch :
    LaunchStore → String → Option LaunchRow → Option FactoryFloorLaunchRecord
joined_launch s id none = none
joined_launch s id (some row) = elim (get row.local_project_id s.projects) [
  | none ↦ none
  | some p ↦ some (record { state_id = id; project_name = p.name; row = row })
]

unfoldable pub find_launch :
    LaunchStore → String → Result LaunchError (Option FactoryFloorLaunchRecord)
find_launch s state_id = do
  id ← required state_id "state_id"
  ok (joined_launch s id (get id s.launches))

unfoldable pub same_context : FactoryFloorLaunchContext → FactoryFloorLaunchContext → Bool
same_context a b =
    a.application_id == b.application_id
    && a.installation_type == b.installation_type
    && a.installation_owner_id == b.installation_owner_id
    && a.guild_id == b.guild_id
    && a.channel_id == b.channel_id
    && opt_beq a.thread_id b.thread_id
    && a.principal_id == b.principal_id
    && a.factory_floor_project_id == b.factory_floor_project_id
    && opt_beq a.surface_id b.surface_id
    && opt_beq a.run_id b.run_id
    && kind_beq a.context_kind b.context_kind

-- `sameTrustedContext`.
unfoldable pub same_trusted_context :
    (String → String) → FactoryFloorLaunchRecord → NormalizedCreateLaunchInput → Bool
same_trusted_context lower launch input =
    launch.row.interaction_id == input.interaction_id
    && lower launch.project_name == lower input.project_name
    && same_context launch.row.context input.context

-- The row with an interaction id, which is UNIQUE.
unfoldable pub with_interaction : String → Dict LaunchRow → Option (String × LaunchRow)
with_interaction interaction [] = none
with_interaction interaction ((id, row) ∷ d) =
    if row.interaction_id == interaction then some (id, row) else with_interaction interaction d

unfoldable pub find_by_interaction : LaunchStore → String → Option FactoryFloorLaunchRecord
find_by_interaction s interaction = elim (with_interaction interaction s.launches) [
  | none ↦ none
  | some (id, row) ↦ joined_launch s id (some row)
]

abbrev pub new_launch : NormalizedCreateLaunchInput → LaunchRow
new_launch n = record {
  interaction_id = n.interaction_id;
  context = n.context;
  local_project_id = n.local_project_id;
  created_at = n.created_at;
  expires_at = n.expires_at;
  consumed_at = none;
  invalidated_at = none;
  invalidation_reason = none;
}

-- The rest of `create` once the input is valid and the interaction has been looked up.
unfoldable pub create_valid :
    (String → String)
    → LaunchStore
    → NormalizedCreateLaunchInput
    → Option FactoryFloorLaunchRecord
    → Reply (Option FactoryFloorLaunchRecord)
create_valid lower s n (some existing) =
    if same_trusted_context lower existing n
    then (s, ok (some existing))
    else (s, err (conflict "launch_interaction_conflict"))
create_valid lower s n none =
    if has n.state_id s.launches
    then (s, err (conflict "launch_state_conflict"))
    else let s' = record s { launches = set n.state_id (new_launch n) s.launches } in
      (s', find_launch s' n.state_id)

abbrev pub after_validation :
    LaunchStore
    → Result LaunchError NormalizedCreateLaunchInput
    → (NormalizedCreateLaunchInput → Reply (Option FactoryFloorLaunchRecord))
    → Reply (Option FactoryFloorLaunchRecord)
after_validation s (err x) next = (s, err x)
after_validation s (ok n) next = next n

unfoldable pub create_launch :
    (String → String)
    → TaskHost
    → LaunchStore
    → CreateFactoryFloorLaunchInput
    → ℕ
    → Reply (Option FactoryFloorLaunchRecord)
create_launch lower h s input clock =
    after_validation s (validate_input h s input clock)
      (λ n. create_valid lower s n (find_by_interaction s n.interaction_id))

-- `local_project_id = (SELECT id FROM projects ...)`.
abbrev pub is_project : String → Option String → Bool
is_project id none = false
is_project id (some p) = id == p

-- The WHERE clause of `consume`.
unfoldable pub consumable :
    TaskHost → LaunchStore → ℕ → FactoryFloorLaunchContext → String → LaunchRow → Bool
consumable h s now expected project_name row =
    not (is_some row.consumed_at)
    && not (is_some row.invalidated_at)
    && ltb now row.expires_at
    && is_project row.local_project_id (find_project h project_name s.projects)
    && same_context row.context expected

abbrev pub consumed : ℕ → LaunchRow → LaunchRow
consumed now row = record row { consumed_at = some now }

-- The statement on the row of a state id: the store where it changed one row.
unfoldable pub update_launch :
    LaunchStore → String → (LaunchRow → Bool) → (LaunchRow → LaunchRow) → Option LaunchStore
update_launch s id guard change = elim (get id s.launches) [
  | none ↦ none
  | some row ↦
      if guard row then some (record s { launches = set id (change row) s.launches }) else none
]

-- `result.changes === 1 ? findByStateId(id) : undefined`.
abbrev pub changed_one :
    LaunchStore → String → Option LaunchStore → Reply (Option FactoryFloorLaunchRecord)
changed_one s id none = (s, ok none)
changed_one s id (some s') = (s', find_launch s' id)

abbrev pub or_throw :
    LaunchStore
    → Result LaunchError (Option LaunchStore)
    → String
    → Reply (Option FactoryFloorLaunchRecord)
or_throw s (err x) id = (s, err x)
or_throw s (ok o) id = changed_one s id o

unfoldable pub consume_write :
    TaskHost
    → LaunchStore
    → ConsumeFactoryFloorLaunchInput
    → Result LaunchError (Option LaunchStore)
consume_write h s input = do
  now ← timestamp input.now "consumed_at"
  id ← required input.state_id "state_id"
  named ← normalize_context input.expected input.project_name
  ok (update_launch s id (consumable h s now named.0 named.1) (consumed now))

unfoldable pub consume :
    TaskHost
    → LaunchStore
    → ConsumeFactoryFloorLaunchInput
    → Reply (Option FactoryFloorLaunchRecord)
consume h s input = or_throw s (consume_write h s input) input.state_id

abbrev pub pending : LaunchRow → Bool
pending row = not (is_some row.consumed_at) && not (is_some row.invalidated_at)

abbrev pub invalidated : TaskHost → ℕ → String → LaunchRow → LaunchRow
invalidated h at reason row = record row {
  invalidated_at = some at;
  invalidation_reason = some (h.redact_sensitive_text reason);
}

unfoldable pub invalidate_write :
    TaskHost → LaunchStore → String → String → ℕ → Result LaunchError (Option LaunchStore)
invalidate_write h s state_id reason invalidated_at = do
  id ← required state_id "state_id"
  at ← timestamp invalidated_at "invalidated_at"
  why ← required reason "invalidation_reason"
  ok (update_launch s id pending (invalidated h at why))

-- The source reads the launch by the trimmed id; `find_launch` trims it.
unfoldable pub invalidate :
    TaskHost → LaunchStore → String → String → ℕ → Reply (Option FactoryFloorLaunchRecord)
invalidate h s state_id reason at = or_throw s (invalidate_write h s state_id reason at) state_id

-- The WHERE clause of `cleanup`, negated.
abbrev pub survives : ℕ → LaunchRow → Bool
survives now row = ltb now row.expires_at && pending row

unfoldable pub kept : ℕ → Dict LaunchRow → Dict LaunchRow
kept now [] = []
kept now ((id, row) ∷ d) =
    let rest = kept now d in if survives now row then (id, row) ∷ rest else rest

unfoldable pub cleanup : LaunchStore → ℕ → Reply ℕ
cleanup s now = elim (timestamp now "cleanup_at") [
  | err x ↦ (s, err x)
  | ok at ↦ (
    record s { launches = kept at s.launches },
    ok (length s.launches - length (kept at s.launches)),
  )
]
