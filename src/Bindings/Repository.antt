-- ===== src/Bindings/Repository.antt =====
-- repositories/factoryFloorBindingRepository.ts: the binding of projects and of surfaces. An
-- operation is given as the store it leaves with the key of the row that it returns; `Date.now()` and
-- `randomUUID()` are arguments. A row is read with its project, which the foreign keys give.
use discordagent.Base.{
  ℕ, String, Bool, true, false, not, ◌&&◌, ◌||◌, ◌==◌, Option, none, some, List, [], ◌∷◌, ◌++◌, any,
  is_empty, Result, ok, err, ◌>>=◌, ◌>>◌, throw_if, if◌then◌else◌,
}
use discordagent.Dict.{Dict, get, set, has, is_some}
use discordagent.Text.{trim}
use discordagent.Tasks.Rows.{TaskHost}
use discordagent.Tasks.Repository.{find_project}
use discordagent.Bindings.Rows.{
  ProjectBindingRow, SurfaceBindingRow, BindingStore, BindProjectInput, BindSurfaceInput,
  BindingError, failed, conflict, constraint_failed,
}

abbrev pub Written : Type 0
Written = Result BindingError (BindingStore × String)

abbrev required_text : String → String → Result BindingError String
required_text trimmed message = if is_empty trimmed then err (failed message) else ok trimmed

unfoldable pub required : String → String → Result BindingError String
required value message = required_text (trim value) message

abbrev pub nonempty : String → Option String
nonempty t = if is_empty t then none else some t

unfoldable pub optional : Option String → Option String
optional none = none
optional (some value) = nonempty (trim value)

abbrev found_local : Option String → Result BindingError String
found_local none = err (failed "project_not_found")
found_local (some id) = ok id

-- The id of the unarchived project with a name.
unfoldable pub local_project : TaskHost → BindingStore → String → Result BindingError String
local_project h s name = do
  trimmed ← required name "project_name_required"
  found_local (find_project h trimmed s.projects)

abbrev not_bound : Result BindingError (String × ProjectBindingRow)
not_bound = err (failed "factory_floor_project_not_bound")

abbrev pub active_binding :
    String → Option ProjectBindingRow → Result BindingError (String × ProjectBindingRow)
active_binding id none = not_bound
active_binding id (some b) = if is_some b.retired_at then not_bound else ok (id, b)

unfoldable pub active_project :
    TaskHost → BindingStore → String → Result BindingError (String × ProjectBindingRow)
active_project h s name = do
  id ← local_project h s name
  active_binding id (get id s.project_bindings)

abbrev pub new_binding : String → String → ℕ → ProjectBindingRow
new_binding factory guild now = record {
  factory_floor_project_id = factory;
  guild_id = guild;
  created_at = now;
  updated_at = now;
  retired_at = none;
}

abbrev pub rebound : ℕ → ProjectBindingRow → ProjectBindingRow
rebound now b = record b { retired_at = none; updated_at = now }

-- `bindProject` after its reads.
unfoldable pub bind_project_row :
    BindingStore → String → String → String → ℕ → Option ProjectBindingRow → Written
bind_project_row s id factory guild now (some b) =
    if not (b.factory_floor_project_id == factory) || not (b.guild_id == guild)
    then err (conflict "project_binding_conflict")
    else if is_some b.retired_at
    then ok (record s { project_bindings = set id (rebound now b) s.project_bindings }, id)
    else ok (s, id)
bind_project_row s id factory guild now none =
    if any (λ e. e.1.factory_floor_project_id == factory) s.project_bindings
    then err (conflict "factory_floor_project_already_bound")
    else ok (
      record s { project_bindings = set id (new_binding factory guild now) s.project_bindings },
      id,
    )

unfoldable pub bind_project : TaskHost → BindingStore → BindProjectInput → ℕ → Written
bind_project h s input now = do
  id ← local_project h s input.project_name
  factory ← required input.factory_floor_project_id "factory_floor_project_id_required"
  guild ← required input.guild_id "guild_id_required"
  bind_project_row s id factory guild now (get id s.project_bindings)

abbrev pub opt_is : Option String → String → Bool
opt_is none t = false
opt_is (some s) t = s == t

-- The surfaces that a nonempty identity names: none or one, since it is UNIQUE.
unfoldable pub surfaces_with :
    (SurfaceBindingRow → Bool) → Dict SurfaceBindingRow → List (String × SurfaceBindingRow)
surfaces_with test [] = []
surfaces_with test ((id, r) ∷ d) = if test r then (id, r) ∷ [] else surfaces_with test d

abbrev pub has_activity : String → SurfaceBindingRow → Bool
has_activity t r = opt_is r.activity_instance_id t

abbrev pub has_message : String → SurfaceBindingRow → Bool
has_message t r = opt_is r.message_id t

abbrev pub has_thread : String → String → String → SurfaceBindingRow → Bool
has_thread guild channel t r =
    r.guild_id == guild && r.channel_id == channel && opt_is r.thread_id t

-- `identity ? select.get(identity) : undefined`.
unfoldable pub named_by :
    Option String
    → (String → SurfaceBindingRow → Bool)
    → Dict SurfaceBindingRow
    → List (String × SurfaceBindingRow)
named_by none test d = []
named_by (some t) test d = surfaces_with (test t) d

-- The identities of a surface, trimmed.
pub record Identity : Type 0 where
  pub thread : Option String
  pub message : Option String
  pub activity : Option String

unfoldable pub surface_candidates :
    Dict SurfaceBindingRow → String → String → Identity → List (String × SurfaceBindingRow)
surface_candidates d guild channel i =
    named_by i.activity has_activity d
    ++ named_by i.message has_message d
    ++ named_by i.thread (has_thread guild channel) d

unfoldable pub reconciled_identity :
    Option String → Option String → Result BindingError (Option String)
reconciled_identity (some c) (some n) =
    if c == n then ok (some n) else err (conflict "surface_binding_conflict")
reconciled_identity (some c) none = ok (some c)
reconciled_identity none n = ok n

abbrev pub same_identity : Option String → Option String → Bool
same_identity none none = true
same_identity (some a) (some b) = a == b
same_identity none (some b) = false
same_identity (some a) none = false

abbrev pub merged :
    ℕ → SurfaceBindingRow → Option String → Option String → Option String → SurfaceBindingRow
merged now r thread message activity = record r {
  thread_id = thread;
  message_id = message;
  activity_instance_id = activity;
  retired_at = none;
  updated_at = now;
}

-- Nothing is written where the surface is active and has these identities.
unfoldable pub reconciled_surface :
    BindingStore
    → ℕ
    → String
    → SurfaceBindingRow
    → Option String
    → Option String
    → Option String
    → BindingStore
reconciled_surface s now id r thread message activity =
    if not (is_some r.retired_at)
      && same_identity r.thread_id thread
      && same_identity r.message_id message
      && same_identity r.activity_instance_id activity
    then s
    else record s { surfaces = set id (merged now r thread message activity) s.surfaces }

-- A surface that a candidate has been found for.
unfoldable pub merge_surface :
    BindingStore → String → String → String → Identity → ℕ → String → SurfaceBindingRow → Written
merge_surface s project guild channel i now id r = do
  throw_if
      (not (r.local_project_id == project)
        || not (r.guild_id == guild)
        || not (r.channel_id == channel))
      (conflict "surface_binding_conflict")
  thread ← reconciled_identity r.thread_id i.thread
  message ← reconciled_identity r.message_id i.message
  activity ← reconciled_identity r.activity_instance_id i.activity
  ok (reconciled_surface s now id r thread message activity, id)

abbrev pub new_surface : String → String → String → Identity → ℕ → SurfaceBindingRow
new_surface project guild channel i now = record {
  local_project_id = project;
  guild_id = guild;
  channel_id = channel;
  thread_id = i.thread;
  message_id = i.message;
  activity_instance_id = i.activity;
  created_at = now;
  updated_at = now;
  retired_at = none;
}

-- The candidates, which must have one id, or a new surface.
unfoldable pub place_surface :
    BindingStore
    → String
    → String
    → String
    → Identity
    → ℕ
    → String
    → List (String × SurfaceBindingRow)
    → Written
place_surface s project guild channel i now uuid [] =
    if has uuid s.surfaces
    then err constraint_failed
    else ok (
      record s { surfaces = set uuid (new_surface project guild channel i now) s.surfaces },
      uuid,
    )
place_surface s project guild channel i now uuid ((id, r) ∷ rest) =
    if any (λ e. not (e.0 == id)) rest
    then err (conflict "surface_identity_conflict")
    else merge_surface s project guild channel i now id r

abbrev pub is_anonymous : Identity → Bool
is_anonymous i = not (is_some i.thread || is_some i.message || is_some i.activity)

abbrev pub identity_of : BindSurfaceInput → Identity
identity_of input = record {
  thread = optional input.thread_id;
  message = optional input.message_id;
  activity = optional input.activity_instance_id;
}

unfoldable pub bind_surface : TaskHost → BindingStore → BindSurfaceInput → ℕ → String → Written
unfolding optional
bind_surface h s input now uuid = do
  bound ← active_project h s input.project_name
  guild ← required input.guild_id "guild_id_required"
  channel ← required input.channel_id "channel_id_required"
  throw_if (is_anonymous (identity_of input)) (failed "surface_identity_required")
  throw_if (not (bound.1.guild_id == guild)) (conflict "surface_guild_mismatch")
  place_surface s bound.0 guild channel (identity_of input) now uuid
      (surface_candidates s.surfaces guild channel (identity_of input))
