-- ===== src/Bindings/Finds.antt =====
-- repositories/factoryFloorBindingRepository.ts: the reads. A row is returned with its key.
use discordagent.Base.{
  String, Bool, false, not, ◌&&◌, ◌==◌, Option, none, some, [], ◌∷◌, if◌then◌else◌,
}
use discordagent.Dict.{Dict, get, is_some}
use discordagent.Text.{trim}
use discordagent.Tasks.Rows.{ProjectRow, TaskHost}
use discordagent.Tasks.Repository.{find_project}
use discordagent.Bindings.Rows.{ProjectBindingRow, SurfaceBindingRow, RunBindingRow, BindingStore}
use discordagent.Bindings.Repository.{has_activity, has_message, has_thread}

-- `row`, if it is there and passes a test.
unfoldable pub only_if {ℓ} : {V : Type ℓ} → (V → Bool) → Option V → Option V
only_if test none = none
only_if test (some v) = if test v then some v else none

abbrev pub keyed {ℓ} : {V : Type ℓ} → String → Option V → Option (String × V)
keyed k none = none
keyed k (some v) = some (k, v)

-- `JOIN projects`, and `projectIsActive` of the project's name.
abbrev pub joined_active : TaskHost → Dict ProjectRow → Option ProjectRow → Bool
joined_active h projects none = false
joined_active h projects (some p) = is_some (find_project h p.name projects)

unfoldable pub project_is_active : TaskHost → BindingStore → String → Bool
project_is_active h s project = joined_active h s.projects (get project s.projects)

abbrev named_binding : BindingStore → Option String → Option (String × ProjectBindingRow)
named_binding s none = none
named_binding s (some id) =
    only_if (λ e. not (is_some e.1.retired_at)) (keyed id (get id s.project_bindings))

unfoldable pub find_project_by_name :
    TaskHost → BindingStore → String → Option (String × ProjectBindingRow)
find_project_by_name h s name = named_binding s (find_project h (trim name) s.projects)

-- The first row that passes a test: the column is UNIQUE.
unfoldable pub first_with {ℓ} : {V : Type ℓ} → (V → Bool) → Dict V → Option (String × V)
first_with test [] = none
first_with test ((k, v) ∷ d) = if test v then some (k, v) else first_with test d

unfoldable pub find_project_by_factory_floor_id :
    TaskHost → BindingStore → String → Option (String × ProjectBindingRow)
unfolding project_is_active
find_project_by_factory_floor_id h s factory =
    only_if (λ e. not (is_some e.1.retired_at) && project_is_active h s e.0)
      (first_with (λ b. b.factory_floor_project_id == trim factory) s.project_bindings)

unfoldable pub active_surface :
    TaskHost
    → BindingStore
    → Option (String × SurfaceBindingRow)
    → Option (String × SurfaceBindingRow)
active_surface h s =
    only_if (λ e. not (is_some e.1.retired_at) && project_is_active h s e.1.local_project_id)

unfoldable pub find_surface_by_id :
    TaskHost → BindingStore → String → Option (String × SurfaceBindingRow)
find_surface_by_id h s id = active_surface h s (keyed (trim id) (get (trim id) s.surfaces))

unfoldable pub find_surface_by_thread :
    TaskHost → BindingStore → String → String → String → Option (String × SurfaceBindingRow)
find_surface_by_thread h s guild channel thread =
    active_surface h s
      (first_with (has_thread (trim guild) (trim channel) (trim thread)) s.surfaces)

unfoldable pub find_surface_by_message :
    TaskHost → BindingStore → String → Option (String × SurfaceBindingRow)
find_surface_by_message h s message =
    active_surface h s (first_with (has_message (trim message)) s.surfaces)

unfoldable pub find_surface_by_activity_instance :
    TaskHost → BindingStore → String → Option (String × SurfaceBindingRow)
find_surface_by_activity_instance h s activity =
    active_surface h s (first_with (has_activity (trim activity)) s.surfaces)

unfoldable pub find_run : TaskHost → BindingStore → String → Option (String × RunBindingRow)
find_run h s run =
    only_if (λ e. not (is_some e.1.retired_at) && project_is_active h s e.1.local_project_id)
      (keyed (trim run) (get (trim run) s.runs))
