-- ===== src/Bindings/Runs.antt =====
-- repositories/factoryFloorBindingRepository.ts: the binding of runs, and what retires bindings; and
-- the trigger of db/factoryFloorBindingsMigration.ts on archived projects.
use discordagent.Base.{
  ℕ, String, Bool, false, not, ◌&&◌, ◌||◌, ◌==◌, Option, none, some, [], ◌∷◌, any, Result, ok, err,
  ◌>>=◌, ◌>>◌, throw_if, if◌then◌else◌,
}
use discordagent.Dict.{Dict, get, set, is_some}
use discordagent.Text.{trim}
use discordagent.Tasks.Rows.{ProjectRow, TaskHost}
use discordagent.Bindings.Rows.{
  ProjectBindingRow, SurfaceBindingRow, RunBindingRow, BindingStore, BindRunInput, BindingError,
  failed, conflict,
}
use discordagent.Bindings.Repository.{Written, required, active_project}

-- `surface_id = ? AND retired_at IS NULL`.
abbrev pub is_active_on : String → RunBindingRow → Bool
is_active_on surface x = x.surface_id == surface && not (is_some x.retired_at)

-- An active run of the surface that is not this one: a surface has one active run at most.
abbrev pub other_run : String → String → String × RunBindingRow → Bool
other_run surface run e = is_active_on surface e.1 && not (e.0 == run)

abbrev pub new_run : String → String → ℕ → RunBindingRow
new_run project surface now = record {
  local_project_id = project;
  surface_id = surface;
  created_at = now;
  updated_at = now;
  retired_at = none;
}

abbrev pub resumed : ℕ → RunBindingRow → RunBindingRow
resumed now x = record x { retired_at = none; updated_at = now }

-- `bindRun` after its checks of the surface.
unfoldable pub bind_run_row :
    BindingStore → String → String → String → ℕ → Option RunBindingRow → Written
bind_run_row s project surface run now (some x) =
    if not (x.local_project_id == project) || not (x.surface_id == surface)
    then err (conflict "run_binding_conflict")
    else if is_some x.retired_at
    then ok (record s { runs = set run (resumed now x) s.runs }, run)
    else ok (s, run)
bind_run_row s project surface run now none =
    ok (record s { runs = set run (new_run project surface now) s.runs }, run)

abbrev pub missing_surface : Result BindingError SurfaceBindingRow
missing_surface = err (failed "surface_not_found")

abbrev pub active_surface_row : Option SurfaceBindingRow → Result BindingError SurfaceBindingRow
active_surface_row none = missing_surface
active_surface_row (some r) = if is_some r.retired_at then missing_surface else ok r

unfoldable pub bind_run : TaskHost → BindingStore → BindRunInput → ℕ → Written
bind_run h s input now = do
  bound ← active_project h s input.project_name
  run ← required input.run_id "run_id_required"
  surface ← required input.surface_id "surface_id_required"
  r ← active_surface_row (get surface s.surfaces)
  throw_if (not (r.local_project_id == bound.0)) (conflict "run_project_mismatch")
  throw_if (any (other_run surface run) s.runs) (conflict "surface_already_bound_to_run")
  bind_run_row s bound.0 surface run now (get run s.runs)

-- An UPDATE of every row that satisfies a condition.
unfoldable pub update_all {ℓ} : {V : Type ℓ} → (String → V → Bool) → (V → V) → Dict V → Dict V
update_all test f [] = []
update_all test f ((k, v) ∷ d) = (k, if test k v then f v else v) ∷ update_all test f d

abbrev pub retired_binding : ℕ → ProjectBindingRow → ProjectBindingRow
retired_binding now b = record b { retired_at = some now; updated_at = now }

abbrev pub retired_surface : ℕ → SurfaceBindingRow → SurfaceBindingRow
retired_surface now r = record r { retired_at = some now; updated_at = now }

abbrev pub retired_run : ℕ → RunBindingRow → RunBindingRow
retired_run now x = record x { retired_at = some now; updated_at = now }

abbrev pub binding_of : String → String → ProjectBindingRow → Bool
binding_of project id b = id == project && not (is_some b.retired_at)

abbrev pub surface_of : String → String → SurfaceBindingRow → Bool
surface_of project id r = r.local_project_id == project && not (is_some r.retired_at)

abbrev pub run_of : String → String → RunBindingRow → Bool
run_of project id x = x.local_project_id == project && not (is_some x.retired_at)

-- The three UPDATEs of `retireProject`, and of the trigger.
unfoldable pub retire_all : BindingStore → String → ℕ → BindingStore
retire_all s project now = record s {
  project_bindings = update_all (binding_of project) (retired_binding now) s.project_bindings;
  surfaces = update_all (surface_of project) (retired_surface now) s.surfaces;
  runs = update_all (run_of project) (retired_run now) s.runs;
}

-- `SELECT id, name FROM projects WHERE name = ? COLLATE NOCASE`.
unfoldable pub find_any_project : TaskHost → String → Dict ProjectRow → Option String
find_any_project h name [] = none
find_any_project h name ((id, p) ∷ d) =
    if h.same_name p.name name then some id else find_any_project h name d

-- `changes === 1` of an UPDATE by a primary key.
abbrev is_current : Option ProjectBindingRow → Bool
is_current none = false
is_current (some b) = not (is_some b.retired_at)

unfoldable pub retire_project : TaskHost → BindingStore → String → ℕ → BindingStore × Bool
retire_project h s name now = elim (find_any_project h (trim name) s.projects) [
  | none ↦ (s, false)
  | some id ↦ (retire_all s id now, is_current (get id s.project_bindings))
]

abbrev pub is_surface : String → String → SurfaceBindingRow → Bool
is_surface surface id r = id == surface && not (is_some r.retired_at)

abbrev pub on_surface : String → String → RunBindingRow → Bool
on_surface surface id x = is_active_on surface x

abbrev current_surface : Option SurfaceBindingRow → Bool
current_surface none = false
current_surface (some r) = not (is_some r.retired_at)

unfoldable pub retire_surface : BindingStore → String → ℕ → BindingStore × Bool
retire_surface s id now = (
  record s {
    surfaces = update_all (is_surface (trim id)) (retired_surface now) s.surfaces;
    runs = update_all (on_surface (trim id)) (retired_run now) s.runs;
  },
  current_surface (get (trim id) s.surfaces),
)

abbrev pub is_run : String → String → RunBindingRow → Bool
is_run run id x = id == run && not (is_some x.retired_at)

abbrev current_run : Option RunBindingRow → Bool
current_run none = false
current_run (some x) = not (is_some x.retired_at)

unfoldable pub retire_run : BindingStore → String → ℕ → BindingStore × Bool
retire_run s run now = (
  record s { runs = update_all (is_run (trim run)) (retired_run now) s.runs },
  current_run (get (trim run) s.runs),
)

abbrev pub archived : ℕ → ProjectRow → ProjectRow
archived now p = record p { archived_at = some now }

-- The trigger on a project that is archived.
unfoldable pub archive_project : BindingStore → String → ℕ → BindingStore
archive_project s id now = elim (get id s.projects) [
  | none ↦ s
  | some p ↦
      if is_some p.archived_at
      then s
      else retire_all (record s { projects = set id (archived now p) s.projects }) id now
]
