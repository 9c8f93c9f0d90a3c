-- ===== src/Bindings/Tests.antt =====
-- Examples for the bindings, and the theorems applied to them.
use discordagent.Base.{
  String, true, false, ◌≡◌, ◌↔◌, refl, Option, none, some, List, [], ◌∷◌, ◌==◌, str_dec, ok, arith,
}
use discordagent.Dict.{get, set}
use discordagent.Text.{trim}
use discordagent.Tasks.Rows.{TaskHost}
use discordagent.Tasks.Repository.{find_project}
use discordagent.Bindings.Rows.{
  SurfaceBindingRow, RunBindingRow, BindingStore, BindProjectInput, BindSurfaceInput, BindRunInput,
}
use discordagent.Bindings.Repository.{
  required, optional, local_project, active_project, bind_project_row, bind_project, surfaces_with,
  named_by, surface_candidates, reconciled_identity, reconciled_surface, merge_surface,
  place_surface, bind_surface,
}
use discordagent.Bindings.Runs.{bind_run_row, bind_run, is_active_on, retire_surface}
use discordagent.Bindings.Finds.{find_run, find_surface_by_id}
use discordagent.Bindings.Invariant.{IsNested}
use discordagent.Bindings.Steps.{
  BindingOperation, project, surface, run, archive, perform_binding, run_bindings,
  run_bindings-IsNested,
}
use discordagent.Bindings.Lookups.{finds_iff, retire_surface_ends}
use discordagent.Bindings.RoundTrip.{bind_run_found}

abbrev plain : TaskHost
plain = record {
  same_name = λ a b. a == b;
  redact_sensitive_text = λ t. t;
  encode_settings = λ _. "{}";
  parse_stored_agent_task_settings = λ _. none;
  stringify_texts = λ _. "[]";
  parse_texts = λ _. some [];
  stringify_usage = λ _. "{}";
  parse_usage = λ _. none;
}

abbrev bare : BindingStore
bare = record {
  projects = ("p", record { name = "demo"; archived_at = none }) ∷ [];
  project_bindings = [];
  surfaces = [];
  runs = [];
}

bare-IsNested : IsNested bare
unfolding get
bare-IsNested = record {
  projects = (refl, tt);
  distinct = tt;
  identities = record {
    activity = λ t i j x y e. absurd (ground arith);
    message = λ t i j x y e. absurd (ground arith);
    thread = λ g c t i j x y e. absurd (ground arith);
  };
  one_factory = λ t i j x y e. absurd (ground arith);
  one_run = λ t i j x y e. absurd (ground arith);
  bound = λ id b e. absurd (ground arith);
  placed = λ id b e. absurd (ground arith);
  hosted = λ id b e. absurd (ground arith);
}

abbrev to_project : BindProjectInput
to_project = record { project_name = " demo"; factory_floor_project_id = "f"; guild_id = "g" }

abbrev in_thread : Option String → BindSurfaceInput
in_thread message = record {
  project_name = "demo";
  guild_id = "g";
  channel_id = "c";
  thread_id = some "t";
  message_id = message;
  activity_instance_id = none;
}

abbrev to_surface : String → BindRunInput
to_surface id = record { project_name = "demo"; surface_id = "u "; run_id = id }

-- The second call on the thread adds a message to its surface.
abbrev bindings : List BindingOperation
bindings =
    project to_project 1
    ∷ surface (in_thread none) 2 "u"
    ∷ surface (in_thread (some "m")) 3 "v"
    ∷ []

abbrev ready : BindingStore
ready = run_bindings plain bare bindings

ready-IsNested : IsNested ready
ready-IsNested = run_bindings-IsNested plain bare bindings bare-IsNested

run_bindings-IsNested_example :
    IsNested (run_bindings plain ready (run (to_surface "r") 4 ∷ archive "p" 9 ∷ []))
run_bindings-IsNested_example =
    run_bindings-IsNested plain ready (run (to_surface "r") 4 ∷ archive "p" 9 ∷ []) ready-IsNested

same_text : (name : String) → plain.same_name name name ≡ true
same_text name = ground arith

abbrev running : BindingStore
running = perform_binding plain ready (run (to_surface " r") 4)

run_is_bound : bind_run plain ready (to_surface " r") 4 ≡ ok (running, "r")
unfolding run_bindings bind_project bind_surface bind_run required optional trim local_project
    active_project bind_project_row surfaces_with named_by surface_candidates reconciled_identity
    reconciled_surface merge_surface place_surface bind_run_row find_project get set str_dec
run_is_bound = refl

bind_run_found_example :
    (x : RunBindingRow) × (find_run plain running " r" ≡ some ("r", x))
    × (x.surface_id ≡ trim "u ")
    × (x.retired_at ≡ none)
bind_run_found_example =
    bind_run_found plain ready (to_surface " r") 4 running "r" same_text ready-IsNested run_is_bound

finds_iff_example :
    ((r : SurfaceBindingRow)
      → (find_surface_by_id plain ready "u" ≡ some ("u", r))
        ↔ ((trim "u" ≡ "u") × (get "u" ready.surfaces ≡ some r) × (r.retired_at ≡ none)))
    × ((x : RunBindingRow)
        → (find_run plain ready "u" ≡ some ("u", x))
          ↔ ((trim "u" ≡ "u") × (get "u" ready.runs ≡ some x) × (x.retired_at ≡ none)))
finds_iff_example = finds_iff plain ready "u" "u" same_text ready-IsNested

retire_surface_ends_example :
    (find_surface_by_id plain (retire_surface running "u" 5).0 "u" ≡ none)
    × ((j : String) (x : RunBindingRow)
        → get j (retire_surface running "u" 5).0.runs ≡ some x
        → is_active_on (trim "u") x ≡ false)
retire_surface_ends_example = retire_surface_ends plain running "u" 5
