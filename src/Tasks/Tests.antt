-- ===== src/Tasks/Tests.antt =====
-- Examples for the task tables, and the theorems applied to them.
use discordagent.Base.{
  ℕ, String, true, false, is_empty, ◌≡◌, refl, Option, none, some, List, [], ◌∷◌, Result, ok, err,
  ◌==◌, str_dec, ◌↔◌,
}
use discordagent.Dict.{get, set}
use discordagent.Dict.Distinct.{IsDistinct}
use discordagent.Text.{trim, trim_start, trim_end, is_space}
use discordagent.Tasks.Rows.{
  codex, TaskStatus, created, starting, running, completed, failed, TaskRow, TaskStore, TaskRecord,
  TaskResult, CreateTaskTransaction, ProviderSession, TaskHost, illegal_transition, TaskError,
  SavedResult, ProviderUsage,
}
use discordagent.Tasks.Status.{status_dec, provider_dec, includes, is_terminal, legal_transitions}
use discordagent.Tasks.Select.{
  to_task_record, joined, find_by_id, find_by_thread_id, with_thread, require_task, get_worktree,
  get_result, session_of,
}
use discordagent.Tasks.Repository.{
  find_project, create_write, create_with_worktree, attach_write, attach_provider_session,
  update_where, moved, transition_write, transition, delete, reopen_row, reopen_write,
  reopen_for_continuation, save_write, save_result,
}
use discordagent.Tasks.Soundness.{IsSound}
use discordagent.Tasks.Codec.{write_texts, read_texts, read_texts-write_texts}
use discordagent.Tasks.History.{
  TaskOperation, create, attach, move, remove, save, perform, run, run-IsSound,
}
use discordagent.Tasks.Rules.{Keeps, run-Keeps, run_ended, NeverReopens}
use discordagent.Tasks.Lifecycle.{◌⟶◌, Returns, transition_iff, transition_moves}
use discordagent.Tasks.RoundTrip.{save_roundtrip, create_roundtrip, reopen_roundtrip}
use discordagent.Tasks.Recovery.{RecoveryHost, recover_interrupted_tasks}
use discordagent.Tasks.Recovered.{interrupt_at, is_recoverable, recover-IsComplete}

abbrev usage : ProviderUsage
usage = record {
  input_tokens = some 3;
  output_tokens = none;
  cached_input_tokens = none;
  total_tokens = none;
  utilization = none;
  resets_at = none;
}

abbrev plain : TaskHost
plain = record {
  same_name = λ a b. a == b;
  redact_sensitive_text = λ t. t;
  encode_settings = λ _. "{}";
  parse_stored_agent_task_settings = λ _. none;
  stringify_texts = write_texts;
  parse_texts = read_texts;
  stringify_usage = λ _. "{\"inputTokens\":3}";
  parse_usage = λ _. some usage;
}

abbrev bare : TaskStore
bare = record {
  projects = ("p", record { name = "demo"; archived_at = none }) ∷ [];
  tasks = [];
  worktrees = [];
  sessions = [];
  results = [];
  cards = [];
}

abbrev first : CreateTaskTransaction
first = record {
  task_id = "a";
  project_name = "demo";
  provider = codex;
  channel_id = "channel";
  thread_id = "thread";
  objective = "write it";
  worktree = record {
    id = "w";
    repository_path = "/repo";
    worktree_path = "/tree";
    branch_name = "task/a";
    base_ref = "main";
  };
  settings = none;
  created_at = some 5;
}

abbrev session : ProviderSession
session = record { provider = codex; session_id = "session"; created_at = 7 }

abbrev outcome : TaskResult
outcome = record {
  provider = codex;
  outcome = completed;
  exit_type = "success";
  started_at = 8;
  completed_at = 9;
  summary = none;
  usage = some usage;
  verification = none;
  unresolved = some ("docs" ∷ []);
  error_message = none;
}

-- Through creation to the end of the first turn.
abbrev to_running : List TaskOperation
to_running =
    create first 1
    ∷ move "a" (created ∷ []) starting 6
    ∷ attach "a" session "uuid"
    ∷ move "a" (starting ∷ []) running 8
    ∷ []

abbrev to_completed : List TaskOperation
to_completed = move "a" (running ∷ []) completed 9 ∷ []

abbrev task_row : TaskStatus → ℕ → Option ℕ → Option ℕ → TaskRow
task_row status updated began ended = record {
  project_id = "p";
  provider = codex;
  status = status;
  channel_id = "channel";
  thread_id = "thread";
  objective = "write it";
  created_at = 5;
  updated_at = updated;
  started_at = began;
  completed_at = ended;
  settings_json = "{}";
}

abbrev at_running : TaskStore
at_running = run plain bare to_running

abbrev at_completed : TaskStore
at_completed = run plain at_running to_completed

bare-IsSound : IsSound bare
unfolding get
bare-IsSound = record {
  project = λ id row e. cc;
  thread = λ i j a b e. cc;
  timed = λ id row e. cc;
  worktree = λ id w e. cc;
  session = λ id x e. cc;
  one_session = λ i j x y e. cc;
  outcome = λ id r e. cc;
  card = λ id c e. cc;
}

at_running-IsSound : IsSound at_running
at_running-IsSound = run-IsSound plain bare to_running bare-IsSound

running_row : get "a" at_running.tasks ≡ some (task_row running 8 (some 8) none)
unfolding run perform create_with_worktree create_write find_project with_thread require_task
    find_by_id joined to_task_record transition transition_write update_where moved
    attach_provider_session attach_write includes is_terminal legal_transitions status_dec
    provider_dec get set str_dec trim trim_start trim_end is_space
running_row = refl

completed_row : get "a" at_completed.tasks ≡ some (task_row completed 9 (some 8) (some 9))
unfolding run perform create_with_worktree create_write find_project with_thread require_task
    find_by_id joined to_task_record transition transition_write update_where moved
    attach_provider_session attach_write includes is_terminal legal_transitions status_dec
    provider_dec get set str_dec trim trim_start trim_end is_space
completed_row = refl

-- The coordinator asks for this move where a usage reservation cannot be attached.
created_to_failed :
    (transition plain (run plain bare (create first 1 ∷ [])) "a" (created ∷ []) failed 6).1
    ≡ err (illegal_transition created failed)
unfolding run perform create_with_worktree create_write find_project with_thread require_task
    find_by_id joined to_task_record transition transition_write update_where moved
    attach_provider_session attach_write includes is_terminal legal_transitions status_dec
    provider_dec get set str_dec trim trim_start trim_end is_space
created_to_failed = refl

abbrev ending : Result TaskError TaskRecord
ending = ok (
    to_task_record plain "a" (task_row completed 9 (some 8) (some 9))
      (record { name = "demo"; archived_at = none }) (get "a" at_running.sessions))

ending_returned : (transition plain at_running "a" (running ∷ []) completed 9).1 ≡ ending
unfolding run perform create_with_worktree create_write find_project with_thread require_task
    find_by_id joined to_task_record transition transition_write update_where moved
    attach_provider_session attach_write includes is_terminal legal_transitions status_dec
    provider_dec get set str_dec trim trim_start trim_end is_space
ending_returned = refl

saved_returned : (save_result plain at_completed "a" outcome).1 ≡ ok tt
unfolding run perform create_with_worktree create_write find_project with_thread require_task
    find_by_id joined to_task_record transition transition_write update_where moved
    attach_provider_session attach_write includes is_terminal legal_transitions status_dec
    provider_dec get set str_dec trim trim_start trim_end is_space save_result save_write
saved_returned = refl

abbrev created_record : TaskRecord
created_record =
    to_task_record plain "a" (task_row created 5 none none)
      (record { name = "demo"; archived_at = none }) none

created_returned : (create_with_worktree plain bare first 1).1 ≡ ok created_record
unfolding run perform create_with_worktree create_write find_project with_thread require_task
    find_by_id joined to_task_record transition transition_write update_where moved
    attach_provider_session attach_write includes is_terminal legal_transitions status_dec
    provider_dec get set str_dec trim trim_start trim_end is_space
created_returned = refl

abbrev reopened_record : TaskRecord
reopened_record =
    to_task_record plain "a" (task_row starting 12 (some 8) none)
      (record { name = "demo"; archived_at = none }) (get "a" at_running.sessions)

reopened_returned : (reopen_for_continuation plain at_completed "a" 12).1 ≡ ok reopened_record
unfolding run perform create_with_worktree create_write find_project with_thread require_task
    find_by_id joined to_task_record transition transition_write update_where moved
    attach_provider_session attach_write includes is_terminal legal_transitions status_dec
    provider_dec get set str_dec trim trim_start trim_end is_space reopen_for_continuation
    reopen_write reopen_row delete
reopened_returned = refl

run-IsSound_example : IsSound at_running
run-IsSound_example = run-IsSound plain bare to_running bare-IsSound

run-Keeps_example :
    (b : TaskRow) × (get "a" at_completed.tasks ≡ some b)
    × Keeps (task_row running 8 (some 8) none) b
run-Keeps_example =
    run-Keeps plain at_running to_completed "a" (task_row running 8 (some 8) none) running_row

abbrev afterwards : List TaskOperation
afterwards =
    save "a" outcome ∷ move "a" (completed ∷ []) running 10 ∷ create first 11 ∷ remove "a" 12 ∷ []

run_ended_example :
    get "a" (run plain at_completed afterwards).tasks
    ≡ some (task_row completed 9 (some 8) (some 9))
unfolding NeverReopens
run_ended_example =
    run_ended plain at_completed afterwards "a" (task_row completed 9 (some 8) (some 9))
      completed_row tt tt

transition_iff_example :
    Returns (transition plain at_running "a" (running ∷ []) completed 9)
    ↔ ((includes (running ∷ []) running ≡ true) × (running ⟶ completed))
transition_iff_example =
    transition_iff plain at_running "a" (running ∷ []) completed 9
      (task_row running 8 (some 8) none) at_running-IsSound running_row

transition_moves_example :
    (row : TaskRow) × (get "a" at_running.tasks ≡ some row)
    × (row.status ⟶ completed)
    × ((transition plain at_running "a" (running ∷ []) completed 9).0 ≡ record at_running {
      tasks =
          set "a"
            (record row {
              status = completed;
              updated_at = 9;
              started_at = row.started_at;
              completed_at = some 9;
            })
            at_running.tasks;
    })
transition_moves_example =
    transition_moves plain at_running "a" (running ∷ []) completed 9 _ ending_returned

at_completed-IsSound : IsSound at_completed
at_completed-IsSound = run-IsSound plain at_running to_completed at_running-IsSound

usage_back :
    (u : ProviderUsage)
    → some usage ≡ some u
    → (plain.parse_usage (plain.stringify_usage u) ≡ some u)
      × (is_empty (plain.stringify_usage u) ≡ false)
unfolding str_dec
usage_back u e = (e, refl)

save_roundtrip_example :
    (v : SavedResult) × (get_result plain (save_result plain at_completed "a" outcome).0 "a"
      ≡ ok (some v))
    × (v.provider ≡ codex)
    × (v.outcome ≡ completed)
    × (v.summary ≡ "success")
    × (v.verification ≡ [])
    × (v.unresolved ≡ "docs" ∷ [])
    × (v.usage ≡ some usage)
    × (v.completed_at ≡ 9)
save_roundtrip_example =
    save_roundtrip plain at_completed "a" outcome read_texts-write_texts usage_back
      at_completed-IsSound saved_returned

create_roundtrip_example :
    (find_by_id plain (create_with_worktree plain bare first 1).0 "a" ≡ some created_record)
    × (find_by_thread_id plain (create_with_worktree plain bare first 1).0 "thread"
        ≡ some created_record)
    × (get_worktree (create_with_worktree plain bare first 1).0 "a"
        ≡ some (record {
          id = "w";
          repository_path = "/repo";
          worktree_path = "/tree";
          branch_name = "task/a";
          base_ref = "main";
          created_at = 5;
          removed_at = none;
        }))
    × (created_record.status ≡ created)
    × (created_record.provider ≡ codex)
    × (created_record.channel_id ≡ "channel")
    × (created_record.thread_id ≡ "thread")
    × (created_record.objective ≡ "write it")
    × (created_record.provider_session_id ≡ none)
    × (created_record.started_at ≡ none)
create_roundtrip_example =
    create_roundtrip plain bare first 1 created_record bare-IsSound created_returned

reopen_roundtrip_example :
    (row : TaskRow) × (get "a" at_completed.tasks ≡ some row)
    × (is_terminal row.status ≡ true)
    × (reopened_record.status ≡ starting)
    × (reopened_record.completed_at ≡ none)
    × (reopened_record.started_at ≡ row.started_at)
    × (reopened_record.provider_session_id ≡ session_of (get "a" at_completed.sessions))
    × (get_result plain (reopen_for_continuation plain at_completed "a" 12).0 "a" ≡ ok none)
reopen_roundtrip_example =
    reopen_roundtrip plain at_completed "a" 12 reopened_record at_completed-IsSound
      reopened_returned

abbrev tidy : RecoveryHost
tidy = record {
  inspect = λ path. ok (record { exists = true; dirty = path == "/tree" });
  decimal = λ n. "8";
  clock = λ id. 20;
}

only_one : IsDistinct at_running.tasks
unfolding run perform create_with_worktree create_write find_project with_thread require_task
    find_by_id joined to_task_record transition transition_write update_where moved
    attach_provider_session attach_write includes is_terminal legal_transitions status_dec
    provider_dec get set str_dec trim trim_start trim_end is_space
only_one = (refl, tt)

recover-IsComplete_example :
    (l : List TaskRecord) × ((recover_interrupted_tasks plain tidy at_running []).recovered ≡ ok l)
    × IsSound (recover_interrupted_tasks plain tidy at_running []).store
    × ((id : String)
        → get id (recover_interrupted_tasks plain tidy at_running []).store.tasks
          ≡ interrupt_at (is_recoverable (get id at_running.tasks)) 20 (get id at_running.tasks))
recover-IsComplete_example = recover-IsComplete plain tidy at_running [] at_running-IsSound only_one
