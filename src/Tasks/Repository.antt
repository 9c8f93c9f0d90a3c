-- ===== src/Tasks/Repository.antt =====
-- repositories/taskRepository.ts: the writes of the task tables. A write computes the new store or
-- throws before it changes anything; the operation then reads the task back. `Date.now()` and
-- `randomUUID()` are arguments. What an INSERT violates is a PRIMARY KEY or UNIQUE column of
-- db/schema.ts.
use discordagent.Base.{
  ℕ, String, Bool, true, false, not, ◌&&◌, ◌||◌, ◌==◌, Option, none, some, List, [], ◌∷◌, any,
  is_empty, Result, ok, err, ◌>>=◌, ◌>>◌, throw_if, if◌then◌else◌,
}
use discordagent.Dict.{Dict, get, set, has, is_some}
use discordagent.Tasks.Rows.{
  TaskStatus, created, starting, running, TaskControlCardPinState, ProjectRow, TaskRow, SessionRow,
  WorktreeRow, ProviderUsage, ResultRow, TaskStore, TaskRecord, TaskResult, CreateTaskWorktreeInput,
  CreateTaskTransaction, ProviderSession, TaskError, project_not_found, provider_mismatch,
  already_has_session, no_expected_state, stale_transition, illegal_transition, stale_update,
  no_active_worktree, not_terminal, no_session_to_continue, no_worktree_to_continue,
  outcome_mismatch, already_has_result, constraint_failed, TaskHost,
}
use discordagent.Tasks.Status.{provider_beq, status_beq, includes, is_terminal, legal_transitions}
use discordagent.Tasks.Select.{with_thread, require_task}

abbrev pub Reply : Type 0 → Type 0
Reply A = TaskStore × Result TaskError A

-- An operation is a write, then a read of what it returns.
abbrev pub answer :
    {A : Type 0}
    → TaskStore
    → Result TaskError TaskStore
    → (TaskStore → Result TaskError A)
    → Reply A
answer s (err x) read = (s, err x)
answer s (ok s') read = (s', read s')

-- `SELECT id FROM projects WHERE name = ? COLLATE NOCASE AND archived_at IS NULL`.
unfoldable pub find_project : TaskHost → String → Dict ProjectRow → Option String
find_project h name [] = none
find_project h name ((id, p) ∷ d) =
    if h.same_name p.name name && not (is_some p.archived_at)
    then some id
    else find_project h name d

abbrev found_project : String → Option String → Result TaskError String
found_project name none = err (project_not_found name)
found_project name (some id) = ok id

abbrev pub or_now : Option ℕ → ℕ → ℕ
or_now none now = now
or_now (some at) now = at

abbrev pub new_task : TaskHost → CreateTaskTransaction → String → ℕ → TaskRow
new_task h input project_id now = record {
  project_id = project_id;
  provider = input.provider;
  status = created;
  channel_id = input.channel_id;
  thread_id = input.thread_id;
  objective = h.redact_sensitive_text input.objective;
  created_at = now;
  updated_at = now;
  started_at = none;
  completed_at = none;
  settings_json = h.encode_settings input.settings;
}

abbrev pub new_worktree : CreateTaskWorktreeInput → ℕ → WorktreeRow
new_worktree w now = record {
  id = w.id;
  repository_path = w.repository_path;
  worktree_path = w.worktree_path;
  branch_name = w.branch_name;
  base_ref = w.base_ref;
  created_at = now;
  removed_at = none;
}

-- A worktree row that shares a key with the input.
abbrev pub worktree_clash : CreateTaskWorktreeInput → WorktreeRow → Bool
worktree_clash w row =
    row.id == w.id
    || row.worktree_path == w.worktree_path
    || (row.repository_path == w.repository_path && row.branch_name == w.branch_name)

unfoldable pub create_write :
    TaskHost → TaskStore → CreateTaskTransaction → ℕ → Result TaskError TaskStore
create_write h s input clock = do
  project_id ← found_project input.project_name (find_project h input.project_name s.projects)
  throw_if (has input.task_id s.tasks || is_some (with_thread input.thread_id s.tasks))
      (constraint_failed "tasks")
  throw_if
      (has input.task_id s.worktrees || any (λ e. worktree_clash input.worktree e.1) s.worktrees)
      (constraint_failed "worktrees")
  ok (record s {
    tasks = set input.task_id (new_task h input project_id (or_now input.created_at clock)) s.tasks;
    worktrees =
        set input.task_id (new_worktree input.worktree (or_now input.created_at clock)) s.worktrees;
  })

unfoldable pub create_with_worktree :
    TaskHost → TaskStore → CreateTaskTransaction → ℕ → Reply TaskRecord
create_with_worktree h s input clock =
    answer s (create_write h s input clock) (λ s'. require_task h s' input.task_id)

-- `!value` of an optional string.
abbrev pub is_missing : Option String → Bool
is_missing none = true
is_missing (some t) = is_empty t

abbrev pub session_clash : String → ProviderSession → SessionRow → Bool
session_clash uuid x row =
    row.id == uuid || (provider_beq row.provider x.provider && row.session_id == x.session_id)

abbrev pub new_session : String → ProviderSession → SessionRow
new_session uuid x = record {
  id = uuid;
  provider = x.provider;
  session_id = x.session_id;
  created_at = x.created_at;
  updated_at = x.created_at;
}

unfoldable pub attach_write :
    TaskHost → TaskStore → String → ProviderSession → String → Result TaskError TaskStore
attach_write h s id x uuid = do
  t ← require_task h s id
  throw_if (not (provider_beq t.provider x.provider)) (provider_mismatch t.provider x.provider)
  throw_if (not (is_missing t.provider_session_id)) (already_has_session id)
  throw_if (has id s.sessions || any (λ e. session_clash uuid x e.1) s.sessions)
      (constraint_failed "provider_sessions")
  ok (record s { sessions = set id (new_session uuid x) s.sessions })

unfoldable pub attach_provider_session :
    TaskHost → TaskStore → String → ProviderSession → String → Reply (Unit {0})
attach_provider_session h s id x uuid = answer s (attach_write h s id x uuid) (λ _. ok tt)

-- `COALESCE(started_at, ?)`.
abbrev pub coalesce : Option ℕ → ℕ → Option ℕ
coalesce none now = some now
coalesce (some at) now = some at

-- The assignments of the UPDATE of `transition`.
unfoldable pub moved : TaskRow → TaskStatus → ℕ → TaskRow
moved row next now = record row {
  status = next;
  updated_at = now;
  started_at = if status_beq next running then coalesce row.started_at now else row.started_at;
  completed_at = if is_terminal next then some now else row.completed_at;
}

-- `UPDATE tasks SET ... WHERE id = ? AND status IN (...)`, and the test of `changes`.
unfoldable pub update_where :
    TaskStore → String → List TaskStatus → TaskStatus → ℕ → Result TaskError TaskStore
update_where s id expected next now = elim (get id s.tasks) [
  | none ↦ err (stale_update id)
  | some row ↦
      if includes expected row.status
      then ok (record s { tasks = set id (moved row next now) s.tasks })
      else err (stale_update id)
]

unfoldable pub transition_write :
    TaskHost → TaskStore → String → List TaskStatus → TaskStatus → ℕ → Result TaskError TaskStore
transition_write h s id [] next now = err no_expected_state
transition_write h s id (e ∷ es) next now = do
  t ← require_task h s id
  throw_if (not (includes (e ∷ es) t.status)) (stale_transition id (e ∷ es) t.status)
  throw_if (not (includes (legal_transitions t.status) next)) (illegal_transition t.status next)
  update_where s id (e ∷ es) next now

unfoldable pub transition :
    TaskHost → TaskStore → String → List TaskStatus → TaskStatus → ℕ → Reply TaskRecord
transition h s id expected next now =
    answer s (transition_write h s id expected next now) (λ s'. require_task h s' id)

unfoldable pub remove_write : TaskStore → String → ℕ → Result TaskError TaskStore
remove_write s id removed_at = elim (get id s.worktrees) [
  | none ↦ err (no_active_worktree id)
  | some w ↦
      if is_some w.removed_at
      then err (no_active_worktree id)
      else ok
          (record s { worktrees = set id (record w { removed_at = some removed_at }) s.worktrees })
]

unfoldable pub mark_worktree_removed : TaskStore → String → ℕ → Reply (Unit {0})
mark_worktree_removed s id removed_at = answer s (remove_write s id removed_at) (λ _. ok tt)

-- `DELETE FROM task_results WHERE task_id = ?`.
unfoldable pub delete {ℓ} : {V : Type ℓ} → String → Dict V → Dict V
delete k [] = []
delete k ((j, v) ∷ d) = let rest = delete k d in if j == k then rest else (j, v) ∷ rest

-- `worktree && worktree.removed_at === null`.
abbrev pub is_active : Option WorktreeRow → Bool
is_active none = false
is_active (some w) = not (is_some w.removed_at)

abbrev pub reopened : TaskRow → ℕ → TaskRow
reopened row now = record row { status = starting; completed_at = none; updated_at = now }

-- The UPDATE of `reopenForContinuation`, which may find no row.
unfoldable pub reopen_row : String → ℕ → Dict TaskRow → Dict TaskRow
reopen_row id now d = elim (get id d) [ none ↦ d | some row ↦ set id (reopened row now) d ]

unfoldable pub reopen_write : TaskHost → TaskStore → String → ℕ → Result TaskError TaskStore
reopen_write h s id now = do
  t ← require_task h s id
  throw_if (not (is_terminal t.status)) (not_terminal id)
  throw_if (is_missing t.provider_session_id) (no_session_to_continue id)
  throw_if (not (is_active (get id s.worktrees))) (no_worktree_to_continue id)
  ok (record s { results = delete id s.results; tasks = reopen_row id now s.tasks })

unfoldable pub reopen_for_continuation : TaskHost → TaskStore → String → ℕ → Reply TaskRecord
reopen_for_continuation h s id now = answer s (reopen_write h s id now) (λ s'. require_task h s' id)

-- `a ?? b`, where `b` is optional and where it is not.
abbrev or_option : Option String → Option String → Option String
or_option none b = b
or_option (some t) b = some t

abbrev or_text : Option String → String → String
or_text none t = t
or_text (some t) _ = t

-- `result.summary ?? result.error?.message ?? result.exitType`.
abbrev pub summary_of : TaskResult → String
summary_of r = or_text (or_option r.summary r.error_message) r.exit_type

abbrev pub or_empty : Option (List String) → List String
or_empty none = []
or_empty (some l) = l

-- `result.usage ? JSON.stringify(result.usage) : null`.
abbrev pub usage_column : TaskHost → Option ProviderUsage → Option String
usage_column h none = none
usage_column h (some u) = some (h.stringify_usage u)

abbrev pub new_result : TaskHost → TaskResult → ResultRow
new_result h r = record {
  outcome = r.outcome;
  summary = summary_of r;
  verification_json = h.stringify_texts (or_empty r.verification);
  unresolved_json = h.stringify_texts (or_empty r.unresolved);
  usage_json = usage_column h r.usage;
  completed_at = r.completed_at;
}

unfoldable pub save_write : TaskHost → TaskStore → String → TaskResult → Result TaskError TaskStore
save_write h s id r = do
  t ← require_task h s id
  throw_if (not (is_terminal t.status)) (not_terminal id)
  throw_if (not (provider_beq t.provider r.provider)) (provider_mismatch t.provider r.provider)
  throw_if (not (status_beq t.status r.outcome)) (outcome_mismatch r.outcome t.status)
  throw_if (has id s.results) (already_has_result id)
  ok (record s { results = set id (new_result h r) s.results })

unfoldable pub save_result : TaskHost → TaskStore → String → TaskResult → Reply (Unit {0})
save_result h s id r = answer s (save_write h s id r) (λ _. ok tt)

-- `INSERT ... ON CONFLICT(task_id) DO UPDATE` of every column is `set`.
unfoldable pub card_write :
    TaskHost
    → TaskStore
    → String
    → String
    → TaskControlCardPinState
    → ℕ
    → Result TaskError TaskStore
card_write h s id message_id pin_state now = do
  t ← require_task h s id
  ok (record s {
    cards =
        set id (record { message_id = message_id; pin_state = pin_state; updated_at = now })
          s.cards;
  })

unfoldable pub save_control_card :
    TaskHost → TaskStore → String → String → TaskControlCardPinState → ℕ → Reply (Unit {0})
save_control_card h s id message_id pin_state now =
    answer s (card_write h s id message_id pin_state now) (λ _. ok tt)
