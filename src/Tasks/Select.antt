-- ===== src/Tasks/Select.antt =====
-- repositories/taskRepository.ts: the reads of the task tables.
use discordagent.Base.{
  ℕ, String, Bool, true, false, not, ◌&&◌, ◌||◌, ◌==◌, Option, none, some, List, [], ◌∷◌, Result,
  ok, err, ◌>>=◌, if◌then◌else◌, is_empty, ltb, nat_beq,
}
use discordagent.Dict.{Dict, get}
use discordagent.Text.{trim}
use discordagent.Tasks.Rows.{
  created, starting, running, waiting_for_user, TaskStatus, AgentTaskSettings, ProjectRow, TaskRow,
  SessionRow, WorktreeRow, ResultRow, CardRow, TaskStore, TaskRecord, SavedResult, TaskError,
  task_not_found, malformed_json, ProviderUsage, TaskHost,
}
use discordagent.Tasks.Status.{includes, has_no_keys}
use Prim.Native.Char.{code}

abbrev pub session_of : Option SessionRow → Option String
session_of none = none
session_of (some x) = some x.session_id

abbrev malformed : Option AgentTaskSettings → Bool
malformed none = false
malformed (some s) = has_no_keys s

-- `toTaskRecord` of a row of `TASK_SELECT`.
unfoldable pub to_task_record :
    TaskHost → String → TaskRow → ProjectRow → Option SessionRow → TaskRecord
to_task_record h id row project session =
    let settings = h.parse_stored_agent_task_settings row.settings_json in
    record {
      id = id;
      project_name = project.name;
      provider = row.provider;
      status = row.status;
      channel_id = row.channel_id;
      thread_id = row.thread_id;
      objective = row.objective;
      created_at = row.created_at;
      updated_at = row.updated_at;
      started_at = row.started_at;
      completed_at = row.completed_at;
      provider_session_id = session_of session;
      settings = settings;
      settings_malformed = not (trim row.settings_json == "{}") && malformed settings;
    }

-- A task joined with its project, which must be there, and its session, which need not.
unfoldable pub joined : TaskHost → TaskStore → String → Option TaskRow → Option TaskRecord
joined h s id none = none
joined h s id (some row) = elim (get row.project_id s.projects) [
  | none ↦ none
  | some project ↦ some (to_task_record h id row project (get id s.sessions))
]

unfoldable pub find_by_id : TaskHost → TaskStore → String → Option TaskRecord
find_by_id h s id = joined h s id (get id s.tasks)

-- The row of the first entry with a given thread id: the column is UNIQUE.
unfoldable pub with_thread : String → Dict TaskRow → Option (String × TaskRow)
with_thread thread [] = none
with_thread thread ((id, row) ∷ d) =
    if row.thread_id == thread then some (id, row) else with_thread thread d

unfoldable pub find_by_thread_id : TaskHost → TaskStore → String → Option TaskRecord
find_by_thread_id h s thread = elim (with_thread thread s.tasks) [
  | none ↦ none
  | some (id, row) ↦ joined h s id (some row)
]

abbrev found : String → Option TaskRecord → Result TaskError TaskRecord
found id none = err (task_not_found id)
found id (some t) = ok t

unfoldable pub require_task : TaskHost → TaskStore → String → Result TaskError TaskRecord
require_task h s id = found id (find_by_id h s id)

unfoldable pub get_worktree : TaskStore → String → Option WorktreeRow
get_worktree s id = get id s.worktrees

unfoldable pub get_control_card : TaskStore → String → Option CardRow
get_control_card s id = get id s.cards

abbrev pub or_else_start : Option ℕ → ℕ → ℕ
or_else_start none n = n
or_else_start (some m) n = m

-- `x ? { key: x } : {}`: an absent and an empty text are both left out.
abbrev pub if_truthy : Option String → Option String
if_truthy none = none
if_truthy (some t) = if is_empty t then none else some t

-- `JSON.parse` of a column, which throws on a text that is not JSON.
abbrev pub parsed {ℓ} : {A : Type ℓ} → String → Option A → Result {ℓ} TaskError A
parsed text none = err (malformed_json text)
parsed text (some a) = ok a

-- `row.usage_json ? { usage: JSON.parse(row.usage_json) } : {}`.
abbrev pub read_usage : TaskHost → Option String → Result TaskError (Option ProviderUsage)
read_usage h none = ok none
read_usage h (some text) = do u ← parsed text (h.parse_usage text); ok (some u)

-- The rest of `getResult` for the row that was read.
unfoldable pub read_result :
    TaskHost → TaskRecord → Option ResultRow → Result TaskError (Option SavedResult)
read_result h t none = ok none
read_result h t (some r) = do
  verification ← parsed r.verification_json (h.parse_texts r.verification_json)
  unresolved ← parsed r.unresolved_json (h.parse_texts r.unresolved_json)
  usage ← read_usage h (if_truthy r.usage_json)
  ok (
      some (record {
        provider = t.provider;
        outcome = r.outcome;
        exit_type = r.outcome;
        started_at = or_else_start t.started_at t.created_at;
        completed_at = r.completed_at;
        session_id = if_truthy t.provider_session_id;
        summary = r.summary;
        verification = verification;
        unresolved = unresolved;
        usage = usage;
      }))

unfoldable pub get_result : TaskHost → TaskStore → String → Result TaskError (Option SavedResult)
get_result h s id = do t ← require_task h s id; read_result h t (get id s.results)

-- `<` on two TEXT values: by the bytes of UTF-8, which is by code points.
unfoldable pub text_before : String → String → Bool
text_before String.[] String.[] = false
text_before String.[] (String.◌∷◌ d t) = true
text_before (String.◌∷◌ c s) String.[] = false
text_before (String.◌∷◌ c s) (String.◌∷◌ d t) =
    ltb (code c) (code d) || (nat_beq (code c) (code d) && text_before s t)

-- `ORDER BY t.created_at, t.id`.
unfoldable pub comes_before : TaskRecord → TaskRecord → Bool
comes_before a b =
    ltb a.created_at b.created_at || (nat_beq a.created_at b.created_at && text_before a.id b.id)

unfoldable pub insert_ordered : TaskRecord → List TaskRecord → List TaskRecord
insert_ordered a [] = a ∷ []
insert_ordered a (b ∷ l) = if comes_before b a then b ∷ insert_ordered a l else a ∷ b ∷ l

abbrev pub push_ordered : Option TaskRecord → List TaskRecord → List TaskRecord
push_ordered none l = l
push_ordered (some a) l = insert_ordered a l

-- The tasks whose status is one of the given ones, joined and in order.
unfoldable pub list_where : TaskHost → TaskStore → List TaskStatus → Dict TaskRow → List TaskRecord
list_where h s l [] = []
list_where h s l ((id, row) ∷ d) =
    let rest = list_where h s l d in
    if includes l row.status then push_ordered (joined h s id (some row)) rest else rest

unfoldable pub list_active : TaskHost → TaskStore → List TaskRecord
list_active h s = list_where h s (created ∷ starting ∷ running ∷ waiting_for_user ∷ []) s.tasks

unfoldable pub list_recoverable : TaskHost → TaskStore → List TaskRecord
list_recoverable h s = list_where h s (starting ∷ running ∷ waiting_for_user ∷ []) s.tasks
