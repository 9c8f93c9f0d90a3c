-- ===== src/Tasks/RoundTrip.antt =====
-- repositories/taskRepository.ts: what is written is read back.
use discordagent.Base.{
  ℕ, String, true, false, is_empty, List, Option, ◌≡◌, refl, none, some, [], ◌∷◌, Result, ok, err,
  arith, subst, sym, ◌∙◌, ap, Option-cases, inl, inr,
}
use discordagent.Dict.{Dict, get, set}
use discordagent.Dict.Index.{get-set_self}
use discordagent.Tasks.Rows.{
  created, starting, ProjectRow, TaskRow, TaskStore, TaskRecord, TaskResult, SavedResult,
  ProviderUsage, ResultRow, CreateTaskTransaction, TaskError, TaskHost,
}
use discordagent.Tasks.Status.{is_terminal}
use discordagent.Tasks.Select.{
  require_task, to_task_record, with_thread, find_by_id, find_by_thread_id, get_worktree,
  get_result, read_result, read_usage, if_truthy, session_of,
}
use discordagent.Tasks.Repository.{
  answer, save_result, save_write, summary_of, or_empty, usage_column, new_result,
  create_with_worktree, create_write, new_task, new_worktree, or_now, reopen_for_continuation,
  reopen_write, reopened, delete,
}
use discordagent.Tasks.Changes.{
  Creation, create_write-Creation, Saving, save_write-Saving, Reopening, reopen_write-Reopening,
}
use discordagent.Tasks.Soundness.{IsSound}
use discordagent.Tasks.Moves.{get-delete}
use discordagent.Tasks.Upkeep.{find_project-get}
use discordagent.Tasks.Lifecycle.{answer_ok, require_task_stored}

save_result-Saving :
    (h : TaskHost) (s : TaskStore) (id : String) (r : TaskResult)
    → (save_result h s id r).1 ≡ ok tt
    → Saving h s id r (save_result h s id r).0
unfolding save_result
save_result-Saving h s id r e =
    let (s', written, same) = answer_ok s (save_write h s id r) _ tt e in
    subst (Saving h s id r) (sym same) (save_write-Saving h s id r s' written)

-- The usage column of a result is read back where `JSON.parse` reads what was written.
read_usage-usage_column :
    (h : TaskHost) (o : Option ProviderUsage)
    → ((u : ProviderUsage)
        → o ≡ some u
        → (h.parse_usage (h.stringify_usage u) ≡ some u) × (is_empty (h.stringify_usage u) ≡ false))
    → read_usage h (if_truthy (usage_column h o)) ≡ ok o
read_usage-usage_column h none json = refl
read_usage-usage_column h (some u) json = let (back, full) = json u refl in rw full (rw back refl)

read_result_written :
    (h : TaskHost) (t : TaskRecord) (r : TaskResult)
    → ((l : List String) → h.parse_texts (h.stringify_texts l) ≡ some l)
    → ((u : ProviderUsage)
        → r.usage ≡ some u
        → (h.parse_usage (h.stringify_usage u) ≡ some u) × (is_empty (h.stringify_usage u) ≡ false))
    → (v : SavedResult) × (read_result h t (some (new_result h r)) ≡ ok (some v))
      × (v.provider ≡ t.provider)
      × (v.outcome ≡ r.outcome)
      × (v.summary ≡ summary_of r)
      × (v.verification ≡ or_empty r.verification)
      × (v.unresolved ≡ or_empty r.unresolved)
      × (v.usage ≡ r.usage)
      × (v.completed_at ≡ r.completed_at)
unfolding read_result
read_result_written h t r texts json =
    rw (texts (or_empty r.verification), read_result)
      (rw (texts (or_empty r.unresolved)) (
        rw (read_usage-usage_column h r.usage json)
          (_, refl, refl, refl, refl, refl, refl, refl, refl)))

get_result_stored :
    (h : TaskHost) (s : TaskStore) (id : String) (row : TaskRow) (p : ProjectRow) (r : ResultRow)
    → get id s.tasks ≡ some row
    → get row.project_id s.projects ≡ some p
    → get id s.results ≡ some r
    → get_result h s id ≡ read_result h (to_task_record h id row p (get id s.sessions)) (some r)
unfolding get_result
get_result_stored h s id row p r at there found =
    rw (require_task_stored h s id row p at there) (rw found refl)

-- A result that is saved in a sound store is read back: its outcome, summary or what stands in for
-- it, lists, usage and time as they were given, with the provider of the result. For its three JSON
-- columns it is assumed that `JSON.parse` returns what `JSON.stringify` was given, for every list of
-- texts and for the usage of this result, and that the latter's text is not empty.
pub save_roundtrip :
    (h : TaskHost) (s : TaskStore) (id : String) (r : TaskResult)
    → ((l : List String) → h.parse_texts (h.stringify_texts l) ≡ some l)
    → ((u : ProviderUsage)
        → r.usage ≡ some u
        → (h.parse_usage (h.stringify_usage u) ≡ some u) × (is_empty (h.stringify_usage u) ≡ false))
    → IsSound s
    → (save_result h s id r).1 ≡ ok tt
    → (v : SavedResult) × (get_result h (save_result h s id r).0 id ≡ ok (some v))
      × (v.provider ≡ r.provider)
      × (v.outcome ≡ r.outcome)
      × (v.summary ≡ summary_of r)
      × (v.verification ≡ or_empty r.verification)
      × (v.unresolved ≡ or_empty r.unresolved)
      × (v.usage ≡ r.usage)
      × (v.completed_at ≡ r.completed_at)
unfolding to_task_record
save_roundtrip h s id r texts json sound e =
    let k = save_result-Saving h s id r e in
    let (p, there) = sound.project id k.row k.at in
    let s' : TaskStore = record s { results = set id (new_result h r) s.results } in
    let t : TaskRecord = to_task_record h id k.row p (get id s.sessions) in
    let (v, found, provider, outcome, summary, verification, unresolved, usage, completed_at) =
      read_result_written h t r texts json in
    (
      v,
      rw k.result (
          get_result_stored h s' id k.row p (new_result h r) k.at there
            (get-set_self id (new_result h r) s.results)
          ∙ found),
      provider ∙ k.provider,
      outcome,
      summary,
      verification,
      unresolved,
      usage,
      completed_at,
    )

-- A new thread is found.
with_thread-set :
    (thread id : String) (row : TaskRow) (d : Dict TaskRow)
    → with_thread thread d ≡ none
    → get id d ≡ none
    → row.thread_id ≡ thread
    → with_thread thread (set id row d) ≡ some (id, row)
unfolding with_thread get set
with_thread-set thread id row [] free new same = ground arith
with_thread-set thread id row ((j, r) ∷ d) free new same =
    ground (arith, with_thread-set thread id row d)

create-Creation :
    (h : TaskHost) (s : TaskStore) (input : CreateTaskTransaction) (clock : ℕ) (t : TaskRecord)
    → (create_with_worktree h s input clock).1 ≡ ok t
    → Creation h s input clock (create_with_worktree h s input clock).0
unfolding create_with_worktree
create-Creation h s input clock t e =
    let (s', written, same) = answer_ok s (create_write h s input clock) _ t e in
    subst (Creation h s input clock) (sym same) (create_write-Creation h s input clock s' written)

-- What an operation returns is what it reads from the store that it leaves.
answer_read :
    {A : Type 0} (s : TaskStore) (w : Result TaskError TaskStore)
    (read : TaskStore → Result TaskError A) (a : A)
    → (answer s w read).1 ≡ ok a
    → read (answer s w read).0 ≡ ok a
answer_read s (err x) read a e = absurd (ground arith)
answer_read s (ok s') read a e = e

require_task_found :
    (h : TaskHost) (s : TaskStore) (id : String) (t : TaskRecord)
    → require_task h s id ≡ ok t
    → find_by_id h s id ≡ some t
unfolding require_task
require_task_found h s id t e = ground arith

find_by_thread_stored :
    (h : TaskHost) (s : TaskStore) (id thread : String) (row : TaskRow)
    → with_thread thread s.tasks ≡ some (id, row)
    → get id s.tasks ≡ some row
    → find_by_thread_id h s thread ≡ find_by_id h s id
unfolding find_by_thread_id find_by_id
find_by_thread_stored h s id thread row at there = rw (at, find_by_thread_id) (rw there refl)

-- A task that no row is stored for has no session in a sound store.
no_session :
    (s : TaskStore) (id : String) → IsSound s → get id s.tasks ≡ none → get id s.sessions ≡ none
no_session s id sound new = elim (Option-cases (get id s.sessions)) [
  | inl gone ↦ gone
  | inr (x, at) ↦ let (row, there, same) = sound.session id x at in absurd (ground arith)
]

-- The record of a row that was read.
found_record :
    (h : TaskHost) (s : TaskStore) (id : String) (row : TaskRow) (p : ProjectRow) (t : TaskRecord)
    → get id s.tasks ≡ some row
    → get row.project_id s.projects ≡ some p
    → require_task h s id ≡ ok t
    → t ≡ to_task_record h id row p (get id s.sessions)
found_record h s id row p t at there e = ground (arith, require_task_stored h s id row p at there)

create_reads :
    (h : TaskHost) (s : TaskStore) (input : CreateTaskTransaction) (clock : ℕ) (t : TaskRecord)
    → (create_with_worktree h s input clock).1 ≡ ok t
    → require_task h (create_with_worktree h s input clock).0 input.task_id ≡ ok t
unfolding create_with_worktree
create_reads h s input clock t e = answer_read s (create_write h s input clock) _ t e

reopen_reads :
    (h : TaskHost) (s : TaskStore) (id : String) (now : ℕ) (t : TaskRecord)
    → (reopen_for_continuation h s id now).1 ≡ ok t
    → require_task h (reopen_for_continuation h s id now).0 id ≡ ok t
unfolding reopen_for_continuation
reopen_reads h s id now t e = answer_read s (reopen_write h s id now) _ t e

-- A task that is created in a sound store is found by its id and by its thread, as the record that
-- was returned: created, with the given provider, channel and thread and the redacted objective, no
-- session and no start. Its worktree is the given one, and active.
pub create_roundtrip :
    (h : TaskHost) (s : TaskStore) (input : CreateTaskTransaction) (clock : ℕ) (t : TaskRecord)
    → IsSound s
    → (create_with_worktree h s input clock).1 ≡ ok t
    → (find_by_id h (create_with_worktree h s input clock).0 input.task_id ≡ some t)
      × (find_by_thread_id h (create_with_worktree h s input clock).0 input.thread_id ≡ some t)
      × (get_worktree (create_with_worktree h s input clock).0 input.task_id
          ≡ some (record {
            id = input.worktree.id;
            repository_path = input.worktree.repository_path;
            worktree_path = input.worktree.worktree_path;
            branch_name = input.worktree.branch_name;
            base_ref = input.worktree.base_ref;
            created_at = or_now input.created_at clock;
            removed_at = none;
          }))
      × (t.status ≡ created)
      × (t.provider ≡ input.provider)
      × (t.channel_id ≡ input.channel_id)
      × (t.thread_id ≡ input.thread_id)
      × (t.objective ≡ h.redact_sensitive_text input.objective)
      × (t.provider_session_id ≡ none)
      × (t.started_at ≡ none)
unfolding to_task_record get_worktree
create_roundtrip h s input clock t sound e =
    let c = create-Creation h s input clock t e in
    let id : String = input.task_id in
    let now : ℕ = or_now input.created_at clock in
    let row : TaskRow = new_task h input c.project_id now in
    let s' : TaskStore = (create_with_worktree h s input clock).0 in
    let read : require_task h s' id ≡ ok t = create_reads h s input clock t e in
    let at : get id s'.tasks ≡ some row = ground (arith, c.result, get-set_self id row s.tasks) in
    let (p, there) = find_project-get h input.project_name s.projects c.project_id c.project in
    let same : t ≡ to_task_record h id row p (get id s'.sessions) =
      found_record h s' id row p t at (ground (arith, c.result)) read in
    let found : find_by_id h s' id ≡ some t = require_task_found h s' id t read in
    let thread : with_thread input.thread_id s'.tasks ≡ some (id, row) =
      rw c.result (with_thread-set input.thread_id id row s.tasks c.new_thread c.new_id refl) in
    (
      found,
      find_by_thread_stored h s' id input.thread_id row thread at ∙ found,
      ground (arith, c.result, get-set_self id (new_worktree input.worktree now) s.worktrees),
      ap (λ r. r.status) same,
      ap (λ r. r.provider) same,
      ap (λ r. r.channel_id) same,
      ap (λ r. r.thread_id) same,
      ap (λ r. r.objective) same,
      ground
          (arith, ap (λ r. r.provider_session_id) same, c.result, no_session s id sound c.new_id),
      ap (λ r. r.started_at) same,
    )

reopen-Reopening :
    (h : TaskHost) (s : TaskStore) (id : String) (now : ℕ) (t : TaskRecord)
    → (reopen_for_continuation h s id now).1 ≡ ok t
    → Reopening s id now (reopen_for_continuation h s id now).0
unfolding reopen_for_continuation
reopen-Reopening h s id now t e =
    let (s', written, same) = answer_ok s (reopen_write h s id now) _ t e in
    subst (Reopening s id now) (sym same) (reopen_write-Reopening h s id now s' written)

get_result-none :
    (h : TaskHost) (s : TaskStore) (id : String) (t : TaskRecord)
    → require_task h s id ≡ ok t
    → get id s.results ≡ none
    → get_result h s id ≡ ok none
unfolding get_result read_result
get_result-none h s id t read gone = rw read (rw gone refl)

deleted : {V : Type 0} (k : String) (d : Dict V) → get k (delete k d) ≡ none
deleted k d = elim (Option-cases (get k (delete k d))) [
  | inl gone ↦ gone
  | inr (v, at) ↦ absurd ((get-delete k k d v at).0 refl)
]

-- A task that is reopened in a sound store was in a terminal status. It is starting, without an end
-- time and with the start time and the session it had, and it has no result any more.
pub reopen_roundtrip :
    (h : TaskHost) (s : TaskStore) (id : String) (now : ℕ) (t : TaskRecord)
    → IsSound s
    → (reopen_for_continuation h s id now).1 ≡ ok t
    → (row : TaskRow) × (get id s.tasks ≡ some row)
      × (is_terminal row.status ≡ true)
      × (t.status ≡ starting)
      × (t.completed_at ≡ none)
      × (t.started_at ≡ row.started_at)
      × (t.provider_session_id ≡ session_of (get id s.sessions))
      × (get_result h (reopen_for_continuation h s id now).0 id ≡ ok none)
unfolding to_task_record
reopen_roundtrip h s id now t sound e =
    let c = reopen-Reopening h s id now t e in
    let row : TaskRow = reopened c.row now in
    let s' : TaskStore = (reopen_for_continuation h s id now).0 in
    let read : require_task h s' id ≡ ok t = reopen_reads h s id now t e in
    let (p, there) = sound.project id c.row c.at in
    let same : t ≡ to_task_record h id row p (get id s'.sessions) =
      found_record h s' id row p t (ground (arith, c.result, get-set_self id row s.tasks))
        (ground (arith, c.result)) read in
    (
      c.row,
      c.at,
      c.terminal,
      ap (λ r. r.status) same,
      ap (λ r. r.completed_at) same,
      ap (λ r. r.started_at) same,
      ground (arith, ap (λ r. r.provider_session_id) same, c.result),
      get_result-none h s' id t read (ground (arith, c.result, deleted id s.results)),
    )
