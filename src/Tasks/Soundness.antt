-- ===== src/Tasks/Soundness.antt =====
-- repositories/taskRepository.ts and db/schema.ts: the invariant of the task tables.
use discordagent.Base.{ℕ, String, true, ◌≡◌, ◌≢◌, ◌⊎◌, Option, none, some}
use discordagent.Dict.{get}
use discordagent.Tasks.Status.{is_terminal}
use discordagent.Tasks.Rows.{
  TaskStatus, created, starting, running, waiting_for_user, completed, failed, cancelled,
  interrupted, ProjectRow, TaskRow, WorktreeRow, SessionRow, ResultRow, CardRow, TaskStore,
}

-- The times that a status calls for: a task that has not been started carries neither time, one
-- that has run its start, and one that has ended its end.
abbrev pub IsTimed : TaskStatus → Option ℕ → Option ℕ → Type 0
IsTimed created start end = (start ≡ none) × (end ≡ none)
IsTimed starting start end = Unit
IsTimed running start end = start ≢ none
IsTimed waiting_for_user start end = start ≢ none
IsTimed completed start end = (start ≢ none) × (end ≢ none)
IsTimed failed start end = end ≢ none
IsTimed cancelled start end = end ≢ none
IsTimed interrupted start end = end ≢ none

-- The outcomes that a saved result can have beside the task's status: the same one, or an
-- interruption that the task has moved on from.
abbrev pub Fits : TaskStatus → TaskStatus → Type 0
Fits status outcome =
    (status ≢ created)
    × (is_terminal outcome ≡ true)
    × ((status ≡ outcome) ⊎ (outcome ≡ interrupted))

-- Foreign keys lead to rows, thread ids and provider sessions belong to one task, a session has its
-- task's provider, a result fits its task's status, and times fit the status.
pub record IsSound (s : TaskStore) : Type 0 where
  pub project :
      (id : String) (row : TaskRow)
      → get id s.tasks ≡ some row
      → (p : ProjectRow) × (get row.project_id s.projects ≡ some p)
  pub thread :
      (i j : String) (a b : TaskRow)
      → get i s.tasks ≡ some a
      → get j s.tasks ≡ some b
      → a.thread_id ≡ b.thread_id
      → i ≡ j
  pub timed :
      (id : String) (row : TaskRow)
      → get id s.tasks ≡ some row
      → IsTimed row.status row.started_at row.completed_at
  pub worktree :
      (id : String) (w : WorktreeRow)
      → get id s.worktrees ≡ some w
      → (row : TaskRow) × (get id s.tasks ≡ some row)
  pub session :
      (id : String) (x : SessionRow)
      → get id s.sessions ≡ some x
      → (row : TaskRow) × (get id s.tasks ≡ some row) × (x.provider ≡ row.provider)
  pub one_session :
      (i j : String) (x y : SessionRow)
      → get i s.sessions ≡ some x
      → get j s.sessions ≡ some y
      → x.provider ≡ y.provider
      → x.session_id ≡ y.session_id
      → i ≡ j
  pub outcome :
      (id : String) (r : ResultRow)
      → get id s.results ≡ some r
      → (row : TaskRow) × (get id s.tasks ≡ some row) × Fits row.status r.outcome
  pub card :
      (id : String) (c : CardRow)
      → get id s.cards ≡ some c
      → (row : TaskRow) × (get id s.tasks ≡ some row)
