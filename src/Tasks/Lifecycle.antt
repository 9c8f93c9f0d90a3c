-- ===== src/Tasks/Lifecycle.antt =====
-- repositories/taskRepository.ts: the transitions that are accepted.
use discordagent.Base.{
  ℕ, String, true, ◌≡◌, ◌∙◌, refl, Option, none, some, List, [], ◌∷◌, ◌↔◌, Result, ok, err, arith,
  subst, sym, ap,
}
use discordagent.Dict.{get, set}
use discordagent.Dict.Index.{get-set_self}
use discordagent.Tasks.Rows.{
  TaskStatus, created, starting, running, waiting_for_user, completed, failed, cancelled,
  interrupted, ProjectRow, TaskRow, TaskStore, TaskRecord, TaskError, TaskHost,
}
use discordagent.Tasks.Status.{status_dec, includes, is_terminal, legal_transitions}
use discordagent.Tasks.Select.{require_task, find_by_id, joined, to_task_record}
use discordagent.Tasks.Repository.{Reply, answer, transition, transition_write, update_where, moved}
use discordagent.Tasks.Changes.{transition_write-Move, Move}
use discordagent.Tasks.Soundness.{IsSound}

-- The life of a task.
infix 40 ◌⟶◌
pub data ◌⟶◌ : TaskStatus → TaskStatus → Type 0 where
  start : created ⟶ starting
  run : starting ⟶ running
  wait : running ⟶ waiting_for_user
  answered : waiting_for_user ⟶ running
  complete : running ⟶ completed
  complete_waiting : waiting_for_user ⟶ completed
  fail_starting : starting ⟶ failed
  fail : running ⟶ failed
  fail_waiting : waiting_for_user ⟶ failed
  cancel_created : created ⟶ cancelled
  cancel_starting : starting ⟶ cancelled
  cancel : running ⟶ cancelled
  cancel_waiting : waiting_for_user ⟶ cancelled
  cancel_interrupted : interrupted ⟶ cancelled
  interrupt_starting : starting ⟶ interrupted
  interrupt : running ⟶ interrupted
  interrupt_waiting : waiting_for_user ⟶ interrupted
  restart : interrupted ⟶ starting

ruleset edges = (
  start, run, wait, answered, complete, complete_waiting, fail_starting, fail, fail_waiting,
  cancel_created, cancel_starting, cancel, cancel_waiting, cancel_interrupted, interrupt_starting,
  interrupt, interrupt_waiting, restart,
)

pub legal-⟶ : (a b : TaskStatus) → includes (legal_transitions a) b ≡ true → a ⟶ b
unfolding includes legal_transitions status_dec
legal-⟶ a b h = grind (arith, edges)

pub ⟶-legal : (a b : TaskStatus) → a ⟶ b → includes (legal_transitions a) b ≡ true
unfolding includes legal_transitions status_dec
⟶-legal a b h = grind arith

pub joined_stored :
    (h : TaskHost) (s : TaskStore) (id : String) (row : TaskRow) (p : ProjectRow)
    → get row.project_id s.projects ≡ some p
    → joined h s id (some row) ≡ some (to_task_record h id row p (get id s.sessions))
unfolding joined
joined_stored h s id row p there = rw (there, joined) refl

pub require_task_stored :
    (h : TaskHost) (s : TaskStore) (id : String) (row : TaskRow) (p : ProjectRow)
    → get id s.tasks ≡ some row
    → get row.project_id s.projects ≡ some p
    → require_task h s id ≡ ok (to_task_record h id row p (get id s.sessions))
unfolding require_task find_by_id
require_task_stored h s id row p at there = rw at (rw (joined_stored h s id row p there) refl)

update_where_stored :
    (s : TaskStore) (id : String) (expected : List TaskStatus) (next : TaskStatus) (now : ℕ)
    (row : TaskRow)
    → get id s.tasks ≡ some row
    → includes expected row.status ≡ true
    → update_where s id expected next now
      ≡ ok (record s { tasks = set id (moved row next now) s.tasks })
unfolding update_where
update_where_stored s id expected next now row at ready = rw (at, update_where) (rw ready refl)

transition_write_legal :
    (h : TaskHost) (s : TaskStore) (id : String) (expected : List TaskStatus) (next : TaskStatus)
    (now : ℕ) (row : TaskRow) (p : ProjectRow)
    → get id s.tasks ≡ some row
    → get row.project_id s.projects ≡ some p
    → includes expected row.status ≡ true
    → includes (legal_transitions row.status) next ≡ true
    → transition_write h s id expected next now
      ≡ ok (record s { tasks = set id (moved row next now) s.tasks })
unfolding transition_write to_task_record
transition_write_legal h s id [] next now row p at there ready legal =
    unfold includes in absurd (ground arith)
transition_write_legal h s id (x ∷ xs) next now row p at there ready legal =
    rw (require_task_stored h s id row p at there)
      (rw (ready, legal) (update_where_stored s id (x ∷ xs) next now row at ready))

-- What `transition` returns where it moves the task.
abbrev pub transitioned :
    TaskHost → TaskStore → String → TaskRow → TaskStatus → ℕ → ProjectRow → Reply TaskRecord
transitioned h s id row next now p = (
  record s { tasks = set id (moved row next now) s.tasks },
  ok (to_task_record h id (moved row next now) p (get id s.sessions)),
)

pub transition_legal :
    (h : TaskHost) (s : TaskStore) (id : String) (expected : List TaskStatus) (next : TaskStatus)
    (now : ℕ) (row : TaskRow) (p : ProjectRow)
    → get id s.tasks ≡ some row
    → get row.project_id s.projects ≡ some p
    → includes expected row.status ≡ true
    → includes (legal_transitions row.status) next ≡ true
    → transition h s id expected next now ≡ transitioned h s id row next now p
unfolding transition moved
transition_legal h s id expected next now row p at there ready legal =
    rw (transition_write_legal h s id expected next now row p at there ready legal) (
      rw
        (require_task_stored h (record s { tasks = set id (moved row next now) s.tasks }) id
          (moved row next now) p (get-set_self id (moved row next now) s.tasks) there)
        refl)

-- An operation that returns has made its write.
pub answer_ok :
    {A : Type 0} (s : TaskStore) (w : Result TaskError TaskStore)
    (read : TaskStore → Result TaskError A) (a : A)
    → (answer s w read).1 ≡ ok a
    → (s' : TaskStore) × (w ≡ ok s') × ((answer s w read).0 ≡ s')
answer_ok s (err x) read a e = absurd (ground arith)
answer_ok s (ok s') read a e = (s', refl, refl)

abbrev pub Returns {ℓ} : {A : Type ℓ} → TaskStore × Result TaskError A → Type ℓ
Returns {A = A} reply = (a : A) × (reply.1 ≡ ok a)

transition-Move :
    (h : TaskHost) (s : TaskStore) (id : String) (expected : List TaskStatus) (next : TaskStatus)
    (now : ℕ)
    → Returns (transition h s id expected next now)
    → Move s id expected next now (transition h s id expected next now).0
unfolding transition
transition-Move h s id expected next now (t, e) =
    let (s', written, same) = answer_ok s (transition_write h s id expected next now) _ t e in
    subst (Move s id expected next now) (sym same)
      (transition_write-Move h s id expected next now s' written)

-- Where the store is sound and the task is stored, `transition` returns exactly when the task's
-- status is among the expected ones and the life of a task has a step from it to the next status.
pub transition_iff :
    (h : TaskHost) (s : TaskStore) (id : String) (expected : List TaskStatus) (next : TaskStatus)
    (now : ℕ) (row : TaskRow)
    → IsSound s
    → get id s.tasks ≡ some row
    → Returns (transition h s id expected next now)
      ↔ ((includes expected row.status ≡ true) × (row.status ⟶ next))
transition_iff h s id expected next now row sound at = (
  (λ done.
      let m = transition-Move h s id expected next now done in
      let same : m.row ≡ row = ground (arith, m.at) in
      (rw (← same) m.ready, legal-⟶ row.status next (rw (← same) m.legal))),
  (λ (ready, edge).
      let (p, there) = sound.project id row at in
      (
        to_task_record h id (moved row next now) p (get id s.sessions),
        ap (λ r. r.1)
            (transition_legal h s id expected next now row p at there ready
              (⟶-legal row.status next edge)),
      )),
)

-- The start time after a step: the first step to running sets it.
abbrev pub start_after : TaskStatus → Option ℕ → ℕ → Option ℕ
start_after running none now = some now
start_after running (some at) now = some at
start_after _ at now = at

-- The end time after a step: a step to one of the four end statuses sets it.
abbrev pub end_after : TaskStatus → Option ℕ → ℕ → Option ℕ
end_after completed at now = some now
end_after failed at now = some now
end_after cancelled at now = some now
end_after interrupted at now = some now
end_after _ at now = at

moved_start :
    (row : TaskRow) (next : TaskStatus) (now : ℕ)
    → (moved row next now).started_at ≡ start_after next row.started_at now
unfolding moved status_dec
moved_start row next now = grind arith

moved_end :
    (row : TaskRow) (next : TaskStatus) (now : ℕ)
    → (moved row next now).completed_at ≡ end_after next row.completed_at now
unfolding moved is_terminal
moved_end row next now = grind arith

-- The columns of a row that is moved.
pub moved_columns :
    (row : TaskRow) (next : TaskStatus) (now : ℕ)
    → moved row next now ≡ record row {
      status = next;
      updated_at = now;
      started_at = start_after next row.started_at now;
      completed_at = end_after next row.completed_at now;
    }
unfolding moved
moved_columns row next now = λ i. record row {
  status = next;
  updated_at = now;
  started_at = moved_start row next now i;
  completed_at = moved_end row next now i;
}

-- A transition that returns has found the task's row in a status with a step to the next one, and
-- has written that row and nothing else. The row has the next status and the time of the call as
-- that of its update. Its start time is that time where the next status is running and it had none,
-- and its end time where the next status is completed, failed, cancelled or interrupted; else it
-- keeps both, as it does its other columns.
pub transition_moves :
    (h : TaskHost) (s : TaskStore) (id : String) (expected : List TaskStatus) (next : TaskStatus)
    (now : ℕ) (t : TaskRecord)
    → (transition h s id expected next now).1 ≡ ok t
    → (row : TaskRow) × (get id s.tasks ≡ some row)
      × (row.status ⟶ next)
      × ((transition h s id expected next now).0 ≡ record s {
        tasks =
            set id
              (record row {
                status = next;
                updated_at = now;
                started_at = start_after next row.started_at now;
                completed_at = end_after next row.completed_at now;
              })
              s.tasks;
      })
transition_moves h s id expected next now t e =
    let m = transition-Move h s id expected next now (t, e) in
    (
      m.row,
      m.at,
      legal-⟶ m.row.status next m.legal,
      m.result ∙ ap (λ r. record s { tasks = set id r s.tasks }) (moved_columns m.row next now),
    )
