-- ===== src/Tasks/Recovered.antt =====
-- coordinator/taskRecovery.ts: what `recoverInterruptedTasks` makes of the stored tasks. The
-- statuses are those of `listRecoverable`; docs/explanation/architecture/durable-state-and-recovery.md
-- and docs/how-to/operations/recover-an-interrupted-task.md name `created` beside them.
use discordagent.Base.{
  ℕ, String, Bool, true, false, ◌||◌, ◌≡◌, refl, Option, none, some, List, [], ◌∷◌, All, arith,
  str_dec, ok, subst,
}
use discordagent.Dict.{get, set}
use discordagent.Dict.Laws.{get-set}
use discordagent.Dict.Distinct.{IsDistinct, All-of_get}
use discordagent.Tasks.Rows.{
  TaskStatus, starting, running, waiting_for_user, interrupted, TaskRow, TaskStore, TaskRecord,
  TaskHost,
}
use discordagent.Tasks.Status.{includes, status_dec, legal_transitions}
use discordagent.Tasks.Select.{to_task_record, list_where, list_recoverable}
use discordagent.Tasks.Repository.{transition, moved}
use discordagent.Tasks.Soundness.{IsSound}
use discordagent.Tasks.Moves.{Move-IsSound}
use discordagent.Tasks.Lifecycle.{transition_legal, transitioned, moved_columns}
use discordagent.Tasks.Recovery.{
  RecoveryHost, EventRow, Recovery, recover_each, recover_interrupted_tasks, with_recovered,
}
use discordagent.Tasks.Recoverable.{
  has_id, IsApart, listed, AreJoined, list_where-has_id, list_where-IsApart, list_where-All,
}

abbrev recoverable : List TaskStatus
recoverable = starting ∷ running ∷ waiting_for_user ∷ []

-- A record of a stored task that waits for its recovery.
abbrev IsWaiting : TaskStore → TaskRecord → Type 0
IsWaiting s t =
    (row : TaskRow) × (get t.id s.tasks ≡ some row)
    × (t.status ≡ row.status)
    × (includes recoverable row.status ≡ true)

interrupts :
    (a : TaskStatus)
    → includes recoverable a ≡ true
    → includes (legal_transitions a) interrupted ≡ true
unfolding includes legal_transitions status_dec
interrupts a h = ground arith

expects : (a b : TaskStatus) → a ≡ b → includes (a ∷ []) b ≡ true
unfolding includes status_dec
expects a b h = ground arith

-- A row of another task is not touched.
still-IsWaiting :
    (s : TaskStore) (id : String) (new : TaskRow) (ts : List TaskRecord)
    → has_id id ts ≡ false
    → All (IsWaiting s) ts
    → All (IsWaiting (record s { tasks = set id new s.tasks })) ts
still-IsWaiting s id new [] free h = tt
still-IsWaiting s id new (t ∷ ts) free ((row, at, status, ready), h) = (
  (row, ground (arith, get-set id t.id new s.tasks), status, ready),
  still-IsWaiting s id new ts (ground arith) h,
)

-- A row after the recovery.
abbrev pub interrupt_at : Bool → ℕ → Option TaskRow → Option TaskRow
interrupt_at true now (some row) =
    some (record row { status = interrupted; updated_at = now; completed_at = some now })
interrupt_at true now none = none
interrupt_at false now o = o

-- The recovery returned, and the rows of the listed tasks are interrupted.
record IsDone (r : RecoveryHost) (s : TaskStore) (ts : List TaskRecord) (v : Recovery)
    : Type 0 where
  pub recovered : List TaskRecord
  pub returned : v.recovered ≡ ok recovered
  pub sound : IsSound v.store
  pub rows :
      (id : String)
      → get id v.store.tasks ≡ interrupt_at (has_id id ts) (r.clock id) (get id s.tasks)

module _ (r : RecoveryHost) (s : TaskStore) (t : TaskRecord) (ts : List TaskRecord) (row : TaskRow)
    (v : Recovery) (at : get t.id s.tasks ≡ some row) (free : has_id t.id ts ≡ false)
    (d : IsDone r
      (record s { tasks = set t.id (moved row interrupted (r.clock t.id)) s.tasks })
      ts
      v) where
  rows_here : get t.id v.store.tasks ≡ interrupt_at true (r.clock t.id) (get t.id s.tasks)
  rows_here = ground (
    arith,
    d.rows t.id,
    get-set t.id t.id (moved row interrupted (r.clock t.id)) s.tasks,
    moved_columns row interrupted (r.clock t.id),
  )

  rows_all :
      (id : String)
      → get id v.store.tasks ≡ interrupt_at (has_id id (t ∷ ts)) (r.clock id) (get id s.tasks)
  rows_all id =
      elim (str_dec t.id id)
        as (λ x.
          get id v.store.tasks
          ≡ interrupt_at (elim x [ yes _ ↦ true | no _ ↦ false ] || has_id id ts) (r.clock id)
              (get id s.tasks)) [
                | yes same ↦
                    subst (λ i. get i v.store.tasks ≡ interrupt_at true (r.clock i) (get i s.tasks))
                      same rows_here
                | no other ↦ ground (
                  arith,
                  d.rows id,
                  get-set t.id id (moved row interrupted (r.clock t.id)) s.tasks,
                )
              ]

  IsDone-step : (t' : TaskRecord) → IsDone r s (t ∷ ts) (with_recovered t' v)
  IsDone-step t' = record {
    recovered = t' ∷ d.recovered;
    returned = ground (arith, d.returned);
    sound = d.sound;
    rows = rows_all;
  }

recover_each-IsDone :
    (h : TaskHost) (r : RecoveryHost) (s : TaskStore) (log : List EventRow) (ts : List TaskRecord)
    → IsSound s
    → All (IsWaiting s) ts
    → IsApart ts
    → IsDone r s ts (recover_each h r s log ts)
unfolding recover_each
recover_each-IsDone h r s log [] sound w a = record {
  recovered = [];
  returned = refl;
  sound = sound;
  rows = λ id. refl;
}
recover_each-IsDone h r s log (t ∷ ts) sound ((row, at, status, ready), w) (free, a) =
    let now : ℕ = r.clock t.id in
    let (p, there) = sound.project t.id row at in
    let done : transition h s t.id (t.status ∷ []) interrupted now
        ≡ transitioned h s t.id row interrupted now p =
      transition_legal h s t.id (t.status ∷ []) interrupted now row p at there
        (expects t.status row.status status) (interrupts row.status ready) in
    let next : TaskStore = record s { tasks = set t.id (moved row interrupted now) s.tasks } in
    let sound' : IsSound next =
      Move-IsSound s next t.id (t.status ∷ []) interrupted now sound (record {
        row = row;
        at = at;
        ready = expects t.status row.status status;
        legal = interrupts row.status ready;
        result = refl;
      }) in
    rw done (
      IsDone-step r s t ts row _ at free
        (recover_each-IsDone h r next _ ts sound'
          (still-IsWaiting s t.id (moved row interrupted now) ts free w) a)
        _)

-- The stored rows as the list needs them.
joined_rows : (s : TaskStore) → IsSound s → IsDistinct s.tasks → AreJoined s s.tasks
joined_rows s sound distinct = All-of_get _ s.tasks distinct sound.project

IsWaiting-rows :
    (h : TaskHost) (s : TaskStore)
    → IsSound s
    → IsDistinct s.tasks
    → All (IsWaiting s) (list_where h s recoverable s.tasks)
unfolding to_task_record
IsWaiting-rows h s sound distinct =
    list_where-All h s recoverable (IsWaiting s) s.tasks (joined_rows s sound distinct)
      (All-of_get _ s.tasks distinct (λ id row at p ready. (row, at, refl, ready)))

-- Whether the recovery takes a row.
unfoldable pub is_recoverable : Option TaskRow → Bool
is_recoverable o = listed recoverable o

-- In a sound store with distinct task ids the recovery returns, whatever the inspections of the
-- worktrees say, and leaves the store sound. The row of each task that was starting, running or
-- waiting for its user is interrupted, with the time of the task's turn as that of its update and
-- of its end, and is the same in its other columns. Every other task, a created one too, keeps its
-- row.
pub recover-IsComplete :
    (h : TaskHost) (r : RecoveryHost) (s : TaskStore) (log : List EventRow)
    → IsSound s
    → IsDistinct s.tasks
    → (l : List TaskRecord) × ((recover_interrupted_tasks h r s log).recovered ≡ ok l)
      × IsSound (recover_interrupted_tasks h r s log).store
      × ((id : String)
          → get id (recover_interrupted_tasks h r s log).store.tasks
            ≡ interrupt_at (is_recoverable (get id s.tasks)) (r.clock id) (get id s.tasks))
unfolding recover_interrupted_tasks list_recoverable is_recoverable
recover-IsComplete h r s log sound distinct =
    let joined = joined_rows s sound distinct in
    let d =
      recover_each-IsDone h r s log (list_where h s recoverable s.tasks) sound
        (IsWaiting-rows h s sound distinct)
        (list_where-IsApart h s recoverable s.tasks distinct joined) in
    (
      d.recovered,
      d.returned,
      d.sound,
      λ id.
          subst
            (λ b.
              get id (recover_each h r s log (list_where h s recoverable s.tasks)).store.tasks
              ≡ interrupt_at b (r.clock id) (get id s.tasks))
            (list_where-has_id h s recoverable s.tasks distinct joined id) (d.rows id),
    )
