-- ===== src/Tasks/Recovery.antt =====
-- coordinator/taskRecovery.ts: `recoverInterruptedTasks`, and `append` of
-- repositories/eventRepository.ts, which is called with a dedupe key. The event is the status event
-- of the recovery, which `isAgentEvent` accepts, stored with its detail. `inspect` of the worktree
-- manager, the text of an error or of a number and the clock at each task are arguments. The awaits
-- on `inspect` let nothing else write: the recovery runs alone.
use discordagent.Base.{
  ℕ, String, Bool, ◌&&◌, ◌==◌, Option, none, some, List, [], ◌∷◌, ◌++◌, any, Result, ok, err,
  if◌then◌else◌,
}
use Prim.Native.String.{◌++◌ as join}
use discordagent.Tasks.Rows.{interrupted, WorktreeRow, TaskStore, TaskRecord, TaskError, TaskHost}
use discordagent.Tasks.Select.{get_worktree, list_recoverable}
use discordagent.Tasks.Repository.{transition}

pub record WorktreeInspection : Type 0 where
  pub exists : Bool
  pub dirty : Bool

pub record RecoveryHost : Type 0 where
  pub inspect : String → Result String WorktreeInspection
  pub decimal : ℕ → String
  pub clock : String → ℕ

pub record EventRow : Type 0 where
  pub task_id : String
  pub dedupe_key : String
  pub detail : String

-- `ON CONFLICT(task_id, dedupe_key) DO NOTHING`.
unfoldable pub append : List EventRow → EventRow → List EventRow
append log e =
    if any (λ f. f.task_id == e.task_id && f.dedupe_key == e.dedupe_key) log
    then log
    else log ++ e ∷ []

infixr 45 ◌&◌
abbrev ◌&◌ : String → String → String
s & t = join s t

abbrev inspected : WorktreeRow → Result String WorktreeInspection → String
inspected w (err message) =
    "Worktree inspection failed: " & message
    & ". Resume requires explicit user action; no provider turn was replayed."
inspected w (ok i) =
    if i.exists
    then "Worktree preserved at "
      & w.worktree_path
      & " ("
      & (if i.dirty then "uncommitted changes present" else "clean")
      & "). Resume requires explicit user action; no provider turn was replayed."
    else "Worktree path " & w.worktree_path
      & " is missing. Resume requires explicit user action; no provider turn was replayed."

unfoldable pub detail_of : RecoveryHost → Option WorktreeRow → String
detail_of r none = "No worktree record was found. Resume requires explicit user action."
detail_of r (some w) = inspected w (r.inspect w.worktree_path)

abbrev recovery_event : RecoveryHost → TaskStore → TaskRecord → EventRow
recovery_event r s t = record {
  task_id = t.id;
  dedupe_key = "recovery:" & r.decimal t.updated_at;
  detail = detail_of r (get_worktree s t.id);
}

pub record Recovery : Type 0 where
  pub store : TaskStore
  pub events : List EventRow
  pub recovered : Result TaskError (List TaskRecord)

abbrev with_head :
    TaskRecord → Result TaskError (List TaskRecord) → Result TaskError (List TaskRecord)
with_head t (err x) = err x
with_head t (ok l) = ok (t ∷ l)

abbrev pub with_recovered : TaskRecord → Recovery → Recovery
with_recovered t r = record r { recovered = with_head t r.recovered }

-- A round of the loop: where the transition throws, the loop ends.
abbrev pub after_transition :
    TaskStore × Result TaskError TaskRecord → List EventRow → (TaskStore → Recovery) → Recovery
after_transition (s, err x) log rest = record { store = s; events = log; recovered = err x }
after_transition (s, ok t) log rest = with_recovered t (rest s)

unfoldable pub recover_each :
    TaskHost → RecoveryHost → TaskStore → List EventRow → List TaskRecord → Recovery
recover_each h r s log [] = record { store = s; events = log; recovered = ok [] }
recover_each h r s log (t ∷ ts) =
    after_transition (transition h s t.id (t.status ∷ []) interrupted (r.clock t.id)) log
      (λ s'. recover_each h r s' (append log (recovery_event r s t)) ts)

unfoldable pub recover_interrupted_tasks :
    TaskHost → RecoveryHost → TaskStore → List EventRow → Recovery
recover_interrupted_tasks h r s log = recover_each h r s log (list_recoverable h s)
