-- ===== src/Loops/Reconcile.antt =====
-- services/scheduledLoopService.ts: `createAndStart`, `start`, and the reconciliation at the start of
-- the process.
use discordagent.Base.{
  ℕ, ◌+◌, ◌-◌, String, Bool, not, Option, none, some, List, [], ◌∷◌, if◌then◌else◌, Result, ok, err,
}
use Prim.Native.String.{◌++◌}
use discordagent.Dict.{get, has}
use discordagent.Tasks.Rows.{TaskHost}
use discordagent.Loops.Rows.{LoopStore, ScheduledLoopRecord, CreateScheduledLoopInput, LoopError}
use discordagent.Loops.Repository.{
  is_running, find_loop, terminalize_by_id, defer_interrupted, create_loop, Found,
}
use discordagent.Loops.Service.{
  RuntimeLoop, LoopService, register, write_runtime, with_timer, OutsideCall, meanwhile, Round,
  run_now,
}

unfoldable pub start_loop : TaskHost → LoopService → String → Round → LoopService
start_loop h s id r = run_now h (register s id) id r

abbrev pub started :
    TaskHost
    → LoopService
    → Round
    → String
    → LoopStore × Result LoopError (Option ScheduledLoopRecord)
    → LoopService × Result LoopError (Option ScheduledLoopRecord)
started h s r id (store, err e) = (record s { store = store }, err e)
started h s r id (store, ok loop) =
    let s' = start_loop h (record s { store = store }) id r in (s', ok (find_loop s'.store id))

unfoldable pub create_and_start :
    TaskHost
    → LoopService
    → CreateScheduledLoopInput
    → ℕ
    → Round
    → LoopService × Result LoopError (Option ScheduledLoopRecord)
create_and_start h s input clock r = started h s r input.id (create_loop h s.store input clock)

unfoldable pub detach_all : LoopService → LoopService
detach_all s = record s { runtimes = [] }

-- Whether the project and the thread are there, what happens while the thread is fetched, and the
-- times that `now()` gives.
pub record Restart : Type 0 where
  pub project_found : Bool
  pub during_fetch : List OutsideCall
  pub thread_found : Bool
  pub end_at : ℕ
  pub next_from : ℕ
  pub deferred_at : ℕ
  pub due_now : ℕ
  pub delay_from : ℕ

abbrev pub token_in : Option RuntimeLoop → ℕ
token_in none = 0
token_in (some rt) = rt.token

abbrev pub due_at : Option ℕ → ℕ → ℕ
due_at none now = now
due_at (some t) now = t

-- `register`, and the timer.
unfoldable pub resume_runtime : LoopService → String → Option ℕ → Restart → LoopService
resume_runtime s id next r =
    let due = due_at next r.due_now in
    let s' = register s id in
    write_runtime s' id (token_in (get id s'.runtimes))
      (with_timer (some (r.delay_from + (due - r.delay_from))))

abbrev pub resumed_if : LoopService → Restart → Found → LoopService
resumed_if s r (store, none) = record s { store = store }
resumed_if s r (store, some l) = resume_runtime (record s { store = store }) l.id l.next_run_at r

abbrev pub project_unavailable : ScheduledLoopRecord → String
project_unavailable loop = "Project \"" ++ (loop.project_name ++ "\" is unavailable or archived")

abbrev pub thread_unavailable : ScheduledLoopRecord → String
thread_unavailable loop = "Discord thread " ++ (loop.thread_id ++ " is unavailable")

abbrev pub end_unavailable : TaskHost → LoopService → String → String → Restart → LoopService
end_unavailable h s id reason r = record s {
  store = (terminalize_by_id h s.store id reason r.end_at).0;
}

unfoldable pub after_fetch : TaskHost → LoopService → ScheduledLoopRecord → Restart → LoopService
after_fetch h s loop r =
    if not r.thread_found
    then end_unavailable h s loop.id (thread_unavailable loop) r
    else if is_running loop.status
    then resumed_if s r
        (defer_interrupted s.store loop.id (r.next_from + loop.interval_ms) r.deferred_at)
    else resume_runtime s loop.id loop.next_run_at r

unfoldable pub reconcile_one : TaskHost → LoopService → ScheduledLoopRecord → Restart → LoopService
reconcile_one h s loop r =
    if has loop.id s.runtimes
    then s
    else if not r.project_found
    then end_unavailable h s loop.id (project_unavailable loop) r
    else after_fetch h (meanwhile h s r.during_fetch) loop r

-- The loops that `listResumable` gave, one after the other.
unfoldable pub reconcile :
    TaskHost → LoopService → List (ScheduledLoopRecord × Restart) → LoopService
reconcile h s [] = s
reconcile h s ((loop, r) ∷ loops) = reconcile h (reconcile_one h s loop r) loops
