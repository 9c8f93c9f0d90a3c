-- ===== src/Loops/Service.antt =====
-- services/scheduledLoopService.ts: the loops that this process runs, over the loop table. What the
-- callbacks do is an argument, and so is what other calls do while one of them is awaited. A timer is
-- the time it fires at; a runtime has a token for the object's identity.
use discordagent.Base.{
  ℕ, ◌+◌, ◌-◌, String, Bool, true, false, Option, none, some, List, [], ◌∷◌, nat_beq, is_empty,
  if◌then◌else◌,
}
use discordagent.Dict.{Dict, get, set}
use discordagent.Tasks.Rows.{TaskHost}
use discordagent.Tasks.Repository.{delete}
use discordagent.Loops.Rows.{
  ScheduledLoopStatus, LoopStore, ScheduledLoopRecord, CreateScheduledLoopInput,
}
use discordagent.Loops.Repository.{
  Found, is_active, is_running, find_loop, acquire_iteration, schedule_next, stop_by_channel,
  terminalize_by_id, terminalize_by_thread, terminalize_by_channel, terminalize_by_project,
  create_loop,
}

pub record RuntimeLoop : Type 0 where
  pub token : ℕ
  pub timer : Option ℕ
  pub executing : Bool

pub record LoopService : Type 0 where
  pub store : LoopStore
  pub runtimes : Dict RuntimeLoop
  pub next_token : ℕ

unfoldable pub detach : LoopService → String → LoopService
detach s id = record s { runtimes = delete id s.runtimes }

abbrev pub new_runtime : ℕ → RuntimeLoop
new_runtime token = record { token = token; timer = none; executing = false }

unfoldable pub register : LoopService → String → LoopService
register s id = elim (get id s.runtimes) [
  | some rt ↦ s
  | none ↦ record s {
    runtimes = set id (new_runtime s.next_token) s.runtimes;
    next_token = s.next_token + 1;
  }
]

abbrev pub changed_runtime :
    Dict RuntimeLoop
    → String
    → ℕ
    → (RuntimeLoop → RuntimeLoop)
    → Option RuntimeLoop
    → Dict RuntimeLoop
changed_runtime d id token f none = d
changed_runtime d id token f (some rt) = if nat_beq rt.token token then set id (f rt) d else d

-- A write to the runtime object with a token: it shows in the map while the object is in it.
unfoldable pub write_runtime : LoopService → String → ℕ → (RuntimeLoop → RuntimeLoop) → LoopService
write_runtime s id token f = record s {
  runtimes = changed_runtime s.runtimes id token f (get id s.runtimes);
}

abbrev pub with_timer : Option ℕ → RuntimeLoop → RuntimeLoop
with_timer t rt = record rt { timer = t }

abbrev pub with_executing : Bool → RuntimeLoop → RuntimeLoop
with_executing b rt = record rt { executing = b }

-- The times that `now()` gives, one after the other, in a call of `runNow`.
pub record RoundTimes : Type 0 where
  pub acquire : ℕ
  pub failure : ℕ
  pub next : ℕ
  pub schedule : ℕ
  pub end_waiting : ℕ
  pub arm : ℕ

-- A callback that throws, or returns with a terminal reason or without one.
pub data CallbackResult : Type 0 where
  threw : CallbackResult
  returned : Option String → CallbackResult

-- What other calls of the service do in the meantime.
pub data OutsideCall : Type 0 where
  creates : CreateScheduledLoopInput → ℕ → OutsideCall
  stops_channel : String → String → ℕ → OutsideCall
  ends_thread : String → String → ℕ → OutsideCall
  ends_channel : String → String → ℕ → OutsideCall
  ends_project : String → String → ℕ → OutsideCall

abbrev pub found_list : Option ScheduledLoopRecord → List ScheduledLoopRecord
found_list none = []
found_list (some r) = r ∷ []

abbrev pub listed : Found → LoopStore × List ScheduledLoopRecord
listed (s, o) = (s, found_list o)

-- The store that a call leaves, and the loops that it ended.
unfoldable pub outside_store :
    TaskHost → LoopStore → OutsideCall → LoopStore × List ScheduledLoopRecord
outside_store h s (creates input now) = ((create_loop h s input now).0, [])
outside_store h s (stops_channel channel reason now) =
    listed (stop_by_channel h s channel reason now)
outside_store h s (ends_thread thread reason now) =
    listed (terminalize_by_thread h s thread reason now)
outside_store h s (ends_channel channel reason now) =
    listed (terminalize_by_channel h s channel reason now)
outside_store h s (ends_project name reason now) = terminalize_by_project h s name reason now

unfoldable pub detach_each : Dict RuntimeLoop → List ScheduledLoopRecord → Dict RuntimeLoop
detach_each d [] = d
detach_each d (r ∷ rs) = detach_each (delete r.id d) rs

unfoldable pub call_outside : TaskHost → LoopService → OutsideCall → LoopService
call_outside h s c = record s {
  store = (outside_store h s.store c).0;
  runtimes = detach_each s.runtimes (outside_store h s.store c).1;
}

unfoldable pub meanwhile : TaskHost → LoopService → List OutsideCall → LoopService
meanwhile h s [] = s
meanwhile h s (c ∷ cs) = meanwhile h (call_outside h s c) cs

abbrev pub ended_by : TaskHost → LoopService → String → String → ℕ → LoopService
ended_by h s id reason now =
    detach (record s { store = (terminalize_by_id h s.store id reason now).0 }) id

-- The reason to end the loop, where it is not empty.
abbrev pub terminal_reason : CallbackResult → Option String
terminal_reason threw = none
terminal_reason (returned none) = none
terminal_reason (returned (some t)) = if is_empty t then none else some t

abbrev pub has_status : (ScheduledLoopStatus → Bool) → Option ScheduledLoopRecord → Bool
has_status test none = false
has_status test (some r) = test r.status

abbrev pub initial_failure : String
initial_failure =
    "Initial scheduled-loop iteration failed before a durable continuation was established"

abbrev pub is_initial_failure : CallbackResult → ℕ → Bool
is_initial_failure threw iteration = nat_beq iteration 1
is_initial_failure (returned o) iteration = false

-- The end of `runNow`: the timer is armed where the loop still waits.
unfoldable pub arm : LoopService → String → ℕ → ℕ → ℕ → LoopService
arm s id token next now =
    if has_status is_active (find_loop s.store id)
    then write_runtime s id token (with_timer (some (now + (next - now))))
    else detach s id

-- `presentWaiting`, if there is one, and what follows.
unfoldable pub present_waiting :
    TaskHost
    → LoopService
    → String
    → ℕ
    → ℕ
    → RoundTimes
    → Option (List OutsideCall × CallbackResult)
    → LoopService
present_waiting h s id token next t none = arm s id token next t.arm
present_waiting h s id token next t (some (calls, result)) = elim (terminal_reason result) [
  | some reason ↦ ended_by h (meanwhile h s calls) id reason t.end_waiting
  | none ↦ arm (meanwhile h s calls) id token next t.arm
]

-- One call of `runNow`: what happens while each callback is awaited, and how it ends.
pub record Round : Type 0 where
  pub times : RoundTimes
  pub during_execution : List OutsideCall
  pub execution : CallbackResult
  pub waiting : Option (List OutsideCall × CallbackResult)

-- The loop is scheduled again, if it is still running.
unfoldable pub continue_loop : TaskHost → LoopService → String → ℕ → ℕ → Round → LoopService
continue_loop h s id token interval r =
    if has_status is_running (find_loop s.store id)
    then scheduled_again (schedule_next s.store id (r.times.next + interval) r.times.schedule)
    else detach s id
  where
    scheduled_again : Found → LoopService
    scheduled_again (store, none) = detach (record s { store = store }) id
    scheduled_again (store, some waiting) =
        present_waiting h (record s { store = store }) id token (r.times.next + interval) r.times
          r.waiting

-- After `executeIteration`, whose runtime no longer executes.
unfoldable pub after_execution :
    TaskHost → LoopService → String → ℕ → ScheduledLoopRecord → Round → LoopService
after_execution h s id token acquired r =
    if is_initial_failure r.execution acquired.iteration
    then ended_by h s id initial_failure r.times.failure
    else elim (terminal_reason r.execution) [
      | some reason ↦ ended_by h s id reason r.times.failure
      | none ↦ continue_loop h s id token acquired.interval_ms r
    ]

unfoldable pub execute :
    TaskHost → LoopService → String → ℕ → ScheduledLoopRecord → Round → LoopService
execute h s id token acquired r =
    after_execution h
      (write_runtime
        (meanwhile h (write_runtime s id token (with_executing true)) r.during_execution) id token
        (with_executing false))
      id token acquired r

abbrev pub begin : TaskHost → LoopService → String → ℕ → Round → Found → LoopService
begin h s id token r (store, none) = detach (record s { store = store }) id
begin h s id token r (store, some acquired) =
    execute h (record s { store = store }) id token acquired r

unfoldable pub run_now : TaskHost → LoopService → String → Round → LoopService
run_now h s id r = elim (get id s.runtimes) [
  | none ↦ s
  | some rt ↦
      if rt.executing
      then s
      else begin h (write_runtime s id rt.token (with_timer none)) id rt.token r
          (acquire_iteration s.store id r.times.acquire)
]
