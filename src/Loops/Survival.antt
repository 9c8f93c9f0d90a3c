-- ===== src/Loops/Survival.antt =====
-- services/scheduledLoopService.ts: a loop that waits has a timer, whatever happens during `runNow`.
use discordagent.Base.{
  ℕ, ◌+◌, String, true, false, ◌≡◌, refl, ◌∙◌, subst, ap, none, some, arith, ◌⊎◌, inl, inr,
  Option-cases, Bool-cases,
}
use discordagent.Dict.{get, set}
use discordagent.Dict.Index.{get-set_self}
use discordagent.Tasks.Rows.{ProjectRow, TaskHost}
use discordagent.Loops.Rows.{
  ScheduledLoopStatus, active, running, stopped, terminal, is_live, LoopRow, LoopStore,
  ScheduledLoopRecord,
}
use discordagent.Loops.Repository.{
  update_one, acquired, scheduled, is_active, is_running, find_loop, joined_loop, to_record,
  acquire_iteration, schedule_next, Found,
}
use discordagent.Loops.Service.{
  initial_failure, RuntimeLoop, LoopService, detach, write_runtime, with_timer, with_executing,
  meanwhile, terminal_reason, has_status, is_initial_failure, Round, continue_loop, after_execution,
  execute, begin, run_now,
}
use discordagent.Loops.Outside.{IsOver, meanwhile-Untouched}
use discordagent.Loops.Waiting.{
  Settled, Present, NotWaiting, over-NotWaiting, find_loop-eq, ended_by-Settled, write_runtime-get,
  has_status-row, detached-Settled, present_waiting-Settled,
}

-- After its execution a loop runs on with its runtime, or is over.
abbrev Running : String → ℕ → LoopService → Type 0
Running id token s =
    IsOver id s.store
    ⊎ ((row : LoopRow) × (p : ProjectRow) × (get id s.store.loops ≡ some row)
        × (get row.project_id s.store.projects ≡ some p)
        × (row.status ≡ running)
        × Present id token s)

Running-stored :
    (id : String) (token : ℕ) (s : LoopService)
    → Running id token s
    → (row : LoopRow) × (get id s.store.loops ≡ some row)
Running-stored id token s (inl (row, at, over)) = (row, at)
Running-stored id token s (inr (row, p, at, there, state, here)) = (row, at)

pub over-is_running : (x : ScheduledLoopStatus) → is_live x ≡ false → is_running x ≡ false
unfolding is_live
over-is_running active e = refl
over-is_running running e = absurd (ground arith)
over-is_running stopped e = refl
over-is_running terminal e = refl

-- The loop is scheduled where it runs and its project is there.
scheduled-eq :
    (s : LoopStore) (id : String) (next now : ℕ) (row : LoopRow) (p : ProjectRow)
    → get id s.loops ≡ some row
    → get row.project_id s.projects ≡ some p
    → row.status ≡ running
    → schedule_next s id next now ≡ (
      record s { loops = set id (scheduled next now row) s.loops },
      some (to_record id (scheduled next now row) p),
    )
unfolding schedule_next update_one
scheduled-eq s id next now row p at there runs =
    let new = scheduled next now row in
    rw (at, update_one)
      (rw (ap is_running runs) (
        ap (λ r. (record s { loops = set id new s.loops }, r))
          (find_loop-eq (record s { loops = set id new s.loops }) id new p
            (get-set_self id new s.loops) there)))

continue_loop-Settled :
    (h : TaskHost) (s : LoopService) (id : String) (token interval : ℕ) (r : Round)
    → Running id token s
    → Settled id (continue_loop h s id token interval r)
unfolding continue_loop
continue_loop-Settled h s id token interval r (inl (row, at, over)) =
    rw (has_status-row is_running s.store id row at (over-is_running row.status over))
      (detached-Settled id s (over-NotWaiting id s.store (row, at, over)))
continue_loop-Settled h s id token interval r
      (inr (row, p, at, there, runs, (rt, found, own, still))) =
    let next = r.times.next + interval in
    let new = scheduled next r.times.schedule row in
    let store : LoopStore = record s.store { loops = set id new s.store.loops } in
    let read : has_status is_running (find_loop s.store id) ≡ true =
      ap (has_status is_running) (find_loop-eq s.store id row p at there) ∙ ap is_running runs in
    rw (read, scheduled-eq s.store id next r.times.schedule row p at there runs)
      (present_waiting-Settled h (record s { store = store }) id token next r.times r.waiting
        (inr (new, p, get-set_self id new s.store.loops, there, refl, (rt, found, own, still))))

after_execution-Settled :
    (h : TaskHost) (s : LoopService) (id : String) (token : ℕ) (a : ScheduledLoopRecord) (r : Round)
    → Running id token s
    → Settled id (after_execution h s id token a r)
unfolding after_execution
after_execution-Settled h s id token a r k =
    let (row, at) = Running-stored id token s k in
    elim (Bool-cases (is_initial_failure r.execution a.iteration)) [
      | inl first ↦ rw first (ended_by-Settled h s id initial_failure r.times.failure row at)
      | inr later ↦ elim (Option-cases (terminal_reason r.execution)) [
        | inl goes_on ↦ rw (later, goes_on) (continue_loop-Settled h s id token a.interval_ms r k)
        | inr (reason, given) ↦
            rw (later, given) (ended_by-Settled h s id reason r.times.failure row at)
      ]
    ]

-- While it executes, the runtime of a running loop stays, or the loop is over.
execute-Settled :
    (h : TaskHost) (s : LoopService) (id : String) (token : ℕ) (a : ScheduledLoopRecord) (r : Round)
    (row : LoopRow) (p : ProjectRow)
    → get id s.store.loops ≡ some row
    → get row.project_id s.store.projects ≡ some p
    → row.status ≡ running
    → Present id token s
    → Settled id (execute h s id token a r)
unfolding execute
execute-Settled h s id token a r row p at there runs (rt, found, own, still) =
    let busy = write_runtime s id token (with_executing true) in
    let after = meanwhile h busy r.during_execution in
    let written = write_runtime-get s id token (with_executing true) rt found own in
    let (projects, moved) =
      meanwhile-Untouched h busy r.during_execution id row (unfold write_runtime in at) in
    after_execution-Settled h (write_runtime after id token (with_executing false)) id token a r
      (elim moved [
        | inr over ↦ inl (unfold write_runtime in over)
        | inl (kept, same) ↦ inr (
          row,
          p,
          unfold write_runtime in kept,
          unfold write_runtime in (ap (get row.project_id) projects ∙ there),
          runs,
          (
            with_executing false (with_executing true rt),
            write_runtime-get after id token (with_executing false) (with_executing true rt)
                (same ∙ written) own,
            own,
            refl,
          ),
        )
      ])

-- `acquireIteration` leaves a stored loop not waiting, and what it reports is running.
acquired-NotWaiting :
    (s : LoopStore) (id : String) (now : ℕ) (row : LoopRow)
    → get id s.loops ≡ some row
    → NotWaiting id (acquire_iteration s id now).0
unfolding acquire_iteration update_one
acquired-NotWaiting s id now row at = elim (Bool-cases (is_active row.status)) [
  | inl waits ↦
      rw (at, update_one)
        (rw waits (acquired now row, get-set_self id (acquired now row) s.loops, refl))
  | inr idle ↦ rw (at, update_one) (rw idle (row, at, idle))
]

acquired-missing :
    (s : LoopStore) (id : String) (now : ℕ)
    → get id s.loops ≡ none
    → acquire_iteration s id now ≡ (s, none)
unfolding acquire_iteration update_one
acquired-missing s id now gone = rw (gone, update_one) refl

acquired-Running :
    (s : LoopStore) (id : String) (now : ℕ) (row : LoopRow) (a : ScheduledLoopRecord)
    → get id s.loops ≡ some row
    → (acquire_iteration s id now).1 ≡ some a
    → (new : LoopRow) × (p : ProjectRow) × (get id (acquire_iteration s id now).0.loops ≡ some new)
      × (get new.project_id (acquire_iteration s id now).0.projects ≡ some p)
      × (new.status ≡ running)
unfolding acquire_iteration update_one find_loop joined_loop
acquired-Running s id now row a at e = elim (Bool-cases (is_active row.status)) [
  | inr idle ↦ absurd (ground arith)
  | inl waits ↦ elim (Option-cases (get row.project_id s.projects)) [
    | inl gone ↦ absurd (ground (arith, get-set_self id (acquired now row) s.loops))
    | inr (p, there) ↦
        rw (at, update_one)
          (rw waits (acquired now row, p, get-set_self id (acquired now row) s.loops, there, refl))
  ]
]

begin-Settled :
    (h : TaskHost) (s : LoopService) (id : String) (token : ℕ) (r : Round) (f : Found)
    → Present id token s
    → ((row : LoopRow) → get id f.0.loops ≡ some row → is_active row.status ≡ false)
    → ((a : ScheduledLoopRecord)
        → f.1 ≡ some a
        → (row : LoopRow) × (p : ProjectRow) × (get id f.0.loops ≡ some row)
          × (get row.project_id f.0.projects ≡ some p)
          × (row.status ≡ running))
    → Settled id (begin h s id token r f)
begin-Settled h s id token r (store, none) here idle runs =
    λ row at waits. absurd (unfold detach in ground (arith, idle row at, ap is_active waits))
begin-Settled h s id token r (store, some a) here idle runs =
    let (row, p, at, there, status) = runs a refl in
    execute-Settled h (record s { store = store }) id token a r row p at there status here

-- A call of `runNow` on a loop whose runtime is there and not executing leaves the loop settled,
-- whatever its callbacks return or throw and whatever creations, stops and ends of loops happen while
-- they are awaited: if the loop waits then, its runtime is there, not executing, with a timer that
-- fires no sooner than the next run is due.
pub run_now-Settled :
    (h : TaskHost) (s : LoopService) (id : String) (r : Round) (rt : RuntimeLoop)
    → get id s.runtimes ≡ some rt
    → rt.executing ≡ false
    → Settled id (run_now h s id r)
unfolding run_now
run_now-Settled h s id r rt found still =
    let s' = write_runtime s id rt.token (with_timer none) in
    let f = acquire_iteration s.store id r.times.acquire in
    rw (found, run_now)
      (rw still (
        begin-Settled h s' id rt.token r f
          (
            with_timer none rt,
            write_runtime-get s id rt.token (with_timer none) rt found refl,
            refl,
            still,
          )
          (λ row at. elim (Option-cases (get id s.store.loops)) [
            | inl gone ↦ absurd (ground (arith, acquired-missing s.store id r.times.acquire gone))
            | inr (old, there) ↦
                let (new, at', idle) = acquired-NotWaiting s.store id r.times.acquire old there in
                let same : new ≡ row = ground arith in
                subst (λ x. is_active x.status ≡ false) same idle
          ])
          (λ a e. elim (Option-cases (get id s.store.loops)) [
            | inl gone ↦ absurd (ground (arith, acquired-missing s.store id r.times.acquire gone))
            | inr (old, there) ↦ acquired-Running s.store id r.times.acquire old a there e
          ])))
