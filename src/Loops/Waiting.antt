-- ===== src/Loops/Waiting.antt =====
-- services/scheduledLoopService.ts: a loop that waits has a timer; the end of `runNow`.
use discordagent.Base.{
  ℕ, ◌+◌, ◌-◌, ◌≤◌, String, Bool, true, false, ◌≡◌, refl, ◌∙◌, subst, ap, Option, none, some, List,
  arith, ◌⊎◌, inl, inr, Option-cases, Bool-cases, nat_beq,
}
use discordagent.Dict.{get}
use discordagent.Dict.Index.{get-set_self}
use discordagent.Tasks.Rows.{ProjectRow, TaskHost}
use discordagent.Loops.Rows.{
  ScheduledLoopStatus, active, running, stopped, terminal, is_live, LoopRow, LoopStore,
}
use discordagent.Loops.Repository.{
  update_one, ended, is_active, find_loop, joined_loop, to_record, terminalize_by_id,
}
use discordagent.Loops.Service.{
  RuntimeLoop, LoopService, detach, changed_runtime, write_runtime, with_timer, RoundTimes,
  CallbackResult, OutsideCall, meanwhile, ended_by, terminal_reason, has_status, arm,
  present_waiting,
}
use discordagent.Loops.Outside.{IsOver, meanwhile-Untouched}

-- If the loop waits for its next run, its runtime is there, is not executing and has a timer that
-- fires no sooner than the run is due.
abbrev pub Settled : String → LoopService → Type 0
Settled id s =
    (row : LoopRow)
    → get id s.store.loops ≡ some row
    → row.status ≡ active
    → (rt : RuntimeLoop) × (get id s.runtimes ≡ some rt)
      × (rt.executing ≡ false)
      × (next : ℕ) × (row.next_run_at ≡ some next)
      × (fires : ℕ) × (rt.timer ≡ some fires)
      × (next ≤ fires)

-- The runtime with a token, not executing.
abbrev pub Present : String → ℕ → LoopService → Type 0
Present id token s =
    (rt : RuntimeLoop) × (get id s.runtimes ≡ some rt) × (rt.token ≡ token) × (rt.executing ≡ false)

abbrev pub NotWaiting : String → LoopStore → Type 0
NotWaiting id s = (row : LoopRow) × (get id s.loops ≡ some row) × (is_active row.status ≡ false)

pub idle-Settled : (id : String) (s : LoopService) → NotWaiting id s.store → Settled id s
idle-Settled id s (row, at, idle) other at' waits =
    let same : row ≡ other = ground arith in
    absurd (ground (arith, subst (λ r. is_active r.status ≡ false) same idle, ap is_active waits))

pub over-NotWaiting : (id : String) (s : LoopStore) → IsOver id s → NotWaiting id s
unfolding is_live
over-NotWaiting id s (row, at, over) = (row, at, by_status row.status over)
  where
    by_status : (x : ScheduledLoopStatus) → is_live x ≡ false → is_active x ≡ false
    by_status active e = absurd (ground arith)
    by_status running e = refl
    by_status stopped e = refl
    by_status terminal e = refl

pub find_loop-eq :
    (s : LoopStore) (id : String) (row : LoopRow) (p : ProjectRow)
    → get id s.loops ≡ some row
    → get row.project_id s.projects ≡ some p
    → find_loop s id ≡ some (to_record id row p)
unfolding find_loop joined_loop
find_loop-eq s id row p at there = rw (at, find_loop) (rw (there, joined_loop) refl)

pub terminalized-IsOver :
    (h : TaskHost) (s : LoopStore) (id reason : String) (now : ℕ) (row : LoopRow)
    → get id s.loops ≡ some row
    → IsOver id (terminalize_by_id h s id reason now).0
unfolding terminalize_by_id update_one is_live
terminalized-IsOver h s id reason now row at = elim (Bool-cases (is_live row.status)) [
  | inl live ↦
      rw (at, update_one)
        (rw live (
          ended h terminal reason now row,
          get-set_self id (ended h terminal reason now row) s.loops,
          refl,
        ))
  | inr over ↦ rw (at, update_one) (rw over (row, at, over))
]

pub ended_by-Settled :
    (h : TaskHost) (s : LoopService) (id reason : String) (now : ℕ) (row : LoopRow)
    → get id s.store.loops ≡ some row
    → Settled id (ended_by h s id reason now)
unfolding detach
ended_by-Settled h s id reason now row at =
    let store = (terminalize_by_id h s.store id reason now).0 in
    idle-Settled id (detach (record s { store = store }) id)
      (over-NotWaiting id store (terminalized-IsOver h s.store id reason now row at))

-- A write to the runtime that is there.
pub write_runtime-get :
    (s : LoopService) (id : String) (token : ℕ) (f : RuntimeLoop → RuntimeLoop) (rt : RuntimeLoop)
    → get id s.runtimes ≡ some rt
    → rt.token ≡ token
    → get id (write_runtime s id token f).runtimes ≡ some (f rt)
unfolding write_runtime
write_runtime-get s id token f rt at same =
    let own : nat_beq rt.token token ≡ true = ground arith in
    rw (at, own, changed_runtime) (get-set_self id (f rt) s.runtimes)

-- A status that the stored row does not have is not read.
pub has_status-row :
    (test : ScheduledLoopStatus → Bool) (s : LoopStore) (id : String) (row : LoopRow)
    → get id s.loops ≡ some row
    → test row.status ≡ false
    → has_status test (find_loop s id) ≡ false
unfolding find_loop joined_loop
has_status-row test s id row at fails = elim (Option-cases (get row.project_id s.projects)) [
  | inl gone ↦ rw (at, find_loop) (rw (gone, joined_loop) refl)
  | inr (p, there) ↦ rw (at, find_loop) (rw (there, joined_loop) fails)
]

pub detached-Settled :
    (id : String) (s : LoopService) → NotWaiting id s.store → Settled id (detach s id)
unfolding detach
detached-Settled id s idle = idle-Settled id (detach s id) idle

-- Before its timer is armed the loop does not wait, or it is scheduled with its runtime.
abbrev pub Ready : String → ℕ → ℕ → LoopService → Type 0
Ready id token next s =
    NotWaiting id s.store
    ⊎ ((row : LoopRow) × (p : ProjectRow) × (get id s.store.loops ≡ some row)
        × (get row.project_id s.store.projects ≡ some p)
        × (row.next_run_at ≡ some next)
        × Present id token s)

pub armed-Settled :
    (s : LoopService) (id : String) (token next now : ℕ) (row : LoopRow) (rt : RuntimeLoop)
    → get id s.store.loops ≡ some row
    → row.next_run_at ≡ some next
    → get id s.runtimes ≡ some rt
    → rt.token ≡ token
    → rt.executing ≡ false
    → Settled id (write_runtime s id token (with_timer (some (now + (next - now)))))
armed-Settled s id token next now row rt at due found own still other at' waits =
    let same : row ≡ other = unfold write_runtime in ground arith in
    (
      with_timer (some (now + (next - now))) rt,
      write_runtime-get s id token (with_timer (some (now + (next - now)))) rt found own,
      still,
      next,
      subst (λ (r : LoopRow). r.next_run_at ≡ some next) same due,
      now + (next - now),
      refl,
      omega arith,
    )

pub arm-Settled :
    (s : LoopService) (id : String) (token next now : ℕ)
    → Ready id token next s
    → Settled id (arm s id token next now)
unfolding arm
arm-Settled s id token next now (inl (row, at, idle)) =
    rw (has_status-row is_active s.store id row at idle) (detached-Settled id s (row, at, idle))
arm-Settled s id token next now (inr (row, p, at, there, due, (rt, found, own, still))) =
    elim (Bool-cases (is_active row.status)) [
      | inr idle ↦
          rw (has_status-row is_active s.store id row at idle)
            (detached-Settled id s (row, at, idle))
      | inl waits ↦ elim (Bool-cases (has_status is_active (find_loop s.store id))) [
        | inl read ↦ rw read (armed-Settled s id token next now row rt at due found own still)
        | inr missing ↦ absurd (ground (arith, find_loop-eq s.store id row p at there))
      ]
    ]

pub meanwhile-Ready :
    (h : TaskHost) (s : LoopService) (cs : List OutsideCall) (id : String) (token next : ℕ)
    → Ready id token next s
    → Ready id token next (meanwhile h s cs)
meanwhile-Ready h s cs id token next (inl (row, at, idle)) =
    let (projects, moved) = meanwhile-Untouched h s cs id row at in
    elim moved [
      | inl (kept, same) ↦ inl (row, kept, idle)
      | inr over ↦ inl (over-NotWaiting id (meanwhile h s cs).store over)
    ]
meanwhile-Ready h s cs id token next (inr (row, p, at, there, due, (rt, found, own, still))) =
    let (projects, moved) = meanwhile-Untouched h s cs id row at in
    elim moved [
      | inl (kept, same) ↦ inr (
        row,
        p,
        kept,
        ap (get row.project_id) projects ∙ there,
        due,
        (rt, same ∙ found, own, still),
      )
      | inr over ↦ inl (over-NotWaiting id (meanwhile h s cs).store over)
    ]

pub Ready-stored :
    (id : String) (token next : ℕ) (s : LoopService)
    → Ready id token next s
    → (row : LoopRow) × (get id s.store.loops ≡ some row)
Ready-stored id token next s (inl (row, at, idle)) = (row, at)
Ready-stored id token next s (inr (row, p, at, there, state, here)) = (row, at)

pub present_waiting-Settled :
    (h : TaskHost) (s : LoopService) (id : String) (token next : ℕ) (t : RoundTimes)
    (w : Option (List OutsideCall × CallbackResult))
    → Ready id token next s
    → Settled id (present_waiting h s id token next t w)
unfolding present_waiting
present_waiting-Settled h s id token next t none k = arm-Settled s id token next t.arm k
present_waiting-Settled h s id token next t (some (calls, result)) k =
    let k' = meanwhile-Ready h s calls id token next k in
    elim (Option-cases (terminal_reason result)) [
      | inl goes_on ↦
          rw (goes_on, present_waiting) (arm-Settled (meanwhile h s calls) id token next t.arm k')
      | inr (reason, given) ↦
          let (row, at) = Ready-stored id token next (meanwhile h s calls) k' in
          rw (given, present_waiting)
            (ended_by-Settled h (meanwhile h s calls) id reason t.end_waiting row at)
    ]
