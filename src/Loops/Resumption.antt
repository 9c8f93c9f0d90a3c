-- ===== src/Loops/Resumption.antt =====
-- services/scheduledLoopService.ts: what the reconciliation makes of a loop.
use discordagent.Base.{
  ℕ, ◌+◌, ◌-◌, ◌≤◌, String, Bool, true, false, not, ◌≡◌, refl, sym, ◌∙◌, subst, ap, Option, none,
  some, ◌&&◌, if◌then◌else◌, arith, ◌⊎◌, inl, inr, Option-cases,
}
use discordagent.Dict.{get, set}
use discordagent.Dict.Index.{get-set_self}
use discordagent.Tasks.Rows.{ProjectRow, TaskHost}
use discordagent.Loops.Rows.{
  ScheduledLoopStatus, active, running, stopped, terminal, is_live, LoopRow, LoopStore,
  ScheduledLoopRecord,
}
use discordagent.Loops.Repository.{
  update_one, scheduled, is_running, find_loop, joined_loop, to_record, defer_interrupted, Found,
}
use discordagent.Loops.Service.{
  RuntimeLoop, LoopService, new_runtime, register, write_runtime, with_timer, meanwhile,
}
use discordagent.Loops.Outside.{IsOver, meanwhile-Untouched}
use discordagent.Loops.Survival.{over-is_running}
use discordagent.Loops.Waiting.{find_loop-eq, terminalized-IsOver, write_runtime-get}
use discordagent.Loops.Reconcile.{
  project_unavailable, thread_unavailable, Restart, token_in, due_at, resume_runtime, resumed_if,
  end_unavailable, after_fetch, reconcile_one,
}

abbrev pub Awaits : Option ℕ → ℕ → Type 0
Awaits none fires = Unit
Awaits (some next) fires = next ≤ fires

-- The loop waits, with a runtime whose timer fires no sooner than its next run.
abbrev pub Armed : String → LoopService → Type 0
Armed id s =
    (row : LoopRow) × (get id s.store.loops ≡ some row)
    × (row.status ≡ active)
    × (rt : RuntimeLoop) × (get id s.runtimes ≡ some rt)
    × (rt.executing ≡ false)
    × (fires : ℕ) × (rt.timer ≡ some fires)
    × Awaits row.next_run_at fires

find_loop-row :
    (s : LoopStore) (id : String) (l : ScheduledLoopRecord)
    → find_loop s id ≡ some l
    → (row : LoopRow) × (p : ProjectRow) × (get id s.loops ≡ some row)
      × (get row.project_id s.projects ≡ some p)
      × (to_record id row p ≡ l)
unfolding find_loop joined_loop
find_loop-row s id l e = elim (Option-cases (get id s.loops)) [
  | inl gone ↦ absurd (ground arith)
  | inr (row, at) ↦ elim (Option-cases (get row.project_id s.projects)) [
    | inl gone ↦ absurd (ground arith)
    | inr (p, there) ↦ (row, p, at, there, ground arith)
  ]
]

Awaits-due : (next : Option ℕ) (now from : ℕ) → Awaits next (from + (due_at next now - from))
Awaits-due none now from = tt
Awaits-due (some t) now from = omega arith

register-new :
    (s : LoopService) (id : String)
    → get id s.runtimes ≡ none
    → register s id ≡ record s {
      runtimes = set id (new_runtime s.next_token) s.runtimes;
      next_token = s.next_token + 1;
    }
unfolding register
register-new s id free = rw (free, register) refl

register-store : (s : LoopService) (id : String) → (register s id).store ≡ s.store
unfolding register
register-store s id = elim (Option-cases (get id s.runtimes)) [
  | inl free ↦ rw (free, register) refl
  | inr (rt, there) ↦ rw (there, register) refl
]

resume_runtime-store :
    (s : LoopService) (id : String) (next : Option ℕ) (r : Restart)
    → (resume_runtime s id next r).store ≡ s.store
unfolding resume_runtime write_runtime
resume_runtime-store s id next r = register-store s id

resume_runtime-get :
    (s : LoopService) (id : String) (next : Option ℕ) (r : Restart)
    → get id s.runtimes ≡ none
    → (rt : RuntimeLoop) × (get id (resume_runtime s id next r).runtimes ≡ some rt)
      × (rt.executing ≡ false)
      × (rt.timer ≡ some (r.delay_from + (due_at next r.due_now - r.delay_from)))
unfolding resume_runtime
resume_runtime-get s id next r free =
    let made : RuntimeLoop = new_runtime s.next_token in
    let s' : LoopService = record s {
      runtimes = set id made s.runtimes;
      next_token = s.next_token + 1;
    } in
    let there = get-set_self id made s.runtimes in
    let f : RuntimeLoop → RuntimeLoop =
      with_timer (some (r.delay_from + (due_at next r.due_now - r.delay_from))) in
    rw (register-new s id free, resume_runtime)
      (
        f made,
        write_runtime-get s' id (token_in (get id s'.runtimes)) f made there
            (sym (ap token_in there)),
        refl,
        refl,
      )

resume_runtime-Armed :
    (s : LoopService) (id : String) (r : Restart) (row : LoopRow)
    → get id s.store.loops ≡ some row
    → row.status ≡ active
    → get id s.runtimes ≡ none
    → Armed id (resume_runtime s id row.next_run_at r)
resume_runtime-Armed s id r row at waits free =
    let (rt, found, still, timer) = resume_runtime-get s id row.next_run_at r free in
    (
      row,
      subst (λ t. get id t.loops ≡ some row) (sym (resume_runtime-store s id row.next_run_at r)) at,
      waits,
      rt,
      found,
      still,
      r.delay_from + (due_at row.next_run_at r.due_now - r.delay_from),
      timer,
      Awaits-due row.next_run_at r.due_now r.delay_from,
    )

deferred-eq :
    (s : LoopStore) (id : String) (next now : ℕ) (row : LoopRow) (p : ProjectRow)
    → get id s.loops ≡ some row
    → get row.project_id s.projects ≡ some p
    → row.status ≡ running
    → defer_interrupted s id next now ≡ (
      record s { loops = set id (scheduled next now row) s.loops },
      some (to_record id (scheduled next now row) p),
    )
unfolding defer_interrupted update_one
deferred-eq s id next now row p at there runs =
    let new = scheduled next now row in
    let s' : LoopStore = record s { loops = set id new s.loops } in
    rw (at, update_one)
      (rw (ap is_running runs)
        (ap (λ r. (s', r)) (find_loop-eq s' id new p (get-set_self id new s.loops) there)))

resumed-IsOver :
    (s : LoopService) (id : String) (r : Restart) (f : Found)
    → IsOver id f.0
    → IsOver id (resumed_if s r f).store
resumed-IsOver s id r (store, none) over = over
resumed-IsOver s id r (store, some l) over =
    subst (IsOver id) (sym (resume_runtime-store (record s { store = store }) l.id l.next_run_at r))
      over

deferred-IsOver :
    (s : LoopStore) (id : String) (next now : ℕ)
    → IsOver id s
    → IsOver id (defer_interrupted s id next now).0
unfolding defer_interrupted update_one is_live
deferred-IsOver s id next now (row, at, over) =
    rw (at, update_one) (rw (over-is_running row.status over) (row, at, over))

live_status : (x : ScheduledLoopStatus) → is_live x ≡ true → (x ≡ active) ⊎ (x ≡ running)
unfolding is_live
live_status active e = inl refl
live_status running e = inr refl
live_status stopped e = absurd (ground arith)
live_status terminal e = absurd (ground arith)

-- The loop's row is as it was and has no runtime, or the loop is over.
abbrev pub Fetched : String → LoopRow → LoopService → Type 0
Fetched id row s =
    ((get id s.store.loops ≡ some row) × (get id s.runtimes ≡ none)) ⊎ IsOver id s.store

abbrev pub OverOrArmed : String → LoopService → Type 0
OverOrArmed id s = IsOver id s.store ⊎ Armed id s

Fetched-end :
    (h : TaskHost) (s : LoopService) (id reason : String) (r : Restart) (row : LoopRow)
    → Fetched id row s
    → IsOver id (end_unavailable h s id reason r).store
Fetched-end h s id reason r row (inl (at, free)) =
    terminalized-IsOver h s.store id reason r.end_at row at
Fetched-end h s id reason r row (inr (x, at, over)) =
    terminalized-IsOver h s.store id reason r.end_at x at

resumed-OverOrArmed :
    (s : LoopService) (id : String) (r : Restart) (row : LoopRow) (p : ProjectRow)
    → get row.project_id s.store.projects ≡ some p
    → (row.status ≡ active) ⊎ (row.status ≡ running)
    → Fetched id row s
    → OverOrArmed id (
        if is_running row.status
        then resumed_if s r
            (defer_interrupted s.store id (r.next_from + row.interval_ms) r.deferred_at)
        else resume_runtime s id row.next_run_at r)
resumed-OverOrArmed s id r row p there (inl waits) (inl (at, free)) =
    rw (ap is_running waits) (inr (resume_runtime-Armed s id r row at waits free))
resumed-OverOrArmed s id r row p there (inl waits) (inr over) =
    rw (ap is_running waits)
      (inl (subst (IsOver id) (sym (resume_runtime-store s id row.next_run_at r)) over))
resumed-OverOrArmed s id r row p there (inr runs) (inl (at, free)) =
    let next = r.next_from + row.interval_ms in
    let new = scheduled next r.deferred_at row in
    let s' : LoopService = record s {
      store = record s.store { loops = set id new s.store.loops };
    } in
    rw (ap is_running runs, deferred-eq s.store id next r.deferred_at row p at there runs)
      (inr (resume_runtime-Armed s' id r new (get-set_self id new s.store.loops) refl free))
resumed-OverOrArmed s id r row p there (inr runs) (inr over) =
    let next = r.next_from + row.interval_ms in
    rw (ap is_running runs) (
      inl (
        resumed-IsOver s id r (defer_interrupted s.store id next r.deferred_at)
          (deferred-IsOver s.store id next r.deferred_at over)))

by_availability :
    (P : LoopService → Type 0) (a b : Bool) (x y z : LoopService)
    → P x
    → P y
    → P z
    → P (if not a then x else if not b then y else z)
by_availability P false b x y z f g k = f
by_availability P true false x y z f g k = g
by_availability P true true x y z f g k = k

unavailable :
    (P : LoopService → Type 0) (a b : Bool) (x y z : LoopService)
    → P x
    → P y
    → a && b ≡ false
    → P (if not a then x else if not b then y else z)
unavailable P false b x y z f g e = f
unavailable P true false x y z f g e = g
unavailable P true true x y z f g e = absurd (ground arith)

-- A live loop that was just read and has no runtime is, after `reconcileOne`, over, or waiting with a
-- runtime whose timer fires no sooner than its next run: whatever creations, stops and ends of loops
-- happen while its thread is fetched. Where its project or its thread is not there, it is over.
pub reconcile_one-Armed :
    (h : TaskHost) (s : LoopService) (loop : ScheduledLoopRecord) (r : Restart)
    → find_loop s.store loop.id ≡ some loop
    → is_live loop.status ≡ true
    → get loop.id s.runtimes ≡ none
    → (IsOver loop.id (reconcile_one h s loop r).store ⊎ Armed loop.id (reconcile_one h s loop r))
      × (r.project_found && r.thread_found ≡ false
          → IsOver loop.id (reconcile_one h s loop r).store)
unfolding reconcile_one after_fetch
reconcile_one-Armed h s loop r read live free =
    let id = loop.id in
    let (row, p, at, there, same) = find_loop-row s.store id loop read in
    let s' = meanwhile h s r.during_fetch in
    let (projects, moved) = meanwhile-Untouched h s r.during_fetch id row at in
    let fetched : Fetched id row s' = elim moved [
      | inl (kept, runtimes) ↦ inl (kept, runtimes ∙ free)
      | inr over ↦ inr over
    ] in
    let lost_project =
      terminalized-IsOver h s.store id (project_unavailable loop) r.end_at row at in
    let lost_thread = Fetched-end h s' id (thread_unavailable loop) r row fetched in
    let status : row.status ≡ loop.status = ap (λ (l : ScheduledLoopRecord). l.status) same in
    let both =
      subst
        (λ (l : ScheduledLoopRecord). OverOrArmed id (
          if is_running l.status
          then resumed_if s' r
              (defer_interrupted s'.store id (r.next_from + l.interval_ms) r.deferred_at)
          else resume_runtime s' id l.next_run_at r))
        same
        (resumed-OverOrArmed s' id r row p (ap (get row.project_id) projects ∙ there)
          (live_status row.status (subst (λ x. is_live x ≡ true) (sym status) live)) fetched) in
    rw free (
      by_availability (OverOrArmed id) r.project_found r.thread_found _ _ _ (inl lost_project)
          (inl lost_thread) both,
      unavailable (λ t. IsOver id t.store) r.project_found r.thread_found _ _ _ lost_project
          lost_thread,
    )
