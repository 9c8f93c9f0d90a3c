-- ===== src/Loops/Rules.antt =====
-- repositories/loopRepository.ts: what a loop keeps, and who may run an iteration.
use discordagent.Base.{
  ℕ, String, Bool, true, false, ◌≡◌, refl, sym, ◌∙◌, none, some, List, ◌≤◌, ◌+◌, inl, inr, arith,
  str_dec, subst, Option-cases,
}
use discordagent.Dict.{get, set}
use discordagent.Dict.Laws.{get-set}
use discordagent.Dict.Index.{get-set_self}
use discordagent.Tasks.Rows.{TaskHost}
use discordagent.Loops.Rows.{
  ScheduledLoopStatus, active, running, is_live, LoopRow, LoopStore, ScheduledLoopRecord,
}
use discordagent.Loops.Repository.{acquired, new_loop, acquire_iteration, update_one, is_active}
use discordagent.Loops.Steps.{
  RowStep, acquires, schedules, ends, Step, inserts, updates, Reaches, stays, steps, LoopOperation,
  run_loops, run_loops-Reaches, is_active-eq,
}

-- What a loop's row keeps, where a loop that is over keeps everything.
pub record Keeps (a b : LoopRow) : Type 0 where
  pub project : b.project_id ≡ a.project_id
  pub channel : b.channel_id ≡ a.channel_id
  pub thread : b.thread_id ≡ a.thread_id
  pub prompt : b.prompt ≡ a.prompt
  pub interval : b.interval_ms ≡ a.interval_ms
  pub started_by : b.started_by ≡ a.started_by
  pub started_at : b.started_at ≡ a.started_at
  pub iteration : a.iteration ≤ b.iteration
  pub over : is_live a.status ≡ false → b ≡ a

Keeps-refl : (a : LoopRow) → Keeps a a
Keeps-refl a = record {
  project = refl;
  channel = refl;
  thread = refl;
  prompt = refl;
  interval = refl;
  started_by = refl;
  started_at = refl;
  iteration = omega arith;
  over = λ e. refl;
}

Keeps-trans : (a b c : LoopRow) → Keeps a b → Keeps b c → Keeps a c
Keeps-trans a b c h k = record {
  project = k.project ∙ h.project;
  channel = k.channel ∙ h.channel;
  thread = k.thread ∙ h.thread;
  prompt = k.prompt ∙ h.prompt;
  interval = k.interval ∙ h.interval;
  started_by = k.started_by ∙ h.started_by;
  started_at = k.started_at ∙ h.started_at;
  iteration = ground (arith, h.iteration, k.iteration);
  over = λ e.
      let same = h.over e in k.over (subst (λ r. is_live r.status ≡ false) (sym same) e) ∙ same;
}

RowStep-Keeps : (h : TaskHost) (a b : LoopRow) → RowStep h a b → Keeps a b
unfolding is_live
RowStep-Keeps h a b (acquires was) = record {
  project = refl;
  channel = refl;
  thread = refl;
  prompt = refl;
  interval = refl;
  started_by = refl;
  started_at = refl;
  iteration = omega arith;
  over = λ e. absurd (ground arith);
}
RowStep-Keeps h a b (schedules was) = record {
  project = refl;
  channel = refl;
  thread = refl;
  prompt = refl;
  interval = refl;
  started_by = refl;
  started_at = refl;
  iteration = omega arith;
  over = λ e. absurd (ground arith);
}
RowStep-Keeps h a b (ends was over) = record {
  project = refl;
  channel = refl;
  thread = refl;
  prompt = refl;
  interval = refl;
  started_by = refl;
  started_at = refl;
  iteration = omega arith;
  over = λ e. absurd (ground arith);
}

abbrev Kept : LoopStore → String → LoopRow → Type 0
Kept s id a = (b : LoopRow) × (get id s.loops ≡ some b) × Keeps a b

Step-Kept :
    (h : TaskHost) (s t : LoopStore) (id : String) (a : LoopRow)
    → Step h s t
    → get id s.loops ≡ some a
    → Kept t id a
Step-Kept h s t id a (inserts input project_id now there new thread channel positive) at =
    (a, ground (arith, get-set input.id id (new_loop h input project_id now) s.loops), Keeps-refl a)
Step-Kept h s t id a (updates j {row} new there step) at = elim (str_dec j id) [
  | yes same ↦
      let here : row ≡ a = ground arith in
      (
        new,
        ground (arith, get-set j id new s.loops),
        subst (λ r. Keeps r new) here (RowStep-Keeps h row new step),
      )
  | no other ↦ (a, ground (arith, get-set j id new s.loops), Keeps-refl a)
]

Reaches-Kept :
    (h : TaskHost) (id : String) (a : LoopRow) {s t : LoopStore}
    → Reaches h s t
    → get id s.loops ≡ some a
    → Kept t id a
Reaches-Kept h id a stays at = (a, at, Keeps-refl a)
Reaches-Kept h id a (steps {s} {mid} {end} x xs) at =
    let (b, there, k) = Step-Kept h s mid id a x at in
    let (c, last, m) = Reaches-Kept h id b xs there in (c, last, Keeps-trans a b c k m)

-- Through any sequence of calls a stored loop stays stored, with its project, channel, thread,
-- prompt, interval and start, and its iteration count never falls. A stopped or terminal loop keeps
-- every column.
pub run_loops-Keeps :
    (h : TaskHost) (s : LoopStore) (os : List LoopOperation) (id : String) (a : LoopRow)
    → get id s.loops ≡ some a
    → (b : LoopRow) × (get id (run_loops h s os).loops ≡ some b) × Keeps a b
run_loops-Keeps h s os id a at = Reaches-Kept h id a (run_loops-Reaches h s os) at

-- An UPDATE that reports a row has made it.
update_one-some :
    (s : LoopStore) (id : String) (guard : ScheduledLoopStatus → Bool) (change : LoopRow → LoopRow)
    (r : ScheduledLoopRecord)
    → (update_one s id guard change).1 ≡ some r
    → (row : LoopRow) × (get id s.loops ≡ some row)
      × (guard row.status ≡ true)
      × ((update_one s id guard change).0 ≡ record s { loops = set id (change row) s.loops })
unfolding update_one
update_one-some s id guard change r e = elim (Option-cases (get id s.loops)) [
  | inl gone ↦ absurd (ground arith)
  | inr (row, at) ↦ (row, at, ground arith, ground arith)
]

-- An UPDATE whose guard the stored row fails does nothing.
update_one_refused :
    (s : LoopStore) (id : String) (guard : ScheduledLoopStatus → Bool) (change : LoopRow → LoopRow)
    (row : LoopRow)
    → get id s.loops ≡ some row
    → guard row.status ≡ false
    → update_one s id guard change ≡ (s, none)
unfolding update_one
update_one_refused s id guard change row at fails = rw (at, update_one) (rw fails refl)

-- An iteration that is acquired was waiting on an active loop. The loop's row is running with its
-- count one higher, no next run and the time of the call as that of its update; its other columns
-- and the other rows are as they were. Before the loop is scheduled again no second call acquires
-- it: that call reports nothing and leaves the store as it is.
pub acquire_exclusive :
    (s : LoopStore) (id : String) (now later : ℕ) (r : ScheduledLoopRecord)
    → (acquire_iteration s id now).1 ≡ some r
    → (row : LoopRow) × (get id s.loops ≡ some row)
      × (row.status ≡ active)
      × ((acquire_iteration s id now).0 ≡ record s {
        loops =
            set id
              (record row {
                status = running;
                iteration = row.iteration + 1;
                next_run_at = none;
                updated_at = now;
              })
              s.loops;
      })
      × (acquire_iteration (acquire_iteration s id now).0 id later
          ≡ ((acquire_iteration s id now).0, none))
unfolding acquire_iteration
acquire_exclusive s id now later r e =
    let (row, at, holds, made) = update_one-some s id is_active (acquired now) r e in
    (
      row,
      at,
      is_active-eq row.status holds,
      made,
      rw made (
          update_one_refused (record s { loops = set id (acquired now row) s.loops }) id is_active
            (acquired later) (acquired now row) (get-set_self id (acquired now row) s.loops) refl),
    )
