-- ===== src/Loops/Steps.antt =====
-- repositories/loopRepository.ts: its operations as steps of the loop table.
use discordagent.Base.{
  ℕ, String, Bool, true, false, ◌≡◌, refl, Option, none, some, List, [], ◌∷◌, any, Result, ok, err,
  arith, Option-cases, Bool-cases, inl, inr, nat_beq, subst, sym,
}
use discordagent.Dict.{get, set}
use discordagent.Tasks.Rows.{ProjectRow, TaskHost}
use discordagent.Tasks.Repository.{find_project, or_now}
use discordagent.Tasks.Upkeep.{find_project-get}
use discordagent.Loops.Rows.{
  ScheduledLoopStatus, active, running, stopped, terminal, is_live, LoopRow, LoopStore,
  ScheduledLoopRecord, CreateScheduledLoopInput, LoopError,
}
use discordagent.Loops.Repository.{
  update_one, acquired, scheduled, ended, is_active, is_running, acquire_iteration, schedule_next,
  defer_interrupted, end_selected, stop_by_channel, terminalize_by_id, terminalize_where,
  terminalize_by_thread, terminalize_by_channel, terminalize_each, terminalize_by_project, new_loop,
  thread_clash, channel_clash, insert_loop, create_loop_write, create_loop, after_create,
}

-- What an UPDATE makes of a row.
pub data RowStep (h : TaskHost) (row : LoopRow) : LoopRow → Type 0 where
  acquires : {now : ℕ} → row.status ≡ active → RowStep h row (acquired now row)
  schedules : {next now : ℕ} → row.status ≡ running → RowStep h row (scheduled next now row)
  ends :
      {status : ScheduledLoopStatus} {reason : String} {now : ℕ}
      → is_live row.status ≡ true
      → is_live status ≡ false
      → RowStep h row (ended h status reason now row)

-- An INSERT that violates no constraint, or an UPDATE of one row.
pub data Step (h : TaskHost) (s : LoopStore) : LoopStore → Type 0 where
  inserts :
      (input : CreateScheduledLoopInput) (project_id : String) (now : ℕ) {p : ProjectRow}
      → get project_id s.projects ≡ some p
      → get input.id s.loops ≡ none
      → any (λ e. thread_clash input e.1) s.loops ≡ false
      → any (λ e. channel_clash input e.1) s.loops ≡ false
      → nat_beq input.interval_ms 0 ≡ false
      → Step h s (record s { loops = set input.id (new_loop h input project_id now) s.loops })
  updates :
      (id : String) {row : LoopRow} (new : LoopRow)
      → get id s.loops ≡ some row
      → RowStep h row new
      → Step h s (record s { loops = set id new s.loops })

-- Any number of steps.
pub data Reaches (h : TaskHost) : LoopStore → LoopStore → Type 0 where
  stays : {s : LoopStore} → Reaches h s s
  steps : {s mid end : LoopStore} → Step h s mid → Reaches h mid end → Reaches h s end

pub Reaches-trans :
    (h : TaskHost) {s t u : LoopStore} → Reaches h s t → Reaches h t u → Reaches h s u
Reaches-trans h stays k = k
Reaches-trans h (steps x xs) k = steps x (Reaches-trans h xs k)

one-Step : (h : TaskHost) (s t : LoopStore) → Step h s t → Reaches h s t
one-Step h s t x = steps x stays

update_one-Reaches :
    (h : TaskHost) (s : LoopStore) (id : String) (guard : ScheduledLoopStatus → Bool)
    (change : LoopRow → LoopRow)
    → ((row : LoopRow) → guard row.status ≡ true → RowStep h row (change row))
    → Reaches h s (update_one s id guard change).0
unfolding update_one
update_one-Reaches h s id guard change f = elim (Option-cases (get id s.loops)) [
  | inl gone ↦ rw (gone, update_one) stays
  | inr (row, at) ↦ elim (Bool-cases (guard row.status)) [
    | inl holds ↦
        rw (at, update_one) (rw holds (one-Step h s _ (updates id (change row) at (f row holds))))
    | inr fails ↦ rw (at, update_one) (rw fails stays)
  ]
]

end_selected-Reaches :
    (h : TaskHost) (s : LoopStore) (status : ScheduledLoopStatus) (o : Option ScheduledLoopRecord)
    (reason : String) (now : ℕ)
    → is_live status ≡ false
    → Reaches h s (end_selected h s status o reason now).0
unfolding end_selected
end_selected-Reaches h s status none reason now over = stays
end_selected-Reaches h s status (some r) reason now over =
    update_one-Reaches h s r.id is_live (ended h status reason now) (λ row live. ends live over)

pub is_active-eq : (a : ScheduledLoopStatus) → is_active a ≡ true → a ≡ active
is_active-eq active e = refl
is_active-eq running e = absurd (ground arith)
is_active-eq stopped e = absurd (ground arith)
is_active-eq terminal e = absurd (ground arith)

pub is_running-eq : (a : ScheduledLoopStatus) → is_running a ≡ true → a ≡ running
is_running-eq running e = refl
is_running-eq active e = absurd (ground arith)
is_running-eq stopped e = absurd (ground arith)
is_running-eq terminal e = absurd (ground arith)

terminalize_each-Reaches :
    (h : TaskHost) (s : LoopStore) (rs : List ScheduledLoopRecord) (reason : String) (now : ℕ)
    → Reaches h s (terminalize_each h s rs reason now).0
unfolding terminalize_each terminalize_by_id is_live
terminalize_each-Reaches h s [] reason now = stays
terminalize_each-Reaches h s (r ∷ rs) reason now =
    Reaches-trans h
      (update_one-Reaches h s r.id is_live (ended h terminal reason now)
        (λ row live. ends live refl))
      (terminalize_each-Reaches h (terminalize_by_id h s r.id reason now).0 rs reason now)

insert_loop-Step :
    (h : TaskHost) (s s' : LoopStore) (input : CreateScheduledLoopInput) (o : Option String)
    (now : ℕ)
    → o ≡ find_project h input.project_name s.projects
    → nat_beq input.interval_ms 0 ≡ false
    → insert_loop h s input o now ≡ ok s'
    → Step h s s'
unfolding insert_loop
insert_loop-Step h s s' input none now found positive e = absurd (ground arith)
insert_loop-Step h s s' input (some id) now found positive e =
    let (p, there) = find_project-get h input.project_name s.projects id (sym found) in
    let made : record s { loops = set input.id (new_loop h input id now) s.loops } ≡ s' =
      ground arith in
    subst (Step h s) made
      (inserts input id now there (ground arith) (ground arith) (ground arith) positive)

create_loop_write-Step :
    (h : TaskHost) (s s' : LoopStore) (input : CreateScheduledLoopInput) (clock : ℕ)
    → create_loop_write h s input clock ≡ ok s'
    → Step h s s'
unfolding create_loop_write
create_loop_write-Step h s s' input clock e =
    insert_loop-Step h s s' input _ (or_now input.started_at clock) refl (ground arith)
      (ground arith)

-- The calls that write.
pub data LoopOperation : Type 0 where
  create : CreateScheduledLoopInput → ℕ → LoopOperation
  acquire : String → ℕ → LoopOperation
  schedule : String → ℕ → ℕ → LoopOperation
  defer : String → ℕ → ℕ → LoopOperation
  stop : String → String → ℕ → LoopOperation
  end_id end_thread end_channel end_project : String → String → ℕ → LoopOperation

unfoldable pub perform_loop : TaskHost → LoopStore → LoopOperation → LoopStore
perform_loop h s (create input clock) = (create_loop h s input clock).0
perform_loop h s (acquire id now) = (acquire_iteration s id now).0
perform_loop h s (schedule id next now) = (schedule_next s id next now).0
perform_loop h s (defer id next now) = (defer_interrupted s id next now).0
perform_loop h s (stop channel reason now) = (stop_by_channel h s channel reason now).0
perform_loop h s (end_id id reason now) = (terminalize_by_id h s id reason now).0
perform_loop h s (end_thread thread reason now) = (terminalize_by_thread h s thread reason now).0
perform_loop h s (end_channel channel reason now) =
    (terminalize_by_channel h s channel reason now).0
perform_loop h s (end_project name reason now) = (terminalize_by_project h s name reason now).0

unfoldable pub run_loops : TaskHost → LoopStore → List LoopOperation → LoopStore
run_loops h s [] = s
run_loops h s (o ∷ os) = run_loops h (perform_loop h s o) os

after_create-Reaches :
    (h : TaskHost) (s : LoopStore) (id : String) (v : Result LoopError LoopStore)
    → ((s' : LoopStore) → v ≡ ok s' → Step h s s')
    → Reaches h s (after_create s id v).0
after_create-Reaches h s id (err x) f = stays
after_create-Reaches h s id (ok s') f = one-Step h s s' (f s' refl)

created-Reaches :
    (h : TaskHost) (s : LoopStore) (input : CreateScheduledLoopInput) (clock : ℕ)
    → Reaches h s (create_loop h s input clock).0
unfolding create_loop
created-Reaches h s input clock =
    after_create-Reaches h s input.id _ (λ s' e. create_loop_write-Step h s s' input clock e)

perform_loop-Reaches :
    (h : TaskHost) (s : LoopStore) (o : LoopOperation) → Reaches h s (perform_loop h s o)
unfolding perform_loop acquire_iteration schedule_next defer_interrupted stop_by_channel
    terminalize_by_id terminalize_by_thread terminalize_by_channel terminalize_where
    terminalize_by_project is_live
perform_loop-Reaches h s (create input clock) = created-Reaches h s input clock
perform_loop-Reaches h s (acquire id now) =
    update_one-Reaches h s id is_active (acquired now)
      (λ row e. acquires (is_active-eq row.status e))
perform_loop-Reaches h s (schedule id next now) =
    update_one-Reaches h s id is_running (scheduled next now)
      (λ row e. schedules (is_running-eq row.status e))
perform_loop-Reaches h s (defer id next now) =
    update_one-Reaches h s id is_running (scheduled next now)
      (λ row e. schedules (is_running-eq row.status e))
perform_loop-Reaches h s (stop channel reason now) =
    end_selected-Reaches h s stopped _ reason now refl
perform_loop-Reaches h s (end_id id reason now) =
    update_one-Reaches h s id is_live (ended h terminal reason now) (λ row live. ends live refl)
perform_loop-Reaches h s (end_thread thread reason now) =
    end_selected-Reaches h s terminal _ reason now refl
perform_loop-Reaches h s (end_channel channel reason now) =
    end_selected-Reaches h s terminal _ reason now refl
perform_loop-Reaches h s (end_project name reason now) = terminalize_each-Reaches h s _ reason now

pub run_loops-Reaches :
    (h : TaskHost) (s : LoopStore) (os : List LoopOperation) → Reaches h s (run_loops h s os)
unfolding run_loops
run_loops-Reaches h s [] = stays
run_loops-Reaches h s (o ∷ os) =
    Reaches-trans h (perform_loop-Reaches h s o) (run_loops-Reaches h (perform_loop h s o) os)
