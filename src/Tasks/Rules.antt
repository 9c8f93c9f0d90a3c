-- ===== src/Tasks/Rules.antt =====
-- repositories/taskRepository.ts: what a task keeps through any sequence of operations, and which
-- moves of its status are made.
use discordagent.Base.{
  ℕ, String, true, false, ◌≡◌, ◌≢◌, refl, some, List, [], ◌∷◌, arith, str_dec, subst, ap, sym, ◌∙◌,
}
use discordagent.Dict.{get}
use discordagent.Dict.Laws.{get-set}
use discordagent.Tasks.Rows.{
  TaskStatus, created, starting, running, waiting_for_user, completed, failed, cancelled,
  interrupted, TaskRow, TaskStore, TaskHost,
}
use discordagent.Tasks.Status.{includes, legal_transitions}
use discordagent.Tasks.Repository.{moved, reopened, new_task, or_now}
use discordagent.Tasks.History.{
  TaskOperation, create, attach, move, remove, reopen, save, pin, perform, run, Change, creation,
  attachment, movement, removal, reopening, saving, pinning, perform-cases,
}

-- What an operation makes of a task's row.
data RowStep (id : String) (a : TaskRow) : TaskOperation → TaskRow → Type 0 where
  same : {o : TaskOperation} → RowStep id a o a
  moves :
      {expected : List TaskStatus} {next : TaskStatus} {now : ℕ}
      → includes (legal_transitions a.status) next ≡ true
      → RowStep id a (move id expected next now) (moved a next now)
  reopens : {now : ℕ} → RowStep id a (reopen id now) (reopened a now)

abbrev Became : String → TaskRow → TaskOperation → TaskStore → Type 0
Became id a o s' = (b : TaskRow) × (get id s'.tasks ≡ some b) × RowStep id a o b

Change-RowStep :
    (h : TaskHost) (s s' : TaskStore) (o : TaskOperation) (id : String) (a : TaskRow)
    → get id s.tasks ≡ some a
    → Change h s s' o
    → Became id a o s'
Change-RowStep h s s' (create input now) id a at (creation c) = (
  a,
  ground (
    arith,
    c.result,
    c.new_id,
    get-set input.task_id id (new_task h input c.project_id (or_now input.created_at now)) s.tasks,
  ),
  same,
)
Change-RowStep h s s' (attach j x uuid) id a at (attachment c) = (a, rw c.result at, same)
Change-RowStep h s s' (move j expected next now) id a at (movement c) = elim (str_dec j id) [
  | yes here ↦
      let row : c.row ≡ a = ground (arith, c.at) in
      let written : moved c.row next now ≡ moved a next now = ap (λ r. moved r next now) row in
      let legal = subst (λ r. includes (legal_transitions r.status) next ≡ true) row c.legal in
      (
        moved a next now,
        ground (arith, c.result, written, get-set j id (moved c.row next now) s.tasks),
        subst (λ i. RowStep id a (move i expected next now) (moved a next now)) (sym here)
            (moves legal),
      )
  | no other ↦ (a, ground (arith, c.result, get-set j id (moved c.row next now) s.tasks), same)
]
Change-RowStep h s s' (remove j now) id a at (removal c) = (a, rw c.result at, same)
Change-RowStep h s s' (reopen j now) id a at (reopening c) = elim (str_dec j id) [
  | yes here ↦
      let row : c.row ≡ a = ground (arith, c.at) in
      let written : reopened c.row now ≡ reopened a now = ap (λ r. reopened r now) row in
      (
        reopened a now,
        ground (arith, c.result, written, get-set j id (reopened c.row now) s.tasks),
        subst (λ i. RowStep id a (reopen i now) (reopened a now)) (sym here) reopens,
      )
  | no other ↦ (a, ground (arith, c.result, get-set j id (reopened c.row now) s.tasks), same)
]
Change-RowStep h s s' (save j r) id a at (saving c) = (a, rw c.result at, same)
Change-RowStep h s s' (pin j message state now) id a at (pinning c) = (a, rw c.result at, same)

perform-RowStep :
    (h : TaskHost) (s : TaskStore) (o : TaskOperation) (id : String) (a : TaskRow)
    → get id s.tasks ≡ some a
    → Became id a o (perform h s o)
perform-RowStep h s o id a at =
    perform-cases (Became id a o) h s o (a, at, same) (λ s' c. Change-RowStep h s s' o id a at c)

-- What a task's row keeps.
pub record Keeps (a b : TaskRow) : Type 0 where
  pub project : b.project_id ≡ a.project_id
  pub provider : b.provider ≡ a.provider
  pub channel : b.channel_id ≡ a.channel_id
  pub thread : b.thread_id ≡ a.thread_id
  pub objective : b.objective ≡ a.objective
  pub created_at : b.created_at ≡ a.created_at
  pub settings : b.settings_json ≡ a.settings_json
  pub started : (n : ℕ) → a.started_at ≡ some n → b.started_at ≡ some n

RowStep-Keeps : (id : String) (a b : TaskRow) (o : TaskOperation) → RowStep id a o b → Keeps a b
unfolding moved
RowStep-Keeps id a b o same = record {
  project = refl;
  provider = refl;
  channel = refl;
  thread = refl;
  objective = refl;
  created_at = refl;
  settings = refl;
  started = λ n e. e;
}
RowStep-Keeps id a b (move i expected next now) (moves legal) = record {
  project = refl;
  provider = refl;
  channel = refl;
  thread = refl;
  objective = refl;
  created_at = refl;
  settings = refl;
  started = λ n e. ground arith;
}
RowStep-Keeps id a b (reopen i now) reopens = record {
  project = refl;
  provider = refl;
  channel = refl;
  thread = refl;
  objective = refl;
  created_at = refl;
  settings = refl;
  started = λ n e. e;
}

Keeps-trans : (a b c : TaskRow) → Keeps a b → Keeps b c → Keeps a c
Keeps-trans a b c h k = record {
  project = k.project ∙ h.project;
  provider = k.provider ∙ h.provider;
  channel = k.channel ∙ h.channel;
  thread = k.thread ∙ h.thread;
  objective = k.objective ∙ h.objective;
  created_at = k.created_at ∙ h.created_at;
  settings = k.settings ∙ h.settings;
  started = λ n e. k.started n (h.started n e);
}

-- Through any sequence of calls a stored task stays stored, with its project, provider, channel,
-- thread, objective, creation time and settings, and with the start time once it has one.
pub run-Keeps :
    (h : TaskHost) (s : TaskStore) (os : List TaskOperation) (id : String) (a : TaskRow)
    → get id s.tasks ≡ some a
    → (b : TaskRow) × (get id (run h s os).tasks ≡ some b) × Keeps a b
unfolding run
run-Keeps h s [] id a at = (a, at, RowStep-Keeps id a a (remove id 0) same)
run-Keeps h s (o ∷ os) id a at =
    let (b, there, step) = perform-RowStep h s o id a at in
    let (c, end, rest) = run-Keeps h (perform h s o) os id b there in
    (c, end, Keeps-trans a b c (RowStep-Keeps id a b o step) rest)

-- No call of the sequence reopens the task.
unfoldable pub NeverReopens : String → List TaskOperation → Type 0
NeverReopens id [] = Unit
NeverReopens id (reopen j now ∷ os) = (j ≢ id) × NeverReopens id os
NeverReopens id (_ ∷ os) = NeverReopens id os

-- An ended task: no transition leaves these statuses.
abbrev pub IsEnded : TaskStatus → Type 0
IsEnded completed = Unit
IsEnded failed = Unit
IsEnded cancelled = Unit
IsEnded _ = ⊥

no_exit : (s next : TaskStatus) → IsEnded s → includes (legal_transitions s) next ≡ false
unfolding includes legal_transitions
no_exit completed next h = refl
no_exit failed next h = refl
no_exit cancelled next h = refl
no_exit created next h = absurd h
no_exit starting next h = absurd h
no_exit running next h = absurd h
no_exit waiting_for_user next h = absurd h
no_exit interrupted next h = absurd h

later :
    (id : String) (o : TaskOperation) (os : List TaskOperation)
    → NeverReopens id (o ∷ os)
    → NeverReopens id os
unfolding NeverReopens
later id (create input now) os h = h
later id (attach j x uuid) os h = h
later id (move j expected next now) os h = h
later id (remove j now) os h = h
later id (reopen j now) os h = h.1
later id (save j r) os h = h
later id (pin j message state now) os h = h

ended_step :
    (id : String) (a b : TaskRow) (o : TaskOperation) (os : List TaskOperation)
    → IsEnded a.status
    → NeverReopens id (o ∷ os)
    → RowStep id a o b
    → b ≡ a
unfolding NeverReopens
ended_step id a b o os e never same = refl
ended_step id a b (move i expected next now) os e never (moves legal) =
    absurd (ground (arith, no_exit a.status next e))
ended_step id a b (reopen i now) os e never reopens = absurd (never.0 refl)

-- A completed, failed or cancelled task that no call of the sequence reopens keeps its row, every
-- column of it, whatever else is called.
pub run_ended :
    (h : TaskHost) (s : TaskStore) (os : List TaskOperation) (id : String) (a : TaskRow)
    → get id s.tasks ≡ some a
    → IsEnded a.status
    → NeverReopens id os
    → get id (run h s os).tasks ≡ some a
unfolding run
run_ended h s [] id a at e never = at
run_ended h s (o ∷ os) id a at e never =
    let (b, there, step) = perform-RowStep h s o id a at in
    let unchanged : b ≡ a = ended_step id a b o os e never step in
    run_ended h (perform h s o) os id a
      (subst (λ r. get id (perform h s o).tasks ≡ some r) unchanged there) e (later id o os never)
