-- ===== src/Tasks/Changes.antt =====
-- repositories/taskRepository.ts: what each write needs, and what it makes of the store.
use discordagent.Base.{
  ℕ, String, true, false, ◌≡◌, none, some, List, [], ◌∷◌, any, ok, arith, inl, inr, Option-cases,
  >>=-eq-ok,
}
use discordagent.Dict.{get, set}
use discordagent.Tasks.Rows.{
  TaskStatus, TaskControlCardPinState, TaskRow, WorktreeRow, CardRow, TaskStore, TaskRecord,
  TaskResult, CreateTaskTransaction, ProviderSession, TaskHost,
}
use discordagent.Tasks.Status.{includes, is_terminal, legal_transitions}
use discordagent.Tasks.Select.{
  session_of, find_by_id, joined, to_task_record, require_task, with_thread,
}
use discordagent.Tasks.Repository.{
  find_project, new_task, new_worktree, or_now, create_write, is_missing, session_clash,
  new_session, attach_write, moved, update_where, transition_write, remove_write, delete, is_active,
  reopened, reopen_row, reopen_write, new_result, save_write, card_write,
}

-- A record that was read comes from a stored row.
pub record IsReadFrom (s : TaskStore) (id : String) (t : TaskRecord) (row : TaskRow) : Type 0 where
  pub at : get id s.tasks ≡ some row
  pub status : t.status ≡ row.status
  pub provider : t.provider ≡ row.provider
  pub session : t.provider_session_id ≡ session_of (get id s.sessions)

pub require_task-IsReadFrom :
    (h : TaskHost) (s : TaskStore) (id : String) (t : TaskRecord)
    → require_task h s id ≡ ok t
    → (row : TaskRow) × IsReadFrom s id t row
unfolding require_task find_by_id joined to_task_record
require_task-IsReadFrom h s id t e = elim (Option-cases (get id s.tasks)) [
  | inl gone ↦ absurd (ground arith)
  | inr (row, at) ↦ elim (Option-cases (get row.project_id s.projects)) [
    | inl gone ↦ absurd (ground arith)
    | inr (p, there) ↦ (
      row,
      record { at = at; status = ground arith; provider = ground arith; session = ground arith },
    )
  ]
]

pub record Creation (h : TaskHost) (s : TaskStore) (input : CreateTaskTransaction) (clock : ℕ)
    (s' : TaskStore) : Type 0 where
  pub project_id : String
  pub project : find_project h input.project_name s.projects ≡ some project_id
  pub new_id : get input.task_id s.tasks ≡ none
  pub new_thread : with_thread input.thread_id s.tasks ≡ none
  pub result : s' ≡ record s {
    tasks = set input.task_id (new_task h input project_id (or_now input.created_at clock)) s.tasks;
    worktrees =
        set input.task_id (new_worktree input.worktree (or_now input.created_at clock)) s.worktrees;
  }

pub create_write-Creation :
    (h : TaskHost) (s : TaskStore) (input : CreateTaskTransaction) (clock : ℕ) (s' : TaskStore)
    → create_write h s input clock ≡ ok s'
    → Creation h s input clock s'
unfolding create_write
create_write-Creation h s input clock s' e =
    elim (Option-cases (find_project h input.project_name s.projects)) [
      | inl gone ↦ absurd (ground arith)
      | inr (p, there) ↦ record {
        project_id = p;
        project = there;
        new_id = ground arith;
        new_thread = ground arith;
        result = ground arith;
      }
    ]

pub record Attachment (s : TaskStore) (id : String) (x : ProviderSession) (uuid : String)
    (s' : TaskStore) : Type 0 where
  pub row : TaskRow
  pub at : get id s.tasks ≡ some row
  pub provider : row.provider ≡ x.provider
  pub free : get id s.sessions ≡ none
  pub apart : any (λ e. session_clash uuid x e.1) s.sessions ≡ false
  pub result : s' ≡ record s { sessions = set id (new_session uuid x) s.sessions }

pub attach_write-Attachment :
    (h : TaskHost) (s : TaskStore) (id : String) (x : ProviderSession) (uuid : String)
    (s' : TaskStore)
    → attach_write h s id x uuid ≡ ok s'
    → Attachment s id x uuid s'
unfolding attach_write
attach_write-Attachment h s id x uuid s' e =
    let (t, read, rest) = >>=-eq-ok (require_task h s id) _ e in
    let (row, from) = require_task-IsReadFrom h s id t read in
    record {
      row = row;
      at = from.at;
      provider = ground (arith, from.provider);
      free = ground arith;
      apart = ground arith;
      result = ground arith;
    }

pub record Move (s : TaskStore) (id : String) (expected : List TaskStatus) (next : TaskStatus)
    (now : ℕ) (s' : TaskStore) : Type 0 where
  pub row : TaskRow
  pub at : get id s.tasks ≡ some row
  pub ready : includes expected row.status ≡ true
  pub legal : includes (legal_transitions row.status) next ≡ true
  pub result : s' ≡ record s { tasks = set id (moved row next now) s.tasks }

update_where-eq-ok :
    (s : TaskStore) (id : String) (expected : List TaskStatus) (next : TaskStatus) (now : ℕ)
    (s' : TaskStore) (row : TaskRow)
    → get id s.tasks ≡ some row
    → update_where s id expected next now ≡ ok s'
    → (includes expected row.status ≡ true)
      × (s' ≡ record s { tasks = set id (moved row next now) s.tasks })
unfolding update_where
update_where-eq-ok s id expected next now s' row at e = ground arith

pub transition_write-Move :
    (h : TaskHost) (s : TaskStore) (id : String) (expected : List TaskStatus) (next : TaskStatus)
    (now : ℕ) (s' : TaskStore)
    → transition_write h s id expected next now ≡ ok s'
    → Move s id expected next now s'
unfolding transition_write
transition_write-Move h s id [] next now s' e = absurd (ground arith)
transition_write-Move h s id (x ∷ xs) next now s' e =
    let (t, read, rest) = >>=-eq-ok (require_task h s id) _ e in
    let (row, from) = require_task-IsReadFrom h s id t read in
    let (ready, done) = update_where-eq-ok s id (x ∷ xs) next now s' row from.at (ground arith) in
    record {
      row = row;
      at = from.at;
      ready = ready;
      legal = ground (arith, from.status);
      result = done;
    }

pub record Removal (s : TaskStore) (id : String) (removed_at : ℕ) (s' : TaskStore) : Type 0 where
  pub row : WorktreeRow
  pub at : get id s.worktrees ≡ some row
  pub active : row.removed_at ≡ none
  pub result :
      s' ≡ record s { worktrees = set id (record row { removed_at = some removed_at }) s.worktrees }

pub remove_write-Removal :
    (s : TaskStore) (id : String) (removed_at : ℕ) (s' : TaskStore)
    → remove_write s id removed_at ≡ ok s'
    → Removal s id removed_at s'
unfolding remove_write
remove_write-Removal s id removed_at s' e = elim (Option-cases (get id s.worktrees)) [
  | inl gone ↦ absurd (ground arith)
  | inr (row, at) ↦ record { row = row; at = at; active = ground arith; result = ground arith }
]

pub record Reopening (s : TaskStore) (id : String) (now : ℕ) (s' : TaskStore) : Type 0 where
  pub row : TaskRow
  pub at : get id s.tasks ≡ some row
  pub terminal : is_terminal row.status ≡ true
  pub session : is_missing (session_of (get id s.sessions)) ≡ false
  pub active : is_active (get id s.worktrees) ≡ true
  pub result :
      s' ≡ record s { results = delete id s.results; tasks = set id (reopened row now) s.tasks }

pub reopen_write-Reopening :
    (h : TaskHost) (s : TaskStore) (id : String) (now : ℕ) (s' : TaskStore)
    → reopen_write h s id now ≡ ok s'
    → Reopening s id now s'
unfolding reopen_write reopen_row
reopen_write-Reopening h s id now s' e =
    let (t, read, rest) = >>=-eq-ok (require_task h s id) _ e in
    let (row, from) = require_task-IsReadFrom h s id t read in
    record {
      row = row;
      at = from.at;
      terminal = ground (arith, from.status);
      session = ground (arith, from.session);
      active = ground arith;
      result = ground (arith, from.at);
    }

pub record Saving (h : TaskHost) (s : TaskStore) (id : String) (r : TaskResult) (s' : TaskStore)
    : Type 0 where
  pub row : TaskRow
  pub at : get id s.tasks ≡ some row
  pub terminal : is_terminal row.status ≡ true
  pub provider : row.provider ≡ r.provider
  pub outcome : row.status ≡ r.outcome
  pub free : get id s.results ≡ none
  pub result : s' ≡ record s { results = set id (new_result h r) s.results }

pub save_write-Saving :
    (h : TaskHost) (s : TaskStore) (id : String) (r : TaskResult) (s' : TaskStore)
    → save_write h s id r ≡ ok s'
    → Saving h s id r s'
unfolding save_write
save_write-Saving h s id r s' e =
    let (t, read, rest) = >>=-eq-ok (require_task h s id) _ e in
    let (row, from) = require_task-IsReadFrom h s id t read in
    record {
      row = row;
      at = from.at;
      terminal = ground (arith, from.status);
      provider = ground (arith, from.provider);
      outcome = ground (arith, from.status);
      free = ground arith;
      result = ground arith;
    }

pub record Pinning (s : TaskStore) (id : String) (card : CardRow) (s' : TaskStore) : Type 0 where
  pub row : TaskRow
  pub at : get id s.tasks ≡ some row
  pub result : s' ≡ record s { cards = set id card s.cards }

pub card_write-Pinning :
    (h : TaskHost) (s : TaskStore) (id message_id : String) (pin_state : TaskControlCardPinState)
    (now : ℕ) (s' : TaskStore)
    → card_write h s id message_id pin_state now ≡ ok s'
    → Pinning s id (record { message_id = message_id; pin_state = pin_state; updated_at = now }) s'
unfolding card_write
card_write-Pinning h s id message_id pin_state now s' e =
    let (t, read, rest) = >>=-eq-ok (require_task h s id) _ e in
    let (row, from) = require_task-IsReadFrom h s id t read in
    record { row = row; at = from.at; result = ground arith }
