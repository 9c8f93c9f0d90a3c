-- ===== src/Tasks/Moves.antt =====
-- repositories/taskRepository.ts: a write over a task's row keeps the task tables sound.
use discordagent.Base.{
  ℕ, String, true, ◌≡◌, ◌≢◌, subst, refl, Option, some, List, [], ◌∷◌, arith, str_dec,
}
use discordagent.Dict.{Dict, get, set}
use discordagent.Dict.Laws.{get-set}
use discordagent.Tasks.Rows.{
  TaskStatus, created, starting, running, waiting_for_user, completed, failed, cancelled,
  interrupted, TaskRow, ResultRow, TaskStore,
}
use discordagent.Tasks.Status.{status_dec, includes, is_terminal, legal_transitions}
use discordagent.Tasks.Repository.{moved, delete, reopened}
use discordagent.Tasks.Changes.{Move, Reopening}
use discordagent.Tasks.Soundness.{IsTimed, Fits, IsSound}
use discordagent.Tasks.Upkeep.{same_time}

pub get-delete {ℓ} :
    {V : Type ℓ} (k j : String) (d : Dict V) (v : V)
    → get j (delete k d) ≡ some v
    → (k ≢ j) × (get j d ≡ some v)
unfolding get delete
get-delete k j [] v e = absurd (ground arith)
get-delete k j ((i, w) ∷ d) v e = ground (arith, get-delete k j d v)

-- A stored task stays stored when a row is written.
stays :
    (k j : String) (new row : TaskRow) (d : Dict TaskRow)
    → get j d ≡ some row
    → (r : TaskRow) × (get j (set k new d) ≡ some r)
stays k j new row d at = elim (str_dec k j) [
  | yes same ↦ (new, ground (arith, get-set k j new d))
  | no other ↦ (row, ground (arith, get-set k j new d))
]

-- A row that is written over one with the same project, thread and provider.
revised-IsSound :
    (s : TaskStore) (id : String) (old new : TaskRow) (results : Dict ResultRow)
    → IsSound s
    → get id s.tasks ≡ some old
    → (new.project_id ≡ old.project_id)
      × (new.thread_id ≡ old.thread_id)
      × (new.provider ≡ old.provider)
    → IsTimed new.status new.started_at new.completed_at
    → ((j : String) (r : ResultRow) → get j results ≡ some r → get j s.results ≡ some r)
    → ((r : ResultRow) → get id results ≡ some r → Fits new.status r.outcome)
    → IsSound (record s { tasks = set id new s.tasks; results = results })
revised-IsSound s id old new results h at (project, thread, provider) timed older fits = record {
  project = λ j row e. elim (str_dec id j) [
    | yes same ↦
        let (p, there) = h.project id old at in (p, ground (arith, get-set id j new s.tasks))
    | no other ↦ h.project j row (ground (arith, get-set id j new s.tasks))
  ];
  thread = λ i j a b e f t. ground (
    arith,
    get-set id i new s.tasks,
    get-set id j new s.tasks,
    h.thread i j a b,
    h.thread i id a old,
    h.thread id j old b,
  );
  timed = λ j row e. elim (str_dec id j) [
    | yes same ↦ same_time new row (ground (arith, get-set id j new s.tasks)) timed
    | no other ↦ h.timed j row (ground (arith, get-set id j new s.tasks))
  ];
  worktree = λ j w e. let (row, there) = h.worktree j w e in stays id j new row s.tasks there;
  session = λ j x e.
      let (row, there, same_provider) = h.session j x e in
      elim (str_dec id j) [
        | yes same ↦ (new, ground (arith, get-set id j new s.tasks), ground arith)
        | no other ↦ (row, ground (arith, get-set id j new s.tasks), same_provider)
      ];
  one_session = h.one_session;
  outcome = λ j r e.
      let (row, there, fit) = h.outcome j r (older j r e) in
      elim (str_dec id j) [
        | yes same ↦ (new, ground (arith, get-set id j new s.tasks), fits r (ground arith))
        | no other ↦ (row, ground (arith, get-set id j new s.tasks), fit)
      ];
  card = λ j c e. let (row, there) = h.card j c e in stays id j new row s.tasks there;
}

IsTimed-move :
    (s t : TaskStatus) (start end : Option ℕ) (row : TaskRow) (now : ℕ)
    → row.status ≡ s
    → row.started_at ≡ start
    → row.completed_at ≡ end
    → includes (legal_transitions s) t ≡ true
    → IsTimed s start end
    → IsTimed t (moved row t now).started_at (moved row t now).completed_at
unfolding includes legal_transitions status_dec is_terminal moved
IsTimed-move s created start end row now a b c legal h = absurd (ground arith)
IsTimed-move s starting start end row now a b c legal h = tt
IsTimed-move s running start end row now a b c legal h = ground arith
IsTimed-move s waiting_for_user start end row now a b c legal h = ground arith
IsTimed-move s completed start end row now a b c legal h = ground arith
IsTimed-move s failed start end row now a b c legal h = ground arith
IsTimed-move s cancelled start end row now a b c legal h = ground arith
IsTimed-move s interrupted start end row now a b c legal h = ground arith

Fits-move : (s t o : TaskStatus) → includes (legal_transitions s) t ≡ true → Fits s o → Fits t o
unfolding includes legal_transitions status_dec is_terminal
Fits-move s t o legal h = ground arith

pub Move-IsSound :
    (s s' : TaskStore) (id : String) (expected : List TaskStatus) (next : TaskStatus) (now : ℕ)
    → IsSound s
    → Move s id expected next now s'
    → IsSound s'
unfolding moved
Move-IsSound s s' id expected next now h m = rw m.result (
    revised-IsSound s id m.row (moved m.row next now) s.results h m.at (refl, refl, refl)
      (IsTimed-move m.row.status next _ _ m.row now refl refl refl m.legal (h.timed id m.row m.at))
      (λ j r e. e)
      (λ r e.
        let (row, there, fit) = h.outcome id r e in
        let same : row ≡ m.row = ground (arith, m.at) in
        Fits-move m.row.status next r.outcome m.legal
          (subst (λ w. Fits w.status r.outcome) same fit)))

pub Reopening-IsSound :
    (s s' : TaskStore) (id : String) (now : ℕ) → IsSound s → Reopening s id now s' → IsSound s'
Reopening-IsSound s s' id now h m = rw m.result (
    revised-IsSound s id m.row (reopened m.row now) (delete id s.results) h m.at (refl, refl, refl)
      tt (λ j r e. (get-delete id j s.results r e).1)
      (λ r e. absurd ((get-delete id id s.results r e).0 refl)))
