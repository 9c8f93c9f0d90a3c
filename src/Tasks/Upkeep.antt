-- ===== src/Tasks/Upkeep.antt =====
-- repositories/taskRepository.ts: the writes that leave the rows of stored tasks keep the tables sound.
use discordagent.Base.{
  ℕ, String, false, ◌≡◌, ◌≢◌, subst, inl, refl, none, some, [], ◌∷◌, any, arith, str_dec,
  if◌then◌else◌, ◌==◌,
}
use discordagent.Dict.{Dict, get, set}
use discordagent.Dict.Laws.{get-set}
use discordagent.Tasks.Rows.{
  ProjectRow, TaskRow, SessionRow, CardRow, TaskStore, TaskResult, CreateTaskTransaction,
  ProviderSession, TaskHost,
}
use discordagent.Tasks.Status.{provider_dec, is_terminal}
use discordagent.Tasks.Select.{with_thread}
use discordagent.Tasks.Repository.{
  find_project, new_task, new_worktree, or_now, session_clash, new_session, new_result,
}
use discordagent.Tasks.Changes.{Creation, Attachment, Removal, Saving, Pinning}
use discordagent.Tasks.Soundness.{IsTimed, Fits, IsSound}

-- A thread that the search does not find is no task's.
pub no_thread :
    (thread : String) (d : Dict TaskRow) (j : String) (row : TaskRow)
    → with_thread thread d ≡ none
    → get j d ≡ some row
    → row.thread_id ≢ thread
unfolding with_thread get
no_thread thread [] j row free at = absurd (ground arith)
no_thread thread ((i, r) ∷ d) j row free at = ground (arith, no_thread thread d j row)

-- The project that the search finds is stored.
pub find_project-get :
    (h : TaskHost) (name : String) (d : Dict ProjectRow) (id : String)
    → find_project h name d ≡ some id
    → (p : ProjectRow) × (get id d ≡ some p)
unfolding find_project get
find_project-get h name [] id e = absurd (ground arith)
find_project-get h name ((i, p) ∷ d) id e = elim (str_dec i id) [
  | yes same ↦ (p, ground arith)
  | no other ↦ let (q, at) = find_project-get h name d id (ground arith) in (q, ground arith)
]

-- A session that clashes with none has no one's session id.
no_clash :
    (uuid : String) (x : ProviderSession) (d : Dict SessionRow) (j : String) (y : SessionRow)
    → any (λ e. session_clash uuid x e.1) d ≡ false
    → get j d ≡ some y
    → x.provider ≡ y.provider
    → x.session_id ≢ y.session_id
unfolding get provider_dec
no_clash uuid x [] j y apart at same = absurd (ground arith)
no_clash uuid x ((i, z) ∷ d) j y apart at same = ground (arith, no_clash uuid x d j y)

pub Attachment-IsSound :
    (s s' : TaskStore) (id : String) (x : ProviderSession) (uuid : String)
    → IsSound s
    → Attachment s id x uuid s'
    → IsSound s'
Attachment-IsSound s s' id x uuid h a = rw a.result (record {
  project = h.project;
  thread = h.thread;
  timed = h.timed;
  worktree = h.worktree;
  session = λ j y e. elim (str_dec id j) [
    | yes same ↦ (
      a.row,
      ground (arith, a.at),
      ground (arith, a.provider, get-set id j (new_session uuid x) s.sessions),
    )
    | no other ↦ h.session j y (ground (arith, get-set id j (new_session uuid x) s.sessions))
  ];
  one_session = λ i j y z e f p q. ground (
    arith,
    get-set id i (new_session uuid x) s.sessions,
    get-set id j (new_session uuid x) s.sessions,
    h.one_session i j y z,
    no_clash uuid x s.sessions i y a.apart,
    no_clash uuid x s.sessions j z a.apart,
  );
  outcome = h.outcome;
  card = h.card;
})

pub Removal-IsSound :
    (s s' : TaskStore) (id : String) (at : ℕ) → IsSound s → Removal s id at s' → IsSound s'
Removal-IsSound s s' id at h r = rw r.result (record {
  project = h.project;
  thread = h.thread;
  timed = h.timed;
  worktree = λ j w e. elim (str_dec id j) [
    | yes same ↦ let (row, there) = h.worktree id r.row r.at in (row, ground arith)
    | no other ↦
        h.worktree j w
          (ground (arith, get-set id j (record r.row { removed_at = some at }) s.worktrees))
  ];
  session = h.session;
  one_session = h.one_session;
  outcome = h.outcome;
  card = h.card;
})

pub Saving-IsSound :
    (host : TaskHost) (s s' : TaskStore) (id : String) (r : TaskResult)
    → IsSound s
    → Saving host s id r s'
    → IsSound s'
unfolding is_terminal
Saving-IsSound host s s' id r h v = rw v.result (record {
  project = h.project;
  thread = h.thread;
  timed = h.timed;
  worktree = h.worktree;
  session = h.session;
  one_session = h.one_session;
  outcome = λ j q e. elim (str_dec id j) [
    | yes same ↦
        let fit : Fits v.row.status q.outcome = (
          ground (arith, v.terminal),
          ground (arith, v.terminal, v.outcome, get-set id j (new_result host r) s.results),
          inl (ground (arith, v.outcome, get-set id j (new_result host r) s.results)),
        ) in
        (v.row, ground (arith, v.at), fit)
    | no other ↦ h.outcome j q (ground (arith, get-set id j (new_result host r) s.results))
  ];
  card = h.card;
})

pub Pinning-IsSound :
    (s s' : TaskStore) (id : String) (c : CardRow) → IsSound s → Pinning s id c s' → IsSound s'
Pinning-IsSound s s' id c h p = rw p.result (record {
  project = h.project;
  thread = h.thread;
  timed = h.timed;
  worktree = h.worktree;
  session = h.session;
  one_session = h.one_session;
  outcome = h.outcome;
  card = λ j q e. elim (str_dec id j) [
    | yes same ↦ (p.row, ground (arith, p.at))
    | no other ↦ h.card j q (ground (arith, get-set id j c s.cards))
  ];
})

pub same_time :
    (a b : TaskRow)
    → a ≡ b
    → IsTimed a.status a.started_at a.completed_at
    → IsTimed b.status b.started_at b.completed_at
same_time a b same h = subst (λ r. IsTimed r.status r.started_at r.completed_at) same h

created_project :
    (s s' : TaskStore) (h : TaskHost) (input : CreateTaskTransaction) (clock : ℕ)
    (c : Creation h s input clock s')
    → (p : ProjectRow) × (get c.project_id s.projects ≡ some p)
created_project s s' h input clock c =
    find_project-get h input.project_name s.projects c.project_id c.project

pub Creation-IsSound :
    (s s' : TaskStore) (h : TaskHost) (input : CreateTaskTransaction) (clock : ℕ)
    → IsSound s
    → Creation h s input clock s'
    → IsSound s'
Creation-IsSound s s' h input clock sound c =
    let now : ℕ = or_now input.created_at clock in
    let id : String = input.task_id in
    let task : TaskRow = new_task h input c.project_id now in
    let at : (j : String)
        → get j (set id task s.tasks) ≡ (if id == j then some task else get j s.tasks) =
      λ j. get-set id j task s.tasks in
    let others : (j : String) (row : TaskRow)
        → get j s.tasks ≡ some row
        → get j (set id task s.tasks) ≡ some row =
      λ j row e. ground (arith, at j, c.new_id) in
    rw c.result (record {
      project = λ j row e. elim (str_dec id j) [
        | yes same ↦
            let (p, there) = created_project s s' h input clock c in (p, ground (arith, at j))
        | no other ↦ sound.project j row (ground (arith, at j))
      ];
      thread = λ i j a b e f t. ground (
        arith,
        at i,
        at j,
        sound.thread i j a b,
        no_thread input.thread_id s.tasks i a c.new_thread,
        no_thread input.thread_id s.tasks j b c.new_thread,
      );
      timed = λ j row e. elim (str_dec id j) [
        | yes same ↦ same_time task row (ground (arith, at j)) (refl, refl)
        | no other ↦ sound.timed j row (ground (arith, at j))
      ];
      worktree = λ j w e. elim (str_dec id j) [
        | yes same ↦ (task, ground (arith, at j))
        | no other ↦
            let (row, there) =
              sound.worktree j w
                (ground (arith, get-set id j (new_worktree input.worktree now) s.worktrees)) in
            (row, others j row there)
      ];
      session =
          λ j x e. let (row, there, same) = sound.session j x e in (row, others j row there, same);
      one_session = sound.one_session;
      outcome =
          λ j r e. let (row, there, fit) = sound.outcome j r e in (row, others j row there, fit);
      card = λ j k e. let (row, there) = sound.card j k e in (row, others j row there);
    })
