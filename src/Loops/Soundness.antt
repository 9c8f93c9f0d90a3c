-- ===== src/Loops/Soundness.antt =====
-- repositories/loopRepository.ts and db/loopSchemaMigration.ts: the invariant of the loop table.
use discordagent.Base.{
  ℕ, String, Bool, true, false, ◌≡◌, ◌≢◌, refl, none, some, List, [], ◌∷◌, any, ◌≤◌, ◌==◌, nat_beq,
  arith, str_dec, subst, if◌then◌else◌,
}
use discordagent.Dict.{Dict, get, set}
use discordagent.Dict.Laws.{get-set}
use discordagent.Tasks.Rows.{ProjectRow, TaskHost}
use discordagent.Loops.Rows.{
  ScheduledLoopStatus, active, running, stopped, terminal, is_live, LoopRow, LoopStore,
  CreateScheduledLoopInput,
}
use discordagent.Loops.Repository.{ended, new_loop, thread_clash, channel_clash}
use discordagent.Loops.Steps.{
  RowStep, acquires, schedules, ends, Step, inserts, updates, Reaches, stays, steps, LoopOperation,
  run_loops, run_loops-Reaches,
}

-- What a status says of the other columns: a running loop has no next run and has begun an
-- iteration, and a loop that is over has no next run, a time and a reason.
abbrev pub IsShaped : ScheduledLoopStatus → LoopRow → Type 0
IsShaped active row = (row.stopped_at ≡ none) × (row.stop_reason ≡ none)
IsShaped running row =
    (row.stopped_at ≡ none)
    × (row.stop_reason ≡ none)
    × (row.next_run_at ≡ none)
    × (1 ≤ row.iteration)
IsShaped stopped row = (row.next_run_at ≡ none) × (row.stopped_at ≢ none) × (row.stop_reason ≢ none)
IsShaped terminal row =
    (row.next_run_at ≡ none) × (row.stopped_at ≢ none) × (row.stop_reason ≢ none)

-- Projects are stored, threads belong to one loop, a channel has one live loop at most, and the
-- columns fit the status.
pub record IsOrderly (s : LoopStore) : Type 0 where
  pub project :
      (id : String) (row : LoopRow)
      → get id s.loops ≡ some row
      → (p : ProjectRow) × (get row.project_id s.projects ≡ some p)
  pub thread :
      (i j : String) (a b : LoopRow)
      → get i s.loops ≡ some a
      → get j s.loops ≡ some b
      → a.thread_id ≡ b.thread_id
      → i ≡ j
  pub channel :
      (i j : String) (a b : LoopRow)
      → get i s.loops ≡ some a
      → get j s.loops ≡ some b
      → is_live a.status ≡ true
      → is_live b.status ≡ true
      → a.channel_id ≡ b.channel_id
      → i ≡ j
  pub shape :
      (id : String) (row : LoopRow)
      → get id s.loops ≡ some row
      → IsShaped row.status row × (row.interval_ms ≢ 0)

-- No row has what no entry was found to have.
none_with :
    (test : LoopRow → Bool) (d : Dict LoopRow) (id : String) (row : LoopRow)
    → any (λ e. test e.1) d ≡ false
    → get id d ≡ some row
    → test row ≡ false
unfolding get
none_with test [] id row free at = absurd (ground arith)
none_with test ((j, r) ∷ d) id row free at = elim (str_dec j id) [
  | yes same ↦ let here : r ≡ row = ground arith in subst (λ x. test x ≡ false) here (ground arith)
  | no other ↦ none_with test d id row (ground arith) (ground arith)
]

same_shape :
    (a b : LoopRow)
    → a ≡ b
    → IsShaped a.status a × (a.interval_ms ≢ 0)
    → IsShaped b.status b × (b.interval_ms ≢ 0)
same_shape a b same h = subst (λ r. IsShaped r.status r × (r.interval_ms ≢ 0)) same h

-- What every UPDATE does to a row.
record IsLater (a b : LoopRow) : Type 0 where
  pub project : b.project_id ≡ a.project_id
  pub thread : b.thread_id ≡ a.thread_id
  pub channel : b.channel_id ≡ a.channel_id
  pub live : is_live b.status ≡ true → is_live a.status ≡ true
  pub shape : IsShaped a.status a × (a.interval_ms ≢ 0) → IsShaped b.status b × (b.interval_ms ≢ 0)

ended_shape :
    (h : TaskHost) (status : ScheduledLoopStatus) (reason : String) (now : ℕ) (a : LoopRow)
    → is_live status ≡ false
    → IsShaped status (ended h status reason now a)
unfolding is_live
ended_shape h active reason now a over = absurd (ground arith)
ended_shape h running reason now a over = absurd (ground arith)
ended_shape h stopped reason now a over = (refl, λ e. cc, λ e. cc)
ended_shape h terminal reason now a over = (refl, λ e. cc, λ e. cc)

live_shape :
    (status : ScheduledLoopStatus) (a : LoopRow)
    → is_live status ≡ true
    → IsShaped status a
    → (a.stopped_at ≡ none) × (a.stop_reason ≡ none)
unfolding is_live
live_shape active a live h = h
live_shape running a live h = (h.0, h.1)
live_shape stopped a live h = absurd (ground arith)
live_shape terminal a live h = absurd (ground arith)

RowStep-IsLater : (h : TaskHost) (a b : LoopRow) → RowStep h a b → IsLater a b
unfolding is_live
RowStep-IsLater h a b (acquires was) = record {
  project = refl;
  thread = refl;
  channel = refl;
  live = λ e. ground arith;
  shape = λ (k, n).
      let (x, y) = live_shape a.status a (ground arith) k in ((x, y, refl, ground arith), n);
}
RowStep-IsLater h a b (schedules was) = record {
  project = refl;
  thread = refl;
  channel = refl;
  live = λ e. ground arith;
  shape = λ (k, n). (live_shape a.status a (ground arith) k, n);
}
RowStep-IsLater h a b (ends {status} {reason} {now} was over) = record {
  project = refl;
  thread = refl;
  channel = refl;
  live = λ e. was;
  shape = λ (k, n). (ended_shape h status reason now a over, n);
}

updated-IsOrderly :
    (s : LoopStore) (id : String) (a b : LoopRow)
    → IsOrderly s
    → get id s.loops ≡ some a
    → IsLater a b
    → IsOrderly (record s { loops = set id b s.loops })
updated-IsOrderly s id a b h at k = record {
  project = λ j row e. elim (str_dec id j) [
    | yes same ↦
        let (p, there) = h.project id a at in (p, ground (arith, k.project, get-set id j b s.loops))
    | no other ↦ h.project j row (ground (arith, get-set id j b s.loops))
  ];
  thread = λ i j x y e f t. ground (
    arith,
    k.thread,
    get-set id i b s.loops,
    get-set id j b s.loops,
    h.thread i j x y,
    h.thread i id x a,
    h.thread id j a y,
  );
  channel = λ i j x y e f l m t. ground (
    arith,
    k.channel,
    k.live,
    get-set id i b s.loops,
    get-set id j b s.loops,
    h.channel i j x y,
    h.channel i id x a,
    h.channel id j a y,
  );
  shape = λ j row e. elim (str_dec id j) [
    | yes same ↦
        same_shape b row (ground (arith, get-set id j b s.loops)) (k.shape (h.shape id a at))
    | no other ↦ h.shape j row (ground (arith, get-set id j b s.loops))
  ];
}

inserted-IsOrderly :
    (h : TaskHost) (s : LoopStore) (input : CreateScheduledLoopInput) (project_id : String)
    (now : ℕ) (p : ProjectRow)
    → IsOrderly s
    → get project_id s.projects ≡ some p
    → get input.id s.loops ≡ none
    → any (λ e. thread_clash input e.1) s.loops ≡ false
    → any (λ e. channel_clash input e.1) s.loops ≡ false
    → nat_beq input.interval_ms 0 ≡ false
    → IsOrderly (record s { loops = set input.id (new_loop h input project_id now) s.loops })
inserted-IsOrderly h s input project_id now p k there new thread channel positive =
    let row : LoopRow = new_loop h input project_id now in
    let at : (j : String)
        → get j (set input.id row s.loops) ≡ (if input.id == j then some row else get j s.loops) =
      λ j. get-set input.id j row s.loops in
    let other_thread : (j : String) (b : LoopRow)
        → get j s.loops ≡ some b
        → thread_clash input b ≡ false =
      λ j b e. none_with (thread_clash input) s.loops j b thread e in
    let other_channel : (j : String) (b : LoopRow)
        → get j s.loops ≡ some b
        → channel_clash input b ≡ false =
      λ j b e. none_with (channel_clash input) s.loops j b channel e in
    record {
      project = λ j b e. elim (str_dec input.id j) [
        | yes same ↦ (p, ground (arith, at j))
        | no other ↦ k.project j b (ground (arith, at j))
      ];
      thread = λ i j a b e f t.
          ground (arith, at i, at j, k.thread i j a b, other_thread i a, other_thread j b);
      channel = λ i j a b e f l m t.
          ground (arith, at i, at j, k.channel i j a b, other_channel i a, other_channel j b);
      shape = λ j b e. elim (str_dec input.id j) [
        | yes same ↦ same_shape row b (ground (arith, at j)) ((refl, refl), ground arith)
        | no other ↦ k.shape j b (ground (arith, at j))
      ];
    }

Step-IsOrderly : (h : TaskHost) (s t : LoopStore) → Step h s t → IsOrderly s → IsOrderly t
Step-IsOrderly h s t (inserts input project_id now {p} there new thread channel positive) k =
    inserted-IsOrderly h s input project_id now p k there new thread channel positive
Step-IsOrderly h s t (updates id {row} new at step) k =
    updated-IsOrderly s id row new k at (RowStep-IsLater h row new step)

Reaches-IsOrderly : (h : TaskHost) {s t : LoopStore} → Reaches h s t → IsOrderly s → IsOrderly t
Reaches-IsOrderly h stays k = k
Reaches-IsOrderly h (steps {s} {mid} {end} x xs) k =
    Reaches-IsOrderly h xs (Step-IsOrderly h s mid x k)

-- Whatever calls are made, in any order and with any arguments, an orderly loop table stays so: no
-- channel has two live loops, no thread two loops, every loop has its project and a positive
-- interval, and next run, iteration, stop time and reason fit the status.
pub run_loops-IsOrderly :
    (h : TaskHost) (s : LoopStore) (os : List LoopOperation)
    → IsOrderly s
    → IsOrderly (run_loops h s os)
run_loops-IsOrderly h s os k = Reaches-IsOrderly h (run_loops-Reaches h s os) k
