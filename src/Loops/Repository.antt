-- ===== src/Loops/Repository.antt =====
-- repositories/loopRepository.ts: the reads and writes of the loop table. `Date.now()` is an
-- argument. The comparison of project names and the redaction are those of the task tables.
use discordagent.Base.{
  ℕ, String, Bool, true, false, ◌&&◌, ◌||◌, ◌==◌, ◌+◌, Option, none, some, List, [], ◌∷◌, any,
  Result, ok, err, if◌then◌else◌, ltb, nat_beq,
}
use discordagent.Dict.{Dict, get, set, has, is_some}
use discordagent.Tasks.Rows.{ProjectRow, TaskHost}
use discordagent.Tasks.Select.{text_before, or_else_start}
use discordagent.Tasks.Repository.{find_project, or_now}
use discordagent.Loops.Rows.{
  ScheduledLoopStatus, active, running, stopped, terminal, is_live, LoopRow, LoopStore,
  ScheduledLoopRecord, CreateScheduledLoopInput, LoopError, interval_not_positive, channel_taken,
  project_not_found, constraint_failed,
}

abbrev pub to_record : String → LoopRow → ProjectRow → ScheduledLoopRecord
to_record id row p = record {
  id = id;
  project_name = p.name;
  channel_id = row.channel_id;
  thread_id = row.thread_id;
  prompt = row.prompt;
  interval_ms = row.interval_ms;
  iteration = row.iteration;
  next_run_at = row.next_run_at;
  status = row.status;
  started_by = row.started_by;
  started_at = row.started_at;
  updated_at = row.updated_at;
  stopped_at = row.stopped_at;
  stop_reason = row.stop_reason;
}

-- A row of `LOOP_SELECT`.
unfoldable pub joined_loop : LoopStore → String → LoopRow → Option ScheduledLoopRecord
joined_loop s id row = elim (get row.project_id s.projects) [
  | none ↦ none
  | some p ↦ some (to_record id row p)
]

unfoldable pub find_loop : LoopStore → String → Option ScheduledLoopRecord
find_loop s id = elim (get id s.loops) [ none ↦ none | some row ↦ joined_loop s id row ]

abbrev push_if : Bool → ScheduledLoopRecord → List ScheduledLoopRecord → List ScheduledLoopRecord
push_if false r l = l
push_if true r l = r ∷ l

abbrev push_live :
    (ScheduledLoopRecord → Bool)
    → Option ScheduledLoopRecord
    → List ScheduledLoopRecord
    → List ScheduledLoopRecord
push_live p none l = l
push_live p (some r) l = push_if (p r && is_live r.status) r l

-- The live loops that satisfy a condition, in the order of the table.
unfoldable pub select_live :
    LoopStore → (ScheduledLoopRecord → Bool) → Dict LoopRow → List ScheduledLoopRecord
select_live s p [] = []
select_live s p ((id, row) ∷ d) = push_live p (joined_loop s id row) (select_live s p d)

-- `(a.started_at, a.id) < (b.started_at, b.id)`.
unfoldable pub starts_before : ScheduledLoopRecord → ScheduledLoopRecord → Bool
starts_before a b =
    ltb a.started_at b.started_at || (nat_beq a.started_at b.started_at && text_before a.id b.id)

abbrev later_of : ScheduledLoopRecord → Option ScheduledLoopRecord → ScheduledLoopRecord
later_of a none = a
later_of a (some b) = if starts_before a b then b else a

-- `ORDER BY l.started_at DESC, l.id DESC LIMIT 1`.
unfoldable pub latest : List ScheduledLoopRecord → Option ScheduledLoopRecord
latest [] = none
latest (a ∷ l) = some (later_of a (latest l))

abbrev pub in_channel : String → ScheduledLoopRecord → Bool
in_channel channel r = r.channel_id == channel

abbrev pub in_thread : String → ScheduledLoopRecord → Bool
in_thread thread r = r.thread_id == thread

unfoldable pub find_active_by_channel_id : LoopStore → String → Option ScheduledLoopRecord
find_active_by_channel_id s channel = latest (select_live s (in_channel channel) s.loops)

-- No ORDER BY here: the thread is UNIQUE.
unfoldable pub find_active_by_thread_id : LoopStore → String → Option ScheduledLoopRecord
find_active_by_thread_id s thread = latest (select_live s (in_thread thread) s.loops)

-- An insertion sort by an order of the rows.
unfoldable pub insert_by :
    (ScheduledLoopRecord → ScheduledLoopRecord → Bool)
    → ScheduledLoopRecord
    → List ScheduledLoopRecord
    → List ScheduledLoopRecord
insert_by before a [] = a ∷ []
insert_by before a (b ∷ l) = if before b a then b ∷ insert_by before a l else a ∷ b ∷ l

unfoldable pub sort_by :
    (ScheduledLoopRecord → ScheduledLoopRecord → Bool)
    → List ScheduledLoopRecord
    → List ScheduledLoopRecord
sort_by before [] = []
sort_by before (a ∷ l) = insert_by before a (sort_by before l)

-- `ORDER BY COALESCE(l.next_run_at, l.started_at), l.started_at, l.id`.
abbrev due_before : ScheduledLoopRecord → ScheduledLoopRecord → Bool
due_before a b =
    let x = or_else_start a.next_run_at a.started_at in
    let y = or_else_start b.next_run_at b.started_at in
    ltb x y || (nat_beq x y && starts_before a b)

unfoldable pub list_resumable : LoopStore → List ScheduledLoopRecord
list_resumable s = sort_by due_before (select_live s (λ _. true) s.loops)

abbrev pub Found : Type 0
Found = LoopStore × Option ScheduledLoopRecord

abbrev read_back : LoopStore → String → Found
read_back s id = (s, find_loop s id)

-- `updateOne`: an UPDATE of the row with the id, where its status is as the statement asks.
unfoldable pub update_one :
    LoopStore → String → (ScheduledLoopStatus → Bool) → (LoopRow → LoopRow) → Found
update_one s id guard change = elim (get id s.loops) [
  | none ↦ (s, none)
  | some row ↦
      if guard row.status
      then read_back (record s { loops = set id (change row) s.loops }) id
      else (s, none)
]

abbrev pub is_active : ScheduledLoopStatus → Bool
is_active active = true
is_active _ = false

abbrev pub is_running : ScheduledLoopStatus → Bool
is_running running = true
is_running _ = false

abbrev pub acquired : ℕ → LoopRow → LoopRow
acquired now row = record row {
  status = running;
  iteration = row.iteration + 1;
  next_run_at = none;
  updated_at = now;
}

abbrev pub scheduled : ℕ → ℕ → LoopRow → LoopRow
scheduled next now row = record row { status = active; next_run_at = some next; updated_at = now }

abbrev pub ended : TaskHost → ScheduledLoopStatus → String → ℕ → LoopRow → LoopRow
ended h status reason now row = record row {
  status = status;
  next_run_at = none;
  stopped_at = some now;
  stop_reason = some (h.redact_sensitive_text reason);
  updated_at = now;
}

unfoldable pub acquire_iteration : LoopStore → String → ℕ → Found
acquire_iteration s id now = update_one s id is_active (acquired now)

unfoldable pub schedule_next : LoopStore → String → ℕ → ℕ → Found
schedule_next s id next now = update_one s id is_running (scheduled next now)

unfoldable pub defer_interrupted : LoopStore → String → ℕ → ℕ → Found
defer_interrupted s id next now = update_one s id is_running (scheduled next now)

-- The UPDATE by the id of a row that was selected, if there is one.
unfoldable pub end_selected :
    TaskHost → LoopStore → ScheduledLoopStatus → Option ScheduledLoopRecord → String → ℕ → Found
end_selected h s status none reason now = (s, none)
end_selected h s status (some r) reason now = update_one s r.id is_live (ended h status reason now)

unfoldable pub stop_by_channel : TaskHost → LoopStore → String → String → ℕ → Found
stop_by_channel h s channel reason now =
    end_selected h s stopped (find_active_by_channel_id s channel) reason now

unfoldable pub terminalize_by_id : TaskHost → LoopStore → String → String → ℕ → Found
terminalize_by_id h s id reason now = update_one s id is_live (ended h terminal reason now)

-- `terminalizeWhere`.
unfoldable pub terminalize_where :
    TaskHost → LoopStore → (ScheduledLoopRecord → Bool) → String → ℕ → Found
terminalize_where h s p reason now =
    end_selected h s terminal (latest (select_live s p s.loops)) reason now

unfoldable pub terminalize_by_thread : TaskHost → LoopStore → String → String → ℕ → Found
terminalize_by_thread h s thread reason now = terminalize_where h s (in_thread thread) reason now

unfoldable pub terminalize_by_channel : TaskHost → LoopStore → String → String → ℕ → Found
terminalize_by_channel h s channel reason now =
    terminalize_where h s (in_channel channel) reason now

abbrev pub push_found :
    Option ScheduledLoopRecord → List ScheduledLoopRecord → List ScheduledLoopRecord
push_found none l = l
push_found (some r) l = r ∷ l

unfoldable pub terminalize_each :
    TaskHost
    → LoopStore
    → List ScheduledLoopRecord
    → String
    → ℕ
    → LoopStore × List ScheduledLoopRecord
terminalize_each h s [] reason now = (s, [])
terminalize_each h s (r ∷ rs) reason now =
    let (s', found) = terminalize_by_id h s r.id reason now in
    let (s'', l) = terminalize_each h s' rs reason now in (s'', push_found found l)

unfoldable pub terminalize_by_project :
    TaskHost → LoopStore → String → String → ℕ → LoopStore × List ScheduledLoopRecord
terminalize_by_project h s name reason now =
    terminalize_each h s
      (sort_by starts_before (select_live s (λ r. h.same_name r.project_name name) s.loops)) reason
      now

abbrev pub new_loop : TaskHost → CreateScheduledLoopInput → String → ℕ → LoopRow
new_loop h input project_id now = record {
  project_id = project_id;
  channel_id = input.channel_id;
  thread_id = input.thread_id;
  prompt = h.redact_sensitive_text input.prompt;
  interval_ms = input.interval_ms;
  iteration = 0;
  next_run_at = none;
  status = active;
  started_by = input.started_by;
  started_at = now;
  updated_at = now;
  stopped_at = none;
  stop_reason = none;
}

-- A row that shares the input's thread, and one that is live in its channel.
abbrev pub thread_clash : CreateScheduledLoopInput → LoopRow → Bool
thread_clash input row = row.thread_id == input.thread_id

abbrev pub channel_clash : CreateScheduledLoopInput → LoopRow → Bool
channel_clash input row = row.channel_id == input.channel_id && is_live row.status

-- The INSERT, with its constraints, for a project that was found.
unfoldable pub insert_loop :
    TaskHost → LoopStore → CreateScheduledLoopInput → Option String → ℕ → Result LoopError LoopStore
insert_loop h s input none now = err (project_not_found input.project_name)
insert_loop h s input (some project_id) now =
    if has input.id s.loops || any (λ e. thread_clash input e.1) s.loops
    then err constraint_failed
    else if any (λ e. channel_clash input e.1) s.loops
    then err (channel_taken input.channel_id)
    else ok (record s { loops = set input.id (new_loop h input project_id now) s.loops })

unfoldable pub create_loop_write :
    TaskHost → LoopStore → CreateScheduledLoopInput → ℕ → Result LoopError LoopStore
create_loop_write h s input clock =
    if nat_beq input.interval_ms 0 || ltb 9007199254740991 input.interval_ms
    then err interval_not_positive
    else if is_some (find_active_by_channel_id s input.channel_id)
    then err (channel_taken input.channel_id)
    else insert_loop h s input (find_project h input.project_name s.projects)
        (or_now input.started_at clock)

abbrev pub after_create :
    LoopStore
    → String
    → Result LoopError LoopStore
    → LoopStore × Result LoopError (Option ScheduledLoopRecord)
after_create s id (err x) = (s, err x)
after_create s id (ok s') = (s', ok (find_loop s' id))

unfoldable pub create_loop :
    TaskHost
    → LoopStore
    → CreateScheduledLoopInput
    → ℕ
    → LoopStore × Result LoopError (Option ScheduledLoopRecord)
create_loop h s input clock = after_create s input.id (create_loop_write h s input clock)
