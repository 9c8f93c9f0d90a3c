-- ===== src/Loops/Tests.antt =====
-- Examples for the loop table, and the theorems applied to them.
use discordagent.Base.{
  String, ◌+◌, true, false, ◌&&◌, ◌⊎◌, ◌≡◌, refl, none, some, List, [], ◌∷◌, ◌==◌, str_dec,
}
use discordagent.Dict.{Dict, get, set}
use discordagent.Tasks.Rows.{TaskHost}
use discordagent.Tasks.Repository.{find_project}
use discordagent.Loops.Rows.{
  active, running, is_live, LoopRow, ScheduledLoopRecord, LoopStore, CreateScheduledLoopInput,
}
use discordagent.Loops.Repository.{
  to_record, joined_loop, find_loop, select_live, latest, starts_before, find_active_by_channel_id,
  update_one, acquired, acquire_iteration, schedule_next, insert_loop, create_loop_write,
  create_loop,
}
use discordagent.Loops.Steps.{
  LoopOperation, create, acquire, schedule, stop, perform_loop, run_loops,
}
use discordagent.Loops.Soundness.{IsOrderly, run_loops-IsOrderly}
use discordagent.Loops.Service.{
  RuntimeLoop, LoopService, stops_channel, ends_thread, creates, threw, returned, Round, run_now,
}
use discordagent.Loops.Waiting.{Settled}
use discordagent.Loops.Survival.{run_now-Settled}
use discordagent.Loops.Outside.{IsOver}
use discordagent.Loops.Reconcile.{Restart, reconcile_one}
use discordagent.Loops.Resumption.{Armed, reconcile_one-Armed}
use discordagent.Loops.Rules.{Keeps, run_loops-Keeps, acquire_exclusive}

abbrev plain : TaskHost
plain = record {
  same_name = λ a b. a == b;
  redact_sensitive_text = λ t. t;
  encode_settings = λ _. "{}";
  parse_stored_agent_task_settings = λ _. none;
  stringify_texts = λ _. "[]";
  parse_texts = λ _. some [];
  stringify_usage = λ _. "{}";
  parse_usage = λ _. none;
}

abbrev bare : LoopStore
bare = record { projects = ("p", record { name = "demo"; archived_at = none }) ∷ []; loops = [] }

abbrev input : String → String → CreateScheduledLoopInput
input id thread = record {
  id = id;
  project_name = "demo";
  channel_id = "channel";
  thread_id = thread;
  prompt = "check the build";
  interval_ms = 60000;
  started_by = "user";
  started_at = none;
}

-- The second creation meets the live loop of the channel.
abbrev calls : List LoopOperation
calls =
    create (input "l" "t") 5 ∷ create (input "m" "u") 6 ∷ acquire "l" 7 ∷ schedule "l" 60007 8 ∷ []

abbrev waiting : LoopRow
waiting = record {
  project_id = "p";
  channel_id = "channel";
  thread_id = "t";
  prompt = "check the build";
  interval_ms = 60000;
  iteration = 1;
  next_run_at = some 60007;
  status = active;
  started_by = "user";
  started_at = 5;
  updated_at = 8;
  stopped_at = none;
  stop_reason = none;
}

abbrev at_waiting : LoopStore
at_waiting = run_loops plain bare calls

waiting_only : at_waiting.loops ≡ ("l", waiting) ∷ []
unfolding run_loops perform_loop create_loop create_loop_write find_active_by_channel_id select_live
    latest starts_before joined_loop find_loop insert_loop find_project acquire_iteration
    schedule_next update_one is_live get set str_dec
waiting_only = refl

waiting_row : get "l" at_waiting.loops ≡ some waiting
unfolding get str_dec
waiting_row = rw waiting_only refl

bare-IsOrderly : IsOrderly bare
unfolding get
bare-IsOrderly = record {
  project = λ id row e. cc;
  thread = λ i j a b e. cc;
  channel = λ i j a b e. cc;
  shape = λ id row e. cc;
}

acquire_returned :
    (acquire_iteration at_waiting "l" 60008).1
    ≡ some (to_record "l" (acquired 60008 waiting) (record { name = "demo"; archived_at = none }))
unfolding run_loops perform_loop create_loop create_loop_write find_active_by_channel_id select_live
    latest starts_before joined_loop find_loop insert_loop find_project acquire_iteration
    schedule_next update_one is_live get set str_dec
acquire_returned = refl

run_loops-IsOrderly_example : IsOrderly at_waiting
run_loops-IsOrderly_example = run_loops-IsOrderly plain bare calls bare-IsOrderly

abbrev ending : List LoopOperation
ending = acquire "l" 60008 ∷ stop "channel" "done" 60009 ∷ acquire "l" 60010 ∷ []

run_loops-Keeps_example :
    (b : LoopRow) × (get "l" (run_loops plain at_waiting ending).loops ≡ some b) × Keeps waiting b
run_loops-Keeps_example = run_loops-Keeps plain at_waiting ending "l" waiting waiting_row

acquire_exclusive_example :
    (row : LoopRow) × (get "l" at_waiting.loops ≡ some row)
    × (row.status ≡ active)
    × ((acquire_iteration at_waiting "l" 60008).0 ≡ record at_waiting {
      loops =
          set "l"
            (record row {
              status = running;
              iteration = row.iteration + 1;
              next_run_at = none;
              updated_at = 60008;
            })
            at_waiting.loops;
    })
    × (acquire_iteration (acquire_iteration at_waiting "l" 60008).0 "l" 60009
        ≡ ((acquire_iteration at_waiting "l" 60008).0, none))
acquire_exclusive_example = acquire_exclusive at_waiting "l" 60008 60009 _ acquire_returned

-- A loop that waits, and the runtime that this process has of it.
abbrev service : Dict RuntimeLoop → LoopService
service runtimes = record {
  store = record bare { loops = ("l", waiting) ∷ [] };
  runtimes = runtimes;
  next_token = 1;
}

-- The execution fails while another loop is created, and the channel is stopped later.
abbrev round : Round
round = record {
  times = record {
    acquire = 60010;
    failure = 60020;
    next = 60020;
    schedule = 60020;
    end_waiting = 60030;
    arm = 60030;
  };
  during_execution = creates (input "m" "u") 60015 ∷ [];
  execution = threw;
  waiting = some (stops_channel "elsewhere" "done" 60025 ∷ [], returned none);
}

abbrev known : Dict RuntimeLoop
known = ("l", record { token = 0; timer = some 60007; executing = false }) ∷ []

known_l : get "l" known ≡ some (record { token = 0; timer = some 60007; executing = false })
unfolding get str_dec
known_l = refl

run_now-Settled_example : Settled "l" (run_now plain (service known) "l" round)
run_now-Settled_example = run_now-Settled plain (service known) "l" round _ known_l refl

abbrev restart : Restart
restart = record {
  project_found = true;
  during_fetch = ends_thread "x" "gone" 70001 ∷ [];
  thread_found = true;
  end_at = 70001;
  next_from = 70002;
  deferred_at = 70002;
  due_now = 70002;
  delay_from = 70002;
}

abbrev read_l : ScheduledLoopRecord
read_l = to_record "l" waiting (record { name = "demo"; archived_at = none })

found_l : find_loop (service []).store "l" ≡ some read_l
unfolding find_loop joined_loop get str_dec
found_l = refl

free_l : get "l" (service []).runtimes ≡ none
unfolding get
free_l = refl

reconcile_one-Armed_example :
    (IsOver "l" (reconcile_one plain (service []) read_l restart).store
      ⊎ Armed "l" (reconcile_one plain (service []) read_l restart))
    × (restart.project_found && restart.thread_found ≡ false
        → IsOver "l" (reconcile_one plain (service []) read_l restart).store)
unfolding is_live
reconcile_one-Armed_example =
    reconcile_one-Armed plain (service []) read_l restart found_l refl free_l
