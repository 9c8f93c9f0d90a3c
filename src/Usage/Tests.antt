-- ===== src/Usage/Tests.antt =====
-- Examples for the holds, and the theorems applied to them.
use discordagent.Base.{
  ℕ, ◌+◌, ◌≤◌, ◌<◌, String, true, ◌≡◌, refl, Option, none, some, List, [], ◌∷◌, All, length, Result,
  ok, err, str_dec, take,
}
use discordagent.Dict.{get, set}
use discordagent.Tasks.Rows.{claude}
use discordagent.ServiceAuth.Header.{after}
use discordagent.Usage.Rows.{
  UsageReservation, UsageObservation, UsageStore, ReservationStatus, released, held, low_confidence,
  UsageError, usage_failed, usage_constraint,
}
use discordagent.Usage.Repository.{
  latest_snapshots, create_hold, is_held, finish, no_reservation, active_reservations,
  all_active_reservations, newest_for, reservation_for_task, attach_task, newest_first,
  insert_newest, observations_of,
}
use discordagent.Usage.Classify.{
  contains, contains_word, classify_normalized, default_estimate, insert_cost, sort_costs,
  percentile,
}
use discordagent.Usage.Admission.{
  UsageHost, percent, least, total_high, available, reserved, costs_of, estimate_low, estimate_high,
  confidence_in, hold_input, admit, reserve,
}
use discordagent.Usage.Median.{at_most}
use discordagent.Usage.Totals.{Leaves, LeavesLatest}
use discordagent.Usage.Bounds.{reserve_within, finish_once, reserve_constraint}

abbrev host : UsageHost
host = record { to_lower_case = λ t. t; primary_reserve = percent 10 }

abbrev seen : ℕ → UsageObservation
seen cost = record {
  provider = claude;
  task_class = "small_fix";
  actual_cost = percent cost;
  token_count = none;
  duration_ms = none;
  recorded_at = cost;
}

abbrev store : List UsageObservation → UsageStore
store observations = record {
  snapshots =
      record {
        provider = claude;
        window_type = "turn";
        utilization = some (percent 60);
        remaining = some (percent 40);
        resets_at = none;
        captured_at = 1;
      }
      ∷ [];
  reservations = [];
  observations = observations;
}

abbrev or_store : UsageStore → Result UsageError (UsageStore × String) → UsageStore
or_store s (ok (s', k)) = s'
or_store s (err x) = s

abbrev or_same : UsageStore → Result UsageError UsageStore → UsageStore
or_same s (ok s') = s'
or_same s (err x) = s

abbrev after_hold : UsageStore
after_hold = or_store (store []) (reserve host (store []) claude "fix it" "h" 5)

abbrev hold : UsageReservation
hold = record {
  task_id = none;
  provider = claude;
  task_class = "small_fix";
  low = percent 4;
  high = percent 9;
  confidence = low_confidence;
  status = held;
  actual_cost = none;
  created_at = 5;
  released_at = none;
}

abbrev holding : UsageStore
holding = record (store []) { reservations = ("h", hold) ∷ [] }

abbrev finished_store : UsageStore
finished_store = or_same holding (finish holding "h" released none 6)

ended_once : finish holding "h" released none 6 ≡ ok finished_store
unfolding finish get set str_dec
ended_once = refl

held_once : reserve host (store []) claude "fix it" "h" 5 ≡ ok (after_hold, "h")
unfolding reserve admit hold_input create_hold available least latest_snapshots reserved total_high
    active_reservations observations_of newest_first estimate_low estimate_high confidence_in
    default_estimate classify_normalized contains contains_word after take get set str_dec
held_once = refl

reserve_within_example :
    All
      (λ r. Leaves (reserved after_hold claude + percent 10) r.remaining)
      (latest_snapshots after_hold claude)
    × All
        (LeavesLatest (reserved after_hold claude + percent 10) claude after_hold.snapshots)
        after_hold.snapshots
reserve_within_example =
    reserve_within host (store []) after_hold claude "fix it" "h" "h" 5 held_once

finish_once_example :
    ((r : UsageReservation) × (get "h" holding.reservations ≡ some r)
      × (is_held r.status ≡ true)
      × (reserved finished_store r.provider + r.high ≡ reserved holding r.provider))
    × ((status : ReservationStatus) (actual : Option ℕ) (later : ℕ)
        → finish finished_store "h" status actual later ≡ err (usage_failed no_reservation))
finish_once_example = finish_once holding finished_store "h" released none 6 refl ended_once

-- A hold that is attached to a task is found by the task while it is active, and after that.
attached_found :
    reservation_for_task (or_same holding (attach_task holding "h" "task")) "task"
    ≡ some ("h", record hold { task_id = some "task" })
unfolding reservation_for_task newest_for attach_task get set str_dec
attached_found = refl

released_inactive :
    (all_active_reservations holding ≡ ("h", hold) ∷ [])
    × (all_active_reservations finished_store ≡ [])
unfolding all_active_reservations finish get set str_dec
released_inactive = (refl, refl)

abbrev three : UsageStore
three = store (seen 18 ∷ seen 20 ∷ seen 22 ∷ [])

-- Fixes were observed to cost 20 percent, while the default of a fix is at most 9 percent.
over_default : reserve host three claude "fix it" "h" 5 ≡ err usage_constraint
unfolding reserve admit hold_input create_hold available least latest_snapshots reserved total_high
    active_reservations observations_of newest_first insert_newest estimate_low estimate_high
    confidence_in default_estimate percentile sort_costs insert_cost classify_normalized contains
    contains_word after take get set str_dec
over_default = refl

reserve_constraint_example :
    (3 ≤ length (costs_of (observations_of three claude "small_fix" 50)))
    × (length (costs_of (observations_of three claude "small_fix" 50)) < 5)
    × (percent (default_estimate "small_fix").1
        < percentile (costs_of (observations_of three claude "small_fix" 50)) 1 2)
    × (at_most
          (percent (default_estimate "small_fix").1)
          (costs_of (observations_of three claude "small_fix" 50))
        ≤ 1)
unfolding classify_normalized contains contains_word after get
reserve_constraint_example = reserve_constraint host three claude "fix it" "h" 5 over_default refl
