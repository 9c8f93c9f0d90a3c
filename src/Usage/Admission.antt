-- ===== src/Usage/Admission.antt =====
-- services/usageAdmission.ts: `createUsageAdmissionService`.
use discordagent.Base.{
  ℕ, ◌+◌, ◌-◌, ◌*◌, String, Bool, true, false, ◌||◌, Option, none, some, List, [], ◌∷◌, map, length,
  leb, ltb, nat_beq, if◌then◌else◌, Result, ok, ◌>>=◌, ◌>>◌, throw_if,
}
use discordagent.Dict.{get, is_some}
use discordagent.Tasks.Rows.{AgentProviderId}
use discordagent.Usage.Rows.{
  EstimateConfidence, low_confidence, medium_confidence, high_confidence, released, consumed_hold,
  UsageSnapshot, UsageReservation, UsageObservation, UsageStore, HoldInput, UsagePosture, unknown,
  healthy, cautious, restricted, preserve, exhausted, UsageError, not_admitted,
}
use discordagent.Usage.Repository.{
  record_snapshot, latest_snapshots, create_hold, finish, is_held, active_reservations,
  record_observation, observations_of,
}
use discordagent.Usage.Classify.{classify_normalized, default_estimate, percentile}

-- `toLowerCase`, and the part of the capacity that is kept for the primary agent.
pub record UsageHost : Type 0 where
  pub to_lower_case : String → String
  pub primary_reserve : ℕ

abbrev pub percent : ℕ → ℕ
percent n = n * 100000

-- A fraction up to 1 stands for a percentage.
unfoldable pub normalize_percent : ℕ → ℕ
normalize_percent v = if leb v 100000 then v * 100 else v

abbrev pub smaller : Option ℕ → Option ℕ → Option ℕ
smaller none o = o
smaller (some x) none = some x
smaller (some x) (some y) = if leb x y then some x else some y

-- `Math.min` of what is known to remain.
unfoldable pub least : List UsageSnapshot → Option ℕ
least [] = none
least (r ∷ rs) = smaller r.remaining (least rs)

unfoldable pub total_high : List (String × UsageReservation) → ℕ
total_high [] = 0
total_high ((id, r) ∷ rs) = r.high + total_high rs

unfoldable pub available : UsageStore → AgentProviderId → Option ℕ
available s provider = least (latest_snapshots s provider)

unfoldable pub reserved : UsageStore → AgentProviderId → ℕ
reserved s provider = total_high (active_reservations s provider)

-- What is left after the reservations may be below 0, so the tests compare sums.
abbrev pub state_of : Option ℕ → ℕ → UsagePosture
state_of none held = unknown
state_of (some a) held =
    if leb a held
    then exhausted
    else if ltb a (held + percent 10)
    then preserve
    else if ltb a (held + percent 25)
    then restricted
    else if ltb a (held + percent 50)
    then cautious
    else healthy

unfoldable pub posture : UsageStore → AgentProviderId → UsagePosture
posture s provider = state_of (available s provider) (reserved s provider)

abbrev pub costs_of : List UsageObservation → List ℕ
costs_of os = map (λ (o : UsageObservation). o.actual_cost) os

unfoldable pub estimate_low : List ℕ → String → ℕ
estimate_low observed cls =
    if leb 3 (length observed) then percentile observed 1 2 else percent (default_estimate cls).0

abbrev pub max : ℕ → ℕ → ℕ
max a b = if leb a b then b else a

unfoldable pub estimate_high : List ℕ → String → ℕ
unfolding estimate_low
estimate_high observed cls =
    if leb 5 (length observed)
    then max (estimate_low observed cls) (percentile observed 9 10)
    else percent (default_estimate cls).1

unfoldable pub confidence_in : List ℕ → EstimateConfidence
confidence_in observed =
    if leb 8 (length observed)
    then high_confidence
    else if leb 3 (length observed)
    then medium_confidence
    else low_confidence

abbrev pub over : Option ℕ → ℕ → ℕ → Bool
over none held need = false
over (some a) held need = ltb a (held + need)

abbrev recommendation : Option ℕ → ℕ → ℕ → String
recommendation none held low = "Defer the task or use another authenticated provider."
recommendation (some a) held low =
    if ltb (held + low) a
    then "Narrow the scope or split planning from implementation."
    else "Defer the task or use another authenticated provider."

-- The estimates of a prompt of a class.
unfoldable pub hold_input : UsageStore → AgentProviderId → String → HoldInput
hold_input s provider cls = record {
  provider = provider;
  task_class = cls;
  low = estimate_low (costs_of (observations_of s provider cls 50)) cls;
  high = estimate_high (costs_of (observations_of s provider cls 50)) cls;
  confidence = confidence_in (costs_of (observations_of s provider cls 50));
}

unfoldable pub admit :
    UsageHost → UsageStore → HoldInput → String → ℕ → Result UsageError (UsageStore × String)
admit h s input id now = do
  throw_if
      (over (available s input.provider) (reserved s input.provider)
        (input.high + h.primary_reserve))
      (not_admitted (posture s input.provider)
        (recommendation (available s input.provider) (reserved s input.provider) input.low))
  create_hold s input id now

unfoldable pub reserve :
    UsageHost
    → UsageStore
    → AgentProviderId
    → String
    → String
    → ℕ
    → Result UsageError (UsageStore × String)
reserve h s provider prompt id now =
    admit h s (hold_input s provider (classify_normalized (h.to_lower_case prompt))) id now

unfoldable pub release : UsageStore → String → ℕ → Result UsageError UsageStore
release s id now = finish s id released none now

-- What `complete` and `recordUsage` read of a result and of a provider's usage.
pub record UsageReport : Type 0 where
  pub utilization : Option ℕ
  pub total_tokens : Option ℕ
  pub resets_at : Option ℕ

pub record FinishedTask : Type 0 where
  pub usage : Option UsageReport
  pub has_failed : Bool
  pub duration_ms : Option ℕ

abbrev nonzero : Option ℕ → Option ℕ
nonzero none = none
nonzero (some n) = if nat_beq n 0 then none else some n

abbrev utilization_of : Option UsageReport → Option ℕ
utilization_of none = none
utilization_of (some u) = u.utilization

abbrev tokens_of : Option UsageReport → Option ℕ
tokens_of none = none
tokens_of (some u) = nonzero u.total_tokens

abbrev cost_from : Option ℕ → Option ℕ → Bool → ℕ → ℕ
cost_from (some v) tokens failed high = normalize_percent v
cost_from none (some n) failed high = n
cost_from none none true high = 0
cost_from none none false high = high

unfoldable pub actual_cost : FinishedTask → ℕ → ℕ
actual_cost result high =
    cost_from (utilization_of result.usage) (tokens_of result.usage) result.has_failed high

-- A reservation that is not active is left alone.
unfoldable pub complete : UsageStore → String → FinishedTask → ℕ → Result UsageError UsageStore
complete s id result now = elim (get id s.reservations) [
  | none ↦ ok s
  | some r ↦ elim (is_held r.status) [
    | false ↦ ok s
    | true ↦ do
      s' ← finish s id consumed_hold (some (actual_cost result r.high)) now
      ok (
          record_observation s' (record {
            provider = r.provider;
            task_class = r.task_class;
            actual_cost = actual_cost result r.high;
            token_count = tokens_of result.usage;
            duration_ms = nonzero result.duration_ms;
            recorded_at = now;
          }))
  ]
]

abbrev left : Option ℕ → Option ℕ
left none = none
left (some v) = some (percent 100 - v)

abbrev normalized : Option ℕ → Option ℕ
normalized none = none
normalized (some v) = some (normalize_percent v)

unfoldable pub record_usage : UsageStore → AgentProviderId → UsageReport → ℕ → UsageStore
unfolding normalize_percent
record_usage s provider usage now =
    if is_some usage.utilization || is_some usage.resets_at
    then record_snapshot s (record {
      provider = provider;
      window_type = "turn";
      utilization = normalized usage.utilization;
      remaining = left (normalized usage.utilization);
      resets_at = usage.resets_at;
      captured_at = now;
    })
    else s
