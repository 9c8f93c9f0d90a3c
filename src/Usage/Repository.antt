-- ===== src/Usage/Repository.antt =====
-- repositories/usageRepository.ts: `createUsageRepository`.
use discordagent.Base.{
  ℕ, String, Bool, true, false, not, ◌&&◌, ◌||◌, ◌==◌, Option, none, some, List, [], ◌∷◌, ◌++◌, all,
  leb, ltb, if◌then◌else◌, Result, ok, err, take,
}
use discordagent.Dict.{get, set, has, is_some}
use discordagent.Tasks.Rows.{AgentProviderId, claude, codex, opencode}
use discordagent.Usage.Rows.{
  UsageSnapshot, UsageReservation, UsageObservation, UsageStore, HoldInput, held, released,
  consumed_hold, ReservationStatus, UsageError, usage_failed, usage_constraint,
}

abbrev pub same_provider : AgentProviderId → AgentProviderId → Bool
same_provider claude claude = true
same_provider codex codex = true
same_provider opencode opencode = true
same_provider claude codex = false
same_provider claude opencode = false
same_provider codex claude = false
same_provider codex opencode = false
same_provider opencode claude = false
same_provider opencode codex = false

abbrev pub is_held : ReservationStatus → Bool
is_held held = true
is_held released = false
is_held consumed_hold = false

abbrev pub filter {ℓ} : {A : Type ℓ} → (A → Bool) → List A → List A
filter test [] = []
filter test (x ∷ xs) = let rest = filter test xs in if test x then x ∷ rest else rest

unfoldable pub record_snapshot : UsageStore → UsageSnapshot → UsageStore
record_snapshot s snapshot = record s { snapshots = s.snapshots ++ (snapshot ∷ []) }

-- `captured_at` is the latest of the provider's snapshots of this window.
abbrev pub is_latest : AgentProviderId → List UsageSnapshot → UsageSnapshot → Bool
is_latest provider rows r =
    same_provider r.provider provider
    && all
        (λ x.
          not (same_provider x.provider provider)
          || not (x.window_type == r.window_type)
          || leb x.captured_at r.captured_at)
        rows

unfoldable pub latest_snapshots : UsageStore → AgentProviderId → List UsageSnapshot
latest_snapshots s provider = filter (is_latest provider s.snapshots) s.snapshots

abbrev pub new_hold : HoldInput → ℕ → UsageReservation
new_hold input now = record {
  task_id = none;
  provider = input.provider;
  task_class = input.task_class;
  low = input.low;
  high = input.high;
  confidence = input.confidence;
  status = held;
  actual_cost = none;
  created_at = now;
  released_at = none;
}

-- The primary key, and CHECK (estimated_high >= estimated_low).
unfoldable pub create_hold :
    UsageStore → HoldInput → String → ℕ → Result UsageError (UsageStore × String)
create_hold s input id now =
    if has id s.reservations || ltb input.high input.low
    then err usage_constraint
    else ok (record s { reservations = set id (new_hold input now) s.reservations }, id)

abbrev pub attached : String → UsageReservation → UsageReservation
attached task r = record r { task_id = some task }

abbrev pub no_hold : String
no_hold = "Active pre-task usage hold not found"

unfoldable pub attach_task : UsageStore → String → String → Result UsageError UsageStore
attach_task s id task = elim (get id s.reservations) [
  | none ↦ err (usage_failed no_hold)
  | some r ↦
      if is_held r.status && not (is_some r.task_id)
      then ok (record s { reservations = set id (attached task r) s.reservations })
      else err (usage_failed no_hold)
]

abbrev pub finished : ReservationStatus → Option ℕ → ℕ → UsageReservation → UsageReservation
finished status actual now r = record r {
  status = status;
  actual_cost = actual;
  released_at = some now;
}

abbrev pub no_reservation : String
no_reservation = "Active usage reservation not found"

unfoldable pub finish :
    UsageStore → String → ReservationStatus → Option ℕ → ℕ → Result UsageError UsageStore
finish s id status actual now = elim (get id s.reservations) [
  | none ↦ err (usage_failed no_reservation)
  | some r ↦
      if is_held r.status
      then ok (record s { reservations = set id (finished status actual now r) s.reservations })
      else err (usage_failed no_reservation)
]

abbrev pub is_active_of : AgentProviderId → UsageReservation → Bool
is_active_of provider r = is_held r.status && same_provider r.provider provider

unfoldable pub active_reservations : UsageStore → AgentProviderId → List (String × UsageReservation)
active_reservations s provider = filter (λ e. is_active_of provider e.1) s.reservations

-- Without a provider.
unfoldable pub all_active_reservations : UsageStore → List (String × UsageReservation)
all_active_reservations s = filter (λ e. is_held e.1.status) s.reservations

abbrev pub is_for : String → UsageReservation → Bool
is_for task_id r = elim r.task_id [ none ↦ false | some t ↦ t == task_id ]

-- ORDER BY created_at DESC LIMIT 1: of two rows of one time, the one that was stored first.
abbrev pub newer :
    String × UsageReservation
    → Option (String × UsageReservation)
    → Option (String × UsageReservation)
newer e none = some e
newer e (some x) = if leb x.1.created_at e.1.created_at then some e else some x

unfoldable pub newest_for :
    String → List (String × UsageReservation) → Option (String × UsageReservation)
newest_for task_id [] = none
newest_for task_id (e ∷ es) =
    let rest = newest_for task_id es in if is_for task_id e.1 then newer e rest else rest

unfoldable pub reservation_for_task : UsageStore → String → Option (String × UsageReservation)
reservation_for_task s task_id = newest_for task_id s.reservations

unfoldable pub record_observation : UsageStore → UsageObservation → UsageStore
record_observation s o = record s { observations = s.observations ++ (o ∷ []) }

unfoldable pub insert_newest : UsageObservation → List UsageObservation → List UsageObservation
insert_newest o [] = o ∷ []
insert_newest o (x ∷ xs) =
    let rest = insert_newest o xs in
    if leb x.recorded_at o.recorded_at then o ∷ x ∷ xs else x ∷ rest

-- ORDER BY recorded_at DESC.
unfoldable pub newest_first : List UsageObservation → List UsageObservation
unfolding insert_newest
newest_first [] = []
newest_first (o ∷ os) = insert_newest o (newest_first os)

abbrev is_of : AgentProviderId → String → UsageObservation → Bool
is_of provider cls o = same_provider o.provider provider && o.task_class == cls

unfoldable pub observations_of : UsageStore → AgentProviderId → String → ℕ → List UsageObservation
observations_of s provider cls limit =
    take limit (newest_first (filter (is_of provider cls) s.observations))
