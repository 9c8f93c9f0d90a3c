-- ===== src/Mission/Snapshot.antt =====
-- missions/missionLifecycle.ts: `snapshot`, `fromSnapshot` and `projectMission`.
use discordagent.Base.{
  ℕ, String, Bool, not, Option, none, some, List, [], ◌∷◌, map, is_empty, nat_beq, if◌then◌else◌,
  Result, ok, err, ◌>>=◌, ◌>>◌, throw_if,
}
use discordagent.Dict.{values}
use discordagent.Mission.Record.{
  MissionState, MissionRecord, MissionError, unsupported_version, validate_record,
}
use discordagent.Mission.Repository.{MissionRepository, Reply, empty, insert}

pub record MissionSnapshot : Type 0 where
  pub version : ℕ
  pub missions : List MissionRecord

-- `Array.prototype.sort` by `left.missionId.localeCompare(right.missionId) <= 0`, a stable sort. The
-- order of the host's locale is a parameter.
module _ (locale_le : String → String → Bool) where
  unfoldable pub insert_sorted : MissionRecord → List MissionRecord → List MissionRecord
  insert_sorted m [] = m ∷ []
  insert_sorted m (x ∷ xs) =
      if locale_le m.mission_id x.mission_id then m ∷ x ∷ xs else x ∷ insert_sorted m xs

  unfoldable pub sort_missions : List MissionRecord → List MissionRecord
  unfolding insert_sorted
  sort_missions [] = []
  sort_missions (m ∷ ms) = insert_sorted m (sort_missions ms)

  unfoldable pub snapshot : MissionRepository → MissionSnapshot
  unfolding sort_missions
  snapshot r = record { version = 1; missions = sort_missions (values r.missions_by_id) }

-- A throw of `insert` leaves `fromSnapshot`, and the repository under construction is lost.
abbrev pub of_reply : Reply (Unit {0}) → Result MissionError MissionRepository
of_reply (r, ok _) = ok r
of_reply (r, err e) = err e

-- The loop of `fromSnapshot`.
unfoldable pub load : MissionRepository → List MissionRecord → Result MissionError MissionRepository
load r [] = ok r
load r (m ∷ ms) = do validate_record m; r' ← of_reply (insert r m); load r' ms

unfoldable pub from_snapshot : MissionSnapshot → Result MissionError MissionRepository
unfolding load
from_snapshot s = do
  throw_if (not (nat_beq s.version 1)) (unsupported_version s.version)
  load empty s.missions

pub record MissionProjection : Type 0 where
  pub mission_id : String
  pub state : MissionState
  pub canonical_packet_id : String
  pub thread_id : String
  pub owner : Option String
  pub blocker : Option String
  pub retry_trigger : Option String
  pub next_action : Option String
  pub laura_needed : Bool
  pub evidence_references : List String

-- `...(x ? { key: x } : {})`: an absent and an empty text are both left out.
abbrev pub if_truthy : Option String → Option String
if_truthy none = none
if_truthy (some s) = if is_empty s then none else some s

unfoldable pub project_mission : MissionRecord → MissionProjection
project_mission m = record {
  mission_id = m.mission_id;
  state = m.state;
  canonical_packet_id = m.canonical_packet_id;
  thread_id = m.discord_mission_thread_id;
  owner = if_truthy m.current_owner;
  blocker = if_truthy m.blocker;
  retry_trigger = if_truthy m.retry_trigger;
  next_action = if_truthy m.next_action;
  laura_needed = m.laura_needed;
  evidence_references = map (λ e. e.reference) m.evidence;
}
