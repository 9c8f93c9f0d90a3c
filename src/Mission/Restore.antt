-- ===== src/Mission/Restore.antt =====
-- missions/missionLifecycle.ts: `fromSnapshot` on missions that share no identifier.
use discordagent.Base.{
  String, ◌≡◌, refl, sym, ◌∙◌, ◌≢◌, Option, none, some, List, [], ◌∷◌, ok, All, arith, ◌==◌,
  if◌then◌else◌,
}
use discordagent.Dict.{get}
use discordagent.Dict.Laws.{get-set}
use discordagent.Mission.Record.{MissionRecord, validate_record}
use discordagent.Mission.Transition.{or_else}
use discordagent.Mission.Repository.{MissionRepository}
use discordagent.Mission.Consistency.{
  IsConsistent, IsUnbound, inserted, insert_fresh, inserted-IsConsistent,
}
use discordagent.Mission.Snapshot.{load}

-- Two missions that share no identifier.
pub record IsApart (m n : MissionRecord) : Type 0 where
  pub id : m.mission_id ≢ n.mission_id
  pub key : m.promotion_idempotency_key ≢ n.promotion_idempotency_key
  pub source : m.discord_source_message_id ≢ n.discord_source_message_id
  pub thread : m.discord_mission_thread_id ≢ n.discord_mission_thread_id

pub IsApart-sym : {m n : MissionRecord} → IsApart m n → IsApart n m
IsApart-sym a = record {
  id = λ e. a.id (sym e);
  key = λ e. a.key (sym e);
  source = λ e. a.source (sym e);
  thread = λ e. a.thread (sym e);
}

abbrev pub AllApart : List MissionRecord → Type 0
AllApart [] = Unit
AllApart (m ∷ ms) = All (IsApart m) ms × AllApart ms

abbrev pub IsValid : MissionRecord → Type 0
IsValid m = validate_record m ≡ ok tt

-- The mission of an id in a list.
unfoldable pub find_mission : String → List MissionRecord → Option MissionRecord
find_mission id [] = none
find_mission id (m ∷ ms) = if m.mission_id == id then some m else find_mission id ms

-- No identifier of the mission is in use.
abbrev pub IsFresh : MissionRepository → MissionRecord → Type 0
IsFresh r m = (get m.mission_id r.missions_by_id ≡ none) × IsUnbound r m.binding

inserted-IsFresh :
    (r : MissionRepository) (m n : MissionRecord)
    → IsApart m n
    → IsFresh r n
    → IsFresh (inserted r m) n
inserted-IsFresh r m n apart free = ground (
  arith,
  get-set m.mission_id n.mission_id m r.missions_by_id,
  get-set m.promotion_idempotency_key n.promotion_idempotency_key m.mission_id
      r.mission_id_by_promotion_key,
  get-set m.discord_source_message_id n.discord_source_message_id m.mission_id
      r.mission_id_by_source_message,
  get-set m.discord_mission_thread_id n.discord_mission_thread_id m.mission_id
      r.mission_id_by_thread,
)

inserted-All-IsFresh :
    (r : MissionRepository) (m : MissionRecord) (ns : List MissionRecord)
    → All (IsApart m) ns
    → All (IsFresh r) ns
    → All (IsFresh (inserted r m)) ns
inserted-All-IsFresh r m [] a f = tt
inserted-All-IsFresh r m (n ∷ ns) a f =
    (inserted-IsFresh r m n a.0 f.0, inserted-All-IsFresh r m ns a.1 f.1)

-- What a load yields: a consistent repository that holds the given missions beside the old ones.
abbrev pub Loaded : MissionRepository → List MissionRecord → Type 0
Loaded r ms =
    (r' : MissionRepository) × (load r ms ≡ ok r')
    × IsConsistent r'
    × ((id : String)
        → get id r'.missions_by_id ≡ or_else (find_mission id ms) (get id r.missions_by_id))

pub find_apart :
    (m : MissionRecord) (ns : List MissionRecord)
    → All (IsApart m) ns
    → find_mission m.mission_id ns ≡ none
unfolding find_mission
find_apart m [] a = refl
find_apart m (n ∷ ns) a = ground (arith, find_apart m ns a.1)

pub load-Loaded :
    (r : MissionRepository) (ms : List MissionRecord)
    → IsConsistent r
    → All IsValid ms
    → All (IsFresh r) ms
    → AllApart ms
    → Loaded r ms
unfolding load find_mission
load-Loaded r [] h v f a = (r, refl, h, λ id. refl)
load-Loaded r (m ∷ ms) h v f a =
    let (r', done, h', at) =
      load-Loaded (inserted r m) ms (inserted-IsConsistent r m h v.0 f.0.0 f.0.1) v.1
        (inserted-All-IsFresh r m ms a.0 f.1) a.1 in
    (
      r',
      rw (v.0, insert_fresh r m f.0.0 f.0.1) done,
      h',
      λ id. at id ∙ ground (arith, get-set m.mission_id id m r.missions_by_id, find_apart m ms a.0),
    )
