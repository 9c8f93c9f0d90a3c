-- ===== src/Mission/Consistency.antt =====
-- missions/missionLifecycle.ts: the invariant that ties the mission map to its three indexes.
use discordagent.Base.{String, ◌≡◌, ◌≢◌, none, some, ok, arith, str_dec}
use discordagent.Dict.{get, set}
use discordagent.Dict.Laws.{get-set}
use discordagent.Dict.Distinct.{IsDistinct, set-IsDistinct}
use discordagent.Dict.Index.{IsIndex, IsIndex-insert, IsIndex-update}
use discordagent.Mission.Record.{MissionBinding, MissionRecord, validate_record}
use discordagent.Mission.Repository.{MissionRepository, empty, insert, store}

abbrev pub IsStored : String → MissionRecord → Type 0
IsStored id m = (m.mission_id ≡ id) × (validate_record m ≡ ok tt)

-- Ids are distinct, every mission stands under its own id and is valid, and the three indexes lead exactly to the
-- missions that carry their keys.
pub record IsConsistent (r : MissionRepository) : Type 0 where
  pub distinct : IsDistinct r.missions_by_id
  pub entries : (id : String) (m : MissionRecord) → get id r.missions_by_id ≡ some m → IsStored id m
  pub promotion :
      IsIndex (λ m. m.promotion_idempotency_key) r.missions_by_id r.mission_id_by_promotion_key
  pub source :
      IsIndex (λ m. m.discord_source_message_id) r.missions_by_id r.mission_id_by_source_message
  pub thread : IsIndex (λ m. m.discord_mission_thread_id) r.missions_by_id r.mission_id_by_thread

pub empty-IsConsistent : IsConsistent empty
unfolding empty get
empty-IsConsistent = record {
  distinct = tt;
  entries = λ id m e. cc;
  promotion = record { forward = λ id v e. cc; backward = λ t id e. cc };
  source = record { forward = λ id v e. cc; backward = λ t id e. cc };
  thread = record { forward = λ id v e. cc; backward = λ t id e. cc };
}

-- What `validateRecord` says of the identifiers.
pub record IsNamed (b : MissionBinding) : Type 0 where
  pub id : b.mission_id ≢ ""
  pub key : b.promotion_idempotency_key ≢ ""
  pub source : b.discord_source_message_id ≢ ""
  pub thread : b.discord_mission_thread_id ≢ ""
  pub packet : b.canonical_packet_id ≢ ""

pub validate_record-IsNamed : (m : MissionRecord) → validate_record m ≡ ok tt → IsNamed m.binding
unfolding validate_record
validate_record-IsNamed m h = ground arith

-- The three index entries of a binding.
abbrev pub IsUnbound : MissionRepository → MissionBinding → Type 0
IsUnbound r b =
    (get b.promotion_idempotency_key r.mission_id_by_promotion_key ≡ none)
    × (get b.discord_source_message_id r.mission_id_by_source_message ≡ none)
    × (get b.discord_mission_thread_id r.mission_id_by_thread ≡ none)

-- The repository after an `insert` that meets no taken key.
abbrev pub inserted : MissionRepository → MissionRecord → MissionRepository
inserted r m = record {
  missions_by_id = set m.mission_id m r.missions_by_id;
  mission_id_by_promotion_key =
      set m.promotion_idempotency_key m.mission_id r.mission_id_by_promotion_key;
  mission_id_by_source_message =
      set m.discord_source_message_id m.mission_id r.mission_id_by_source_message;
  mission_id_by_thread = set m.discord_mission_thread_id m.mission_id r.mission_id_by_thread;
}

pub insert_fresh :
    (r : MissionRepository) (m : MissionRecord)
    → get m.mission_id r.missions_by_id ≡ none
    → IsUnbound r m.binding
    → insert r m ≡ (inserted r m, ok tt)
unfolding insert
insert_fresh r m fresh (key, source, thread) = rw (fresh, key, source, thread)

pub inserted-IsConsistent :
    (r : MissionRepository) (m : MissionRecord)
    → IsConsistent r
    → validate_record m ≡ ok tt
    → get m.mission_id r.missions_by_id ≡ none
    → IsUnbound r m.binding
    → IsConsistent (inserted r m)
inserted-IsConsistent r m h valid fresh (key, source, thread) = record {
  distinct = set-IsDistinct m.mission_id m r.missions_by_id h.distinct;
  entries = λ id n e. elim (str_dec m.mission_id id) [
    | yes same ↦ ground (arith, get-set m.mission_id id m r.missions_by_id)
    | no other ↦ h.entries id n (ground (arith, get-set m.mission_id id m r.missions_by_id))
  ];
  promotion = IsIndex-insert _ _ _ m.mission_id m h.promotion fresh key;
  source = IsIndex-insert _ _ _ m.mission_id m h.source fresh source;
  thread = IsIndex-insert _ _ _ m.mission_id m h.thread fresh thread;
}

pub store-IsConsistent :
    (r : MissionRepository) (id : String) (m old : MissionRecord)
    → IsConsistent r
    → get id r.missions_by_id ≡ some old
    → m.binding ≡ old.binding
    → validate_record m ≡ ok tt
    → IsConsistent (store r id m)
store-IsConsistent r id m old h at same valid = record {
  distinct = set-IsDistinct id m r.missions_by_id h.distinct;
  entries = λ j n e. elim (str_dec id j) [
    | yes here ↦ ground (arith, get-set id j m r.missions_by_id, h.entries id old at)
    | no other ↦ h.entries j n (ground (arith, get-set id j m r.missions_by_id))
  ];
  promotion = IsIndex-update _ _ _ id m old h.promotion at (cc);
  source = IsIndex-update _ _ _ id m old h.source at (cc);
  thread = IsIndex-update _ _ _ id m old h.thread at (cc);
}
