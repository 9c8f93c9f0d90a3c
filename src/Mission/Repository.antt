-- ===== src/Mission/Repository.antt =====
-- missions/missionLifecycle.ts: `MissionRepository`. A method returns the new state beside its
-- result, also where it throws. `cloneMission` copies, which on values is the identity.
use discordagent.Base.{
  String, Bool, false, not, ◌&&◌, ◌||◌, ◌++◌, Option, none, some, List, [], ◌∷◌, any, ◌==◌,
  is_empty, if◌then◌else◌, Result, ok, err, ◌>>=◌,
}
use discordagent.Dict.{Dict, get, set, has}
use discordagent.Mission.Record.{
  captured, capture, kind_beq, MissionEvidence, MissionBinding, MissionRecord, MissionError,
  promotion_evidence_required, bound_differently, unknown_mission, indexes_disagree, duplicate_id,
  duplicate_binding, validate_record,
}
use discordagent.Mission.Transition.{MissionTransition, next_record}

pub record MissionRepository : Type 0 where
  pub missions_by_id : Dict MissionRecord
  pub mission_id_by_promotion_key : Dict String
  pub mission_id_by_source_message : Dict String
  pub mission_id_by_thread : Dict String

unfoldable pub empty : MissionRepository
empty = record {
  missions_by_id = [];
  mission_id_by_promotion_key = [];
  mission_id_by_source_message = [];
  mission_id_by_thread = [];
}

abbrev pub Reply : Type 0 → Type 0
Reply A = MissionRepository × Result MissionError A

abbrev found : String → Option MissionRecord → Result MissionError MissionRecord
found id none = err (unknown_mission id)
found id (some m) = ok m

unfoldable pub get_mission : MissionRepository → String → Result MissionError MissionRecord
get_mission r id = found id (get id r.missions_by_id)

-- The loop of `insert` over the three indexes, unrolled. A key that is taken throws, and what the
-- earlier rounds wrote stays.
unfoldable pub insert : MissionRepository → MissionRecord → Reply (Unit {0})
insert r m =
    if has m.mission_id r.missions_by_id
    then (r, err (duplicate_id m.mission_id))
    else if has m.promotion_idempotency_key r.mission_id_by_promotion_key
    then (r, err (duplicate_binding m.promotion_idempotency_key))
    else let r₁ = record r {
      mission_id_by_promotion_key =
          set m.promotion_idempotency_key m.mission_id r.mission_id_by_promotion_key;
    } in
      if has m.discord_source_message_id r.mission_id_by_source_message
      then (r₁, err (duplicate_binding m.discord_source_message_id))
      else let r₂ = record r₁ {
        mission_id_by_source_message =
            set m.discord_source_message_id m.mission_id r.mission_id_by_source_message;
      } in
        if has m.discord_mission_thread_id r.mission_id_by_thread
        then (r₂, err (duplicate_binding m.discord_mission_thread_id))
        else (
          record r₂ {
            missions_by_id = set m.mission_id m r.missions_by_id;
            mission_id_by_thread =
                set m.discord_mission_thread_id m.mission_id r.mission_id_by_thread;
          },
          ok tt,
        )

-- `new Set([…].filter(Boolean))`: the nonempty identifiers, each once, in order of appearance.
unfoldable pub candidates : List (Option String) → List String → List String
candidates [] seen = seen
candidates (none ∷ os) seen = candidates os seen
candidates (some s ∷ os) seen =
    candidates os (if is_empty s || any (λ t. t == s) seen then seen else seen ++ s ∷ [])

-- The test of the set's size, and its first element.
unfoldable pub sole : List String → Result MissionError (Option String)
sole [] = ok none
sole (c ∷ []) = ok (some c)
sole (c ∷ d ∷ cs) = err indexes_disagree

unfoldable pub resolve_existing_mission_id :
    MissionRepository → MissionBinding → Result MissionError (Option String)
unfolding candidates sole
resolve_existing_mission_id r b = sole (
    candidates
      (get b.promotion_idempotency_key r.mission_id_by_promotion_key
        ∷ get b.discord_source_message_id r.mission_id_by_source_message
        ∷ get b.discord_mission_thread_id r.mission_id_by_thread
        ∷ [])
      [])

unfoldable pub same_binding : MissionRecord → MissionBinding → Bool
same_binding m b =
    m.mission_id == b.mission_id
    && m.promotion_idempotency_key == b.promotion_idempotency_key
    && m.discord_source_message_id == b.discord_source_message_id
    && m.discord_mission_thread_id == b.discord_mission_thread_id
    && m.canonical_packet_id == b.canonical_packet_id

-- The record that `promote` captures.
abbrev pub capture_record : MissionBinding → MissionEvidence → MissionRecord
capture_record b e = record {
  binding = b;
  state = captured;
  current_owner = none;
  evidence = e ∷ [];
  blocker = none;
  retry_trigger = none;
  next_action = none;
  laura_needed = false;
}

-- `insert(mission); return cloneMission(mission);`, where a throw of `insert` goes on up.
abbrev pub returning : MissionRecord → Reply (Unit {0}) → Reply MissionRecord
returning m (r, ok _) = (r, ok m)
returning m (r, err e) = (r, err e)

-- The branch of `promote` for a binding that no index knows.
unfoldable pub promote_new :
    MissionRepository → MissionRecord → Result MissionError (Unit {0}) → Reply MissionRecord
promote_new r m (err e) = (r, err e)
promote_new r m (ok _) = returning m (insert r m)

-- The branch of `promote` for a binding that some index knows.
unfoldable pub promote_existing :
    MissionRepository → MissionBinding → Result MissionError MissionRecord → Reply MissionRecord
promote_existing r b (err e) = (r, err e)
promote_existing r b (ok existing) =
    if not (same_binding existing b) then (r, err bound_differently) else (r, ok existing)

unfoldable pub promote_resolved :
    MissionRepository
    → MissionBinding
    → MissionEvidence
    → Result MissionError (Option String)
    → Reply MissionRecord
unfolding promote_new promote_existing
promote_resolved r b e (err x) = (r, err x)
promote_resolved r b e (ok none) =
    promote_new r (capture_record b e) (validate_record (capture_record b e))
promote_resolved r b e (ok (some id)) =
    if is_empty id
    then promote_new r (capture_record b e) (validate_record (capture_record b e))
    else promote_existing r b (get_mission r id)

unfoldable pub promote : MissionRepository → MissionBinding → MissionEvidence → Reply MissionRecord
unfolding promote_resolved
promote r b e =
    if not (kind_beq e.kind capture)
    then (r, err promotion_evidence_required)
    else promote_resolved r b e (resolve_existing_mission_id r b)

abbrev pub store : MissionRepository → String → MissionRecord → MissionRepository
store r id m = record r { missions_by_id = set id m r.missions_by_id }

-- The write that ends `transition`.
abbrev pub stored :
    MissionRepository → String → Result MissionError MissionRecord → Reply MissionRecord
stored r id (err e) = (r, err e)
stored r id (ok m) = (store r id m, ok m)

unfoldable pub transition : MissionRepository → String → MissionTransition → Reply MissionRecord
unfolding get_mission
transition r id t = stored r id (do current ← get_mission r id; next_record current t)
