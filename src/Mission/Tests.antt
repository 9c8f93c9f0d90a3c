-- ===== src/Mission/Tests.antt =====
-- missions/missionLifecycle.ts: runs on concrete missions, and the theorems at concrete inputs.
use discordagent.Base.{
  ◌≡◌, refl, ◌≢◌, inr, true, none, some, List, [], ◌∷◌, ◌++◌, ok, err, str_dec, ◌↔◌,
}
use discordagent.Base.{subst, ◌==◌, ap}
use discordagent.Dict.{get, set}
use discordagent.Mission.Record.{
  routed, cancelled, MissionEvidenceKind, capture, route, cancellation, MissionEvidence,
  MissionBinding, MissionRecord, MissionError, kind_dec, state_dec, has_evidence, require_evidence,
  validate_state, validate_record, owner_required, bound_differently,
}
use discordagent.Mission.Transition.{
  MissionTransition, is_allowed, fresh_evidence, next_record, required_transition_evidence, advance,
}
use discordagent.Mission.Repository.{
  MissionRepository, empty, insert, get_mission, same_binding, resolve_existing_mission_id,
  promote_new, promote_existing, promote_resolved, promote, transition, store, capture_record,
}
use discordagent.Mission.Snapshot.{project_mission, snapshot, from_snapshot}
use discordagent.Mission.Consistency.{IsConsistent, empty-IsConsistent}
use discordagent.Mission.Promotion.{promote-error_atomic, promote_replay, promote_conflict}
use discordagent.Mission.Lifecycle.{transition-IsConsistent, ◌⟶◌by◌, transition_follows_diagram}
use discordagent.Mission.History.{
  Call, promotes, transitions, after, run, run-IsConsistent, run-Kept, Kept, run-IsLogged, IsLogged,
  run_terminal,
}
use discordagent.Mission.RoundTrip.{SameAnswers, snapshot_roundtrip}
use discordagent.Mission.Validity.{IsWellFormed, validate_record_iff}

abbrev binding_one : MissionBinding
binding_one = record {
  mission_id = "mission-1";
  promotion_idempotency_key = "interaction-1";
  discord_source_message_id = "message-1";
  discord_mission_thread_id = "thread-1";
  canonical_packet_id = "LJH-77";
}

abbrev binding_two : MissionBinding
binding_two = record binding_one {
  mission_id = "mission-2";
  promotion_idempotency_key = "interaction-2";
  discord_source_message_id = "message-2";
}

abbrev receipt : MissionEvidenceKind → MissionEvidence
receipt k = record { kind = k; reference = "receipt"; recorded_at = "2026-07-24T18:33:21-06:00" }

abbrev routing : MissionTransition
routing = record {
  state = routed;
  owner = some "Brigid";
  evidence = some (receipt route);
  blocker = none;
  retry_trigger = none;
  next_action = none;
  laura_needed = none;
}

abbrev cancelling : MissionTransition
cancelling = record routing {
  state = cancelled;
  owner = none;
  evidence = some (receipt cancellation);
}

abbrev captured_one : MissionRecord
captured_one = capture_record binding_one (receipt capture)

abbrev routed_one : MissionRecord
routed_one = advance captured_one routing (receipt route)

abbrev cancelled_one : MissionRecord
cancelled_one = advance routed_one cancelling (receipt cancellation)

abbrev start : List Call
start = promotes binding_one (receipt capture) ∷ []

abbrev routed_history : List Call
routed_history =
    promotes binding_one (receipt capture)
    ∷ transitions "mission-1" routing
    ∷ promotes binding_two (receipt capture)
    ∷ []

-- The repository with one captured mission, computed.
abbrev one : MissionRepository
one = record {
  missions_by_id = ("mission-1", captured_one) ∷ [];
  mission_id_by_promotion_key = ("interaction-1", "mission-1") ∷ [];
  mission_id_by_source_message = ("message-1", "mission-1") ∷ [];
  mission_id_by_thread = ("thread-1", "mission-1") ∷ [];
}

start_is_one : run empty start ≡ one
unfolding run after promote promote_resolved promote_new insert resolve_existing_mission_id empty
    validate_record validate_state require_evidence has_evidence kind_dec str_dec get set
start_is_one = refl

one-IsConsistent : IsConsistent one
one-IsConsistent = rw (← start_is_one) (run-IsConsistent empty start empty-IsConsistent)

ruled_out : binding_one ≢ binding_two
unfolding str_dec
ruled_out e =
    let same : ("mission-1" == "mission-1") ≡ ("mission-1" == "mission-2") =
      ap (λ (b : MissionBinding). "mission-1" == b.mission_id) e in
    cc

cancelled_state : transition one "mission-1" cancelling ≡ (
  store one "mission-1" (advance captured_one cancelling (receipt cancellation)),
  ok (advance captured_one cancelling (receipt cancellation)),
)
unfolding transition get_mission next_record is_allowed fresh_evidence required_transition_evidence
    validate_record validate_state require_evidence has_evidence kind_dec state_dec str_dec get
cancelled_state = refl

run-IsConsistent_example : IsConsistent (run empty routed_history)
run-IsConsistent_example = run-IsConsistent empty routed_history empty-IsConsistent

snapshot_roundtrip_example :
    (s : MissionRepository) × (from_snapshot (snapshot (λ a b. true) one) ≡ ok s)
    × IsConsistent s
    × SameAnswers one s
snapshot_roundtrip_example = snapshot_roundtrip (λ a b. true) one one-IsConsistent

run-IsLogged_example : IsLogged routed_one
unfolding run after promote promote_resolved promote_new insert resolve_existing_mission_id empty
    validate_record validate_state require_evidence has_evidence kind_dec str_dec get set transition
    get_mission same_binding next_record is_allowed fresh_evidence required_transition_evidence
    state_dec
run-IsLogged_example = run-IsLogged routed_history "mission-1" routed_one refl

run-Kept_example : Kept (run one (transitions "mission-1" routing ∷ [])) "mission-1" captured_one
unfolding get str_dec
run-Kept_example =
    run-Kept one (transitions "mission-1" routing ∷ []) "mission-1" captured_one one-IsConsistent
      refl

transition_follows_diagram_example :
    (m : MissionRecord) × (e : MissionEvidence) × (get "mission-1" one.missions_by_id ≡ some m)
    × (m.state ⟶ routed_one.state by e.kind)
    × (routed_one.evidence ≡ m.evidence ++ e ∷ [])
    × (routed_one.binding ≡ m.binding)
    × (validate_record routed_one ≡ ok tt)
    × ((transition one "mission-1" routing).0 ≡ store one "mission-1" routed_one)
unfolding get str_dec transition get_mission next_record is_allowed fresh_evidence
    required_transition_evidence state_dec validate_record validate_state require_evidence
    has_evidence kind_dec
transition_follows_diagram_example =
    transition_follows_diagram one "mission-1" routing routed_one refl

promote_conflict_example :
    (x : MissionError) × (promote one binding_two (receipt capture) ≡ (one, err x))
unfolding get str_dec
promote_conflict_example =
    promote_conflict one "mission-1" captured_one binding_two (receipt capture) one-IsConsistent
      refl (inr (inr refl)) ruled_out

promote_replay_example : promote one binding_one (receipt capture) ≡ (one, ok captured_one)
unfolding get str_dec
promote_replay_example =
    promote_replay one "mission-1" captured_one (receipt capture) one-IsConsistent refl refl

promote-error_atomic_example : (promote one binding_two (receipt capture)).0 ≡ one
unfolding promote promote_resolved promote_existing resolve_existing_mission_id get_mission
    same_binding get str_dec kind_dec
promote-error_atomic_example =
    promote-error_atomic one binding_two (receipt capture) {x = bound_differently} one-IsConsistent
      refl

validate_record_iff_example : (validate_record routed_one ≡ ok tt) ↔ IsWellFormed routed_one
validate_record_iff_example = validate_record_iff routed_one

abbrev one_cancelled : MissionRepository
one_cancelled = store one "mission-1" (advance captured_one cancelling (receipt cancellation))

one_cancelled-IsConsistent : IsConsistent one_cancelled
one_cancelled-IsConsistent =
    subst (λ r. IsConsistent r.0) cancelled_state
      (transition-IsConsistent one "mission-1" cancelling one-IsConsistent)

run_terminal_example :
    get "mission-1" (run one_cancelled routed_history).missions_by_id
    ≡ some (advance captured_one cancelling (receipt cancellation))
unfolding get set str_dec
run_terminal_example =
    run_terminal one_cancelled routed_history "mission-1"
      (advance captured_one cancelling (receipt cancellation)) one_cancelled-IsConsistent refl
      (inr refl)

-- An owner that is absent, and an empty one, are refused alike.
needs_owner :
    (transition one "mission-1" (record routing { owner = some "" })).1
    ≡ err (owner_required routed)
unfolding transition get_mission next_record is_allowed fresh_evidence required_transition_evidence
    validate_record validate_state require_evidence has_evidence kind_dec state_dec str_dec get
needs_owner = refl

projection_drops_empty : (project_mission (record routed_one { blocker = some "" })).blocker ≡ none
unfolding project_mission str_dec
projection_drops_empty = refl
