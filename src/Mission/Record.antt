-- ===== src/Mission/Record.antt =====
-- missions/missionLifecycle.ts: mission records, their evidence and `validateRecord`.
use discordagent.Base.{
  String, Bool, true, false, ◌||◌, Option, none, some, List, [], ◌∷◌, any, is_empty, Result, ok,
  err, ◌>>◌, throw_if, ℕ,
}

pub data MissionState : Type 0 where
  captured routed awaiting_claim claimed in_progress verified : MissionState
  changes_requested awaiting_laura done cancelled : MissionState

pub data MissionEvidenceKind : Type 0 where
  capture route wake claim execution verification completion cancellation : MissionEvidenceKind
  reroute : MissionEvidenceKind

unfoldable pub state_dec : Discrete MissionState
state_dec = hlevel

unfoldable pub kind_dec : Discrete MissionEvidenceKind
kind_dec = hlevel

-- `===` on the two string unions.
abbrev pub state_beq : MissionState → MissionState → Bool
state_beq a b = elim (state_dec a b) [ yes _ ↦ true | no _ ↦ false ]

abbrev pub kind_beq : MissionEvidenceKind → MissionEvidenceKind → Bool
kind_beq a b = elim (kind_dec a b) [ yes _ ↦ true | no _ ↦ false ]

pub record MissionEvidence : Type 0 where
  pub kind : MissionEvidenceKind
  pub reference : String
  pub recorded_at : String

pub record MissionBinding : Type 0 where
  pub mission_id : String
  pub promotion_idempotency_key : String
  pub discord_source_message_id : String
  pub discord_mission_thread_id : String
  pub canonical_packet_id : String

pub record MissionRecord : Type 0 where
  pub binding : MissionBinding
  pub open binding use *
  pub state : MissionState
  pub current_owner : Option String
  pub evidence : List MissionEvidence
  pub blocker : Option String
  pub retry_trigger : Option String
  pub next_action : Option String
  pub laura_needed : Bool

-- One constructor for each `throw`, with what its message names. Those up to `owner_required` are
-- `MissionTransitionError`s, the others `MissionConflictError`s.
pub data MissionError : Type 0 where
  identity_required : MissionError
  references_required : MissionError
  packet_required : MissionError
  promotion_evidence_required : MissionError
  illegal_transition : MissionState → MissionState → MissionError
  fresh_evidence_required : MissionState → MissionState → MissionEvidenceKind → MissionError
  evidence_required : MissionState → List MissionEvidenceKind → MissionError
  owner_required : MissionState → MissionError
  unsupported_version : ℕ → MissionError
  bound_differently : MissionError
  unknown_mission : String → MissionError
  indexes_disagree : MissionError
  duplicate_id : String → MissionError
  duplicate_binding : String → MissionError

-- `evidenceKinds(mission).has(kind)`.
unfoldable pub has_evidence : List MissionEvidence → MissionEvidenceKind → Bool
has_evidence es k = any (λ e. kind_beq e.kind k) es

-- `required.filter((kind) => !present.has(kind))`.
unfoldable pub missing : List MissionEvidence → List MissionEvidenceKind → List MissionEvidenceKind
missing es [] = []
missing es (k ∷ ks) =
    let rest = missing es ks in elim (has_evidence es k) [ true ↦ rest | false ↦ k ∷ rest ]

abbrev pub throw_missing : MissionState → List MissionEvidenceKind → Result MissionError (Unit {0})
throw_missing s [] = ok tt
throw_missing s (k ∷ ks) = err (evidence_required s (k ∷ ks))

unfoldable pub require_evidence :
    MissionRecord → List MissionEvidenceKind → Result MissionError (Unit {0})
unfolding missing
require_evidence m required = throw_missing m.state (missing m.evidence required)

-- `!mission.currentOwner`: absent or the empty string.
abbrev pub lacks : Option String → Bool
lacks none = true
lacks (some s) = is_empty s

abbrev pub full_trail : List MissionEvidenceKind
full_trail = route ∷ wake ∷ claim ∷ execution ∷ verification ∷ []

-- The `switch` of `validateRecord`.
unfoldable pub validate_state : MissionState → MissionRecord → Result MissionError (Unit {0})
unfolding require_evidence
validate_state captured m = ok tt
validate_state routed m = do
  throw_if (lacks m.current_owner) (owner_required m.state)
  require_evidence m (route ∷ [])
validate_state awaiting_claim m = do
  throw_if (lacks m.current_owner) (owner_required m.state)
  require_evidence m (route ∷ wake ∷ [])
validate_state claimed m = do
  throw_if (lacks m.current_owner) (owner_required m.state)
  require_evidence m (route ∷ wake ∷ claim ∷ [])
validate_state in_progress m = do
  throw_if (lacks m.current_owner) (owner_required m.state)
  require_evidence m (route ∷ wake ∷ claim ∷ execution ∷ [])
validate_state verified m = require_evidence m full_trail
validate_state changes_requested m = require_evidence m full_trail
validate_state awaiting_laura m = require_evidence m full_trail
validate_state done m =
    require_evidence m (route ∷ wake ∷ claim ∷ execution ∷ verification ∷ completion ∷ [])
validate_state cancelled m = require_evidence m (cancellation ∷ [])

unfoldable pub validate_record : MissionRecord → Result MissionError (Unit {0})
validate_record m = do
  throw_if (is_empty m.mission_id || is_empty m.promotion_idempotency_key) identity_required
  throw_if (is_empty m.discord_source_message_id || is_empty m.discord_mission_thread_id)
      references_required
  throw_if (is_empty m.canonical_packet_id) packet_required
  require_evidence m (capture ∷ [])
  validate_state m.state m
