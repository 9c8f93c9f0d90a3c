-- ===== src/Mission/Transition.antt =====
-- missions/missionLifecycle.ts: the transition table and the checks of `transition`.
use discordagent.Base.{
  String, Bool, true, false, not, Option, none, some, List, [], ◌∷◌, ◌++◌, any, Result, ok, err,
  ◌>>=◌, ◌>>◌, throw_if,
}
use discordagent.Mission.Record.{
  MissionState, captured, routed, awaiting_claim, claimed, in_progress, verified, changes_requested,
  awaiting_laura, done, cancelled, MissionEvidenceKind, capture, route, wake, claim, execution,
  verification, completion, cancellation, reroute, state_beq, kind_beq, MissionEvidence,
  MissionRecord, MissionError, illegal_transition, fresh_evidence_required, validate_record,
}

unfoldable pub allowed_transitions : MissionState → List MissionState
allowed_transitions captured = routed ∷ cancelled ∷ []
allowed_transitions routed = awaiting_claim ∷ routed ∷ cancelled ∷ []
allowed_transitions awaiting_claim = claimed ∷ routed ∷ cancelled ∷ []
allowed_transitions claimed = in_progress ∷ routed ∷ cancelled ∷ []
allowed_transitions in_progress = verified ∷ changes_requested ∷ awaiting_laura ∷ cancelled ∷ []
allowed_transitions verified = done ∷ changes_requested ∷ awaiting_laura ∷ cancelled ∷ []
allowed_transitions changes_requested = in_progress ∷ routed ∷ cancelled ∷ []
allowed_transitions awaiting_laura = done ∷ changes_requested ∷ cancelled ∷ []
allowed_transitions done = []
allowed_transitions cancelled = []

-- `allowedTransitions[current].includes(next)`.
unfoldable pub is_allowed : MissionState → MissionState → Bool
unfolding allowed_transitions
is_allowed current next = any (λ s. state_beq s next) (allowed_transitions current)

pub record MissionTransition : Type 0 where
  pub state : MissionState
  pub owner : Option String
  pub evidence : Option MissionEvidence
  pub blocker : Option String
  pub retry_trigger : Option String
  pub next_action : Option String
  pub laura_needed : Option Bool

unfoldable pub required_transition_evidence : MissionState → MissionState → MissionEvidenceKind
required_transition_evidence captured routed = route
required_transition_evidence _ routed = reroute
required_transition_evidence _ awaiting_claim = wake
required_transition_evidence _ claimed = claim
required_transition_evidence _ in_progress = execution
required_transition_evidence _ verified = verification
required_transition_evidence _ changes_requested = verification
required_transition_evidence _ awaiting_laura = verification
required_transition_evidence _ done = completion
required_transition_evidence _ cancelled = cancellation
required_transition_evidence _ captured = capture

-- `a ?? b`.
abbrev pub or_else {ℓ} : {A : Type ℓ} → Option A → Option A → Option A
or_else none b = b
or_else (some a) b = some a

abbrev pub or_false : Option Bool → Bool
or_false none = false
or_false (some b) = b

-- `transition.evidence?.kind !== required` throws; otherwise the evidence is there.
unfoldable pub fresh_evidence :
    MissionState → MissionTransition → Option MissionEvidence → Result MissionError MissionEvidence
fresh_evidence current t none =
    err (fresh_evidence_required current t.state (required_transition_evidence current t.state))
fresh_evidence current t (some e) =
    elim (kind_beq e.kind (required_transition_evidence current t.state)) [
      | true ↦ ok e
      | false ↦
          err
            (fresh_evidence_required current t.state (required_transition_evidence current t.state))
    ]

abbrev pub advance : MissionRecord → MissionTransition → MissionEvidence → MissionRecord
advance current t e = record current {
  state = t.state;
  current_owner = or_else t.owner current.current_owner;
  evidence = current.evidence ++ e ∷ [];
  blocker = t.blocker;
  retry_trigger = t.retry_trigger;
  next_action = t.next_action;
  laura_needed = or_false t.laura_needed;
}

-- `transition` between its read of the mission and its write.
unfoldable pub next_record : MissionRecord → MissionTransition → Result MissionError MissionRecord
unfolding fresh_evidence
next_record current t = do
  throw_if (not (is_allowed current.state t.state)) (illegal_transition current.state t.state)
  e ← fresh_evidence current.state t t.evidence
  validate_record (advance current t e)
  ok (advance current t e)
