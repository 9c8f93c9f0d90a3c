-- ===== src/Mission/Lifecycle.antt =====
-- missions/missionLifecycle.ts: what `transition` guarantees of the state machine.
use discordagent.Base.{
  String, ◌≡◌, refl, ◌⊎◌, inl, inr, true, not, Option, none, some, [], ◌∷◌, ◌++◌, Result, ok, err,
  ◌>>=◌, arith, Option-cases, ◌>>◌, >>=-eq-ok, throw_if-eq-ok,
}
use discordagent.Dict.{get}
use discordagent.Mission.Record.{
  MissionState, captured, routed, awaiting_claim, claimed, in_progress, verified, changes_requested,
  awaiting_laura, done, cancelled, MissionEvidenceKind, route, wake, claim, execution, verification,
  completion, cancellation, reroute, MissionEvidence, MissionRecord, MissionError,
  illegal_transition, validate_record, state_dec,
}
use discordagent.Mission.Transition.{
  MissionTransition, is_allowed, fresh_evidence, next_record, advance, required_transition_evidence,
}
use discordagent.Mission.Repository.{
  MissionRepository, Reply, get_mission, store, stored, transition,
}
use discordagent.Mission.Consistency.{IsConsistent, store-IsConsistent}

-- The state diagram: each edge with the evidence that a move along it must bring.
infix 40 ◌⟶◌by◌
pub data ◌⟶◌by◌ : MissionState → MissionState → MissionEvidenceKind → Type 0 where
  route_it : captured ⟶ routed by route
  reroute_routed : routed ⟶ routed by reroute
  reroute_awaiting : awaiting_claim ⟶ routed by reroute
  reroute_claimed : claimed ⟶ routed by reroute
  reroute_changes : changes_requested ⟶ routed by reroute
  wake_owner : routed ⟶ awaiting_claim by wake
  claim_it : awaiting_claim ⟶ claimed by claim
  start : claimed ⟶ in_progress by execution
  resume : changes_requested ⟶ in_progress by execution
  verify : in_progress ⟶ verified by verification
  request_changes : in_progress ⟶ changes_requested by verification
  ask_laura : in_progress ⟶ awaiting_laura by verification
  reopen_verified : verified ⟶ changes_requested by verification
  ask_laura_verified : verified ⟶ awaiting_laura by verification
  reopen_awaiting : awaiting_laura ⟶ changes_requested by verification
  complete_verified : verified ⟶ done by completion
  complete_awaiting : awaiting_laura ⟶ done by completion
  cancel_captured : captured ⟶ cancelled by cancellation
  cancel_routed : routed ⟶ cancelled by cancellation
  cancel_awaiting : awaiting_claim ⟶ cancelled by cancellation
  cancel_claimed : claimed ⟶ cancelled by cancellation
  cancel_progress : in_progress ⟶ cancelled by cancellation
  cancel_verified : verified ⟶ cancelled by cancellation
  cancel_changes : changes_requested ⟶ cancelled by cancellation
  cancel_laura : awaiting_laura ⟶ cancelled by cancellation

ruleset edges = (
  route_it, reroute_routed, reroute_awaiting, reroute_claimed, reroute_changes, wake_owner,
  claim_it, start, resume, verify, request_changes, ask_laura, reopen_verified, ask_laura_verified,
  reopen_awaiting, complete_verified, complete_awaiting, cancel_captured, cancel_routed,
  cancel_awaiting, cancel_claimed, cancel_progress, cancel_verified, cancel_changes, cancel_laura,
)

pub is_allowed-⟶ :
    (s t : MissionState) → is_allowed s t ≡ true → s ⟶ t by required_transition_evidence s t
unfolding is_allowed required_transition_evidence state_dec
is_allowed-⟶ s t h = grind (arith, edges)

fresh_evidence-eq-ok :
    (s : MissionState) (t : MissionTransition) (o : Option MissionEvidence) (e : MissionEvidence)
    → fresh_evidence s t o ≡ ok e
    → (o ≡ some e) × (e.kind ≡ required_transition_evidence s t.state)
unfolding fresh_evidence
fresh_evidence-eq-ok s t none e h = cc
fresh_evidence-eq-ok s t (some e') e h = ground arith

-- What an accepted transition makes of a record.
pub record Move (m : MissionRecord) (t : MissionTransition) (m' : MissionRecord) : Type 0 where
  pub fresh : MissionEvidence
  pub given : t.evidence ≡ some fresh
  pub edge : m.state ⟶ t.state by fresh.kind
  pub result : m' ≡ advance m t fresh
  pub valid : validate_record m' ≡ ok tt

next_record-Move :
    (m : MissionRecord) (t : MissionTransition) (m' : MissionRecord)
    → next_record m t ≡ ok m'
    → Move m t m'
unfolding next_record
next_record-Move m t m' h =
    let after : MissionEvidence → Result MissionError MissionRecord =
      λ e. validate_record (advance m t e) >> ok (advance m t e) in
    let (allowed, rest) =
      throw_if-eq-ok (not (is_allowed m.state t.state)) (illegal_transition m.state t.state)
        (fresh_evidence m.state t t.evidence >>= after) h in
    let (e, fresh, rest') = >>=-eq-ok (fresh_evidence m.state t t.evidence) after rest in
    let (u, valid, same) =
      >>=-eq-ok (validate_record (advance m t e)) (λ _. ok (advance m t e)) rest' in
    let (given, kind) = fresh_evidence-eq-ok m.state t t.evidence e fresh in
    let result : m' ≡ advance m t e = ground arith in
    record {
      fresh = e;
      given = given;
      edge = rw kind (is_allowed-⟶ m.state t.state (ground arith));
      result = result;
      valid = rw result valid;
    }

-- The two ways in which `transition` ends.
abbrev pub TransitionOutcome :
    MissionRepository → String → MissionTransition → Reply MissionRecord → Type 0
TransitionOutcome r id t reply =
    ((x : MissionError) × (reply ≡ (r, err x)))
    ⊎ ((m : MissionRecord) × (m' : MissionRecord) × (get id r.missions_by_id ≡ some m)
        × Move m t m'
        × (reply ≡ (store r id m', ok m')))

moved_record :
    (r : MissionRepository) (id : String) (t : MissionTransition)
    (v : Result MissionError MissionRecord)
    → (do m ← get_mission r id; next_record m t) ≡ v
    → TransitionOutcome r id t (stored r id v)
unfolding get_mission
moved_record r id t (err x) e = inl (x, refl)
moved_record r id t (ok m') e = elim (Option-cases (get id r.missions_by_id)) [
  | inl gone ↦ absurd (ground arith)
  | inr (m, at) ↦ inr (m, m', at, next_record-Move m t m' (rw at at e), refl)
]

pub transition-Outcome :
    (r : MissionRepository) (id : String) (t : MissionTransition)
    → TransitionOutcome r id t (transition r id t)
unfolding transition
transition-Outcome r id t = moved_record r id t _ refl

-- A transition that is accepted moves a stored mission along an edge of the diagram, with evidence
-- of the edge's kind appended to the log, the identifiers kept, the new record valid, and nothing
-- else in the repository changed.
pub transition_follows_diagram :
    (r : MissionRepository) (id : String) (t : MissionTransition) (m' : MissionRecord)
    → (transition r id t).1 ≡ ok m'
    → (m : MissionRecord) × (e : MissionEvidence) × (get id r.missions_by_id ≡ some m)
      × (m.state ⟶ m'.state by e.kind)
      × (m'.evidence ≡ m.evidence ++ e ∷ [])
      × (m'.binding ≡ m.binding)
      × (validate_record m' ≡ ok tt)
      × ((transition r id t).0 ≡ store r id m')
transition_follows_diagram r id t m' h = elim (transition-Outcome r id t) [
  | inl (x, same) ↦ absurd (ground arith)
  | inr (m, n, at, move, same) ↦
      let here : n ≡ m' = ground arith in
      (
        m,
        move.fresh,
        at,
        rw (← here, move.result) move.edge,
        rw (← here, move.result),
        rw (← here, move.result),
        rw (← here) move.valid,
        rw (same, here),
      )
]

-- A transition that throws leaves the repository as it was.
pub transition-error_atomic :
    (r : MissionRepository) (id : String) (t : MissionTransition) {x : MissionError}
    → (transition r id t).1 ≡ err x
    → (transition r id t).0 ≡ r
transition-error_atomic r id t h = ground (arith, transition-Outcome r id t)

-- `transition` keeps the repository consistent, whether it throws or not.
pub transition-IsConsistent :
    (r : MissionRepository) (id : String) (t : MissionTransition)
    → IsConsistent r
    → IsConsistent (transition r id t).0
transition-IsConsistent r id t h = elim (transition-Outcome r id t) [
  | inl (x, same) ↦ rw same h
  | inr (m, m', at, move, same) ↦
      rw same (store-IsConsistent r id m' m h at (rw move.result) move.valid)
]

-- A completed or cancelled mission takes no further transition: every request is refused with the
-- error for an illegal move, and the repository stays as it was.
pub transition_terminal :
    (r : MissionRepository) (id : String) (m : MissionRecord) (t : MissionTransition)
    → get id r.missions_by_id ≡ some m
    → (m.state ≡ done) ⊎ (m.state ≡ cancelled)
    → transition r id t ≡ (r, err (illegal_transition m.state t.state))
unfolding transition get_mission next_record is_allowed
transition_terminal r id m t at (inl over) = rw at (rw over)
transition_terminal r id m t at (inr over) = rw at (rw over)
