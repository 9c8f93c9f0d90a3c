-- ===== src/Mission/Validity.antt =====
-- missions/missionLifecycle.ts: what `validateRecord` accepts.
use discordagent.Base.{
  ◌≡◌, refl, ◌↔◌, List, [], ◌∷◌, Bool, true, false, Result, ok, err, All, arith, Bool-cases, inl,
  inr, ◌>>◌, throw_if,
}
use mathlib.Core.List.{Memᴰ}
use discordagent.Mission.Record.{
  MissionState, captured, routed, awaiting_claim, claimed, in_progress, verified, changes_requested,
  awaiting_laura, done, cancelled, MissionEvidenceKind, capture, route, wake, claim, execution,
  verification, completion, cancellation, kind_dec, MissionEvidence, MissionRecord, has_evidence,
  missing, require_evidence, validate_state, validate_record, lacks, throw_missing, owner_required,
  MissionError,
}
use discordagent.Mission.Consistency.{IsNamed, validate_record-IsNamed}

-- The log holds evidence of a kind.
abbrev pub Holds : List MissionEvidence → MissionEvidenceKind → Type 0
Holds es k = (e : MissionEvidence) × Memᴰ e es × (e.kind ≡ k)

Holds-of_has :
    (es : List MissionEvidence) (k : MissionEvidenceKind) → has_evidence es k ≡ true → Holds es k
unfolding has_evidence
Holds-of_has [] k h = absurd (ground arith)
Holds-of_has (e ∷ es) k h = elim (kind_dec e.kind k) [
  | yes same ↦ (e, Memᴰ.head refl, same)
  | no other ↦ let (f, m, p) = Holds-of_has es k (ground arith) in (f, Memᴰ.tail m, p)
]

has_of_mem :
    (e : MissionEvidence) (es : List MissionEvidence) → Memᴰ e es → has_evidence es e.kind ≡ true
unfolding has_evidence
has_of_mem e [] m = elim m [ ]
has_of_mem e (f ∷ es) (Memᴰ.head p) = ground arith
has_of_mem e (f ∷ es) (Memᴰ.tail m) = ground (arith, has_of_mem e es m)

missing-nil :
    (es : List MissionEvidence) (ks : List MissionEvidenceKind)
    → missing es ks ≡ []
    → All (Holds es) ks
unfolding missing
missing-nil es [] h = tt
missing-nil es (k ∷ ks) h = elim (Bool-cases (has_evidence es k)) [
  | inl here ↦ (Holds-of_has es k here, missing-nil es ks (ground arith))
  | inr gone ↦ absurd (ground arith)
]

nil_of_Holds :
    (es : List MissionEvidence) (ks : List MissionEvidenceKind)
    → All (Holds es) ks
    → missing es ks ≡ []
unfolding missing
nil_of_Holds es [] h = refl
nil_of_Holds es (k ∷ ks) ((e, m, same), h) = ground (arith, has_of_mem e es m, nil_of_Holds es ks h)

require_evidence_iff :
    (m : MissionRecord) (ks : List MissionEvidenceKind)
    → (require_evidence m ks ≡ ok tt) ↔ All (Holds m.evidence) ks
require_evidence_iff m ks = (
  λ h.
      missing-nil m.evidence ks
        (nothing_missing (missing m.evidence ks) (unfold require_evidence in h)),
  λ a. unfold require_evidence in rw (nil_of_Holds m.evidence ks a),
)
  where
    nothing_missing : (l : List MissionEvidenceKind) → throw_missing m.state l ≡ ok tt → l ≡ []
    nothing_missing [] h = refl
    nothing_missing (k ∷ l) h = absurd (ground arith)

-- The evidence that each state calls for, beside the capture.
abbrev pub trail : MissionState → List MissionEvidenceKind
trail captured = []
trail routed = route ∷ []
trail awaiting_claim = route ∷ wake ∷ []
trail claimed = route ∷ wake ∷ claim ∷ []
trail in_progress = route ∷ wake ∷ claim ∷ execution ∷ []
trail verified = route ∷ wake ∷ claim ∷ execution ∷ verification ∷ []
trail changes_requested = route ∷ wake ∷ claim ∷ execution ∷ verification ∷ []
trail awaiting_laura = route ∷ wake ∷ claim ∷ execution ∷ verification ∷ []
trail done = route ∷ wake ∷ claim ∷ execution ∷ verification ∷ completion ∷ []
trail cancelled = cancellation ∷ []

-- The states in which a mission is in somebody's hands.
abbrev pub is_owned : MissionState → Bool
is_owned routed = true
is_owned awaiting_claim = true
is_owned claimed = true
is_owned in_progress = true
is_owned _ = false

pub record IsWellFormed (m : MissionRecord) : Type 0 where
  pub named : IsNamed m.binding
  pub was_captured : Holds m.evidence capture
  pub evidenced : All (Holds m.evidence) (trail m.state)
  pub owned : is_owned m.state ≡ true → lacks m.current_owner ≡ false

guarded_iff :
    (b : Bool) (x : MissionError) (k : Result MissionError (Unit {0})) (P : Type 0)
    → (k ≡ ok tt) ↔ P
    → ((throw_if b x >> k) ≡ ok tt) ↔ (P × (b ≡ false))
guarded_iff true x k P h = (λ e. absurd (ground arith), λ p. absurd (ground arith))
guarded_iff false x k P h = (λ e. (h.0 e, refl), λ p. h.1 p.0)

abbrev StateClause : MissionState → MissionRecord → Type 0
StateClause s m =
    All (Holds m.evidence) (trail s) × (is_owned s ≡ true → lacks m.current_owner ≡ false)

owned_iff :
    (s : MissionState) (m : MissionRecord)
    → is_owned s ≡ true
    → ((throw_if (lacks m.current_owner) (owner_required m.state) >> require_evidence m (trail s))
        ≡ ok tt)
      ↔ StateClause s m
owned_iff s m own =
    let g =
      guarded_iff (lacks m.current_owner) (owner_required m.state) (require_evidence m (trail s))
        (All (Holds m.evidence) (trail s)) (require_evidence_iff m (trail s)) in
    (λ h. ((g.0 h).0, λ _. (g.0 h).1), λ c. g.1 (c.0, c.1 own))

unowned_iff :
    (s : MissionState) (m : MissionRecord)
    → is_owned s ≡ false
    → (require_evidence m (trail s) ≡ ok tt) ↔ StateClause s m
unowned_iff s m free =
    let g = require_evidence_iff m (trail s) in
    (λ h. (g.0 h, λ e. absurd (ground arith)), λ c. g.1 c.0)

validate_state_iff :
    (s : MissionState) (m : MissionRecord) → (validate_state s m ≡ ok tt) ↔ StateClause s m
unfolding validate_state
validate_state_iff captured m = (λ h. (tt, λ e. absurd (ground arith)), λ c. refl)
validate_state_iff routed m = owned_iff routed m refl
validate_state_iff awaiting_claim m = owned_iff awaiting_claim m refl
validate_state_iff claimed m = owned_iff claimed m refl
validate_state_iff in_progress m = owned_iff in_progress m refl
validate_state_iff verified m = unowned_iff verified m refl
validate_state_iff changes_requested m = unowned_iff changes_requested m refl
validate_state_iff awaiting_laura m = unowned_iff awaiting_laura m refl
validate_state_iff done m = unowned_iff done m refl
validate_state_iff cancelled m = unowned_iff cancelled m refl

sequence_iff :
    (j k : Result MissionError (Unit {0})) (P Q : Type 0)
    → (j ≡ ok tt) ↔ P
    → (k ≡ ok tt) ↔ Q
    → ((j >> k) ≡ ok tt) ↔ (P × Q)
sequence_iff (ok _) k P Q h g = (λ e. (h.0 refl, g.0 e), λ p. g.1 p.1)
sequence_iff (err x) k P Q h g = (λ e. absurd (ground arith), λ p. absurd (ground (arith, h.1 p.0)))

-- The part of `validateRecord` behind the checks of the identifiers.
log_iff :
    (m : MissionRecord)
    → ((require_evidence m (capture ∷ []) >> validate_state m.state m) ≡ ok tt)
      ↔ (All (Holds m.evidence) (capture ∷ []) × StateClause m.state m)
log_iff m =
    sequence_iff _ _ _ _ (require_evidence_iff m (capture ∷ [])) (validate_state_iff m.state m)

log_of_valid :
    (m : MissionRecord)
    → validate_record m ≡ ok tt
    → (require_evidence m (capture ∷ []) >> validate_state m.state m) ≡ ok tt
unfolding validate_record
log_of_valid m h = ground arith

valid_of_log :
    (m : MissionRecord)
    → IsNamed m.binding
    → (require_evidence m (capture ∷ []) >> validate_state m.state m) ≡ ok tt
    → validate_record m ≡ ok tt
unfolding validate_record
valid_of_log m n h = ground arith

-- `validateRecord` accepts exactly the records whose five identifiers are nonempty, whose log holds
-- a capture and the evidence that the state calls for, and that have a nonempty owner in the
-- states from routing to work in progress.
pub validate_record_iff : (m : MissionRecord) → (validate_record m ≡ ok tt) ↔ IsWellFormed m
validate_record_iff m = (
  λ h.
      let (first, clause) = (log_iff m).0 (log_of_valid m h) in
      record {
        named = validate_record-IsNamed m h;
        was_captured = first.0;
        evidenced = clause.0;
        owned = clause.1;
      },
  λ w. valid_of_log m w.named ((log_iff m).1 ((w.was_captured, tt), (w.evidenced, w.owned))),
)
