-- ===== src/Mission/Promotion.antt =====
-- missions/missionLifecycle.ts: `promote` on a consistent repository: it captures a binding once,
-- replays it, and refuses one that shares a key with another mission.
use discordagent.Base.{
  String, ◌≡◌, refl, ◌≢◌, ◌⊎◌, inl, inr, true, Option, none, some, [], ◌∷◌, Result, ok, err, arith,
  str_dec, Option-cases, Bool-cases,
}
use discordagent.Dict.{get}
use discordagent.Mission.Record.{
  capture, kind_beq, kind_dec, MissionEvidence, MissionBinding, MissionRecord, MissionError,
  validate_record, bound_differently, promotion_evidence_required, duplicate_id,
}
use discordagent.Mission.Repository.{
  MissionRepository, Reply, get_mission, insert, candidates, sole, same_binding,
  resolve_existing_mission_id, capture_record, promote_new, promote_existing, promote_resolved,
  promote,
}
use discordagent.Mission.Consistency.{
  IsConsistent, IsUnbound, validate_record-IsNamed, inserted, insert_fresh, inserted-IsConsistent,
}

-- An index answer that leads to a nonempty id.
abbrev IsProper : Option String → Type 0
IsProper o = (o ≡ none) ⊎ ((id : String) × (o ≡ some id) × (id ≢ ""))

-- No candidate: all three answers are empty.
sole-none :
    (a b c : Option String)
    → IsProper a
    → IsProper b
    → IsProper c
    → sole (candidates (a ∷ b ∷ c ∷ []) []) ≡ ok none
    → (a ≡ none) × (b ≡ none) × (c ≡ none)
unfolding sole candidates
sole-none none none none pa pb pc e = (refl, refl, refl)
sole-none none none (some z) pa pb pc e = ground arith
sole-none none (some y) none pa pb pc e = ground arith
sole-none none (some y) (some z) pa pb pc e = ground arith
sole-none (some x) none none pa pb pc e = ground arith
sole-none (some x) none (some z) pa pb pc e = ground arith
sole-none (some x) (some y) none pa pb pc e = ground arith
sole-none (some x) (some y) (some z) pa pb pc e = ground arith

-- One candidate: some answer is it.
sole-some :
    (a b c : Option String) (id : String)
    → sole (candidates (a ∷ b ∷ c ∷ []) []) ≡ ok (some id)
    → (a ≡ some id) ⊎ ((b ≡ some id) ⊎ (c ≡ some id))
unfolding sole candidates
sole-some none none none id e = ground arith
sole-some none none (some z) id e = ground arith
sole-some none (some y) none id e = ground arith
sole-some none (some y) (some z) id e = ground arith
sole-some (some x) none none id e = ground arith
sole-some (some x) none (some z) id e = ground arith
sole-some (some x) (some y) none id e = ground arith
sole-some (some x) (some y) (some z) id e = ground arith

-- The same answer three times.
sole_same :
    (id : String) → id ≢ "" → sole (candidates (some id ∷ some id ∷ some id ∷ []) []) ≡ ok (some id)
unfolding sole candidates
sole_same id h = ground arith

module _ (r : MissionRepository) (h : IsConsistent r) where
  stored-ne-empty : (id : String) (m : MissionRecord) → get id r.missions_by_id ≡ some m → id ≢ ""
  stored-ne-empty id m at =
      ground (arith, h.entries id m at, validate_record-IsNamed m (h.entries id m at).1)

  promotion-IsProper : (k : String) → IsProper (get k r.mission_id_by_promotion_key)
  promotion-IsProper k = elim (Option-cases (get k r.mission_id_by_promotion_key)) [
    | inl e ↦ inl e
    | inr (id, e) ↦
        let (m, at, _) = h.promotion.backward k id e in inr (id, e, stored-ne-empty id m at)
  ]

  source-IsProper : (k : String) → IsProper (get k r.mission_id_by_source_message)
  source-IsProper k = elim (Option-cases (get k r.mission_id_by_source_message)) [
    | inl e ↦ inl e
    | inr (id, e) ↦
        let (m, at, _) = h.source.backward k id e in inr (id, e, stored-ne-empty id m at)
  ]

  thread-IsProper : (k : String) → IsProper (get k r.mission_id_by_thread)
  thread-IsProper k = elim (Option-cases (get k r.mission_id_by_thread)) [
    | inl e ↦ inl e
    | inr (id, e) ↦
        let (m, at, _) = h.thread.backward k id e in inr (id, e, stored-ne-empty id m at)
  ]

  resolve-none : (b : MissionBinding) → resolve_existing_mission_id r b ≡ ok none → IsUnbound r b
  unfolding resolve_existing_mission_id
  resolve-none b e =
      sole-none _ _ _ (promotion-IsProper _) (source-IsProper _) (thread-IsProper _) e

  -- What resolution finds is stored.
  resolve-some :
      (b : MissionBinding) (id : String)
      → resolve_existing_mission_id r b ≡ ok (some id)
      → (m : MissionRecord) × (get id r.missions_by_id ≡ some m)
  unfolding resolve_existing_mission_id
  resolve-some b id e =
      elim (sole-some (get b.promotion_idempotency_key r.mission_id_by_promotion_key)
        (get b.discord_source_message_id r.mission_id_by_source_message)
        (get b.discord_mission_thread_id r.mission_id_by_thread) id e) [
          | inl at ↦
              let (m, found, _) = h.promotion.backward b.promotion_idempotency_key id at in
              (m, found)
          | inr (inl at) ↦
              let (m, found, _) = h.source.backward b.discord_source_message_id id at in (m, found)
          | inr (inr at) ↦
              let (m, found, _) = h.thread.backward b.discord_mission_thread_id id at in (m, found)
        ]

  resolve_stored :
      (id : String) (m : MissionRecord)
      → get id r.missions_by_id ≡ some m
      → resolve_existing_mission_id r m.binding ≡ ok (some id)
  unfolding resolve_existing_mission_id
  resolve_stored id m at =
      rw (h.promotion.forward id m at, h.source.forward id m at, h.thread.forward id m at)
        (sole_same id (stored-ne-empty id m at))

same_binding_iff :
    (m : MissionRecord) (b : MissionBinding) → same_binding m b ≡ true → m.binding ≡ b
unfolding same_binding
same_binding_iff m b e = ground arith

same_binding_refl : (m : MissionRecord) → same_binding m m.binding ≡ true
unfolding same_binding
same_binding_refl m = ground arith

-- The three ways in which `promote` ends on a consistent repository.
abbrev pub PromoteOutcome :
    MissionRepository → MissionBinding → MissionEvidence → Reply MissionRecord → Type 0
PromoteOutcome r b e reply =
    ((x : MissionError) × (reply ≡ (r, err x)))
    ⊎ (((m : MissionRecord) × (get m.mission_id r.missions_by_id ≡ some m)
          × (m.binding ≡ b)
          × (reply ≡ (r, ok m)))
        ⊎ (IsUnbound r b
            × (get b.mission_id r.missions_by_id ≡ none)
            × (validate_record (capture_record b e) ≡ ok tt)
            × (reply ≡ (inserted r (capture_record b e), ok (capture_record b e)))))

module _ (r : MissionRepository) (h : IsConsistent r) (b : MissionBinding)
    (e : MissionEvidence) where
  insert-Outcome :
      IsUnbound r b
      → validate_record (capture_record b e) ≡ ok tt
      → PromoteOutcome r b e (promote_new r (capture_record b e) (ok tt))
  unfolding promote_new
  insert-Outcome free valid = elim (Option-cases (get b.mission_id r.missions_by_id)) [
    | inl fresh ↦
        inr (inr (free, fresh, valid, rw (insert_fresh r (capture_record b e) fresh free)))
    | inr (m, at) ↦ inl (duplicate_id b.mission_id, unfold insert in rw at)
  ]

  new-Outcome :
      (v : Result MissionError (Unit {0}))
      → IsUnbound r b
      → validate_record (capture_record b e) ≡ v
      → PromoteOutcome r b e (promote_new r (capture_record b e) v)
  unfolding promote_new
  new-Outcome (ok _) free valid = insert-Outcome free valid
  new-Outcome (err x) free valid = inl (x, refl)

  existing-Outcome :
      (id : String) (m : MissionRecord)
      → get id r.missions_by_id ≡ some m
      → PromoteOutcome r b e (promote_existing r b (get_mission r id))
  unfolding promote_existing get_mission
  existing-Outcome id m at = elim (Bool-cases (same_binding m b)) [
    | inl same ↦
        inr (inl (m, ground (arith, h.entries id m at), same_binding_iff m b same, rw (at, same)))
    | inr other ↦ inl (bound_differently, rw (at, other))
  ]

  resolved-Outcome :
      (v : Result MissionError (Option String))
      → resolve_existing_mission_id r b ≡ v
      → PromoteOutcome r b e (promote_resolved r b e v)
  unfolding promote_resolved
  resolved-Outcome (err x) at = inl (x, refl)
  resolved-Outcome (ok none) at = new-Outcome _ (resolve-none r h b at) refl
  resolved-Outcome (ok (some id)) at =
      let (m, found) = resolve-some r h b id at in
      elim (str_dec id "") [
        | yes blank ↦ absurd (stored-ne-empty r h id m found blank)
        | no proper ↦ ground (arith, existing-Outcome id m found)
      ]

  pub promote-Outcome : PromoteOutcome r b e (promote r b e)
  unfolding promote
  promote-Outcome = elim (Bool-cases (kind_beq e.kind capture)) [
    | inl same ↦ rw same (resolved-Outcome (resolve_existing_mission_id r b) refl)
    | inr other ↦ rw other (inl (promotion_evidence_required, refl))
  ]

-- A `promote` that throws leaves the repository as it was, although `insert` writes its indexes one
-- by one between its checks.
pub promote-error_atomic :
    (r : MissionRepository) (b : MissionBinding) (e : MissionEvidence) {x : MissionError}
    → IsConsistent r
    → (promote r b e).1 ≡ err x
    → (promote r b e).0 ≡ r
promote-error_atomic r b e h fails = ground (arith, promote-Outcome r h b e)

-- `promote` keeps the repository consistent, whether it throws or not.
pub promote-IsConsistent :
    (r : MissionRepository) (b : MissionBinding) (e : MissionEvidence)
    → IsConsistent r
    → IsConsistent (promote r b e).0
promote-IsConsistent r b e h = elim (promote-Outcome r h b e) [
  | inl (x, same) ↦ rw same h
  | inr (inl (m, at, bound, same)) ↦ rw same h
  | inr (inr (free, fresh, valid, same)) ↦
      rw same (inserted-IsConsistent r (capture_record b e) h valid fresh free)
]

-- Promoting the binding of a stored mission again, with any capture evidence, changes nothing and
-- returns the mission as it stands now.
pub promote_replay :
    (r : MissionRepository) (id : String) (m : MissionRecord) (e : MissionEvidence)
    → IsConsistent r
    → get id r.missions_by_id ≡ some m
    → e.kind ≡ capture
    → promote r m.binding e ≡ (r, ok m)
unfolding promote promote_resolved promote_existing get_mission
promote_replay r id m e h at kind =
    rw (resolve_stored r h id m at, promote_resolved)
      (ground (arith, stored-ne-empty r h id m at, same_binding_refl m))

-- A binding that shares its promotion key, source message or mission thread with a stored mission of
-- another binding is refused, and the repository stays as it was.
pub promote_conflict :
    (r : MissionRepository) (id : String) (m : MissionRecord) (b : MissionBinding)
    (e : MissionEvidence)
    → IsConsistent r
    → get id r.missions_by_id ≡ some m
    → (m.promotion_idempotency_key ≡ b.promotion_idempotency_key)
      ⊎ ((m.discord_source_message_id ≡ b.discord_source_message_id)
          ⊎ (m.discord_mission_thread_id ≡ b.discord_mission_thread_id))
    → m.binding ≢ b
    → (x : MissionError) × (promote r b e ≡ (r, err x))
promote_conflict r id m b e h at shared other = elim (promote-Outcome r h b e) [
  | inl refused ↦ refused
  | inr (inl (n, found, bound, same)) ↦ absurd (
      ground (
        arith,
        h.entries id m at,
        h.promotion.forward id m at,
        h.source.forward id m at,
        h.thread.forward id m at,
        h.promotion.forward n.mission_id n found,
        h.source.forward n.mission_id n found,
        h.thread.forward n.mission_id n found,
      ))
  | inr (inr (free, fresh, valid, same)) ↦ absurd (
      ground
        (arith, h.promotion.forward id m at, h.source.forward id m at, h.thread.forward id m at))
]

pub promote-ok_kind :
    (r : MissionRepository) (b : MissionBinding) (e : MissionEvidence) (m : MissionRecord)
    → (promote r b e).1 ≡ ok m
    → e.kind ≡ capture
unfolding promote
promote-ok_kind r b e m h = elim (kind_dec e.kind capture) [
  | yes same ↦ same
  | no other ↦ absurd (ground arith)
]
