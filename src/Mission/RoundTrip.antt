-- ===== src/Mission/RoundTrip.antt =====
-- missions/missionLifecycle.ts: `fromSnapshot(snapshot())` restores the repository.
use discordagent.Base.{
  String, ◌≡◌, refl, sym, ◌∙◌, ◌≢◌, Option, none, some, List, [], ◌∷◌, Bool, ok, All, arith,
  str_dec, Bool-cases, inl, inr,
}
use discordagent.Dict.{Dict, get, values}
use discordagent.Dict.Distinct.{IsDistinct, All-of_get, index_unique}
use discordagent.Mission.Record.{MissionRecord}
use discordagent.Mission.Transition.{or_else}
use discordagent.Mission.Repository.{MissionRepository, empty}
use discordagent.Mission.Consistency.{IsConsistent, empty-IsConsistent}
use discordagent.Mission.Snapshot.{insert_sorted, sort_missions, snapshot, from_snapshot}
use discordagent.Mission.Restore.{
  IsApart, IsApart-sym, AllApart, IsValid, IsFresh, find_mission, load-Loaded,
}

find-cons :
    (id : String) (m : MissionRecord) (ms ns : List MissionRecord)
    → find_mission id ms ≡ find_mission id ns
    → find_mission id (m ∷ ms) ≡ find_mission id (m ∷ ns)
unfolding find_mission
find-cons id m ms ns e = ground arith

module _ (locale_le : String → String → Bool) where
  insert_sorted-All {κ} :
      (P : MissionRecord → Type κ) (m : MissionRecord) (ms : List MissionRecord)
      → P m
      → All P ms
      → All P (insert_sorted locale_le m ms)
  unfolding insert_sorted
  insert_sorted-All P m [] p h = (p, tt)
  insert_sorted-All P m (x ∷ xs) p h = elim (Bool-cases (locale_le m.mission_id x.mission_id)) [
    | inl first ↦ rw first (p, h)
    | inr later ↦ rw later (h.0, insert_sorted-All P m xs p h.1)
  ]

  sort-All {κ} :
      (P : MissionRecord → Type κ) (ms : List MissionRecord)
      → All P ms
      → All P (sort_missions locale_le ms)
  unfolding sort_missions
  sort-All P [] h = tt
  sort-All P (m ∷ ms) h = insert_sorted-All P m (sort_missions locale_le ms) h.0 (sort-All P ms h.1)

  insert_sorted-AllApart :
      (m : MissionRecord) (ms : List MissionRecord)
      → All (IsApart m) ms
      → AllApart ms
      → AllApart (insert_sorted locale_le m ms)
  unfolding insert_sorted
  insert_sorted-AllApart m [] a h = (tt, tt)
  insert_sorted-AllApart m (x ∷ xs) a h = elim (Bool-cases (locale_le m.mission_id x.mission_id)) [
    | inl first ↦ rw first (a, h)
    | inr later ↦ rw later (
      insert_sorted-All (IsApart x) m xs (IsApart-sym a.0) h.0,
      insert_sorted-AllApart m xs a.1 h.1,
    )
  ]

  sort-AllApart : (ms : List MissionRecord) → AllApart ms → AllApart (sort_missions locale_le ms)
  unfolding sort_missions
  sort-AllApart [] h = tt
  sort-AllApart (m ∷ ms) h =
      insert_sorted-AllApart m (sort_missions locale_le ms) (sort-All (IsApart m) ms h.0)
        (sort-AllApart ms h.1)

  find-insert_sorted :
      (id : String) (m : MissionRecord) (ms : List MissionRecord)
      → All (IsApart m) ms
      → find_mission id (insert_sorted locale_le m ms) ≡ find_mission id (m ∷ ms)
  unfolding insert_sorted find_mission
  find-insert_sorted id m [] a = refl
  find-insert_sorted id m (x ∷ xs) a = elim (Bool-cases (locale_le m.mission_id x.mission_id)) [
    | inl first ↦ rw first
    | inr later ↦ rw later (ground (arith, find-insert_sorted id m xs a.1, a.0.id))
  ]

  -- Sorting does not change what is found under an id.
  find-sort :
      (id : String) (ms : List MissionRecord)
      → AllApart ms
      → find_mission id (sort_missions locale_le ms) ≡ find_mission id ms
  unfolding sort_missions
  find-sort id [] h = refl
  find-sort id (m ∷ ms) h =
      find-insert_sorted id m (sort_missions locale_le ms) (sort-All (IsApart m) ms h.0)
      ∙ find-cons id m (sort_missions locale_le ms) ms (find-sort id ms h.1)

-- What consistency says of an entry.
abbrev Facts : MissionRepository → String × MissionRecord → Type 0
Facts r (k, m) =
    (m.mission_id ≡ k)
    × IsValid m
    × (get m.promotion_idempotency_key r.mission_id_by_promotion_key ≡ some k)
    × (get m.discord_source_message_id r.mission_id_by_source_message ≡ some k)
    × (get m.discord_mission_thread_id r.mission_id_by_thread ≡ some k)

module _ (r : MissionRepository) where
  entries-Facts : IsConsistent r → All (Facts r) r.missions_by_id
  entries-Facts h = All-of_get (Facts r) r.missions_by_id h.distinct λ k m at. (
    (h.entries k m at).0,
    (h.entries k m at).1,
    h.promotion.forward k m at,
    h.source.forward k m at,
    h.thread.forward k m at,
  )

  Facts-IsApart :
      (k j : String) (m n : MissionRecord) → k ≢ j → Facts r (k, m) → Facts r (j, n) → IsApart m n
  Facts-IsApart k j m n other f g = record {
    id = λ e. other (ground arith);
    key = λ e. other (ground arith);
    source = λ e. other (ground arith);
    thread = λ e. other (ground arith);
  }

  values-All-IsApart :
      (k : String) (m : MissionRecord) (d : Dict MissionRecord)
      → get k d ≡ none
      → Facts r (k, m)
      → All (Facts r) d
      → All (IsApart m) (values d)
  unfolding get
  values-All-IsApart k m [] gone f h = tt
  values-All-IsApart k m ((j, n) ∷ d) gone f h = elim (str_dec j k) [
    | yes same ↦ absurd (ground arith)
    | no other ↦ (
      Facts-IsApart k j m n (λ e. other (sym e)) f h.0,
      values-All-IsApart k m d (ground arith) f h.1,
    )
  ]

  values-AllApart : (d : Dict MissionRecord) → IsDistinct d → All (Facts r) d → AllApart (values d)
  values-AllApart [] u h = tt
  values-AllApart ((k, m) ∷ d) u h =
      (values-All-IsApart k m d u.0 h.0 h.1, values-AllApart d u.1 h.1)

  values-All-IsValid : (d : Dict MissionRecord) → All (Facts r) d → All IsValid (values d)
  values-All-IsValid [] h = tt
  values-All-IsValid ((k, m) ∷ d) h = (h.0.1, values-All-IsValid d h.1)

  find-values :
      (id : String) (d : Dict MissionRecord)
      → All (Facts r) d
      → find_mission id (values d) ≡ get id d
  unfolding find_mission get
  find-values id [] h = refl
  find-values id ((k, m) ∷ d) h = ground (arith, find-values id d h.1)

All-IsFresh : (ms : List MissionRecord) → All (IsFresh empty) ms
unfolding empty get
All-IsFresh [] = tt
All-IsFresh (m ∷ ms) = ((refl, (refl, refl, refl)), All-IsFresh ms)

restored_answer :
    (k : String) (o p : Option MissionRecord) → o ≡ p → or_else o (get k empty.missions_by_id) ≡ p
unfolding empty get
restored_answer k none p e = e
restored_answer k (some m) p e = e

-- Two repositories with the same answers to every lookup.
pub record SameAnswers (r s : MissionRepository) : Type 0 where
  pub by_id : (k : String) → get k s.missions_by_id ≡ get k r.missions_by_id
  pub by_key :
      (k : String) → get k s.mission_id_by_promotion_key ≡ get k r.mission_id_by_promotion_key
  pub by_source :
      (k : String) → get k s.mission_id_by_source_message ≡ get k r.mission_id_by_source_message
  pub by_thread : (k : String) → get k s.mission_id_by_thread ≡ get k r.mission_id_by_thread

IsConsistent-SameAnswers :
    (r s : MissionRepository)
    → IsConsistent r
    → IsConsistent s
    → ((k : String) → get k s.missions_by_id ≡ get k r.missions_by_id)
    → SameAnswers r s
IsConsistent-SameAnswers r s h g same = record {
  by_id = same;
  by_key = index_unique _ _ _ _ _ g.promotion h.promotion same;
  by_source = index_unique _ _ _ _ _ g.source h.source same;
  by_thread = index_unique _ _ _ _ _ g.thread h.thread same;
}

-- Whatever order the locale puts the missions in, the snapshot of a consistent repository loads
-- without an error into a consistent repository that answers every lookup, by id and by each of the
-- three indexes, as the old one did.
pub snapshot_roundtrip :
    (locale_le : String → String → Bool) (r : MissionRepository)
    → IsConsistent r
    → (s : MissionRepository) × (from_snapshot (snapshot locale_le r) ≡ ok s)
      × IsConsistent s
      × SameAnswers r s
unfolding from_snapshot snapshot
snapshot_roundtrip locale_le r h =
    let facts = entries-Facts r h in
    let apart = values-AllApart r r.missions_by_id h.distinct facts in
    let sorted = sort_missions locale_le (values r.missions_by_id) in
    let (s, loaded, g, at) =
      load-Loaded empty sorted empty-IsConsistent
        (sort-All locale_le IsValid (values r.missions_by_id)
          (values-All-IsValid r r.missions_by_id facts))
        (All-IsFresh sorted) (sort-AllApart locale_le (values r.missions_by_id) apart) in
    let found : (k : String) → get k s.missions_by_id ≡ get k r.missions_by_id = λ k.
      at k
      ∙ restored_answer k (find_mission k sorted) (get k r.missions_by_id) (
          find-sort locale_le k (values r.missions_by_id) apart
          ∙ find-values r k r.missions_by_id facts) in
    (s, loaded, g, IsConsistent-SameAnswers r s h g found)
