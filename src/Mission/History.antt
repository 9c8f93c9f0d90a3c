-- ===== src/Mission/History.antt =====
-- missions/missionLifecycle.ts: whole histories of a repository, as sequences of calls.
use discordagent.Base.{
  String, ◌≡◌, refl, sym, ap, subst, ◌∙◌, ◌⊎◌, inl, inr, some, List, [], ◌∷◌, ◌++◌, arith, str_dec,
}
use mathlib.Core.List.{append_assoc, append-nil}
use discordagent.Dict.{get, set}
use discordagent.Dict.Laws.{get-set}
use discordagent.Dict.Index.{get-set_self, get-set_ne}
use discordagent.Mission.Record.{
  MissionState, captured, done, cancelled, capture, MissionEvidence, MissionBinding, MissionRecord,
}
use discordagent.Mission.Transition.{MissionTransition}
use discordagent.Mission.Repository.{
  MissionRepository, empty, promote, transition, store, capture_record,
}
use discordagent.Mission.Consistency.{IsConsistent, empty-IsConsistent}
use discordagent.Mission.Promotion.{promote-Outcome, promote-IsConsistent, promote-ok_kind}
use discordagent.Mission.Lifecycle.{
  ◌⟶◌by◌, Move, transition-Outcome, transition-IsConsistent, transition_terminal,
}

pub data Call : Type 0 where
  promotes : MissionBinding → MissionEvidence → Call
  transitions : String → MissionTransition → Call

-- A call that throws is one that the caller survives.
unfoldable pub after : MissionRepository → Call → MissionRepository
after r (promotes b e) = (promote r b e).0
after r (transitions id t) = (transition r id t).0

unfoldable pub run : MissionRepository → List Call → MissionRepository
run r [] = r
run r (c ∷ cs) = run (after r c) cs

pub after-IsConsistent :
    (r : MissionRepository) (c : Call) → IsConsistent r → IsConsistent (after r c)
unfolding after
after-IsConsistent r (promotes b e) h = promote-IsConsistent r b e h
after-IsConsistent r (transitions id t) h = transition-IsConsistent r id t h

-- Every history keeps a consistent repository consistent: each mission under its own id and valid,
-- and the three indexes leading exactly to the missions that carry their keys.
pub run-IsConsistent :
    (r : MissionRepository) (cs : List Call) → IsConsistent r → IsConsistent (run r cs)
unfolding run
run-IsConsistent r [] h = h
run-IsConsistent r (c ∷ cs) h = run-IsConsistent (after r c) cs (after-IsConsistent r c h)

-- A walk along the diagram, with the evidence that its moves brought, in order.
pub data Walk : MissionState → List MissionEvidence → MissionState → Type 0 where
  stay : {s : MissionState} → Walk s [] s
  move :
      {s t u : MissionState} {es : List MissionEvidence} (e : MissionEvidence)
      → s ⟶ t by e.kind
      → Walk t es u
      → Walk s (e ∷ es) u

Walk-append :
    {s t u : MissionState} {es fs : List MissionEvidence}
    → Walk s es t
    → Walk t fs u
    → Walk s (es ++ fs) u
Walk-append stay w = w
Walk-append (move e edge v) w = move e edge (Walk-append v w)

-- How a mission may differ from what it was.
pub record Grows (m m' : MissionRecord) : Type 0 where
  pub same : m'.binding ≡ m.binding
  pub news : List MissionEvidence
  pub log : m'.evidence ≡ m.evidence ++ news
  pub walk : Walk m.state news m'.state

Grows-refl : (m : MissionRecord) → Grows m m
Grows-refl m = record { same = refl; news = []; log = sym (append-nil m.evidence); walk = stay }

Grows-trans : {a b c : MissionRecord} → Grows a b → Grows b c → Grows a c
Grows-trans {a} g h = record {
  same = h.same ∙ g.same;
  news = g.news ++ h.news;
  log = h.log ∙ ap (λ l. l ++ h.news) g.log ∙ append_assoc a.evidence g.news h.news;
  walk = Walk-append g.walk h.walk;
}

Move-Grows :
    {m : MissionRecord} {t : MissionTransition} {m' : MissionRecord} → Move m t m' → Grows m m'
Move-Grows {m} {t} mv =
    rw mv.result
      (record { same = refl; news = mv.fresh ∷ []; log = refl; walk = move mv.fresh mv.edge stay })

abbrev pub Kept : MissionRepository → String → MissionRecord → Type 0
Kept r id m = (m' : MissionRecord) × (get id r.missions_by_id ≡ some m') × Grows m m'

module _ (r : MissionRepository) (id : String) (m : MissionRecord) (h : IsConsistent r)
    (at : get id r.missions_by_id ≡ some m) where
  promote_keeps :
      (b : MissionBinding) (e : MissionEvidence) → get id (promote r b e).0.missions_by_id ≡ some m
  promote_keeps b e = elim (promote-Outcome r h b e) [
    | inl (x, same) ↦ rw same at
    | inr (inl (n, found, bound, same)) ↦ rw same at
    | inr (inr (free, fresh, valid, same)) ↦
        let kept : get id (set b.mission_id (capture_record b e) r.missions_by_id) ≡ some m =
          ground (arith, get-set b.mission_id id (capture_record b e) r.missions_by_id) in
        rw same kept
  ]

  promote-Kept : (b : MissionBinding) (e : MissionEvidence) → Kept (promote r b e).0 id m
  promote-Kept b e = (m, promote_keeps b e, Grows-refl m)

  store-Kept :
      (j : String) (t : MissionTransition) (n n' : MissionRecord)
      → get j r.missions_by_id ≡ some n
      → Move n t n'
      → Kept (store r j n') id m
  store-Kept j t n n' found mv = elim (str_dec j id) [
    | yes here ↦
        let old : n ≡ m = ground arith in
        (
          n',
          subst (λ k. get k (set j n' r.missions_by_id) ≡ some n') here
              (get-set_self j n' r.missions_by_id),
          subst (λ k. Grows k n') old (Move-Grows mv),
        )
    | no other ↦ (m, get-set_ne j id n' r.missions_by_id other ∙ at, Grows-refl m)
  ]

  transition-Kept : (j : String) (t : MissionTransition) → Kept (transition r j t).0 id m
  transition-Kept j t = elim (transition-Outcome r j t) [
    | inl (x, same) ↦ rw same (m, at, Grows-refl m)
    | inr (n, n', found, mv, same) ↦ rw same (store-Kept j t n n' found mv)
  ]

after-Kept :
    (r : MissionRepository) (c : Call) (id : String) (m : MissionRecord)
    → IsConsistent r
    → get id r.missions_by_id ≡ some m
    → Kept (after r c) id m
unfolding after
after-Kept r (promotes b e) id m h at = promote-Kept r id m h at b e
after-Kept r (transitions j t) id m h at = transition-Kept r id m h at j t

-- No history loses a mission, rebinds it or rewrites its log: its evidence only grows at the end,
-- and the new evidence is that of a walk along the diagram from the old state to the new one.
pub run-Kept :
    (r : MissionRepository) (cs : List Call) (id : String) (m : MissionRecord)
    → IsConsistent r
    → get id r.missions_by_id ≡ some m
    → Kept (run r cs) id m
unfolding run
run-Kept r [] id m h at = (m, at, Grows-refl m)
run-Kept r (c ∷ cs) id m h at =
    let (n, found, grows) = after-Kept r c id m h at in
    let (n', found', grows') = run-Kept (after r c) cs id n (after-IsConsistent r c h) found in
    (n', found', Grows-trans grows grows')

-- The log tells the whole story of a mission: a capture, then a walk from `captured`.
pub record IsLogged (m : MissionRecord) : Type 0 where
  pub first : MissionEvidence
  pub news : List MissionEvidence
  pub log : m.evidence ≡ first ∷ news
  pub is_capture : first.kind ≡ capture
  pub walk : Walk captured news m.state

abbrev pub AllLogged : MissionRepository → Type 0
AllLogged r = (id : String) (m : MissionRecord) → get id r.missions_by_id ≡ some m → IsLogged m

captured-IsLogged :
    (b : MissionBinding) (e : MissionEvidence) → e.kind ≡ capture → IsLogged (capture_record b e)
captured-IsLogged b e k = record { first = e; news = []; log = refl; is_capture = k; walk = stay }

Grows-IsLogged : {m m' : MissionRecord} → IsLogged m → Grows m m' → IsLogged m'
Grows-IsLogged {m} l g = record {
  first = l.first;
  news = l.news ++ g.news;
  log = g.log ∙ ap (λ k. k ++ g.news) l.log;
  is_capture = l.is_capture;
  walk = Walk-append l.walk g.walk;
}

module _ (r : MissionRepository) (h : IsConsistent r) (l : AllLogged r) where
  promote-AllLogged : (b : MissionBinding) (e : MissionEvidence) → AllLogged (promote r b e).0
  promote-AllLogged b e = elim (promote-Outcome r h b e) [
    | inl (x, same) ↦ rw same l
    | inr (inl (n, found, bound, same)) ↦ rw same l
    | inr (inr (free, fresh, valid, same)) ↦ rw same λ id m at. elim (str_dec b.mission_id id) [
      | yes here ↦
          let new : capture_record b e ≡ m =
            ground (arith, get-set b.mission_id id (capture_record b e) r.missions_by_id) in
          subst IsLogged new
            (captured-IsLogged b e (promote-ok_kind r b e (capture_record b e) (rw same)))
      | no other ↦
          l id m (ground (arith, get-set b.mission_id id (capture_record b e) r.missions_by_id))
    ]
  ]

  transition-AllLogged : (j : String) (t : MissionTransition) → AllLogged (transition r j t).0
  transition-AllLogged j t = elim (transition-Outcome r j t) [
    | inl (x, same) ↦ rw same l
    | inr (n, n', found, mv, same) ↦ rw same λ id m at. elim (str_dec j id) [
      | yes here ↦
          let new : n' ≡ m = ground (arith, get-set j id n' r.missions_by_id) in
          subst IsLogged new (Grows-IsLogged (l j n found) (Move-Grows mv))
      | no other ↦ l id m (ground (arith, get-set j id n' r.missions_by_id))
    ]
  ]

after-AllLogged :
    (r : MissionRepository) (c : Call) → IsConsistent r → AllLogged r → AllLogged (after r c)
unfolding after
after-AllLogged r (promotes b e) h l = promote-AllLogged r h l b e
after-AllLogged r (transitions j t) h l = transition-AllLogged r h l j t

run-AllLogged :
    (r : MissionRepository) (cs : List Call) → IsConsistent r → AllLogged r → AllLogged (run r cs)
unfolding run
run-AllLogged r [] h l = l
run-AllLogged r (c ∷ cs) h l =
    run-AllLogged (after r c) cs (after-IsConsistent r c h) (after-AllLogged r c h l)

empty-AllLogged : AllLogged empty
unfolding empty get
empty-AllLogged id m e = absurd (ground arith)

-- In a repository that began empty, the evidence of every mission is a capture followed by the
-- evidence of a walk along the diagram from `captured` to the mission's state.
pub run-IsLogged :
    (cs : List Call) (id : String) (m : MissionRecord)
    → get id (run empty cs).missions_by_id ≡ some m
    → IsLogged m
run-IsLogged cs = run-AllLogged empty cs empty-IsConsistent empty-AllLogged

transition_keeps :
    (r : MissionRepository) (j : String) (t : MissionTransition) (id : String) (m : MissionRecord)
    → get id r.missions_by_id ≡ some m
    → (m.state ≡ done) ⊎ (m.state ≡ cancelled)
    → get id (transition r j t).0.missions_by_id ≡ some m
transition_keeps r j t id m at over = elim (transition-Outcome r j t) [
  | inl (x, same) ↦ rw same at
  | inr (n, n', found, mv, same) ↦ elim (str_dec j id) [
    | yes here ↦ let stuck = transition_terminal r j m t (rw here at) over in absurd (ground arith)
    | no other ↦ rw same (get-set_ne j id n' r.missions_by_id other ∙ at)
  ]
]

after_terminal :
    (r : MissionRepository) (c : Call) (id : String) (m : MissionRecord)
    → IsConsistent r
    → get id r.missions_by_id ≡ some m
    → (m.state ≡ done) ⊎ (m.state ≡ cancelled)
    → get id (after r c).missions_by_id ≡ some m
unfolding after
after_terminal r (promotes b e) id m h at over = promote_keeps r id m h at b e
after_terminal r (transitions j t) id m h at over = transition_keeps r j t id m at over

-- A completed or cancelled mission is never changed again, whatever calls follow.
pub run_terminal :
    (r : MissionRepository) (cs : List Call) (id : String) (m : MissionRecord)
    → IsConsistent r
    → get id r.missions_by_id ≡ some m
    → (m.state ≡ done) ⊎ (m.state ≡ cancelled)
    → get id (run r cs).missions_by_id ≡ some m
unfolding run
run_terminal r [] id m h at over = at
run_terminal r (c ∷ cs) id m h at over =
    run_terminal (after r c) cs id m (after-IsConsistent r c h) (after_terminal r c id m h at over)
      over
