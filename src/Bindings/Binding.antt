-- ===== src/Bindings/Binding.antt =====
-- repositories/factoryFloorBindingRepository.ts: `bindProject` and `bindRun` keep the invariant.
use discordagent.Base.{
  ℕ, String, true, false, not, ◌≡◌, refl, sym, subst, Option, none, some, [], ◌∷◌, ◌==◌, ◌&&◌, ◌||◌,
  any, arith, str_dec, Option-cases, Bool-cases, inl, inr, ok, >>=-eq-ok, throw_if-eq-ok,
}
use discordagent.Dict.{Dict, get, set, is_some}
use discordagent.Dict.Distinct.{IsDistinct}
use discordagent.Tasks.Rows.{ProjectRow, TaskHost}
use discordagent.Tasks.Repository.{find_project}
use discordagent.Bindings.Rows.{
  ProjectBindingRow, SurfaceBindingRow, RunBindingRow, BindingStore, BindProjectInput, BindRunInput,
}
use discordagent.Bindings.Repository.{
  local_project, active_project, active_binding, new_binding, rebound, bind_project_row,
  bind_project, required,
}
use discordagent.Bindings.Runs.{
  is_active_on, other_run, new_run, resumed, bind_run_row, active_surface_row, bind_run,
}
use discordagent.Bindings.Tables.{none_passes}
use discordagent.Bindings.Invariant.{has_factory, IsNested, binding-IsNested, run-IsNested}

-- The project that the name leads to is stored and not archived.
pub find_project-open :
    (h : TaskHost) (name : String) (d : Dict ProjectRow) (id : String)
    → IsDistinct d
    → find_project h name d ≡ some id
    → (p : ProjectRow) × (get id d ≡ some p) × (p.archived_at ≡ none)
unfolding find_project get
find_project-open h name [] id distinct e = absurd (ground arith)
find_project-open h name ((j, p) ∷ d) id (free, distinct) e =
    elim (Bool-cases (h.same_name p.name name && not (is_some p.archived_at))) [
      | inl here ↦ (p, ground arith, ground arith)
      | inr other ↦
          let (q, at, open_) = find_project-open h name d id distinct (ground arith) in
          (q, ground arith, open_)
    ]

local_project-open :
    (h : TaskHost) (s : BindingStore) (name id : String)
    → IsDistinct s.projects
    → local_project h s name ≡ ok id
    → (p : ProjectRow) × (get id s.projects ≡ some p) × (p.archived_at ≡ none)
unfolding local_project
local_project-open h s name id distinct e =
    let (trimmed, given, found) = >>=-eq-ok (required name "project_name_required") _ e in
    elim (Option-cases (find_project h trimmed s.projects)) [
      | inl gone ↦ absurd (ground arith)
      | inr (j, at) ↦ find_project-open h trimmed s.projects id distinct (ground arith)
    ]

pub active_project-stored :
    (h : TaskHost) (s : BindingStore) (name id : String) (b : ProjectBindingRow)
    → active_project h s name ≡ ok (id, b)
    → (get id s.project_bindings ≡ some b) × (b.retired_at ≡ none)
unfolding active_project
active_project-stored h s name id b e =
    let (j, local, found) = >>=-eq-ok (local_project h s name) _ e in
    stored j (get j s.project_bindings) refl found
  where
    stored :
        (j : String) (o : Option ProjectBindingRow)
        → get j s.project_bindings ≡ o
        → active_binding j o ≡ ok (id, b)
        → (get id s.project_bindings ≡ some b) × (b.retired_at ≡ none)
    stored j none at e = absurd (ground arith)
    stored j (some c) at e = elim (Bool-cases (is_some c.retired_at)) [
      | inl retired ↦ absurd (ground arith)
      | inr active ↦
          let same_id : j ≡ id = ground arith in
          let same : c ≡ b = ground arith in
          (subst (λ k. get k s.project_bindings ≡ some b) same_id (ground arith), ground arith)
    ]

bind_project_row-IsNested :
    (s : BindingStore) (id factory guild : String) (now : ℕ) (p : ProjectRow) (s' : BindingStore)
    (k : String)
    → IsNested s
    → get id s.projects ≡ some p
    → p.archived_at ≡ none
    → bind_project_row s id factory guild now (get id s.project_bindings) ≡ ok (s', k)
    → IsNested s'
unfolding bind_project_row
bind_project_row-IsNested s id factory guild now p s' k h at open_ e =
    elim (Option-cases (get id s.project_bindings)) [
      | inl free ↦
          elim (Bool-cases
            (any (λ e. e.1.factory_floor_project_id == factory) s.project_bindings)) [
              | inl taken ↦ absurd (ground arith)
              | inr spare ↦
                  let new = new_binding factory guild now in
                  let written : record s { project_bindings = set id new s.project_bindings } ≡ s' =
                    ground arith in
                  subst IsNested written (
                    binding-IsNested s id new p h at open_ refl
                      (λ j b there q. absurd (
                        ground (
                          arith,
                          none_passes (has_factory factory) s.project_bindings j b spare there,
                        )))
                      (λ b there. absurd (ground arith)))
            ]
      | inr (b, stored) ↦
          elim (Bool-cases
            (not (b.factory_floor_project_id == factory) || not (b.guild_id == guild))) [
              | inl other ↦ absurd (ground arith)
              | inr same ↦ elim (Bool-cases (is_some b.retired_at)) [
                | inr active ↦ let kept : s ≡ s' = ground arith in subst IsNested kept h
                | inl retired ↦
                    let new = rebound now b in
                    let written : record s { project_bindings = set id new s.project_bindings }
                        ≡ s' =
                      ground arith in
                    subst IsNested written (
                      binding-IsNested s id new p h at open_ refl
                        (λ j c there q.
                          h.one_factory b.factory_floor_project_id j id c b there stored q
                            (ground arith))
                        (λ c there. ground arith))
              ]
            ]
    ]

pub bind_project-IsNested :
    (h : TaskHost) (s : BindingStore) (input : BindProjectInput) (now : ℕ) (s' : BindingStore)
    (k : String)
    → IsNested s
    → bind_project h s input now ≡ ok (s', k)
    → IsNested s'
unfolding bind_project
bind_project-IsNested h s input now s' k nested e =
    let (id, local, e1) = >>=-eq-ok (local_project h s input.project_name) _ e in
    let (factory, given, e2) =
      >>=-eq-ok (required input.factory_floor_project_id "factory_floor_project_id_required") _
        e1 in
    let (guild, named, e3) = >>=-eq-ok (required input.guild_id "guild_id_required") _ e2 in
    let (p, at, open_) = local_project-open h s input.project_name id nested.projects local in
    bind_project_row-IsNested s id factory guild now p s' k nested at open_ e3

none_other :
    (surface run : String) (d : Dict RunBindingRow) (j : String) (x : RunBindingRow)
    → any (other_run surface run) d ≡ false
    → get j d ≡ some x
    → is_active_on surface x && not (j == run) ≡ false
unfolding get
none_other surface run [] j x free there = absurd (ground arith)
none_other surface run ((i, y) ∷ d) j x free there = elim (str_dec i j) [
  | yes same ↦ ground arith
  | no other ↦ none_other surface run d j x (ground arith) (ground arith)
]

bind_run_row-IsNested :
    (s : BindingStore) (project surface run : String) (now : ℕ) (r : SurfaceBindingRow)
    (s' : BindingStore) (k : String)
    → IsNested s
    → get surface s.surfaces ≡ some r
    → r.retired_at ≡ none
    → r.local_project_id ≡ project
    → any (other_run surface run) s.runs ≡ false
    → bind_run_row s project surface run now (get run s.runs) ≡ ok (s', k)
    → IsNested s'
unfolding bind_run_row
bind_run_row-IsNested s project surface run now r s' k h at active own spare e =
    let alone : (j : String) (x : RunBindingRow)
        → get j s.runs ≡ some x
        → is_active_on surface x ≡ true
        → j ≡ run =
      λ j x there q. elim (str_dec j run) [
        | yes same ↦ same
        | no other ↦ absurd (ground (arith, none_other surface run s.runs j x spare there))
      ] in
    elim (Option-cases (get run s.runs)) [
      | inl free ↦
          let written : record s { runs = set run (new_run project surface now) s.runs } ≡ s' =
            ground arith in
          subst IsNested written
            (run-IsNested s run (new_run project surface now) r h at own active alone)
      | inr (x, stored) ↦
          elim (Bool-cases (not (x.local_project_id == project) || not (x.surface_id == surface))) [
            | inl other ↦ absurd (ground arith)
            | inr same ↦ elim (Bool-cases (is_some x.retired_at)) [
              | inr running ↦ let kept : s ≡ s' = ground arith in subst IsNested kept h
              | inl retired ↦
                  let written : record s { runs = set run (resumed now x) s.runs } ≡ s' =
                    ground arith in
                  let here : surface ≡ x.surface_id = ground arith in
                  subst IsNested written (
                    run-IsNested s run (resumed now x) r h (ground arith) (ground arith) active
                      (λ j y there q.
                        alone j y there (subst (λ t. is_active_on t y ≡ true) (sym here) q)))
            ]
          ]
    ]

pub bind_run-IsNested :
    (h : TaskHost) (s : BindingStore) (input : BindRunInput) (now : ℕ) (s' : BindingStore)
    (k : String)
    → IsNested s
    → bind_run h s input now ≡ ok (s', k)
    → IsNested s'
unfolding bind_run
bind_run-IsNested h s input now s' k nested e =
    let (bound, local, e1) = >>=-eq-ok (active_project h s input.project_name) _ e in
    let (run, given, e2) = >>=-eq-ok (required input.run_id "run_id_required") _ e1 in
    let (surface, named, e3) = >>=-eq-ok (required input.surface_id "surface_id_required") _ e2 in
    let (r, found, e4) = >>=-eq-ok (active_surface_row (get surface s.surfaces)) _ e3 in
    let (own, e5) = throw_if-eq-ok (not (r.local_project_id == bound.0)) _ _ e4 in
    let (spare, e6) = throw_if-eq-ok (any (other_run surface run) s.runs) _ _ e5 in
    let (at, active) = active_row surface (get surface s.surfaces) r refl found in
    bind_run_row-IsNested s bound.0 surface run now r s' k nested at active (ground arith) spare e6
  where
    active_row :
        (surface : String) (o : Option SurfaceBindingRow) (r : SurfaceBindingRow)
        → get surface s.surfaces ≡ o
        → active_surface_row o ≡ ok r
        → (get surface s.surfaces ≡ some r) × (r.retired_at ≡ none)
    active_row surface none r at e = absurd (ground arith)
    active_row surface (some c) r at e = elim (Bool-cases (is_some c.retired_at)) [
      | inl retired ↦ absurd (ground arith)
      | inr active ↦ let same : c ≡ r = ground arith in (ground arith, ground arith)
    ]
