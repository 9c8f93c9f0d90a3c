-- ===== src/Bindings/Lookups.antt =====
-- repositories/factoryFloorBindingRepository.ts: what the reads return.
use discordagent.Base.{
  ℕ, String, Bool, true, false, not, ◌≡◌, ◌↔◌, refl, sym, ◌∙◌, subst, ap, Option, none, some, [],
  ◌∷◌, ◌&&◌, arith, str_dec, Bool-cases, inl, inr,
}
use discordagent.Dict.{Dict, get, is_some}
use discordagent.Text.{trim}
use discordagent.Tasks.Rows.{ProjectRow, TaskHost}
use discordagent.Tasks.Repository.{find_project}
use discordagent.Bindings.Rows.{ProjectBindingRow, SurfaceBindingRow, RunBindingRow, BindingStore}
use discordagent.Bindings.Runs.{
  is_active_on, retire_surface, is_surface, on_surface, retired_surface, retired_run,
}
use discordagent.Bindings.Tables.{get-update_all, before_update, updated, map_option}
use discordagent.Bindings.Finds.{
  only_if, keyed, project_is_active, active_surface, find_surface_by_id, find_run,
}
use discordagent.Bindings.Invariant.{IsNested}

only_if_iff {ℓ} :
    {V : Type ℓ} (test : V → Bool) (o : Option V) (v : V)
    → (only_if test o ≡ some v) ↔ ((o ≡ some v) × (test v ≡ true))
unfolding only_if
only_if_iff test none v = (λ e. absurd (ground arith), λ e. absurd (ground arith))
only_if_iff test (some w) v = elim (Bool-cases (test w)) [
  | inl passes ↦ (
    λ e. (ground arith, let same : w ≡ v = ground arith in subst (λ x. test x ≡ true) same passes),
    λ e. ground arith,
  )
  | inr fails ↦ (
    λ e. absurd (ground arith),
    λ (e, p).
        let same : w ≡ v = ground arith in
        absurd (ground (arith, subst (λ x. test x ≡ false) same fails)),
  )
]

keyed_iff {ℓ} :
    {V : Type ℓ} (k j : String) (o : Option V) (v : V)
    → (keyed k o ≡ some (j, v)) ↔ ((k ≡ j) × (o ≡ some v))
keyed_iff k j none v = (λ e. absurd (ground arith), λ e. absurd (ground arith))
keyed_iff k j (some w) v = (λ e. (ground arith, ground arith), λ e. ground arith)

find_project-own_name :
    (h : TaskHost) (name : String) (d : Dict ProjectRow) (id : String) (p : ProjectRow)
    → get id d ≡ some p
    → p.archived_at ≡ none
    → h.same_name p.name name ≡ true
    → is_some (find_project h name d) ≡ true
unfolding find_project get
find_project-own_name h name [] id p at open_ same = absurd (ground arith)
find_project-own_name h name ((j, q) ∷ d) id p at open_ same =
    elim (Bool-cases (h.same_name q.name name && not (is_some q.archived_at))) [
      | inl here ↦ ground arith
      | inr other ↦ elim (str_dec j id) [
        | yes own ↦
            let this : q ≡ p = ground arith in
            absurd (
              ground (
                arith,
                subst (λ x. h.same_name x.name name && not (is_some x.archived_at) ≡ false) this
                    other,
              ))
        | no later ↦ ground (arith, find_project-own_name h name d id p (ground arith) open_ same)
      ]
    ]

-- A bound project passes `projectIsActive`.
bound_project-active :
    (h : TaskHost) (s : BindingStore) (id : String) (b : ProjectBindingRow)
    → ((name : String) → h.same_name name name ≡ true)
    → IsNested s
    → get id s.project_bindings ≡ some b
    → b.retired_at ≡ none
    → project_is_active h s id ≡ true
unfolding project_is_active
bound_project-active h s id b reflexive k at active =
    let (p, there, open_) = k.bound id b at in
    rw (there, project_is_active)
      (find_project-own_name h p.name s.projects id p there (open_ active) (reflexive p.name))

surface_project-active :
    (h : TaskHost) (s : BindingStore) (id : String) (r : SurfaceBindingRow)
    → ((name : String) → h.same_name name name ≡ true)
    → IsNested s
    → get id s.surfaces ≡ some r
    → r.retired_at ≡ none
    → project_is_active h s r.local_project_id ≡ true
surface_project-active h s id r reflexive k at active =
    let (b, there, guild, open_) = k.placed id r at in
    bound_project-active h s r.local_project_id b reflexive k there (open_ active)

run_project-active :
    (h : TaskHost) (s : BindingStore) (id : String) (x : RunBindingRow)
    → ((name : String) → h.same_name name name ≡ true)
    → IsNested s
    → get id s.runs ≡ some x
    → x.retired_at ≡ none
    → project_is_active h s x.local_project_id ≡ true
run_project-active h s id x reflexive k at active =
    let (r, there, own, open_) = k.hosted id x at in
    subst (λ p. project_is_active h s p ≡ true) own
      (surface_project-active h s x.surface_id r reflexive k there (open_ active))

-- Among nested bindings, and where a name is the same as itself: `findSurfaceById` returns exactly
-- the stored surface that is not retired, and `findRun` exactly the stored run that is not retired.
-- No active row is hidden because its project is archived.
pub finds_iff :
    (h : TaskHost) (s : BindingStore) (id k : String)
    → ((name : String) → h.same_name name name ≡ true)
    → IsNested s
    → ((r : SurfaceBindingRow)
        → (find_surface_by_id h s id ≡ some (k, r))
          ↔ ((trim id ≡ k) × (get k s.surfaces ≡ some r) × (r.retired_at ≡ none)))
      × ((x : RunBindingRow)
          → (find_run h s id ≡ some (k, x))
            ↔ ((trim id ≡ k) × (get k s.runs ≡ some x) × (x.retired_at ≡ none)))
unfolding find_surface_by_id find_run active_surface
finds_iff h s id k reflexive nested = (
  λ r. (
    λ e.
        let (found, active) =
          (only_if_iff _ (keyed (trim id) (get (trim id) s.surfaces)) (k, r)).0 e in
        let (same, at) = (keyed_iff (trim id) k (get (trim id) s.surfaces) r).0 found in
        (same, subst (λ j. get j s.surfaces ≡ some r) same at, ground arith),
    λ (same, at, active).
        let here : get (trim id) s.surfaces ≡ some r =
          subst (λ j. get j s.surfaces ≡ some r) (sym same) at in
        (only_if_iff _ (keyed (trim id) (get (trim id) s.surfaces)) (k, r)).1 (
          (keyed_iff (trim id) k (get (trim id) s.surfaces) r).1 (same, here),
          ground (arith, surface_project-active h s k r reflexive nested at active),
        ),
  ),
  λ x. (
    λ e.
        let (found, active) = (only_if_iff _ (keyed (trim id) (get (trim id) s.runs)) (k, x)).0 e in
        let (same, at) = (keyed_iff (trim id) k (get (trim id) s.runs) x).0 found in
        (same, subst (λ j. get j s.runs ≡ some x) same at, ground arith),
    λ (same, at, active).
        let here : get (trim id) s.runs ≡ some x =
          subst (λ j. get j s.runs ≡ some x) (sym same) at in
        (only_if_iff _ (keyed (trim id) (get (trim id) s.runs)) (k, x)).1 (
          (keyed_iff (trim id) k (get (trim id) s.runs) x).1 (same, here),
          ground (arith, run_project-active h s k x reflexive nested at active),
        ),
  ),
)

retired_row_hidden :
    (h : TaskHost) (s : BindingStore) (k : String) (now : ℕ) (o : Option SurfaceBindingRow)
    → active_surface h s (keyed k (map_option (updated (is_surface k) (retired_surface now) k) o))
      ≡ none
unfolding active_surface only_if
retired_row_hidden h s k now none = refl
retired_row_hidden h s k now (some r) = elim (Bool-cases (is_some r.retired_at)) [
  | inl already ↦ ground arith
  | inr active ↦ ground arith
]

-- After `retireSurface` the surface is not found by its id, and no run of it is active.
pub retire_surface_ends :
    (h : TaskHost) (s : BindingStore) (id : String) (now : ℕ)
    → (find_surface_by_id h (retire_surface s id now).0 id ≡ none)
      × ((j : String) (x : RunBindingRow)
          → get j (retire_surface s id now).0.runs ≡ some x
          → is_active_on (trim id) x ≡ false)
unfolding find_surface_by_id active_surface retire_surface only_if
retire_surface_ends h s id now = (
  let test : String → SurfaceBindingRow → Bool = is_surface (trim id) in
      ap (λ o. active_surface h (retire_surface s id now).0 (keyed (trim id) o))
        (get-update_all test (retired_surface now) (trim id) s.surfaces)
      ∙ retired_row_hidden h (retire_surface s id now).0 (trim id) now (get (trim id) s.surfaces),
  λ j x e.
      let (v, at, same) = before_update (on_surface (trim id)) (retired_run now) j s.runs x e in
      elim (Bool-cases (is_active_on (trim id) v)) [
        | inl was ↦
            let this : retired_run now v ≡ x = ground arith in
            subst (λ y. is_active_on (trim id) y ≡ false) this (ground arith)
        | inr was ↦
            let this : v ≡ x = ground arith in
            subst (λ y. is_active_on (trim id) y ≡ false) this was
      ],
)
