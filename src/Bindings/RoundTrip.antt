-- ===== src/Bindings/RoundTrip.antt =====
-- repositories/factoryFloorBindingRepository.ts: what is bound is found.
use discordagent.Base.{
  ℕ, String, true, not, ◌≡◌, refl, sym, ◌∙◌, subst, none, some, ◌==◌, ◌||◌, any, arith,
  Option-cases, Bool-cases, inl, inr, ok, >>=-eq-ok, throw_if-eq-ok, is_empty,
}
use discordagent.Dict.{get, set, is_some}
use discordagent.Dict.Index.{get-set_self}
use discordagent.Text.{trim}
use discordagent.Tasks.Rows.{TaskHost}
use discordagent.Bindings.Rows.{RunBindingRow, BindingStore, BindRunInput}
use discordagent.Bindings.Repository.{required, active_project}
use discordagent.Bindings.Runs.{
  other_run, new_run, resumed, bind_run_row, active_surface_row, bind_run,
}
use discordagent.Bindings.Finds.{find_run}
use discordagent.Bindings.Invariant.{IsNested}
use discordagent.Bindings.Binding.{bind_run-IsNested}
use discordagent.Bindings.Lookups.{finds_iff}

pub required-eq : (value message t : String) → required value message ≡ ok t → trim value ≡ t
unfolding required
required-eq value message t e = elim (Bool-cases (is_empty (trim value))) [
  | inl missing ↦ absurd (ground arith)
  | inr given ↦ ground arith
]

bind_run_row-stored :
    (s : BindingStore) (project surface run : String) (now : ℕ) (s' : BindingStore) (k : String)
    → bind_run_row s project surface run now (get run s.runs) ≡ ok (s', k)
    → (run ≡ k)
      × (x : RunBindingRow) × (get run s'.runs ≡ some x)
      × (x.surface_id ≡ surface)
      × (x.local_project_id ≡ project)
      × (x.retired_at ≡ none)
unfolding bind_run_row
bind_run_row-stored s project surface run now s' k e = elim (Option-cases (get run s.runs)) [
  | inl free ↦
      let new = new_run project surface now in
      let written : set run new s.runs ≡ s'.runs = ground arith in
      (
        ground arith,
        new,
        subst (λ d. get run d ≡ some new) written (get-set_self run new s.runs),
        refl,
        refl,
        refl,
      )
  | inr (x, stored) ↦
      elim (Bool-cases (not (x.local_project_id == project) || not (x.surface_id == surface))) [
        | inl other ↦ absurd (ground arith)
        | inr same ↦ elim (Bool-cases (is_some x.retired_at)) [
          | inr running ↦
              let kept : s.runs ≡ s'.runs = ground arith in
              (
                ground arith,
                x,
                subst (λ d. get run d ≡ some x) kept stored,
                ground arith,
                ground arith,
                ground arith,
              )
          | inl retired ↦
              let new = resumed now x in
              let written : set run new s.runs ≡ s'.runs = ground arith in
              (
                ground arith,
                new,
                subst (λ d. get run d ≡ some new) written (get-set_self run new s.runs),
                ground arith,
                ground arith,
                refl,
              )
        ]
      ]
]

-- Among nested bindings, and where a name is the same as itself: after `bindRun` returns, `findRun`
-- with the same run id returns the row with the returned id, which is active, of the surface given.
pub bind_run_found :
    (h : TaskHost) (s : BindingStore) (input : BindRunInput) (now : ℕ) (s' : BindingStore)
    (k : String)
    → ((name : String) → h.same_name name name ≡ true)
    → IsNested s
    → bind_run h s input now ≡ ok (s', k)
    → (x : RunBindingRow) × (find_run h s' input.run_id ≡ some (k, x))
      × (x.surface_id ≡ trim input.surface_id)
      × (x.retired_at ≡ none)
unfolding bind_run
bind_run_found h s input now s' k reflexive nested e =
    let (bound, local, e1) = >>=-eq-ok (active_project h s input.project_name) _ e in
    let (run, given, e2) = >>=-eq-ok (required input.run_id "run_id_required") _ e1 in
    let (surface, named, e3) = >>=-eq-ok (required input.surface_id "surface_id_required") _ e2 in
    let (r, found, e4) = >>=-eq-ok (active_surface_row (get surface s.surfaces)) _ e3 in
    let (own, e5) = throw_if-eq-ok (not (r.local_project_id == bound.0)) _ _ e4 in
    let (spare, e6) = throw_if-eq-ok (any (other_run surface run) s.runs) _ _ e5 in
    let (same, x, at, placed, of_project, active) =
      bind_run_row-stored s bound.0 surface run now s' k e6 in
    let after = bind_run-IsNested h s input now s' k nested e in
    (
      x,
      ((finds_iff h s' input.run_id k reflexive after).1 x).1 (
        required-eq input.run_id "run_id_required" run given ∙ same,
        subst (λ j. get j s'.runs ≡ some x) same at,
        active,
      ),
      placed ∙ sym (required-eq input.surface_id "surface_id_required" surface named),
      active,
    )
