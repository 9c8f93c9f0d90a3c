-- ===== src/Bindings/Invariant.antt =====
-- repositories/factoryFloorBindingRepository.ts: the invariant of the bindings, and the writes of one
-- row that keep it.
use discordagent.Base.{String, Bool, true, ◌≡◌, sym, ◌∙◌, subst, none, some, ◌==◌, arith, str_dec}
use discordagent.Dict.{get, set}
use discordagent.Dict.Laws.{get-set}
use discordagent.Dict.Distinct.{IsDistinct, set-IsDistinct}
use discordagent.Tasks.Rows.{ProjectRow}
use discordagent.Bindings.Rows.{ProjectBindingRow, SurfaceBindingRow, RunBindingRow, BindingStore}
use discordagent.Bindings.Runs.{is_active_on}
use discordagent.Bindings.Tables.{IsUniqueFor, set-IsUniqueFor}
use discordagent.Bindings.Candidates.{AreUnique}

abbrev pub has_factory : String → ProjectBindingRow → Bool
has_factory t b = b.factory_floor_project_id == t

-- A binding of a project has its project, which is not archived while the binding is active; a
-- surface has its project's binding, in the same guild, which is active while the surface is; a run
-- has a surface of its project, which is active while the run is. Outside ids, identities of
-- surfaces and active runs of a surface belong to one row each.
pub record IsNested (s : BindingStore) : Type 0 where
  pub projects : IsDistinct s.projects
  pub distinct : IsDistinct s.surfaces
  pub identities : AreUnique s.surfaces
  pub one_factory : (t : String) → IsUniqueFor (has_factory t) s.project_bindings
  pub one_run : (surface : String) → IsUniqueFor (is_active_on surface) s.runs
  pub bound :
      (id : String) (b : ProjectBindingRow)
      → get id s.project_bindings ≡ some b
      → (p : ProjectRow) × (get id s.projects ≡ some p)
        × (b.retired_at ≡ none → p.archived_at ≡ none)
  pub placed :
      (id : String) (r : SurfaceBindingRow)
      → get id s.surfaces ≡ some r
      → (b : ProjectBindingRow) × (get r.local_project_id s.project_bindings ≡ some b)
        × (b.guild_id ≡ r.guild_id)
        × (r.retired_at ≡ none → b.retired_at ≡ none)
  pub hosted :
      (id : String) (x : RunBindingRow)
      → get id s.runs ≡ some x
      → (r : SurfaceBindingRow) × (get x.surface_id s.surfaces ≡ some r)
        × (r.local_project_id ≡ x.local_project_id)
        × (x.retired_at ≡ none → r.retired_at ≡ none)

pub binding-IsNested :
    (s : BindingStore) (id : String) (new : ProjectBindingRow) (p : ProjectRow)
    → IsNested s
    → get id s.projects ≡ some p
    → p.archived_at ≡ none
    → new.retired_at ≡ none
    → ((j : String) (b : ProjectBindingRow)
        → get j s.project_bindings ≡ some b
        → has_factory new.factory_floor_project_id b ≡ true
        → j ≡ id)
    → ((b : ProjectBindingRow) → get id s.project_bindings ≡ some b → b.guild_id ≡ new.guild_id)
    → IsNested (record s { project_bindings = set id new s.project_bindings })
binding-IsNested s id new p h there open_ active own guild = record {
  projects = h.projects;
  distinct = h.distinct;
  identities = h.identities;
  one_factory = λ t.
      set-IsUniqueFor (has_factory t) id new s.project_bindings (h.one_factory t)
        (λ passes j b at q. own j b at (ground arith));
  one_run = h.one_run;
  bound = λ j b e. elim (str_dec id j) [
    | yes same ↦ (p, ground arith, λ _. open_)
    | no other ↦ h.bound j b (ground (arith, get-set id j new s.project_bindings))
  ];
  placed = λ j r e.
      let (b, at, same_guild, nested) = h.placed j r e in
      elim (str_dec id r.local_project_id) [
        | yes same ↦
            let old : get id s.project_bindings ≡ some b = ground arith in
            (
              new,
              ground (arith, get-set id r.local_project_id new s.project_bindings),
              sym (guild b old) ∙ same_guild,
              λ _. active,
            )
        | no other ↦ (
          b,
          ground (arith, get-set id r.local_project_id new s.project_bindings),
          same_guild,
          nested,
        )
      ];
  hosted = h.hosted;
}

pub surface-IsNested :
    (s : BindingStore) (id : String) (new : SurfaceBindingRow) (b : ProjectBindingRow)
    → IsNested s
    → get new.local_project_id s.project_bindings ≡ some b
    → b.guild_id ≡ new.guild_id
    → b.retired_at ≡ none
    → new.retired_at ≡ none
    → AreUnique (set id new s.surfaces)
    → ((r : SurfaceBindingRow)
        → get id s.surfaces ≡ some r
        → r.local_project_id ≡ new.local_project_id)
    → IsNested (record s { surfaces = set id new s.surfaces })
surface-IsNested s id new b h at guild active open_ identities project = record {
  projects = h.projects;
  distinct = set-IsDistinct id new s.surfaces h.distinct;
  identities = identities;
  one_factory = h.one_factory;
  one_run = h.one_run;
  bound = h.bound;
  placed = λ j r e. elim (str_dec id j) [
    | yes same ↦
        let here : new ≡ r = ground (arith, get-set id j new s.surfaces) in
        subst
          (λ (x : SurfaceBindingRow).
            (c : ProjectBindingRow) × (get x.local_project_id s.project_bindings ≡ some c)
            × (c.guild_id ≡ x.guild_id)
            × (x.retired_at ≡ none → c.retired_at ≡ none))
          here (b, at, guild, λ _. active)
    | no other ↦ h.placed j r (ground (arith, get-set id j new s.surfaces))
  ];
  hosted = λ j x e.
      let (r, there, same_project, nested) = h.hosted j x e in
      elim (str_dec id x.surface_id) [
        | yes same ↦
            let old : get id s.surfaces ≡ some r = ground arith in
            (
              new,
              ground (arith, get-set id x.surface_id new s.surfaces),
              sym (project r old) ∙ same_project,
              λ _. open_,
            )
        | no other ↦
            (r, ground (arith, get-set id x.surface_id new s.surfaces), same_project, nested)
      ];
}

pub run-IsNested :
    (s : BindingStore) (id : String) (new : RunBindingRow) (r : SurfaceBindingRow)
    → IsNested s
    → get new.surface_id s.surfaces ≡ some r
    → r.local_project_id ≡ new.local_project_id
    → r.retired_at ≡ none
    → ((j : String) (x : RunBindingRow)
        → get j s.runs ≡ some x
        → is_active_on new.surface_id x ≡ true
        → j ≡ id)
    → IsNested (record s { runs = set id new s.runs })
run-IsNested s id new r h at project active own = record {
  projects = h.projects;
  distinct = h.distinct;
  identities = h.identities;
  one_factory = h.one_factory;
  one_run = λ surface.
      set-IsUniqueFor (is_active_on surface) id new s.runs (h.one_run surface)
        (λ passes j x there q.
          let same : new.surface_id ≡ surface = ground arith in
          own j x there (subst (λ t. is_active_on t x ≡ true) (sym same) q));
  bound = h.bound;
  placed = h.placed;
  hosted = λ j x e. elim (str_dec id j) [
    | yes same ↦
        let here : new ≡ x = ground (arith, get-set id j new s.runs) in
        subst
          (λ (y : RunBindingRow).
            (c : SurfaceBindingRow) × (get y.surface_id s.surfaces ≡ some c)
            × (c.local_project_id ≡ y.local_project_id)
            × (y.retired_at ≡ none → c.retired_at ≡ none))
          here (r, at, project, λ _. active)
    | no other ↦ h.hosted j x (ground (arith, get-set id j new s.runs))
  ];
}
