-- ===== src/Bindings/Retiring.antt =====
-- repositories/factoryFloorBindingRepository.ts: what retires bindings keeps the invariant.
use discordagent.Base.{
  ℕ, String, Bool, ◌≡◌, some, arith, str_dec, Option-cases, Bool-cases, inl, inr,
}
use discordagent.Dict.{Dict, get, set, is_some}
use discordagent.Dict.Laws.{get-set}
use discordagent.Dict.Distinct.{set-IsDistinct}
use discordagent.Text.{trim}
use discordagent.Tasks.Rows.{ProjectRow, TaskHost}
use discordagent.Bindings.Rows.{SurfaceBindingRow, RunBindingRow, BindingStore}
use discordagent.Bindings.Repository.{has_activity, has_message, has_thread}
use discordagent.Bindings.Runs.{
  is_active_on, update_all, retired_binding, retired_surface, retired_run, binding_of, surface_of,
  run_of, retire_all, find_any_project, retire_project, is_surface, on_surface, retire_surface,
  is_run, retire_run, archived, archive_project,
}
use discordagent.Bindings.Tables.{
  updated, before_update, after_update, update_all-IsDistinct, IsUniqueFor, update_all-IsUniqueFor,
}
use discordagent.Bindings.Candidates.{AreUnique}
use discordagent.Bindings.Invariant.{has_factory, IsNested}

retired-AreUnique :
    (test : String → SurfaceBindingRow → Bool) (now : ℕ) (d : Dict SurfaceBindingRow)
    → AreUnique d
    → AreUnique (update_all test (retired_surface now) d)
retired-AreUnique test now d u = record {
  activity = λ t.
      update_all-IsUniqueFor (has_activity t) test (retired_surface now) d (λ v p. p)
        (u.activity t);
  message = λ t.
      update_all-IsUniqueFor (has_message t) test (retired_surface now) d (λ v p. p) (u.message t);
  thread = λ g c t.
      update_all-IsUniqueFor (has_thread g c t) test (retired_surface now) d (λ v p. p)
        (u.thread g c t);
}

-- A run that is retired is active on no surface.
retired-one_run :
    (test : String → RunBindingRow → Bool) (now : ℕ) (d : Dict RunBindingRow) (surface : String)
    → IsUniqueFor (is_active_on surface) d
    → IsUniqueFor (is_active_on surface) (update_all test (retired_run now) d)
retired-one_run test now d surface =
    update_all-IsUniqueFor (is_active_on surface) test (retired_run now) d
      (λ v p. absurd (ground arith))

pub retire_run-IsNested :
    (s : BindingStore) (run : String) (now : ℕ) → IsNested s → IsNested (retire_run s run now).0
unfolding retire_run
retire_run-IsNested s run now h = record {
  projects = h.projects;
  distinct = h.distinct;
  identities = h.identities;
  one_factory = h.one_factory;
  one_run = λ surface. retired-one_run (is_run (trim run)) now s.runs surface (h.one_run surface);
  bound = h.bound;
  placed = h.placed;
  hosted = λ j x e.
      let (v, at, same) = before_update (is_run (trim run)) (retired_run now) j s.runs x e in
      let (r, there, project, nested) = h.hosted j v at in
      (r, ground arith, ground arith, λ open_. nested (ground arith));
}

pub retire_surface-IsNested :
    (s : BindingStore) (id : String) (now : ℕ) → IsNested s → IsNested (retire_surface s id now).0
unfolding retire_surface
retire_surface-IsNested s id now h =
    let test : String → SurfaceBindingRow → Bool = is_surface (trim id) in
    record {
      projects = h.projects;
      distinct = update_all-IsDistinct test (retired_surface now) s.surfaces h.distinct;
      identities = retired-AreUnique test now s.surfaces h.identities;
      one_factory = h.one_factory;
      one_run =
          λ surface. retired-one_run (on_surface (trim id)) now s.runs surface (h.one_run surface);
      bound = h.bound;
      placed = λ j r e.
          let (v, at, same) = before_update test (retired_surface now) j s.surfaces r e in
          let (b, there, guild, nested) = h.placed j v at in
          (b, ground arith, ground arith, λ open_. nested (ground arith));
      hosted = λ j x e.
          let (v, at, same) = before_update (on_surface (trim id)) (retired_run now) j s.runs x e in
          let (r, there, project, nested) = h.hosted j v at in
          let after = after_update test (retired_surface now) v.surface_id s.surfaces r there in
          (
            updated test (retired_surface now) v.surface_id r,
            ground (arith, after),
            ground arith,
            λ open_. ground (arith, nested),
          );
    }

pub retire_all-IsNested :
    (s : BindingStore) (project : String) (now : ℕ)
    → IsNested s
    → IsNested (retire_all s project now)
unfolding retire_all
retire_all-IsNested s project now h = record {
  projects = h.projects;
  distinct = update_all-IsDistinct (surface_of project) (retired_surface now) s.surfaces h.distinct;
  identities = retired-AreUnique (surface_of project) now s.surfaces h.identities;
  one_factory = λ t.
      update_all-IsUniqueFor (has_factory t) (binding_of project) (retired_binding now)
        s.project_bindings (λ v p. p) (h.one_factory t);
  one_run = λ surface. retired-one_run (run_of project) now s.runs surface (h.one_run surface);
  bound = λ j b e.
      let (v, at, same) =
        before_update (binding_of project) (retired_binding now) j s.project_bindings b e in
      let (p, there, nested) = h.bound j v at in (p, there, λ open_. nested (ground arith));
  placed = λ j r e.
      let (v, at, same) =
        before_update (surface_of project) (retired_surface now) j s.surfaces r e in
      let (b, there, guild, nested) = h.placed j v at in
      let after =
        after_update (binding_of project) (retired_binding now) v.local_project_id
          s.project_bindings b there in
      (
        updated (binding_of project) (retired_binding now) v.local_project_id b,
        ground (arith, after),
        ground arith,
        λ open_. ground (arith, nested),
      );
  hosted = λ j x e.
      let (v, at, same) = before_update (run_of project) (retired_run now) j s.runs x e in
      let (r, there, own, nested) = h.hosted j v at in
      let after =
        after_update (surface_of project) (retired_surface now) v.surface_id s.surfaces r there in
      (
        updated (surface_of project) (retired_surface now) v.surface_id r,
        ground (arith, after),
        ground arith,
        λ open_. ground (arith, nested),
      );
}

pub retire_project-IsNested :
    (h : TaskHost) (s : BindingStore) (name : String) (now : ℕ)
    → IsNested s
    → IsNested (retire_project h s name now).0
unfolding retire_project
retire_project-IsNested h s name now k =
    elim (Option-cases (find_any_project h (trim name) s.projects)) [
      | inl gone ↦ rw (gone, retire_project) k
      | inr (id, found) ↦ rw (found, retire_project) (retire_all-IsNested s id now k)
    ]

-- The bindings of a project are retired before it counts as archived.
archived-IsNested :
    (s : BindingStore) (id : String) (p : ProjectRow) (now : ℕ)
    → IsNested s
    → get id s.projects ≡ some p
    → IsNested (retire_all (record s { projects = set id (archived now p) s.projects }) id now)
unfolding retire_all
archived-IsNested s id p now h at =
    let k = retire_all-IsNested s id now h in
    record {
      projects = set-IsDistinct id (archived now p) s.projects h.projects;
      distinct = k.distinct;
      identities = k.identities;
      one_factory = k.one_factory;
      one_run = k.one_run;
      bound = λ j b e.
          let (v, old, same) =
            before_update (binding_of id) (retired_binding now) j s.project_bindings b e in
          let (q, there, nested) = h.bound j v old in
          elim (str_dec id j) [
            | yes here ↦ (
              archived now p,
              ground (arith, get-set id j (archived now p) s.projects),
              λ open_. absurd (ground arith),
            )
            | no other ↦ (
              q,
              ground (arith, get-set id j (archived now p) s.projects),
              λ open_. nested (ground arith),
            )
          ];
      placed = k.placed;
      hosted = k.hosted;
    }

pub archive_project-IsNested :
    (s : BindingStore) (id : String) (now : ℕ) → IsNested s → IsNested (archive_project s id now)
unfolding archive_project
archive_project-IsNested s id now h = elim (Option-cases (get id s.projects)) [
  | inl gone ↦ rw (gone, archive_project) h
  | inr (p, at) ↦ elim (Bool-cases (is_some p.archived_at)) [
    | inl already ↦ rw (at, archive_project) (rw already h)
    | inr open_ ↦ rw (at, archive_project) (rw open_ (archived-IsNested s id p now h at))
  ]
]
