-- ===== src/Bindings/Steps.antt =====
-- repositories/factoryFloorBindingRepository.ts: its writes as operations, in any order.
use discordagent.Base.{ℕ, String, ◌≡◌, refl, List, [], ◌∷◌, ok, err}
use discordagent.Tasks.Rows.{TaskHost}
use discordagent.Bindings.Rows.{BindingStore, BindProjectInput, BindSurfaceInput, BindRunInput}
use discordagent.Bindings.Repository.{Written, bind_project, bind_surface}
use discordagent.Bindings.Runs.{
  bind_run, retire_project, retire_surface, retire_run, archive_project,
}
use discordagent.Bindings.Invariant.{IsNested}
use discordagent.Bindings.Retiring.{
  retire_run-IsNested, retire_surface-IsNested, retire_project-IsNested, archive_project-IsNested,
}
use discordagent.Bindings.Binding.{bind_project-IsNested, bind_run-IsNested}
use discordagent.Bindings.Placing.{bind_surface-IsNested}

-- With the times and the new ids that the calls draw. `archive` is the UPDATE of another repository
-- that fires the trigger.
pub data BindingOperation : Type 0 where
  project : BindProjectInput → ℕ → BindingOperation
  surface : BindSurfaceInput → ℕ → String → BindingOperation
  run : BindRunInput → ℕ → BindingOperation
  unbind_project : String → ℕ → BindingOperation
  unbind_surface : String → ℕ → BindingOperation
  unbind_run : String → ℕ → BindingOperation
  archive : String → ℕ → BindingOperation

-- An operation that throws writes nothing.
abbrev pub written : BindingStore → Written → BindingStore
written s (ok (s', k)) = s'
written s (err x) = s

abbrev pub perform_binding : TaskHost → BindingStore → BindingOperation → BindingStore
perform_binding h s (project input now) = written s (bind_project h s input now)
perform_binding h s (surface input now uuid) = written s (bind_surface h s input now uuid)
perform_binding h s (run input now) = written s (bind_run h s input now)
perform_binding h s (unbind_project name now) = (retire_project h s name now).0
perform_binding h s (unbind_surface id now) = (retire_surface s id now).0
perform_binding h s (unbind_run id now) = (retire_run s id now).0
perform_binding h s (archive id now) = archive_project s id now

unfoldable pub run_bindings : TaskHost → BindingStore → List BindingOperation → BindingStore
run_bindings h s [] = s
run_bindings h s (o ∷ os) = run_bindings h (perform_binding h s o) os

written-IsNested :
    (s : BindingStore) (w : Written)
    → IsNested s
    → ((s' : BindingStore) (k : String) → w ≡ ok (s', k) → IsNested s')
    → IsNested (written s w)
written-IsNested s (ok (s', k)) h f = f s' k refl
written-IsNested s (err x) h f = h

perform_binding-IsNested :
    (h : TaskHost) (s : BindingStore) (o : BindingOperation)
    → IsNested s
    → IsNested (perform_binding h s o)
perform_binding-IsNested h s (project input now) k =
    written-IsNested s _ k (λ s' id. bind_project-IsNested h s input now s' id k)
perform_binding-IsNested h s (surface input now uuid) k =
    written-IsNested s _ k (λ s' id. bind_surface-IsNested h s input now uuid s' id k)
perform_binding-IsNested h s (run input now) k =
    written-IsNested s _ k (λ s' id. bind_run-IsNested h s input now s' id k)
perform_binding-IsNested h s (unbind_project name now) k = retire_project-IsNested h s name now k
perform_binding-IsNested h s (unbind_surface id now) k = retire_surface-IsNested s id now k
perform_binding-IsNested h s (unbind_run id now) k = retire_run-IsNested s id now k
perform_binding-IsNested h s (archive id now) k = archive_project-IsNested s id now k

-- Whatever the calls, and in whatever order, starting from nested bindings: an active run has an
-- active surface of its project, an active surface an active binding of its project in the same
-- guild, and a bound project is not archived; an outside project id, an identity of a surface and
-- an active run of a surface belong to one row at most.
pub run_bindings-IsNested :
    (h : TaskHost) (s : BindingStore) (os : List BindingOperation)
    → IsNested s
    → IsNested (run_bindings h s os)
unfolding run_bindings
run_bindings-IsNested h s [] k = k
run_bindings-IsNested h s (o ∷ os) k =
    run_bindings-IsNested h (perform_binding h s o) os (perform_binding-IsNested h s o k)
