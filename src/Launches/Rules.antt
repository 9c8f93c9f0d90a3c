-- ===== src/Launches/Rules.antt =====
-- repositories/factoryFloorLaunchRepository.ts: a launch state is consumed once, in time and by its
-- own context, and what the cleanup leaves.
use discordagent.Base.{
  ℕ, String, Bool, true, false, ◌≡◌, ◌≢◌, refl, subst, Option, none, some, [], ◌∷◌, Result, ok, err,
  ◌<◌, ◌↔◌, leb, arith, str_dec, Option-cases, inl, inr, >>=-eq-ok,
}
use discordagent.Dict.{Dict, get, set}
use discordagent.Dict.Index.{get-set_self}
use discordagent.Dict.Distinct.{IsDistinct}
use discordagent.Tasks.Rows.{TaskHost}
use discordagent.Tasks.Repository.{find_project}
use discordagent.Launches.Rows.{
  FactoryFloorLaunchContextKind, project_kind, run_kind, FactoryFloorLaunchContext, LaunchRow,
  LaunchStore, FactoryFloorLaunchRecord, ConsumeFactoryFloorLaunchInput, LaunchError,
}
use discordagent.Launches.Validation.{required, timestamp, opt_beq, kind_beq, normalize_context}
use discordagent.Launches.Repository.{
  same_context, consumable, consumed, update_launch, or_throw, consume_write, consume, pending,
  invalidated, invalidate_write, invalidate, survives, kept, cleanup,
}

update_launch-some :
    (s s' : LaunchStore) (id : String) (guard : LaunchRow → Bool) (change : LaunchRow → LaunchRow)
    → update_launch s id guard change ≡ some s'
    → (row : LaunchRow) × (get id s.launches ≡ some row)
      × (guard row ≡ true)
      × (s' ≡ record s { launches = set id (change row) s.launches })
unfolding update_launch
update_launch-some s s' id guard change e = elim (Option-cases (get id s.launches)) [
  | inl gone ↦ absurd (ground arith)
  | inr (row, at) ↦ (row, at, ground arith, ground arith)
]

update_launch_refused :
    (s : LaunchStore) (id : String) (guard : LaunchRow → Bool) (change : LaunchRow → LaunchRow)
    (row : LaunchRow)
    → get id s.launches ≡ some row
    → guard row ≡ false
    → update_launch s id guard change ≡ none
unfolding update_launch
update_launch_refused s id guard change row at fails = rw (at, update_launch) (rw fails refl)

-- A call that reports a launch has made its UPDATE.
or_throw-some :
    (s : LaunchStore) (w : Result LaunchError (Option LaunchStore)) (id : String)
    (r : FactoryFloorLaunchRecord)
    → (or_throw s w id).1 ≡ ok (some r)
    → (s' : LaunchStore) × (w ≡ ok (some s')) × ((or_throw s w id).0 ≡ s')
or_throw-some s (err x) id r e = absurd (ground arith)
or_throw-some s (ok none) id r e = absurd (ground arith)
or_throw-some s (ok (some s')) id r e = (s', refl, refl)

-- A call whose UPDATE changes no row leaves the store.
or_throw-same :
    (s : LaunchStore) (w : Result LaunchError (Option LaunchStore)) (id : String)
    → ((s' : LaunchStore) → w ≢ ok (some s'))
    → (or_throw s w id).0 ≡ s
or_throw-same s (err x) id never = refl
or_throw-same s (ok none) id never = refl
or_throw-same s (ok (some s')) id never = absurd (never s' refl)

-- The parts of a consumption that is made.
record Consumption (h : TaskHost) (s s' : LaunchStore) (input : ConsumeFactoryFloorLaunchInput)
    : Type 0 where
  pub id : String
  pub named : required input.state_id "state_id" ≡ ok id
  pub context : FactoryFloorLaunchContext
  pub project_name : String
  pub trimmed : normalize_context input.expected input.project_name ≡ ok (context, project_name)
  pub row : LaunchRow
  pub at : get id s.launches ≡ some row
  pub fits : consumable h s input.now context project_name row ≡ true
  pub result : s' ≡ record s { launches = set id (consumed input.now row) s.launches }

timestamp-eq : (n m : ℕ) (field : String) → timestamp n field ≡ ok m → m ≡ n
unfolding timestamp
timestamp-eq n m field e = ground arith

consume_write-Consumption :
    (h : TaskHost) (s s' : LaunchStore) (input : ConsumeFactoryFloorLaunchInput)
    → consume_write h s input ≡ ok (some s')
    → Consumption h s s' input
unfolding consume_write
consume_write-Consumption h s s' input e =
    let (now, timed, e₁) = >>=-eq-ok (timestamp input.now "consumed_at") _ e in
    let (id, named, e₂) = >>=-eq-ok (required input.state_id "state_id") _ e₁ in
    let ((c, name), trimmed, e₃) =
      >>=-eq-ok (normalize_context input.expected input.project_name) _ e₂ in
    let same : now ≡ input.now = timestamp-eq input.now now "consumed_at" timed in
    let (row, at, fits, made) =
      update_launch-some s s' id (consumable h s now c name) (consumed now) (ground arith) in
    record {
      id = id;
      named = named;
      context = c;
      project_name = name;
      trimmed = trimmed;
      row = row;
      at = at;
      fits = subst (λ n. consumable h s n c name row ≡ true) same fits;
      result =
          subst (λ n. s' ≡ record s { launches = set id (consumed n row) s.launches }) same made;
    }

-- A row that was consumed is not consumed again.
consume_write-used :
    (h : TaskHost) (s s' : LaunchStore) (input : ConsumeFactoryFloorLaunchInput) (id : String)
    (row : LaunchRow) (t : ℕ)
    → required input.state_id "state_id" ≡ ok id
    → get id s.launches ≡ some row
    → row.consumed_at ≡ some t
    → consume_write h s input ≢ ok (some s')
unfolding consumable
consume_write-used h s s' input id row t named at used e =
    let c = consume_write-Consumption h s s' input e in
    let same : c.id ≡ id = ground (arith, c.named) in
    let here : c.row ≡ row = ground (arith, c.at) in
    let free : c.row.consumed_at ≡ none = ground (arith, c.fits) in
    ground (arith, subst (λ r. r.consumed_at ≡ none) here free)

invalidate_write-used :
    (h : TaskHost) (s s' : LaunchStore) (state_id reason id : String) (at : ℕ) (row : LaunchRow)
    (t : ℕ)
    → required state_id "state_id" ≡ ok id
    → get id s.launches ≡ some row
    → row.consumed_at ≡ some t
    → invalidate_write h s state_id reason at ≢ ok (some s')
unfolding invalidate_write
invalidate_write-used h s s' state_id reason id at row t named there used e =
    let (i, named', e₁) = >>=-eq-ok (required state_id "state_id") _ e in
    let (n, timed, e₂) = >>=-eq-ok (timestamp at "invalidated_at") _ e₁ in
    let (why, given, e₃) = >>=-eq-ok (required reason "invalidation_reason") _ e₂ in
    let (r, found, free, made) =
      update_launch-some s s' i pending (invalidated h n why) (ground arith) in
    let same : r ≡ row = ground arith in
    let open_row : pending row ≡ true = subst (λ x. pending x ≡ true) same free in ground arith

opt_beq-eq : (a b : Option String) → opt_beq a b ≡ true → a ≡ b
opt_beq-eq none none e = refl
opt_beq-eq (some a) (some b) e = ground arith
opt_beq-eq none (some b) e = absurd (ground arith)
opt_beq-eq (some a) none e = absurd (ground arith)

kind_beq-eq : (a b : FactoryFloorLaunchContextKind) → kind_beq a b ≡ true → a ≡ b
kind_beq-eq project_kind project_kind e = refl
kind_beq-eq run_kind run_kind e = refl
kind_beq-eq project_kind run_kind e = absurd (ground arith)
kind_beq-eq run_kind project_kind e = absurd (ground arith)

-- The comparison of contexts leaves no field out.
same_context-eq : (a b : FactoryFloorLaunchContext) → same_context a b ≡ true → a ≡ b
unfolding same_context
same_context-eq a b e =
    let thread : a.thread_id ≡ b.thread_id = opt_beq-eq a.thread_id b.thread_id (ground arith) in
    let surface : a.surface_id ≡ b.surface_id =
      opt_beq-eq a.surface_id b.surface_id (ground arith) in
    let run : a.run_id ≡ b.run_id = opt_beq-eq a.run_id b.run_id (ground arith) in
    let kind : a.context_kind ≡ b.context_kind =
      kind_beq-eq a.context_kind b.context_kind (ground arith) in
    let application : a.application_id ≡ b.application_id = ground arith in
    let installation : a.installation_type ≡ b.installation_type = ground arith in
    let owner : a.installation_owner_id ≡ b.installation_owner_id = ground arith in
    let guild : a.guild_id ≡ b.guild_id = ground arith in
    let channel : a.channel_id ≡ b.channel_id = ground arith in
    let principal : a.principal_id ≡ b.principal_id = ground arith in
    let project : a.factory_floor_project_id ≡ b.factory_floor_project_id = ground arith in
    λ i. record {
      application_id = application i;
      installation_type = installation i;
      installation_owner_id = owner i;
      guild_id = guild i;
      channel_id = channel i;
      thread_id = thread i;
      principal_id = principal i;
      factory_floor_project_id = project i;
      surface_id = surface i;
      run_id = run i;
      context_kind = kind i;
    }

-- A launch state that is consumed was stored, pending and not expired, every field of its context is
-- that of the expected context with its texts trimmed, and the project named by the caller is its
-- own. The row gets its time of consumption and nothing else changes. After that no
-- consumption and no invalidation of the same state changes the store, whatever its arguments.
pub consume_once :
    (h : TaskHost) (s : LaunchStore) (input again : ConsumeFactoryFloorLaunchInput)
    (r : FactoryFloorLaunchRecord) (reason : String) (at : ℕ)
    → (consume h s input).1 ≡ ok (some r)
    → again.state_id ≡ input.state_id
    → (id : String) × (row : LaunchRow) × (c : FactoryFloorLaunchContext) × (name : String)
      × (required input.state_id "state_id" ≡ ok id)
      × (get id s.launches ≡ some row)
      × (normalize_context input.expected input.project_name ≡ ok (c, name))
      × (row.consumed_at ≡ none)
      × (row.invalidated_at ≡ none)
      × (input.now < row.expires_at)
      × (row.context ≡ c)
      × (find_project h name s.projects ≡ some row.local_project_id)
      × ((consume h s input).0
          ≡ record s { launches = set id (record row { consumed_at = some input.now }) s.launches })
      × ((consume h (consume h s input).0 again).0 ≡ (consume h s input).0)
      × ((invalidate h (consume h s input).0 input.state_id reason at).0 ≡ (consume h s input).0)
unfolding consume invalidate consumable
consume_once h s input again r reason at e state =
    let (s', written, same) = or_throw-some s (consume_write h s input) input.state_id r e in
    let k = consume_write-Consumption h s s' input written in
    let row' : LaunchRow = consumed input.now k.row in
    let there : get k.id s'.launches ≡ some row' =
      ground (arith, k.result, get-set_self k.id row' s.launches) in
    (
      k.id,
      k.row,
      k.context,
      k.project_name,
      k.named,
      k.at,
      k.trimmed,
      ground (arith, k.fits),
      ground (arith, k.fits),
      ground (arith, k.fits),
      same_context-eq k.row.context k.context (ground (arith, k.fits)),
      ground (arith, k.fits),
      rw same k.result,
      rw same (
          or_throw-same s' (consume_write h s' again) again.state_id (λ t.
            consume_write-used h s' t again k.id row' input.now (rw state k.named) there refl)),
      rw same (
          or_throw-same s' (invalidate_write h s' input.state_id reason at) input.state_id (λ t.
            invalidate_write-used h s' t input.state_id reason k.id at row' input.now k.named there
              refl)),
    )

survives-parts :
    (now : ℕ) (row : LaunchRow)
    → (survives now row ≡ true)
      ↔ ((now < row.expires_at) × (row.consumed_at ≡ none) × (row.invalidated_at ≡ none))
survives-parts now row = (
  (λ e. (ground arith, ground arith, ground arith)),
  (λ (unexpired, unused, valid). ground arith),
)

-- A row that the cleanup keeps was stored, and survives.
get-kept :
    (now : ℕ) (d : Dict LaunchRow) (id : String) (row : LaunchRow)
    → IsDistinct d
    → (get id (kept now d) ≡ some row) ↔ ((get id d ≡ some row) × (survives now row ≡ true))
unfolding kept get
get-kept now [] id row a = ((λ e. absurd (ground arith)), (λ (e, _). e))
get-kept now ((j, r) ∷ d) id row (free, a) = elim (str_dec j id) [
  | yes same ↦
      let (back, forth) = get-kept now d id row a in
      let gone : get id d ≡ none = subst (λ i. get i d ≡ none) same free in
      ((λ e. ground arith), (λ (e, lives). ground arith))
  | no other ↦
      let (back, forth) = get-kept now d id row a in
      ((λ e. ground arith), (λ (e, lives). ground arith))
]

-- A cleanup at a time that is a safe integer leaves exactly the rows that were stored, expire after
-- that time and are neither consumed nor invalidated, each as it was.
pub cleanup_exact :
    (s : LaunchStore) (now : ℕ) (id : String) (row : LaunchRow)
    → leb now 9007199254740991 ≡ true
    → IsDistinct s.launches
    → (get id (cleanup s now).0.launches ≡ some row) ↔ (
        (get id s.launches ≡ some row)
        × (now < row.expires_at)
        × (row.consumed_at ≡ none)
        × (row.invalidated_at ≡ none))
unfolding cleanup timestamp
cleanup_exact s now id row safe distinct =
    let (back, forth) = get-kept now s.launches id row distinct in
    let (parts, whole) = survives-parts now row in
    rw (safe, cleanup)
      (
        (λ e.
            let (at, lives) = back e in
            let (unexpired, unused, valid) = parts lives in (at, unexpired, unused, valid)),
        (λ (at, unexpired, unused, valid). forth (at, whole (unexpired, unused, valid))),
      )
