-- ===== src/AgentTeam/Totality.antt =====
-- agentTeam/composition.ts: the entries that a `!` asserts are there.
use discordagent.Base.{
  String, ◌≡◌, not, some, List, [], ◌∷◌, ◌++◌, Result, ok, arith, throw_if, NeverFails,
  NeverFails-bind, NeverFails-throw_if, ◌==◌,
}
use discordagent.Dict.{Dict, get, set, values}
use discordagent.Text.{trim}
use discordagent.AgentTeam.Contracts.{
  Revision, ContractReference, RoleContract, OperatorProfile, AssignmentContext, DiscordBinding,
  AgentTeamConfiguration, TeamError, binding_assignment_conflict, undefined_value,
}
use discordagent.AgentTeam.Checks.{
  require_positive_revision, index_from, index_unique, require_reference, normalize_from,
  normalized_capabilities, assert_subset, broadened, throw_broadened,
}
use discordagent.AgentTeam.Composition.{
  Indexes, build_indexes, build_authorities, fill, find_identity, find_role, find_operator,
  find_assignment, find_binding, role_authority, operator_authority, assignment_authority,
  binding_authority,
}
use discordagent.AgentTeam.Maps.{IsIndexOf, Refers, IsFilled, fill-IsFilled}
use discordagent.AgentTeam.Authority.{AreIndexes, keyed_entries}
use discordagent.AgentTeam.Guarantees.{own_entry}
use discordagent.AgentTeam.Agents.{find_role-Refers, find_operator-Refers}

-- The result is not the `TypeError` of an absent entry.
abbrev pub IsDefined {ℓ} : {A : Type ℓ} → Result TeamError A → Type 0
IsDefined r = NeverFails undefined_value r

pub require_positive_revision-IsDefined :
    (kind id : String) (v : Revision) → IsDefined (require_positive_revision kind id v)
unfolding require_positive_revision
require_positive_revision-IsDefined kind id v = NeverFails-throw_if undefined_value _ _ (λ p. cc)

module _ {T : Type 0} (id_of : T → String) (revision_of : T → Revision) (kind : String) where
  index_from-IsDefined :
      (acc : Dict T) (vs : List T) → IsDefined (index_from id_of revision_of kind acc vs)
  unfolding index_from
  index_from-IsDefined acc [] = tt
  index_from-IsDefined acc (v ∷ vs) = ground (
    arith,
    require_positive_revision-IsDefined kind (id_of v) (revision_of v),
    index_from-IsDefined (set (id_of v) v acc) vs,
  )

  require_reference-IsDefined :
      (owner_kind owner_id : String) (reference : ContractReference) (d : Dict T)
      → IsDefined (require_reference id_of revision_of kind owner_kind owner_id reference d)
  unfolding require_reference
  require_reference-IsDefined owner_kind owner_id reference d = ground arith

normalize_from-IsDefined :
    (kind id : String) (acc cs : List String) → IsDefined (normalize_from kind id acc cs)
unfolding normalize_from
normalize_from-IsDefined kind id acc [] = tt
normalize_from-IsDefined kind id acc (c ∷ cs) =
    ground (arith, normalize_from-IsDefined kind id (acc ++ trim c ∷ []) cs)

normalized-IsDefined :
    (kind id : String) (cs : List String) → IsDefined (normalized_capabilities kind id cs)
unfolding normalized_capabilities
normalized-IsDefined kind id cs = normalize_from-IsDefined kind id [] cs

assert_subset-IsDefined :
    (kind id : String) (cs ceiling : List String) → IsDefined (assert_subset kind id cs ceiling)
unfolding assert_subset
assert_subset-IsDefined kind id cs ceiling = none_broadened (broadened cs ceiling)
  where
    none_broadened : (l : List String) → IsDefined (throw_broadened kind id l)
    none_broadened [] = tt
    none_broadened (b ∷ l) = λ p. cc

module _ (x : Indexes) where
  role_authority-IsDefined : (role : RoleContract) → IsDefined (role_authority x role)
  unfolding role_authority find_identity
  role_authority-IsDefined role = ground (
    arith,
    require_reference-IsDefined (λ i. i.id) (λ i. i.revision) "identity" "role" role.id
        role.identity x.identities,
    normalized-IsDefined "role" role.id role.authority,
  )

  operator_authority-IsDefined :
      (profile : OperatorProfile) → IsDefined (operator_authority x profile)
  unfolding operator_authority
  operator_authority-IsDefined profile = normalized-IsDefined _ _ _

  pub find_role-IsDefined :
      (kind id : String) (ref : ContractReference) → IsDefined (find_role x kind id ref)
  unfolding find_role
  find_role-IsDefined kind id ref = require_reference-IsDefined _ _ _ kind id ref x.roles

  pub find_identity-IsDefined :
      (kind id : String) (ref : ContractReference) → IsDefined (find_identity x kind id ref)
  unfolding find_identity
  find_identity-IsDefined kind id ref = require_reference-IsDefined _ _ _ kind id ref x.identities

  pub find_operator-IsDefined :
      (kind id : String) (ref : ContractReference) → IsDefined (find_operator x kind id ref)
  unfolding find_operator
  find_operator-IsDefined kind id ref =
      require_reference-IsDefined _ _ _ kind id ref x.operator_profiles

  pub find_assignment-IsDefined :
      (kind id : String) (ref : ContractReference) → IsDefined (find_assignment x kind id ref)
  unfolding find_assignment
  find_assignment-IsDefined kind id ref =
      require_reference-IsDefined _ _ _ kind id ref x.assignments

  pub find_binding-IsDefined :
      (kind id : String) (ref : ContractReference) → IsDefined (find_binding x kind id ref)
  unfolding find_binding
  find_binding-IsDefined kind id ref = require_reference-IsDefined _ _ _ kind id ref x.bindings

  -- What a filled map has for an entry that a reference led to.
  pub found_authority :
      {V : Type 0} (id_of : V → String) (revision_of : V → Revision) (kind : String) (vs : List V)
      (body : V → Result TeamError (List String)) (d : Dict V) (rc : Dict (List String))
      (reference : ContractReference) (v : V)
      → IsIndexOf id_of revision_of kind vs d
      → IsFilled id_of body d [] rc
      → Refers id_of revision_of kind d reference v
      → (s : List String) × (get (id_of v) rc ≡ some s)
  found_authority id_of revision_of kind vs body d rc reference v h f r =
      let (s, at, made) =
        f.filled (id_of v) v (own_entry id_of revision_of kind vs d reference v h r) in
      (s, at)

  module _ (c : AgentTeamConfiguration) (indexed : AreIndexes c x) (rc oc : Dict (List String))
      (roles : IsFilled (λ r. r.id) (role_authority x) x.roles [] rc) where
    role_present :
        (kind id : String) (ref : ContractReference) (role : RoleContract)
        → find_role x kind id ref ≡ ok role
        → (s : List String) × (get role.id rc ≡ some s)
    role_present kind id ref role e =
        found_authority _ _ _ c.roles (role_authority x) x.roles rc ref role indexed.roles roles
          (find_role-Refers x kind id ref role e)

    assignment_authority-IsDefined :
        IsFilled (λ o. o.id) (operator_authority x) x.operator_profiles [] oc
        → (p : AssignmentContext) → IsDefined (assignment_authority x rc oc p)
    unfolding assignment_authority
    assignment_authority-IsDefined operators p =
        NeverFails-bind undefined_value (find_role x "assignment" p.id p.role) _
          (find_role-IsDefined "assignment" p.id p.role)
          λ role at_role.
            NeverFails-bind undefined_value (find_operator x "assignment" p.id p.operator_profile) _
              (find_operator-IsDefined "assignment" p.id p.operator_profile)
              λ profile at_profile.
                let (r, has_r) = role_present "assignment" p.id p.role role at_role in
                let (o, has_o) =
                  found_authority _ _ _ c.operator_profiles (operator_authority x)
                    x.operator_profiles oc p.operator_profile profile indexed.operators operators
                    (find_operator-Refers x "assignment" p.id p.operator_profile profile
                      at_profile) in
                rw (has_r, has_o)
                  (NeverFails-bind undefined_value
                    (normalized_capabilities "assignment" p.id p.allowed_capabilities) _
                    (normalized-IsDefined "assignment" p.id p.allowed_capabilities)
                    λ caps _.
                      NeverFails-bind undefined_value
                        (assert_subset "operator profile" profile.id o r) _
                        (assert_subset-IsDefined "operator profile" profile.id o r)
                        λ _ _.
                          NeverFails-bind undefined_value (assert_subset "assignment" p.id caps r) _
                            (assert_subset-IsDefined "assignment" p.id caps r) λ _ _. tt)

    binding_authority-IsDefined : (b : DiscordBinding) → IsDefined (binding_authority x rc b)
    unfolding binding_authority
    binding_authority-IsDefined b =
        NeverFails-bind undefined_value (find_identity x "Discord binding" b.id b.identity) _
          (find_identity-IsDefined "Discord binding" b.id b.identity)
          λ identity _.
            NeverFails-bind undefined_value (find_assignment x "Discord binding" b.id b.assignment)
              _ (find_assignment-IsDefined "Discord binding" b.id b.assignment)
              λ p _.
                NeverFails-bind undefined_value (find_role x "assignment" p.id p.role) _
                  (find_role-IsDefined "assignment" p.id p.role)
                  λ role at_role.
                    let (r, has_r) = role_present "assignment" p.id p.role role at_role in
                    rw has_r (
                      NeverFails-bind undefined_value
                        (throw_if (not (role.identity.id == identity.id))
                          (binding_assignment_conflict b.id p.id))
                        _
                        (NeverFails-throw_if undefined_value (not (role.identity.id == identity.id))
                          (binding_assignment_conflict b.id p.id) (λ q. cc))
                        λ _ _.
                          NeverFails-bind undefined_value
                            (normalized_capabilities "Discord binding" b.id b.eligible_capabilities)
                            _ (normalized-IsDefined "Discord binding" b.id b.eligible_capabilities)
                            λ caps _.
                              NeverFails-bind undefined_value
                                (assert_subset "Discord binding" b.id caps r) _
                                (assert_subset-IsDefined "Discord binding" b.id caps r) λ _ _. tt)

module _ {V : Type 0} (id_of : V → String) (body : V → Result TeamError (List String)) where
  fill-IsDefined :
      (acc : Dict (List String)) (vs : List V)
      → ((v : V) → IsDefined (body v))
      → IsDefined (fill id_of body acc vs)
  unfolding fill
  fill-IsDefined acc [] h = tt
  fill-IsDefined acc (v ∷ vs) h =
      NeverFails-bind undefined_value (body v) _ (h v)
        λ caps _. fill-IsDefined (set (id_of v) caps acc) vs h

index_unique-IsDefined :
    {T : Type 0} (id_of : T → String) (revision_of : T → Revision) (kind : String) (vs : List T)
    → IsDefined (index_unique id_of revision_of kind vs)
unfolding index_unique
index_unique-IsDefined id_of revision_of kind vs = index_from-IsDefined id_of revision_of kind [] vs

pub build_indexes-IsDefined : (c : AgentTeamConfiguration) → IsDefined (build_indexes c)
unfolding build_indexes
build_indexes-IsDefined c =
    NeverFails-bind undefined_value (index_unique _ _ "identity" c.identities) _
      (index_unique-IsDefined _ _ "identity" c.identities)
      λ _ _.
        NeverFails-bind undefined_value (index_unique _ _ "role" c.roles) _
          (index_unique-IsDefined _ _ "role" c.roles)
          λ _ _.
            NeverFails-bind undefined_value
              (index_unique _ _ "operator profile" c.operator_profiles) _
              (index_unique-IsDefined _ _ "operator profile" c.operator_profiles)
              λ _ _.
                NeverFails-bind undefined_value (index_unique _ _ "assignment" c.assignments) _
                  (index_unique-IsDefined _ _ "assignment" c.assignments)
                  λ _ _.
                    NeverFails-bind undefined_value (index_unique _ _ "Discord binding" c.bindings)
                      _ (index_unique-IsDefined _ _ "Discord binding" c.bindings) λ _ _. tt

pub build_authorities-IsDefined :
    (c : AgentTeamConfiguration) (x : Indexes) → AreIndexes c x → IsDefined (build_authorities c x)
unfolding build_authorities
build_authorities-IsDefined c x h =
    NeverFails-bind undefined_value
      (normalized_capabilities "runtime safety policy" "runtime"
        c.runtime_safety.allowed_capabilities)
      _
      (normalized-IsDefined "runtime safety policy" "runtime" c.runtime_safety.allowed_capabilities)
      λ runtime _.
        NeverFails-bind undefined_value (fill _ (role_authority x) [] (values x.roles)) _
          (fill-IsDefined _ (role_authority x) [] (values x.roles) (role_authority-IsDefined x))
          λ rc at_rc.
            NeverFails-bind undefined_value
              (fill _ (operator_authority x) [] (values x.operator_profiles)) _
              (fill-IsDefined _ (operator_authority x) [] (values x.operator_profiles)
                (operator_authority-IsDefined x))
              λ oc at_oc.
                let roles : IsFilled (λ r. r.id) (role_authority x) x.roles [] rc =
                  fill-IsFilled _ _ x.roles [] rc h.roles.distinct (keyed_entries _ _ _ h.roles)
                    at_rc in
                let operators : IsFilled (λ o. o.id) (operator_authority x) x.operator_profiles []
                    oc =
                  fill-IsFilled _ _ x.operator_profiles [] oc h.operators.distinct
                    (keyed_entries _ _ _ h.operators) at_oc in
                NeverFails-bind undefined_value
                  (fill _ (assignment_authority x rc oc) [] (values x.assignments)) _
                  (fill-IsDefined _ (assignment_authority x rc oc) [] (values x.assignments)
                    (assignment_authority-IsDefined x c h rc oc roles operators))
                  λ _ _.
                    NeverFails-bind undefined_value
                      (fill _ (binding_authority x rc) [] (values x.bindings)) _
                      (fill-IsDefined _ (binding_authority x rc) [] (values x.bindings)
                        (binding_authority-IsDefined x c h rc oc roles))
                      λ _ _. tt
