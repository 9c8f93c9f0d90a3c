-- ===== src/AgentTeam/Composition.antt =====
-- agentTeam/composition.ts: `composeEffectiveAgents`. Each `for` loop is a function over the values
-- that it walks through and the map or sets that it fills.
use discordagent.Base.{
  String, not, Option, none, some, List, [], ◌∷◌, ◌==◌, Result, ok, ◌>>=◌, ◌>>◌, throw_if,
}
use discordagent.Dict.{Dict, get, set, values}
use discordagent.AgentTeam.Contracts.{
  ContractReference, AgentIdentity, RoleContract, OperatorProfile, AssignmentContext,
  DiscordBinding, AgentTeamConfiguration, TeamError, binding_assignment_conflict,
}
use discordagent.AgentTeam.Checks.{
  demand, index_unique, require_reference, normalized_capabilities, assert_subset,
}

-- The five maps that `indexUnique` builds.
pub record Indexes : Type 0 where
  pub identities : Dict AgentIdentity
  pub roles : Dict RoleContract
  pub operator_profiles : Dict OperatorProfile
  pub assignments : Dict AssignmentContext
  pub bindings : Dict DiscordBinding

-- The four capability maps and the runtime's set.
pub record Authorities : Type 0 where
  pub role : Dict (List String)
  pub operator : Dict (List String)
  pub assignment : Dict (List String)
  pub binding : Dict (List String)
  pub runtime : List String

-- `x ?? []`.
abbrev pub or_none : Option (List String) → List String
or_none none = []
or_none (some l) = l

unfoldable pub build_indexes : AgentTeamConfiguration → Result TeamError Indexes
build_indexes c = do
  identities ← index_unique (λ i. i.id) (λ i. i.revision) "identity" c.identities
  roles ← index_unique (λ i. i.id) (λ i. i.revision) "role" c.roles
  operator_profiles ←
      index_unique (λ i. i.id) (λ i. i.revision) "operator profile" c.operator_profiles
  assignments ← index_unique (λ i. i.id) (λ i. i.revision) "assignment" c.assignments
  bindings ← index_unique (λ i. i.id) (λ i. i.revision) "Discord binding" c.bindings
  ok (record {
    identities = identities;
    roles = roles;
    operator_profiles = operator_profiles;
    assignments = assignments;
    bindings = bindings;
  })

module _ (x : Indexes) where
  unfoldable pub find_identity :
      String → String → ContractReference → Result TeamError AgentIdentity
  find_identity kind id ref =
      require_reference (λ i. i.id) (λ i. i.revision) "identity" kind id ref x.identities

  unfoldable pub find_role : String → String → ContractReference → Result TeamError RoleContract
  find_role kind id ref = require_reference (λ i. i.id) (λ i. i.revision) "role" kind id ref x.roles

  unfoldable pub find_operator :
      String → String → ContractReference → Result TeamError OperatorProfile
  find_operator kind id ref =
      require_reference (λ i. i.id) (λ i. i.revision) "operator profile" kind id ref
        x.operator_profiles

  unfoldable pub find_assignment :
      String → String → ContractReference → Result TeamError AssignmentContext
  find_assignment kind id ref =
      require_reference (λ i. i.id) (λ i. i.revision) "assignment" kind id ref x.assignments

  unfoldable pub find_binding :
      String → String → ContractReference → Result TeamError DiscordBinding
  find_binding kind id ref =
      require_reference (λ i. i.id) (λ i. i.revision) "Discord binding" kind id ref x.bindings

  -- The body of the loop over `roles.values()`.
  unfoldable pub role_authority : RoleContract → Result TeamError (List String)
  role_authority role = do
    _identity ← find_identity "role" role.id role.identity
    normalized_capabilities "role" role.id role.authority

  -- The body of the loop over `operatorProfiles.values()`.
  unfoldable pub operator_authority : OperatorProfile → Result TeamError (List String)
  operator_authority profile =
      normalized_capabilities "operator profile" profile.id (or_none profile.eligible_capabilities)

  -- The body of the loop over `assignments.values()`.
  unfoldable pub assignment_authority :
      Dict (List String) → Dict (List String) → AssignmentContext → Result TeamError (List String)
  assignment_authority role_caps operator_caps assignment = do
    role ← find_role "assignment" assignment.id assignment.role
    profile ← find_operator "assignment" assignment.id assignment.operator_profile
    of_role ← demand (get role.id role_caps)
    of_operator ← demand (get profile.id operator_caps)
    caps ← normalized_capabilities "assignment" assignment.id assignment.allowed_capabilities
    assert_subset "operator profile" profile.id of_operator of_role
    assert_subset "assignment" assignment.id caps of_role
    ok caps

  -- The body of the loop over `bindings.values()`.
  unfoldable pub binding_authority :
      Dict (List String) → DiscordBinding → Result TeamError (List String)
  binding_authority role_caps binding = do
    identity ← find_identity "Discord binding" binding.id binding.identity
    assignment ← find_assignment "Discord binding" binding.id binding.assignment
    role ← find_role "assignment" assignment.id assignment.role
    throw_if (not (role.identity.id == identity.id))
        (binding_assignment_conflict binding.id assignment.id)
    caps ← normalized_capabilities "Discord binding" binding.id binding.eligible_capabilities
    of_role ← demand (get role.id role_caps)
    assert_subset "Discord binding" binding.id caps of_role
    ok caps

-- `for (const v of index.values()) { …; result.set(v.id, caps); }`, with the body that yields `caps`.
module _ {V : Type 0} (id_of : V → String) (body : V → Result TeamError (List String)) where
  unfoldable pub fill : Dict (List String) → List V → Result TeamError (Dict (List String))
  fill acc [] = ok acc
  fill acc (v ∷ vs) = do caps ← body v; fill (set (id_of v) caps acc) vs

unfoldable pub build_authorities : AgentTeamConfiguration → Indexes → Result TeamError Authorities
build_authorities c x = do
  runtime ←
      normalized_capabilities "runtime safety policy" "runtime"
        c.runtime_safety.allowed_capabilities
  role ← fill (λ r. r.id) (role_authority x) [] (values x.roles)
  operator ← fill (λ o. o.id) (operator_authority x) [] (values x.operator_profiles)
  assignment ← fill (λ p. p.id) (assignment_authority x role operator) [] (values x.assignments)
  binding ← fill (λ b. b.id) (binding_authority x role) [] (values x.bindings)
  ok (record {
    role = role;
    operator = operator;
    assignment = assignment;
    binding = binding;
    runtime = runtime;
  })
