-- ===== src/AgentTeam/Members.antt =====
-- agentTeam/composition.ts: the loop over the topology's members, and `composeEffectiveAgents`.
use discordagent.Base.{
  String, not, ◌||◌, List, [], ◌∷◌, ◌++◌, ◌==◌, Result, ok, ◌>>=◌, ◌>>◌, throw_if,
}
use discordagent.Dict.{get}
use discordagent.Text.Order.{has_text, sort_texts}
use discordagent.AgentTeam.Contracts.{
  TeamTopologyMember, AgentTeamConfiguration, EffectiveAgent, TeamError, repeated_identity,
  repeated_binding, role_of_other_identity, assignment_of_other_role, binding_member_conflict,
}
use discordagent.AgentTeam.Checks.{require_positive_revision, demand, intersect}
use discordagent.AgentTeam.Composition.{
  Indexes, Authorities, find_identity, find_role, find_operator, find_assignment, find_binding,
  build_indexes, build_authorities,
}

-- `[operator, assignment, binding, runtime].reduce(intersect, role)`, sorted.
unfoldable pub effective :
    List String → List String → List String → List String → List String → List String
unfolding intersect
effective role operator assignment binding runtime =
    sort_texts
      (intersect (intersect (intersect (intersect role operator) assignment) binding) runtime)

module _ (x : Indexes) (a : Authorities) (topology_id : String) where
  -- The entries that a member refers to, checked against one another.
  unfoldable pub resolve_member : TeamTopologyMember → Result TeamError EffectiveAgent
  resolve_member member = do
    identity ← find_identity x "team topology" topology_id member.identity
    role ← find_role x "team topology" topology_id member.role
    assignment ← find_assignment x "team topology" topology_id member.assignment
    binding ← find_binding x "team topology" topology_id member.binding
    profile ← find_operator x "assignment" assignment.id assignment.operator_profile
    throw_if (not (role.identity.id == identity.id))
        (role_of_other_identity role.id role.identity.id identity.id)
    throw_if (not (assignment.role.id == role.id))
        (assignment_of_other_role assignment.id assignment.role.id role.id)
    throw_if
        (not (binding.identity.id == identity.id) || not (binding.assignment.id == assignment.id))
        (binding_member_conflict binding.id identity.id)
    operator_caps ← demand (get profile.id a.operator)
    assignment_caps ← demand (get assignment.id a.assignment)
    binding_caps ← demand (get binding.id a.binding)
    role_caps ← demand (get role.id a.role)
    ok (record {
      identity = identity;
      role = role;
      operator_profile = profile;
      assignment = assignment;
      binding = binding;
      effective_authority =
          effective role_caps operator_caps assignment_caps binding_caps a.runtime;
    })

  -- The `map` over the members, with the two sets of ids seen.
  unfoldable pub compose_members :
      List String → List String → List TeamTopologyMember → Result TeamError (List EffectiveAgent)
  compose_members identity_ids binding_ids [] = ok []
  compose_members identity_ids binding_ids (member ∷ rest) = do
    throw_if (has_text identity_ids member.identity.id) (repeated_identity member.identity.id)
    throw_if (has_text binding_ids member.binding.id) (repeated_binding member.binding.id)
    agent ← resolve_member member
    agents ←
        compose_members (identity_ids ++ member.identity.id ∷ [])
          (binding_ids ++ member.binding.id ∷ []) rest
    ok (agent ∷ agents)

unfoldable pub compose_effective_agents :
    AgentTeamConfiguration → Result TeamError (List EffectiveAgent)
compose_effective_agents c = do
  require_positive_revision "team topology" c.topology.id c.topology.revision
  require_positive_revision "runtime safety policy" "runtime" c.runtime_safety.revision
  x ← build_indexes c
  a ← build_authorities c x
  compose_members x a c.topology.id [] [] c.topology.members
