-- ===== src/AgentTeam/Tests.antt =====
-- agentTeam/composition.ts: a team of one agent, and the theorems at it.
use discordagent.Base.{String, ◌≡◌, refl, some, [], ◌∷◌, ok, err, str_dec, NeverFails}
use native.Mathlib.Decide.{ℕ_discrete}
use discordagent.Dict.{get, set}
use discordagent.Text.{trim}
use discordagent.Text.Order.{sort_texts, insert_text, text_le, IsUnique}
use discordagent.AgentTeam.Contracts.{
  whole, ContractReference, AgentIdentity, RoleContract, OperatorProfile, AssignmentContext,
  DiscordBinding, TeamTopologyMember, AgentTeamConfiguration, EffectiveAgent, undefined_value,
  broadened_authority, stale_reference,
}
use discordagent.AgentTeam.Checks.{
  require_positive_revision, is_positive_revision, revision_dec, index_unique, require_reference,
  normalized_capabilities, assert_subset,
}
use discordagent.AgentTeam.Composition.{
  build_indexes, build_authorities, fill, find_identity, find_role, find_operator, find_assignment,
  find_binding, role_authority, operator_authority, assignment_authority, binding_authority,
}
use discordagent.AgentTeam.Members.{
  effective, resolve_member, compose_members, compose_effective_agents,
}
use discordagent.AgentTeam.Guarantees.{AllGranted}
use discordagent.AgentTeam.Teams.{
  compose-AllGranted, compose-IsUnique, compose-IsDefined, identity_ids, binding_ids,
}

abbrev first : String → ContractReference
first id = record { id = id; revision = whole 1 }

abbrev brigid : AgentIdentity
brigid = record { id = "brigid"; revision = whole 1; display_name = "Brigid" }

abbrev builder : RoleContract
builder = record {
  id = "builder";
  revision = whole 1;
  identity = first "brigid";
  authority = "write" ∷ " read " ∷ "deploy" ∷ [];
}

abbrev profile : OperatorProfile
profile = record {
  id = "default";
  revision = whole 1;
  eligible_capabilities = some ("read" ∷ "write" ∷ []);
}

abbrev core : AssignmentContext
core = record {
  id = "core";
  revision = whole 1;
  role = first "builder";
  operator_profile = first "default";
  allowed_capabilities = "write" ∷ "read" ∷ "deploy" ∷ [];
}

abbrev bound : DiscordBinding
bound = record {
  id = "discord";
  revision = whole 1;
  identity = first "brigid";
  assignment = first "core";
  eligible_capabilities = "write" ∷ "read" ∷ [];
}

abbrev member : TeamTopologyMember
member = record {
  identity = first "brigid";
  role = first "builder";
  assignment = first "core";
  binding = first "discord";
}

abbrev team : AgentTeamConfiguration
team = record {
  identities = brigid ∷ [];
  roles = builder ∷ [];
  operator_profiles = profile ∷ [];
  assignments = core ∷ [];
  bindings = bound ∷ [];
  topology = record { id = "team"; revision = whole 1; members = member ∷ [] };
  runtime_safety = record {
    revision = whole 1;
    allowed_capabilities = "read" ∷ "write" ∷ "shell" ∷ [];
  };
}

abbrev agent : EffectiveAgent
agent = record {
  identity = brigid;
  role = builder;
  operator_profile = profile;
  assignment = core;
  binding = bound;
  effective_authority = "read" ∷ "write" ∷ [];
}

team_composes : compose_effective_agents team ≡ ok (agent ∷ [])
unfolding compose_effective_agents require_positive_revision is_positive_revision build_indexes
    index_unique build_authorities normalized_capabilities fill role_authority operator_authority
    assignment_authority binding_authority find_identity find_role find_operator find_assignment
    find_binding require_reference revision_dec ℕ_discrete assert_subset compose_members
    resolve_member effective sort_texts insert_text text_le trim get set str_dec
team_composes = refl

-- A reference to an old revision is refused.
stale_role :
    compose_effective_agents (record team { roles = record builder { revision = whole 2 } ∷ [] })
    ≡ err (stale_reference "assignment" "core" "role" "builder" (whole 1) (whole 2))
unfolding compose_effective_agents require_positive_revision is_positive_revision build_indexes
    index_unique build_authorities normalized_capabilities fill role_authority operator_authority
    assignment_authority binding_authority find_identity find_role find_operator find_assignment
    find_binding require_reference revision_dec ℕ_discrete assert_subset compose_members
    resolve_member effective sort_texts insert_text text_le trim get set str_dec
stale_role = refl

-- An operator profile that reaches beyond the role is refused.
broad_profile :
    compose_effective_agents (record team {
      operator_profiles =
          record profile { eligible_capabilities = some ("shell" ∷ "read" ∷ []) } ∷ [];
    })
    ≡ err (broadened_authority "operator profile" "default" ("shell" ∷ []))
unfolding compose_effective_agents require_positive_revision is_positive_revision build_indexes
    index_unique build_authorities normalized_capabilities fill role_authority operator_authority
    assignment_authority binding_authority find_identity find_role find_operator find_assignment
    find_binding require_reference revision_dec ℕ_discrete assert_subset compose_members
    resolve_member effective sort_texts insert_text text_le trim get set str_dec
broad_profile = refl

compose-AllGranted_example : AllGranted team (member ∷ []) (agent ∷ [])
compose-AllGranted_example = compose-AllGranted team (agent ∷ []) team_composes

compose-IsUnique_example :
    IsUnique (identity_ids (member ∷ [])) × IsUnique (binding_ids (member ∷ []))
compose-IsUnique_example = compose-IsUnique team (agent ∷ []) team_composes

compose-IsDefined_example : NeverFails undefined_value (compose_effective_agents team)
compose-IsDefined_example = compose-IsDefined team
