-- ===== src/AgentTeam/Contracts.antt =====
-- agentTeam/composition.ts: the interfaces and the configuration error.
use discordagent.Base.{ℕ, String, Option, List}

-- A JavaScript number: a natural number, or any other, by its printed form.
pub data Revision : Type 0 where
  whole : ℕ → Revision
  other : String → Revision

pub record ContractReference : Type 0 where
  pub id : String
  pub revision : Revision

pub record AgentIdentity : Type 0 where
  pub id : String
  pub revision : Revision
  pub display_name : String

-- `authority.capabilities` is the field `authority`.
pub record RoleContract : Type 0 where
  pub id : String
  pub revision : Revision
  pub identity : ContractReference
  pub authority : List String

-- The preferences are carried along and never read.
pub record OperatorProfile : Type 0 where
  pub id : String
  pub revision : Revision
  pub eligible_capabilities : Option (List String)

pub record AssignmentContext : Type 0 where
  pub id : String
  pub revision : Revision
  pub role : ContractReference
  pub operator_profile : ContractReference
  pub allowed_capabilities : List String

pub record DiscordBinding : Type 0 where
  pub id : String
  pub revision : Revision
  pub identity : ContractReference
  pub assignment : ContractReference
  pub eligible_capabilities : List String

pub record RuntimeSafetyPolicy : Type 0 where
  pub revision : Revision
  pub allowed_capabilities : List String

pub record TeamTopologyMember : Type 0 where
  pub identity : ContractReference
  pub role : ContractReference
  pub assignment : ContractReference
  pub binding : ContractReference

pub record TeamTopology : Type 0 where
  pub id : String
  pub revision : Revision
  pub members : List TeamTopologyMember

pub record AgentTeamConfiguration : Type 0 where
  pub identities : List AgentIdentity
  pub roles : List RoleContract
  pub operator_profiles : List OperatorProfile
  pub assignments : List AssignmentContext
  pub bindings : List DiscordBinding
  pub topology : TeamTopology
  pub runtime_safety : RuntimeSafetyPolicy

-- `effectiveAuthority.capabilities` is the field `effective_authority`.
pub record EffectiveAgent : Type 0 where
  pub identity : AgentIdentity
  pub role : RoleContract
  pub operator_profile : OperatorProfile
  pub assignment : AssignmentContext
  pub binding : DiscordBinding
  pub effective_authority : List String

-- One constructor for each message of an `AgentTeamConfigurationError`, with what it quotes;
-- `undefined_value` is the `TypeError` of a `!` on an absent entry.
pub data TeamError : Type 0 where
  invalid_revision : String → String → Revision → TeamError
  empty_id : String → TeamError
  duplicate_id : String → String → TeamError
  empty_capability : String → String → TeamError
  repeated_capability : String → String → String → TeamError
  broadened_authority : String → String → List String → TeamError
  missing_reference : String → String → String → String → TeamError
  stale_reference : String → String → String → String → Revision → Revision → TeamError
  binding_assignment_conflict : String → String → TeamError
  repeated_identity : String → TeamError
  repeated_binding : String → TeamError
  role_of_other_identity : String → String → String → TeamError
  assignment_of_other_role : String → String → String → TeamError
  binding_member_conflict : String → String → TeamError
  undefined_value : TeamError
