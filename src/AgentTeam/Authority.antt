-- ===== src/AgentTeam/Authority.antt =====
-- agentTeam/composition.ts: the authority and the references of the agents that
-- `composeEffectiveAgents` yields.
use discordagent.Base.{String, ◌≡◌, ap, Bool, List, [], map, ok, arith, All, >>=-eq-ok}
use discordagent.Dict.{Dict}
use discordagent.Dict.Distinct.{All-of_get}
use discordagent.Text.{trim}
use discordagent.Text.Order.{has_text, IsUnique}
use discordagent.AgentTeam.Contracts.{
  Revision, RoleContract, OperatorProfile, AssignmentContext, DiscordBinding,
  AgentTeamConfiguration,
}
use discordagent.AgentTeam.Checks.{normalized_capabilities}
use discordagent.AgentTeam.Composition.{
  Indexes, Authorities, or_none, build_indexes, build_authorities, find_identity, role_authority,
  operator_authority, assignment_authority, binding_authority,
}
use discordagent.AgentTeam.Sets.{normalized-eq}
use discordagent.AgentTeam.Maps.{IsIndexOf, index_unique-IsIndexOf, IsFilled, fill-IsFilled}

pub record AreIndexes (c : AgentTeamConfiguration) (x : Indexes) : Type 0 where
  pub identities : IsIndexOf (λ i. i.id) (λ i. i.revision) "identity" c.identities x.identities
  pub roles : IsIndexOf (λ i. i.id) (λ i. i.revision) "role" c.roles x.roles
  pub operators :
      IsIndexOf
        (λ i. i.id)
        (λ i. i.revision)
        "operator profile"
        c.operator_profiles
        x.operator_profiles
  pub assignments : IsIndexOf (λ i. i.id) (λ i. i.revision) "assignment" c.assignments x.assignments
  pub bindings : IsIndexOf (λ i. i.id) (λ i. i.revision) "Discord binding" c.bindings x.bindings

pub build_indexes-AreIndexes :
    (c : AgentTeamConfiguration) (x : Indexes) → build_indexes c ≡ ok x → AreIndexes c x
unfolding build_indexes
build_indexes-AreIndexes c x e = record {
  identities = index_unique-IsIndexOf _ _ _ _ _ (ground arith);
  roles = index_unique-IsIndexOf _ _ _ _ _ (ground arith);
  operators = index_unique-IsIndexOf _ _ _ _ _ (ground arith);
  assignments = index_unique-IsIndexOf _ _ _ _ _ (ground arith);
  bindings = index_unique-IsIndexOf _ _ _ _ _ (ground arith);
}

pub record AreAuthorities (c : AgentTeamConfiguration) (x : Indexes) (a : Authorities)
    : Type 0 where
  pub roles : IsFilled (λ r. r.id) (role_authority x) x.roles [] a.role
  pub operators : IsFilled (λ o. o.id) (operator_authority x) x.operator_profiles [] a.operator
  pub assignments :
      IsFilled (λ p. p.id) (assignment_authority x a.role a.operator) x.assignments [] a.assignment
  pub bindings : IsFilled (λ b. b.id) (binding_authority x a.role) x.bindings [] a.binding
  pub runtime :
      normalized_capabilities "runtime safety policy" "runtime"
        c.runtime_safety.allowed_capabilities
      ≡ ok a.runtime

module _ {V : Type 0} (id_of : V → String) where
  pub keyed_entries :
      {revision_of : V → Revision} {kind : String} (vs : List V) (d : Dict V)
      → IsIndexOf id_of revision_of kind vs d
      → All (λ e. id_of e.1 ≡ e.0) d
  keyed_entries vs d h = All-of_get (λ e. id_of e.1 ≡ e.0) d h.distinct h.keyed

pub build_authorities-AreAuthorities :
    (c : AgentTeamConfiguration) (x : Indexes) (a : Authorities)
    → AreIndexes c x
    → build_authorities c x ≡ ok a
    → AreAuthorities c x a
unfolding build_authorities
build_authorities-AreAuthorities c x a h e = record {
  roles =
      fill-IsFilled _ _ x.roles [] a.role h.roles.distinct (keyed_entries _ _ _ h.roles)
        (ground arith);
  operators =
      fill-IsFilled _ _ x.operator_profiles [] a.operator h.operators.distinct
        (keyed_entries _ _ _ h.operators) (ground arith);
  assignments =
      fill-IsFilled _ _ x.assignments [] a.assignment h.assignments.distinct
        (keyed_entries _ _ _ h.assignments) (ground arith);
  bindings =
      fill-IsFilled _ _ x.bindings [] a.binding h.bindings.distinct (keyed_entries _ _ _ h.bindings)
        (ground arith);
  runtime = ground arith;
}

-- What a capability list grants.
abbrev pub grants : List String → String → Bool
grants caps t = has_text (map trim caps) t

-- A set that stands for a capability list.
pub record Stands (caps s : List String) : Type 0 where
  pub same : (t : String) → has_text s t ≡ grants caps t
  pub unique : IsUnique s

pub Stands-of_normalized :
    (kind id : String) (caps s : List String)
    → normalized_capabilities kind id caps ≡ ok s
    → Stands caps s
Stands-of_normalized kind id caps s e =
    let (eq, u) = normalized-eq kind id caps s e in
    record { same = λ t. ap (λ l. has_text l t) eq; unique = u }

pub role-Stands :
    (x : Indexes) (role : RoleContract) (s : List String)
    → role_authority x role ≡ ok s
    → Stands role.authority s
unfolding role_authority
role-Stands x role s e =
    let (i, found, made) =
      >>=-eq-ok (find_identity x "role" role.id role.identity)
        (λ _. normalized_capabilities "role" role.id role.authority) e in
    Stands-of_normalized "role" role.id role.authority s made

pub operator-Stands :
    (x : Indexes) (profile : OperatorProfile) (s : List String)
    → operator_authority x profile ≡ ok s
    → Stands (or_none profile.eligible_capabilities) s
unfolding operator_authority
operator-Stands x profile s e = Stands-of_normalized _ _ _ s e

pub assignment-Stands :
    (x : Indexes) (rc oc : Dict (List String)) (assignment : AssignmentContext) (s : List String)
    → assignment_authority x rc oc assignment ≡ ok s
    → Stands assignment.allowed_capabilities s
unfolding assignment_authority
assignment-Stands x rc oc assignment s e =
    Stands-of_normalized "assignment" assignment.id assignment.allowed_capabilities s (ground arith)

pub binding-Stands :
    (x : Indexes) (rc : Dict (List String)) (binding : DiscordBinding) (s : List String)
    → binding_authority x rc binding ≡ ok s
    → Stands binding.eligible_capabilities s
unfolding binding_authority
binding-Stands x rc binding s e =
    Stands-of_normalized "Discord binding" binding.id binding.eligible_capabilities s (ground arith)
