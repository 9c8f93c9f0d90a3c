-- ===== src/AgentTeam/Agents.antt =====
-- agentTeam/composition.ts: the agents that `composeEffectiveAgents` yields.
use discordagent.Base.{String, ◌≡◌, refl, ◌∙◌, ◌≢◌, ◌&&◌, Option, none, some, List, ok, arith}
use mathlib.Core.List.{Memᴰ}
use discordagent.Dict.{Dict, get}
use discordagent.Text.Order.{has_text, IsUnique, has-sort, IsSorted, sort-IsSorted, sort-IsUnique}
use discordagent.AgentTeam.Contracts.{
  Revision, ContractReference, AgentIdentity, RoleContract, OperatorProfile, AssignmentContext,
  DiscordBinding, TeamTopologyMember, AgentTeamConfiguration, EffectiveAgent,
}
use discordagent.AgentTeam.Checks.{intersect}
use discordagent.AgentTeam.Composition.{
  Indexes, Authorities, or_none, find_identity, find_role, find_operator, find_assignment,
  find_binding,
}
use discordagent.AgentTeam.Members.{effective, resolve_member}
use discordagent.AgentTeam.Sets.{has-intersect, intersect-IsUnique}
use discordagent.AgentTeam.Maps.{IsIndexOf, Refers, require_reference-Refers}
use discordagent.AgentTeam.Authority.{grants}

-- A listed entry that a reference names, in its current revision.
abbrev pub Names :
    {T : Type 0} → (T → String) → (T → Revision) → List T → ContractReference → T → Type 0
Names id_of revision_of vs reference v =
    Memᴰ v vs × (id_of v ≡ reference.id) × (revision_of v ≡ reference.revision)

-- An agent is made of the listed entries that its topology member names, and these name one another.
pub record IsResolved (c : AgentTeamConfiguration) (m : TeamTopologyMember) (g : EffectiveAgent)
    : Type 0 where
  pub identity : Names (λ i. i.id) (λ i. i.revision) c.identities m.identity g.identity
  pub role : Names (λ i. i.id) (λ i. i.revision) c.roles m.role g.role
  pub assignment : Names (λ i. i.id) (λ i. i.revision) c.assignments m.assignment g.assignment
  pub binding : Names (λ i. i.id) (λ i. i.revision) c.bindings m.binding g.binding
  pub operator_profile :
      Names
        (λ i. i.id)
        (λ i. i.revision)
        c.operator_profiles
        g.assignment.operator_profile
        g.operator_profile
  pub role_identity : g.role.identity.id ≡ g.identity.id
  pub assignment_role : g.assignment.role.id ≡ g.role.id
  pub binding_identity : g.binding.identity.id ≡ g.identity.id
  pub binding_assignment : g.binding.assignment.id ≡ g.assignment.id

-- A capability is effective exactly if the role, the operator profile, the assignment, the binding
-- and the runtime policy all grant it; the list is sorted, with no repetition.
pub record IsLeastPrivilege (c : AgentTeamConfiguration) (g : EffectiveAgent) : Type 0 where
  pub exact :
      (t : String)
      → has_text g.effective_authority t ≡ (
          grants g.role.authority t
          && grants (or_none g.operator_profile.eligible_capabilities) t
          && grants g.assignment.allowed_capabilities t
          && grants g.binding.eligible_capabilities t
          && grants c.runtime_safety.allowed_capabilities t)
  pub sorted : IsSorted g.effective_authority
  pub unique : IsUnique g.effective_authority

pub has-effective :
    (r o p b t : List String) (s : String)
    → has_text (effective r o p b t) s
      ≡ (has_text r s && has_text o s && has_text p s && has_text b s && has_text t s)
unfolding effective
has-effective r o p b t s =
    has-sort (intersect (intersect (intersect (intersect r o) p) b) t) s
    ∙ ground (
      arith,
      has-intersect (intersect (intersect (intersect r o) p) b) t s,
      has-intersect (intersect (intersect r o) p) b s,
      has-intersect (intersect r o) p s,
      has-intersect r o s,
    )

pub effective-IsUnique : (r o p b t : List String) → IsUnique r → IsUnique (effective r o p b t)
unfolding effective
effective-IsUnique r o p b t u =
    sort-IsUnique (intersect (intersect (intersect (intersect r o) p) b) t) (
      intersect-IsUnique (intersect (intersect (intersect r o) p) b) t (
        intersect-IsUnique (intersect (intersect r o) p) b
          (intersect-IsUnique (intersect r o) p (intersect-IsUnique r o u))))

pub effective-IsSorted : (r o p b t : List String) → IsSorted (effective r o p b t)
unfolding effective
effective-IsSorted r o p b t =
    sort-IsSorted (intersect (intersect (intersect (intersect r o) p) b) t)

pub Names-of_reference :
    {T : Type 0} (id_of : T → String) (revision_of : T → Revision) (kind : String) (vs : List T)
    (d : Dict T) (reference : ContractReference) (v : T)
    → IsIndexOf id_of revision_of kind vs d
    → Refers id_of revision_of kind d reference v
    → Names id_of revision_of vs reference v
Names-of_reference id_of revision_of kind vs d reference v h f =
    (h.listed reference.id v f.entry, h.keyed reference.id v f.entry, f.current)

-- The lookups of a member that resolves.
pub record IsLookedUp (x : Indexes) (topology_id : String) (m : TeamTopologyMember)
    (g : EffectiveAgent) : Type 0 where
  pub identity : find_identity x "team topology" topology_id m.identity ≡ ok g.identity
  pub role : find_role x "team topology" topology_id m.role ≡ ok g.role
  pub assignment : find_assignment x "team topology" topology_id m.assignment ≡ ok g.assignment
  pub binding : find_binding x "team topology" topology_id m.binding ≡ ok g.binding
  pub profile :
      find_operator x "assignment" g.assignment.id g.assignment.operator_profile
      ≡ ok g.operator_profile

present : (o : Option (List String)) → o ≢ none → (s : List String) × (o ≡ some s)
present none h = absurd (h refl)
present (some s) h = (s, refl)

module _ (x : Indexes) (a : Authorities) (topology_id : String) (m : TeamTopologyMember)
    (g : EffectiveAgent) (e : resolve_member x a topology_id m ≡ ok g) where
  pub resolve_member-IsLookedUp : IsLookedUp x topology_id m g
  unfolding resolve_member
  resolve_member-IsLookedUp = record {
    identity = ground arith;
    role = ground arith;
    assignment = ground arith;
    binding = ground arith;
    profile = ground arith;
  }

  pub resolve_member_links :
      (g.role.identity.id ≡ g.identity.id)
      × (g.assignment.role.id ≡ g.role.id)
      × (g.binding.identity.id ≡ g.identity.id)
      × (g.binding.assignment.id ≡ g.assignment.id)
  unfolding resolve_member
  resolve_member_links = ground arith

  -- The four sets that the effective authority is the intersection of, beside the runtime's.
  pub resolve_member_sets :
      (r : List String) × (o : List String) × (p : List String) × (b : List String) × (get g.role.id
          a.role
        ≡ some r)
      × (get g.operator_profile.id a.operator ≡ some o)
      × (get g.assignment.id a.assignment ≡ some p)
      × (get g.binding.id a.binding ≡ some b)
      × (g.effective_authority ≡ effective r o p b a.runtime)
  unfolding resolve_member
  resolve_member_sets =
      let (r, at_role) = present (get g.role.id a.role) (λ gone. ground arith) in
      let (o, at_operator) =
        present (get g.operator_profile.id a.operator) (λ gone. ground arith) in
      let (p, at_assignment) = present (get g.assignment.id a.assignment) (λ gone. ground arith) in
      let (b, at_binding) = present (get g.binding.id a.binding) (λ gone. ground arith) in
      (r, o, p, b, at_role, at_operator, at_assignment, at_binding, ground arith)

module _ (x : Indexes) (kind id : String) (ref : ContractReference) where
  pub find_identity-Refers :
      (v : AgentIdentity)
      → find_identity x kind id ref ≡ ok v
      → Refers (λ i. i.id) (λ i. i.revision) "identity" x.identities ref v
  unfolding find_identity
  find_identity-Refers v e = require_reference-Refers _ _ _ kind id ref x.identities v e

  pub find_role-Refers :
      (v : RoleContract)
      → find_role x kind id ref ≡ ok v
      → Refers (λ i. i.id) (λ i. i.revision) "role" x.roles ref v
  unfolding find_role
  find_role-Refers v e = require_reference-Refers _ _ _ kind id ref x.roles v e

  pub find_operator-Refers :
      (v : OperatorProfile)
      → find_operator x kind id ref ≡ ok v
      → Refers (λ i. i.id) (λ i. i.revision) "operator profile" x.operator_profiles ref v
  unfolding find_operator
  find_operator-Refers v e = require_reference-Refers _ _ _ kind id ref x.operator_profiles v e

  pub find_assignment-Refers :
      (v : AssignmentContext)
      → find_assignment x kind id ref ≡ ok v
      → Refers (λ i. i.id) (λ i. i.revision) "assignment" x.assignments ref v
  unfolding find_assignment
  find_assignment-Refers v e = require_reference-Refers _ _ _ kind id ref x.assignments v e

  pub find_binding-Refers :
      (v : DiscordBinding)
      → find_binding x kind id ref ≡ ok v
      → Refers (λ i. i.id) (λ i. i.revision) "Discord binding" x.bindings ref v
  unfolding find_binding
  find_binding-Refers v e = require_reference-Refers _ _ _ kind id ref x.bindings v e
