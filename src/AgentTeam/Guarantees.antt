-- ===== src/AgentTeam/Guarantees.antt =====
-- agentTeam/composition.ts: what `composeEffectiveAgents` guarantees when it returns.
use discordagent.Base.{
  String, ◌≡◌, sym, ap, ◌∙◌, subst, some, List, [], ◌∷◌, ◌++◌, Result, ok, arith, >>=-eq-ok,
  throw_if-eq-ok, ◌>>=◌, ◌>>◌, throw_if,
}
use discordagent.Dict.{Dict, get}
use discordagent.Text.Order.{has_text}
use discordagent.AgentTeam.Contracts.{
  Revision, ContractReference, TeamTopologyMember, AgentTeamConfiguration, EffectiveAgent,
  TeamError, repeated_identity, repeated_binding,
}
use discordagent.AgentTeam.Composition.{Indexes, Authorities, or_none}
use discordagent.AgentTeam.Members.{resolve_member, compose_members}
use discordagent.AgentTeam.Maps.{IsIndexOf, Refers, IsFilled}
use discordagent.AgentTeam.Authority.{
  AreIndexes, AreAuthorities, Stands, Stands-of_normalized, role-Stands, operator-Stands,
  assignment-Stands, binding-Stands,
}
use discordagent.AgentTeam.Agents.{
  IsResolved, IsLeastPrivilege, resolve_member-IsLookedUp, resolve_member_links,
  resolve_member_sets, Names-of_reference, has-effective, effective-IsUnique, effective-IsSorted,
  find_identity-Refers, find_role-Refers, find_operator-Refers, find_assignment-Refers,
  find_binding-Refers,
}

-- The entry that a reference led to stands under its own id.
pub own_entry :
    {T : Type 0} (id_of : T → String) (revision_of : T → Revision) (kind : String) (vs : List T)
    (d : Dict T) (reference : ContractReference) (v : T)
    → IsIndexOf id_of revision_of kind vs d
    → Refers id_of revision_of kind d reference v
    → get (id_of v) d ≡ some v
own_entry id_of revision_of kind vs d reference v h f =
    subst (λ i. get i d ≡ some v) (sym (h.keyed reference.id v f.entry)) f.entry

-- The set that a filled map has for an entry stands for the entry's capabilities.
set-Stands :
    {V : Type 0} (id_of : V → String) (body : V → Result TeamError (List String)) (v : V)
    (caps_of : V → List String) (d : Dict V) (rc : Dict (List String)) (s : List String)
    → IsFilled id_of body d [] rc
    → get (id_of v) d ≡ some v
    → get (id_of v) rc ≡ some s
    → ((w : V) (t : List String) → body w ≡ ok t → Stands (caps_of w) t)
    → Stands (caps_of v) s
set-Stands id_of body v caps_of d rc s h at found stands =
    let (t, found', made) = h.filled (id_of v) v at in
    let same : t ≡ s = ground arith in subst (Stands (caps_of v)) same (stands v t made)

module _ (c : AgentTeamConfiguration) (x : Indexes) (a : Authorities) (topology_id : String)
    (indexed : AreIndexes c x) (filled : AreAuthorities c x a) (m : TeamTopologyMember)
    (g : EffectiveAgent) (e : resolve_member x a topology_id m ≡ ok g) where
  resolve_member-IsResolved : IsResolved c m g
  resolve_member-IsResolved =
      let l = resolve_member-IsLookedUp x a topology_id m g e in
      let links = resolve_member_links x a topology_id m g e in
      record {
        identity =
            Names-of_reference _ _ _ c.identities x.identities m.identity g.identity
              indexed.identities
              (find_identity-Refers x "team topology" topology_id m.identity g.identity l.identity);
        role =
            Names-of_reference _ _ _ c.roles x.roles m.role g.role indexed.roles
              (find_role-Refers x "team topology" topology_id m.role g.role l.role);
        assignment =
            Names-of_reference _ _ _ c.assignments x.assignments m.assignment g.assignment
              indexed.assignments
              (find_assignment-Refers x "team topology" topology_id m.assignment g.assignment
                l.assignment);
        binding =
            Names-of_reference _ _ _ c.bindings x.bindings m.binding g.binding indexed.bindings
              (find_binding-Refers x "team topology" topology_id m.binding g.binding l.binding);
        operator_profile =
            Names-of_reference _ _ _ c.operator_profiles x.operator_profiles
              g.assignment.operator_profile g.operator_profile indexed.operators
              (find_operator-Refers x "assignment" g.assignment.id g.assignment.operator_profile
                g.operator_profile l.profile);
        role_identity = links.0;
        assignment_role = links.1;
        binding_identity = links.2;
        binding_assignment = links.3;
      }

  resolve_member-IsLeastPrivilege : IsLeastPrivilege c g
  resolve_member-IsLeastPrivilege =
      let l = resolve_member-IsLookedUp x a topology_id m g e in
      let (r, o, p, b, at_r, at_o, at_p, at_b, eq) = resolve_member_sets x a topology_id m g e in
      let role =
        set-Stands _ _ g.role (λ r. r.authority) x.roles a.role r filled.roles
          (own_entry _ _ _ c.roles x.roles m.role g.role indexed.roles
            (find_role-Refers x "team topology" topology_id m.role g.role l.role))
          at_r (role-Stands x) in
      let operator =
        set-Stands _ _ g.operator_profile (λ q. or_none q.eligible_capabilities) x.operator_profiles
          a.operator o filled.operators
          (own_entry _ _ _ c.operator_profiles x.operator_profiles g.assignment.operator_profile
            g.operator_profile indexed.operators
            (find_operator-Refers x "assignment" g.assignment.id g.assignment.operator_profile
              g.operator_profile l.profile))
          at_o (operator-Stands x) in
      let assignment =
        set-Stands _ _ g.assignment (λ q. q.allowed_capabilities) x.assignments a.assignment p
          filled.assignments
          (own_entry _ _ _ c.assignments x.assignments m.assignment g.assignment indexed.assignments
            (find_assignment-Refers x "team topology" topology_id m.assignment g.assignment
              l.assignment))
          at_p (assignment-Stands x a.role a.operator) in
      let binding =
        set-Stands _ _ g.binding (λ q. q.eligible_capabilities) x.bindings a.binding b
          filled.bindings
          (own_entry _ _ _ c.bindings x.bindings m.binding g.binding indexed.bindings
            (find_binding-Refers x "team topology" topology_id m.binding g.binding l.binding))
          at_b (binding-Stands x a.role) in
      let runtime =
        Stands-of_normalized "runtime safety policy" "runtime" c.runtime_safety.allowed_capabilities
          a.runtime filled.runtime in
      record {
        exact = λ t.
            ap (λ l. has_text l t) eq
            ∙ has-effective r o p b a.runtime t
            ∙ ground (
              arith,
              role.same t,
              operator.same t,
              assignment.same t,
              binding.same t,
              runtime.same t,
            );
        sorted = rw eq (effective-IsSorted r o p b a.runtime);
        unique = rw eq (effective-IsUnique r o p b a.runtime role.unique);
      }

-- What holds of an agent and its member.
pub record IsGranted (c : AgentTeamConfiguration) (m : TeamTopologyMember) (g : EffectiveAgent)
    : Type 0 where
  pub resolved : IsResolved c m g
  pub authority : IsLeastPrivilege c g

-- One agent for each member, in the order of the topology.
pub data AllGranted (c : AgentTeamConfiguration)
    : List TeamTopologyMember → List EffectiveAgent → Type 0 where
  none_left : AllGranted c [] []
  next :
      {m : TeamTopologyMember} {ms : List TeamTopologyMember} {g : EffectiveAgent}
      {gs : List EffectiveAgent}
      → IsGranted c m g
      → AllGranted c ms gs
      → AllGranted c (m ∷ ms) (g ∷ gs)

module _ (c : AgentTeamConfiguration) (x : Indexes) (a : Authorities) (topology_id : String)
    (indexed : AreIndexes c x) (filled : AreAuthorities c x a) where
  pub compose_members-AllGranted :
      (is bs : List String) (ms : List TeamTopologyMember) (gs : List EffectiveAgent)
      → compose_members x a topology_id is bs ms ≡ ok gs
      → AllGranted c ms gs
  unfolding compose_members
  compose_members-AllGranted is bs [] [] e = none_left
  compose_members-AllGranted is bs [] (g ∷ gs) e = absurd (ground arith)
  compose_members-AllGranted is bs (m ∷ ms) gs e =
      let tail : EffectiveAgent → Result TeamError (List EffectiveAgent) = λ g.
        compose_members x a topology_id (is ++ m.identity.id ∷ []) (bs ++ m.binding.id ∷ []) ms
        >>= λ gs'. ok (g ∷ gs') in
      let (new_identity, e₁) =
        throw_if-eq-ok (has_text is m.identity.id) (repeated_identity m.identity.id)
          (throw_if (has_text bs m.binding.id) (repeated_binding m.binding.id)
            >> (resolve_member x a topology_id m >>= tail))
          e in
      let (new_binding, e₂) =
        throw_if-eq-ok (has_text bs m.binding.id) (repeated_binding m.binding.id)
          (resolve_member x a topology_id m >>= tail) e₁ in
      let (g, resolved, e₃) = >>=-eq-ok (resolve_member x a topology_id m) tail e₂ in
      let (gs', rest, e₄) =
        >>=-eq-ok
          (compose_members x a topology_id (is ++ m.identity.id ∷ []) (bs ++ m.binding.id ∷ []) ms)
          (λ l. ok (g ∷ l)) e₃ in
      let same : g ∷ gs' ≡ gs = ground arith in
      subst (AllGranted c (m ∷ ms)) same (
        next
          (record {
            resolved = resolve_member-IsResolved c x a topology_id indexed filled m g resolved;
            authority =
                resolve_member-IsLeastPrivilege c x a topology_id indexed filled m g resolved;
          })
          (compose_members-AllGranted (is ++ m.identity.id ∷ []) (bs ++ m.binding.id ∷ []) ms gs'
            rest))
