-- ===== src/AgentTeam/Teams.antt =====
-- agentTeam/composition.ts: the guarantees of `composeEffectiveAgents` as a whole.
use discordagent.Base.{
  String, ◌≡◌, subst, List, [], ◌∷◌, ◌++◌, map, Result, ok, arith, ◌>>=◌, ◌>>◌, throw_if, >>=-eq-ok,
  throw_if-eq-ok, NeverFails, NeverFails-bind,
}
use mathlib.Core.List.{append_assoc, append-nil}
use discordagent.Text.Order.{has_text, IsUnique}
use discordagent.AgentTeam.Contracts.{
  TeamTopologyMember, AgentTeamConfiguration, EffectiveAgent, TeamError, repeated_identity,
  repeated_binding, undefined_value,
}
use discordagent.AgentTeam.Checks.{require_positive_revision}
use discordagent.AgentTeam.Composition.{
  Indexes, Authorities, build_indexes, build_authorities, find_identity, find_role, find_operator,
  find_assignment, find_binding,
}
use discordagent.AgentTeam.Members.{resolve_member, compose_members, compose_effective_agents}
use discordagent.AgentTeam.Sets.{IsUnique-snoc}
use discordagent.AgentTeam.Authority.{
  AreIndexes, AreAuthorities, build_indexes-AreIndexes, build_authorities-AreAuthorities,
}
use discordagent.AgentTeam.Agents.{
  find_role-Refers, find_operator-Refers, find_assignment-Refers, find_binding-Refers,
}
use discordagent.AgentTeam.Guarantees.{AllGranted, compose_members-AllGranted}
use discordagent.AgentTeam.Totality.{
  IsDefined, require_positive_revision-IsDefined, build_indexes-IsDefined,
  build_authorities-IsDefined, found_authority, find_identity-IsDefined, find_role-IsDefined,
  find_operator-IsDefined, find_assignment-IsDefined, find_binding-IsDefined,
}

-- The stages of a composition that returns.
record IsStaged (c : AgentTeamConfiguration) (gs : List EffectiveAgent) : Type 0 where
  x : Indexes
  a : Authorities
  indexed : build_indexes c ≡ ok x
  filled : build_authorities c x ≡ ok a
  members : compose_members x a c.topology.id [] [] c.topology.members ≡ ok gs

compose-IsStaged :
    (c : AgentTeamConfiguration) (gs : List EffectiveAgent)
    → compose_effective_agents c ≡ ok gs
    → IsStaged c gs
unfolding compose_effective_agents
compose-IsStaged c gs e =
    let members : Indexes → Authorities → Result TeamError (List EffectiveAgent) =
      λ x a. compose_members x a c.topology.id [] [] c.topology.members in
    let stages : Result TeamError (List EffectiveAgent) =
      build_indexes c >>= λ x. build_authorities c x >>= λ a. members x a in
    let (u, e₁, e₂) =
      >>=-eq-ok (require_positive_revision "team topology" c.topology.id c.topology.revision)
        (λ _.
          require_positive_revision "runtime safety policy" "runtime" c.runtime_safety.revision
          >> stages)
        e in
    let (v, e₃, e₄) =
      >>=-eq-ok
        (require_positive_revision "runtime safety policy" "runtime" c.runtime_safety.revision)
        (λ _. stages) e₂ in
    let (x, indexed, e₅) =
      >>=-eq-ok (build_indexes c) (λ x. build_authorities c x >>= λ a. members x a) e₄ in
    let (a, filled, e₆) = >>=-eq-ok (build_authorities c x) (λ a. members x a) e₅ in
    record { x = x; a = a; indexed = indexed; filled = filled; members = e₆ }

-- When the composition returns, there is one agent for each member of the topology, in order. It is
-- made of the listed entries, in their current revisions, that the member names, and these name one
-- another. Its effective capabilities are exactly those that the role, the operator profile,
-- the assignment, the binding and the runtime policy all grant, sorted and with no repetition.
pub compose-AllGranted :
    (c : AgentTeamConfiguration) (gs : List EffectiveAgent)
    → compose_effective_agents c ≡ ok gs
    → AllGranted c c.topology.members gs
compose-AllGranted c gs e =
    let s = compose-IsStaged c gs e in
    let indexed = build_indexes-AreIndexes c s.x s.indexed in
    compose_members-AllGranted c s.x s.a c.topology.id indexed
      (build_authorities-AreAuthorities c s.x s.a indexed s.filled) [] [] c.topology.members gs
      s.members

abbrev pub identity_ids : List TeamTopologyMember → List String
identity_ids ms = map (λ m. m.identity.id) ms

abbrev pub binding_ids : List TeamTopologyMember → List String
binding_ids ms = map (λ m. m.binding.id) ms

module _ (x : Indexes) (a : Authorities) (topology_id : String) where
  compose_members-IsUnique :
      (is bs : List String) (ms : List TeamTopologyMember) (gs : List EffectiveAgent)
      → compose_members x a topology_id is bs ms ≡ ok gs
      → IsUnique is
      → IsUnique bs
      → IsUnique (is ++ identity_ids ms) × IsUnique (bs ++ binding_ids ms)
  unfolding compose_members
  compose_members-IsUnique is bs [] gs e u v = (rw (append-nil is) u, rw (append-nil bs) v)
  compose_members-IsUnique is bs (m ∷ ms) gs e u v =
      let next : EffectiveAgent → Result TeamError (List EffectiveAgent) = λ g.
        compose_members x a topology_id (is ++ m.identity.id ∷ []) (bs ++ m.binding.id ∷ []) ms
        >>= λ gs'. ok (g ∷ gs') in
      let (new_identity, e₁) =
        throw_if-eq-ok (has_text is m.identity.id) (repeated_identity m.identity.id)
          (throw_if (has_text bs m.binding.id) (repeated_binding m.binding.id)
            >> (resolve_member x a topology_id m >>= next))
          e in
      let (new_binding, e₂) =
        throw_if-eq-ok (has_text bs m.binding.id) (repeated_binding m.binding.id)
          (resolve_member x a topology_id m >>= next) e₁ in
      let (g, resolved, e₃) = >>=-eq-ok (resolve_member x a topology_id m) next e₂ in
      let (gs', rest, e₄) =
        >>=-eq-ok
          (compose_members x a topology_id (is ++ m.identity.id ∷ []) (bs ++ m.binding.id ∷ []) ms)
          (λ l. ok (g ∷ l)) e₃ in
      let (p, q) =
        compose_members-IsUnique (is ++ m.identity.id ∷ []) (bs ++ m.binding.id ∷ []) ms gs' rest
          (IsUnique-snoc is m.identity.id new_identity u)
          (IsUnique-snoc bs m.binding.id new_binding v) in
      (
        subst IsUnique (append_assoc is (m.identity.id ∷ []) (identity_ids ms)) p,
        subst IsUnique (append_assoc bs (m.binding.id ∷ []) (binding_ids ms)) q,
      )

-- When the composition returns, no two members of the topology name one identity or one binding.
pub compose-IsUnique :
    (c : AgentTeamConfiguration) (gs : List EffectiveAgent)
    → compose_effective_agents c ≡ ok gs
    → IsUnique (identity_ids c.topology.members) × IsUnique (binding_ids c.topology.members)
compose-IsUnique c gs e =
    let s = compose-IsStaged c gs e in
    compose_members-IsUnique s.x s.a c.topology.id [] [] c.topology.members gs s.members tt tt

module _ (c : AgentTeamConfiguration) (x : Indexes) (a : Authorities) (topology_id : String)
    (h : AreIndexes c x) (f : AreAuthorities c x a) where
  resolve_member-IsDefined : (m : TeamTopologyMember) → IsDefined (resolve_member x a topology_id m)
  unfolding resolve_member
  resolve_member-IsDefined m =
      NeverFails-bind undefined_value (find_identity x "team topology" topology_id m.identity) _
        (find_identity-IsDefined x "team topology" topology_id m.identity)
        λ i at_i.
          NeverFails-bind undefined_value (find_role x "team topology" topology_id m.role) _
            (find_role-IsDefined x "team topology" topology_id m.role)
            λ r at_r.
              NeverFails-bind undefined_value
                (find_assignment x "team topology" topology_id m.assignment) _
                (find_assignment-IsDefined x "team topology" topology_id m.assignment)
                λ p at_p.
                  NeverFails-bind undefined_value
                    (find_binding x "team topology" topology_id m.binding) _
                    (find_binding-IsDefined x "team topology" topology_id m.binding)
                    λ b at_b.
                      NeverFails-bind undefined_value
                        (find_operator x "assignment" p.id p.operator_profile) _
                        (find_operator-IsDefined x "assignment" p.id p.operator_profile)
                        λ o at_o.
                          let (rs, has_r) =
                            found_authority x _ _ _ c.roles _ x.roles a.role m.role r h.roles
                              f.roles
                              (find_role-Refers x "team topology" topology_id m.role r at_r) in
                          let (os, has_o) =
                            found_authority x _ _ _ c.operator_profiles _ x.operator_profiles
                              a.operator p.operator_profile o h.operators f.operators
                              (find_operator-Refers x "assignment" p.id p.operator_profile o
                                at_o) in
                          let (ps, has_p) =
                            found_authority x _ _ _ c.assignments _ x.assignments a.assignment
                              m.assignment p h.assignments f.assignments
                              (find_assignment-Refers x "team topology" topology_id m.assignment p
                                at_p) in
                          let (bs, has_b) =
                            found_authority x _ _ _ c.bindings _ x.bindings a.binding m.binding b
                              h.bindings f.bindings
                              (find_binding-Refers x "team topology" topology_id m.binding b
                                at_b) in
                          rw (has_r, has_o, has_p, has_b) (ground arith)

  compose_members-IsDefined :
      (is bs : List String) (ms : List TeamTopologyMember)
      → IsDefined (compose_members x a topology_id is bs ms)
  unfolding compose_members
  compose_members-IsDefined is bs [] = tt
  compose_members-IsDefined is bs (m ∷ ms) = ground (
    arith,
    resolve_member-IsDefined m,
    compose_members-IsDefined (is ++ m.identity.id ∷ []) (bs ++ m.binding.id ∷ []) ms,
  )

-- The composition never fails by reading an absent entry: every `!` in it is right.
pub compose-IsDefined :
    (c : AgentTeamConfiguration) → NeverFails undefined_value (compose_effective_agents c)
unfolding compose_effective_agents
compose-IsDefined c =
    NeverFails-bind undefined_value
      (require_positive_revision "team topology" c.topology.id c.topology.revision) _
      (require_positive_revision-IsDefined "team topology" c.topology.id c.topology.revision)
      λ _ _.
        NeverFails-bind undefined_value
          (require_positive_revision "runtime safety policy" "runtime" c.runtime_safety.revision) _
          (require_positive_revision-IsDefined "runtime safety policy" "runtime"
            c.runtime_safety.revision)
          λ _ _.
            NeverFails-bind undefined_value (build_indexes c) _ (build_indexes-IsDefined c)
              λ x at_x.
                let h = build_indexes-AreIndexes c x at_x in
                NeverFails-bind undefined_value (build_authorities c x) _
                  (build_authorities-IsDefined c x h)
                  λ a at_a.
                    compose_members-IsDefined c x a c.topology.id h
                      (build_authorities-AreAuthorities c x a h at_a) [] [] c.topology.members
