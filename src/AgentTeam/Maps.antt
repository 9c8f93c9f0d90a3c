-- ===== src/AgentTeam/Maps.antt =====
-- agentTeam/composition.ts: what the maps of `composeEffectiveAgents` hold.
use discordagent.Base.{
  String, ◌≡◌, refl, none, some, List, [], ◌∷◌, Result, ok, arith, str_dec, All, >>=-eq-ok,
  throw_if-eq-ok, ◌>>◌, throw_if, is_empty, subst,
}
use mathlib.Core.List.{Memᴰ}
use discordagent.Dict.{Dict, get, set, has, values}
use discordagent.Dict.Laws.{get-set}
use discordagent.Dict.Index.{get-set_self, get-set_ne}
use discordagent.Dict.Distinct.{IsDistinct, set-IsDistinct}
use discordagent.Text.{trim}
use discordagent.AgentTeam.Contracts.{
  Revision, ContractReference, TeamError, empty_id, duplicate_id,
}
use discordagent.AgentTeam.Checks.{
  index_from, index_unique, require_reference, require_positive_revision,
}
use discordagent.AgentTeam.Composition.{fill}

module _ {T : Type 0} (id_of : T → String) (revision_of : T → Revision) (kind : String) where
  -- A map that holds values of a list, each under its id.
  pub record IsIndexOf (vs : List T) (d : Dict T) : Type 0 where
    pub distinct : IsDistinct d
    pub keyed : (id : String) (v : T) → get id d ≡ some v → id_of v ≡ id
    pub listed : (id : String) (v : T) → get id d ≡ some v → Memᴰ v vs

  -- The state of the loop: what is in the map is listed.
  set_listed :
      (all : List T) (v : T) (acc : Dict T)
      → Memᴰ v all
      → IsIndexOf all acc
      → IsIndexOf all (set (id_of v) v acc)
  set_listed all v acc m h = record {
    distinct = set-IsDistinct (id_of v) v acc h.distinct;
    keyed = λ id w at. elim (str_dec (id_of v) id) [
      | yes here ↦ ground (arith, get-set (id_of v) id v acc)
      | no there ↦ h.keyed id w (ground (arith, get-set (id_of v) id v acc))
    ];
    listed = λ id w at. elim (str_dec (id_of v) id) [
      | yes here ↦
          let same : v ≡ w = ground (arith, get-set (id_of v) id v acc) in
          subst (λ u. Memᴰ u all) same m
      | no there ↦ h.listed id w (ground (arith, get-set (id_of v) id v acc))
    ];
  }

  index_from-IsIndexOf :
      (all vs : List T) (acc d : Dict T)
      → ((v : T) → Memᴰ v vs → Memᴰ v all)
      → IsIndexOf all acc
      → index_from id_of revision_of kind acc vs ≡ ok d
      → IsIndexOf all d
  unfolding index_from
  index_from-IsIndexOf all [] acc d sub h e =
      let same : acc ≡ d = ground arith in subst (IsIndexOf all) same h
  index_from-IsIndexOf all (v ∷ vs) acc d sub h e =
      let step =
        throw_if-eq-ok (is_empty (trim (id_of v))) (empty_id kind)
          (require_positive_revision kind (id_of v) (revision_of v)
            >> (throw_if (has (id_of v) acc) (duplicate_id kind (id_of v))
                >> index_from id_of revision_of kind (set (id_of v) v acc) vs))
          e in
      let (u, positive, rest) =
        >>=-eq-ok (require_positive_revision kind (id_of v) (revision_of v))
          (λ _.
            throw_if (has (id_of v) acc) (duplicate_id kind (id_of v))
            >> index_from id_of revision_of kind (set (id_of v) v acc) vs)
          step.1 in
      let fresh =
        throw_if-eq-ok (has (id_of v) acc) (duplicate_id kind (id_of v))
          (index_from id_of revision_of kind (set (id_of v) v acc) vs) rest in
      index_from-IsIndexOf all vs (set (id_of v) v acc) d (λ w m. sub w (Memᴰ.tail m))
        (set_listed all v acc (sub v (Memᴰ.head refl)) h) fresh.1

  empty-IsIndexOf : (all : List T) → IsIndexOf all []
  unfolding get
  empty-IsIndexOf all = record {
    distinct = tt;
    keyed = λ id v at. absurd (ground arith);
    listed = λ id v at. absurd (ground arith);
  }

  pub index_unique-IsIndexOf :
      (vs : List T) (d : Dict T) → index_unique id_of revision_of kind vs ≡ ok d → IsIndexOf vs d
  unfolding index_unique
  index_unique-IsIndexOf vs d e = index_from-IsIndexOf vs vs [] d (λ v m. m) (empty-IsIndexOf vs) e

  -- What a reference leads to.
  pub record Refers (d : Dict T) (reference : ContractReference) (v : T) : Type 0 where
    pub entry : get reference.id d ≡ some v
    pub current : revision_of v ≡ reference.revision

  pub require_reference-Refers :
      (owner_kind owner_id : String) (reference : ContractReference) (d : Dict T) (v : T)
      → require_reference id_of revision_of kind owner_kind owner_id reference d ≡ ok v
      → Refers d reference v
  unfolding require_reference
  require_reference-Refers owner_kind owner_id reference d v e = record {
    entry = ground arith;
    current = ground arith;
  }

module _ {V : Type 0} (id_of : V → String) (body : V → Result TeamError (List String)) where
  -- The map that a loop over the values of `d` fills, `acc` being what it began with.
  pub record IsFilled (d : Dict V) (acc rc : Dict (List String)) : Type 0 where
    pub filled :
        (id : String) (v : V)
        → get id d ≡ some v
        → (s : List String) × (get id rc ≡ some s) × (body v ≡ ok s)
    pub kept : (id : String) → get id d ≡ none → get id rc ≡ get id acc

  cons-IsFilled :
      (k : String) (v : V) (d : Dict V) (s : List String) (acc rc : Dict (List String))
      → get k d ≡ none
      → body v ≡ ok s
      → IsFilled d (set k s acc) rc
      → IsFilled ((k, v) ∷ d) acc rc
  unfolding get
  cons-IsFilled k v d s acc rc free made h = record {
    filled = λ id w at. elim (str_dec k id) [
      | yes here ↦ (s, ground (arith, h.kept k free, get-set_self k s acc), ground arith)
      | no there ↦ h.filled id w (ground arith)
    ];
    kept = λ id gone. elim (str_dec k id) [
      | yes here ↦ absurd (ground arith)
      | no there ↦ ground (arith, h.kept id (ground arith), get-set_ne k id s acc there)
    ];
  }

  pub fill-IsFilled :
      (d : Dict V) (acc rc : Dict (List String))
      → IsDistinct d
      → All (λ e. id_of e.1 ≡ e.0) d
      → fill id_of body acc (values d) ≡ ok rc
      → IsFilled d acc rc
  unfolding fill
  fill-IsFilled [] acc rc u keyed e = record {
    filled = λ id v at. absurd (unfold get in ground arith);
    kept = λ id gone. ground arith;
  }
  fill-IsFilled ((k, v) ∷ d) acc rc u keyed e =
      let (s, made, rest) =
        >>=-eq-ok (body v) (λ caps. fill id_of body (set (id_of v) caps acc) (values d)) e in
      cons-IsFilled k v d s acc rc u.0 made (
        fill-IsFilled d (set k s acc) rc u.1 keyed.1
          (subst (λ i. fill id_of body (set i s acc) (values d) ≡ ok rc) keyed.0 rest))
