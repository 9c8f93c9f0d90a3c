-- ===== src/AgentTeam/Sets.antt =====
-- agentTeam/composition.ts: what the sets and the maps of `composeEffectiveAgents` hold.
use discordagent.Base.{
  String, ◌≡◌, refl, ◌∙◌, false, ◌&&◌, ◌||◌, List, [], ◌∷◌, ◌++◌, map, ok, arith, throw_if-eq-ok,
  ◌>>◌, throw_if, is_empty,
}
use mathlib.Core.List.{append_assoc, append-nil}
use discordagent.Text.{trim}
use discordagent.Text.Order.{has_text, IsUnique}
use discordagent.AgentTeam.Contracts.{empty_capability, repeated_capability}
use discordagent.AgentTeam.Checks.{normalize_from, normalized_capabilities, intersect}

pub has_text-append :
    (xs ys : List String) (t : String) → has_text (xs ++ ys) t ≡ (has_text xs t || has_text ys t)
has_text-append [] ys t = refl
has_text-append (x ∷ xs) ys t = ground (arith, has_text-append xs ys t)

pub IsUnique-snoc :
    (xs : List String) (t : String) → has_text xs t ≡ false → IsUnique xs → IsUnique (xs ++ t ∷ [])
IsUnique-snoc [] t f u = (refl, tt)
IsUnique-snoc (x ∷ xs) t f u = ground (arith, has_text-append xs (t ∷ []) x, IsUnique-snoc xs t)

-- `normalizedCapabilities` yields the trimmed capabilities, none of them twice.
normalize_from-eq :
    (kind id : String) (acc cs : List String) (s : List String)
    → normalize_from kind id acc cs ≡ ok s
    → IsUnique acc
    → (s ≡ acc ++ map trim cs) × IsUnique s
unfolding normalize_from
normalize_from-eq kind id acc [] s h u = ground (arith, append-nil acc)
normalize_from-eq kind id acc (c ∷ cs) s h u =
    let (nonempty, rest) =
      throw_if-eq-ok (is_empty (trim c)) (empty_capability kind id)
        (throw_if (has_text acc (trim c)) (repeated_capability kind id (trim c))
          >> normalize_from kind id (acc ++ trim c ∷ []) cs)
        h in
    let (fresh, rest') =
      throw_if-eq-ok (has_text acc (trim c)) (repeated_capability kind id (trim c))
        (normalize_from kind id (acc ++ trim c ∷ []) cs) rest in
    let (same, unique) =
      normalize_from-eq kind id (acc ++ trim c ∷ []) cs s rest'
        (IsUnique-snoc acc (trim c) fresh u) in
    (same ∙ append_assoc acc (trim c ∷ []) (map trim cs), unique)

pub normalized-eq :
    (kind id : String) (cs s : List String)
    → normalized_capabilities kind id cs ≡ ok s
    → (s ≡ map trim cs) × IsUnique s
unfolding normalized_capabilities
normalized-eq kind id cs s h = normalize_from-eq kind id [] cs s h tt

pub has-intersect :
    (l r : List String) (t : String) → has_text (intersect l r) t ≡ (has_text l t && has_text r t)
unfolding intersect
has-intersect [] r t = refl
has-intersect (x ∷ l) r t = ground (arith, has-intersect l r t)

pub intersect-IsUnique : (l r : List String) → IsUnique l → IsUnique (intersect l r)
unfolding intersect
intersect-IsUnique [] r u = tt
intersect-IsUnique (x ∷ l) r u = ground (arith, has-intersect l r x, intersect-IsUnique l r u.1)
