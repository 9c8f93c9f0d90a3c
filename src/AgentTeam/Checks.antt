-- ===== src/AgentTeam/Checks.antt =====
-- agentTeam/composition.ts: the checks that `composeEffectiveAgents` is made of. A `Set` is the list
-- of its members in insertion order.
use discordagent.Base.{
  ℕ, String, Bool, true, false, not, ◌&&◌, ◌++◌, Option, none, some, List, [], ◌∷◌, leb, is_empty,
  if◌then◌else◌, Result, ok, err, ◌>>=◌, ◌>>◌, throw_if, str_dec,
}
use Prim.Native.String.{◌++◌ as text_append}
use native.Mathlib.Decide.{ℕ_discrete}
use discordagent.Dict.{Dict, get, set, has}
use discordagent.Text.{trim}
use discordagent.Text.Order.{has_text, sort_texts}
use discordagent.AgentTeam.Contracts.{
  Revision, whole, other, ContractReference, TeamError, invalid_revision, empty_id, duplicate_id,
  empty_capability, repeated_capability, broadened_authority, missing_reference, stale_reference,
  undefined_value,
}

unfoldable pub revision_dec : Discrete Revision
revision_dec = hlevel (ℕ_discrete, str_dec)

-- `!==` on two revisions. (Two that are NaN never meet here: both have passed the check below.)
abbrev pub revisions_differ : Revision → Revision → Bool
revisions_differ a b = elim (revision_dec a b) [ yes _ ↦ false | no _ ↦ true ]

abbrev max_safe_integer : ℕ
max_safe_integer = 9007199254740991

-- `Number.isSafeInteger(revision) && revision >= 1`.
unfoldable pub is_positive_revision : Revision → Bool
is_positive_revision (whole n) = leb 1 n && leb n max_safe_integer
is_positive_revision (other s) = false

unfoldable pub require_positive_revision : String → String → Revision → Result TeamError (Unit {0})
unfolding is_positive_revision
require_positive_revision kind id revision =
    throw_if (not (is_positive_revision revision)) (invalid_revision kind id revision)

-- `map.get(key)!`, whose use throws where the key is absent.
abbrev pub demand {ℓ} : {A : Type ℓ} → Option A → Result TeamError A
demand none = err undefined_value
demand (some a) = ok a

abbrev pub or_missing {ℓ} : {A : Type ℓ} → TeamError → Option A → Result TeamError A
or_missing e none = err e
or_missing e (some a) = ok a

-- `${kind} ${ownerId} ${referenceKind} reference`
abbrev pub reference_label : String → String → String → String
reference_label kind owner_id reference_kind = text_append kind (
    text_append " "
      (text_append owner_id (text_append " " (text_append reference_kind " reference"))))

-- The loop of `indexUnique` from the map `result` on. The type of the values is known by its `id` and
-- `revision`.
module _ {T : Type 0} (id_of : T → String) (revision_of : T → Revision) (kind : String) where
  unfoldable pub index_from : Dict T → List T → Result TeamError (Dict T)
  unfolding require_positive_revision
  index_from result [] = ok result
  index_from result (v ∷ vs) = do
    throw_if (is_empty (trim (id_of v))) (empty_id kind)
    require_positive_revision kind (id_of v) (revision_of v)
    throw_if (has (id_of v) result) (duplicate_id kind (id_of v))
    index_from (set (id_of v) v result) vs

  unfoldable pub index_unique : List T → Result TeamError (Dict T)
  unfolding index_from
  index_unique vs = index_from [] vs

  -- Here `kind` is the kind of what is referred to, and the other two texts name the owner.
  unfoldable pub require_reference :
      String → String → ContractReference → Dict T → Result TeamError T
  unfolding require_positive_revision
  require_reference owner_kind owner_id reference index = do
    require_positive_revision (reference_label owner_kind owner_id kind) reference.id
        reference.revision
    v ←
        or_missing (missing_reference owner_kind owner_id kind reference.id)
          (get reference.id index)
    throw_if (revisions_differ (revision_of v) reference.revision)
        (stale_reference owner_kind owner_id kind reference.id reference.revision (revision_of v))
    ok v

-- The loop of `normalizedCapabilities` from the set `result` on.
unfoldable pub normalize_from :
    String → String → List String → List String → Result TeamError (List String)
normalize_from kind id result [] = ok result
normalize_from kind id result (c ∷ cs) = do
  throw_if (is_empty (trim c)) (empty_capability kind id)
  throw_if (has_text result (trim c)) (repeated_capability kind id (trim c))
  normalize_from kind id (result ++ trim c ∷ []) cs

unfoldable pub normalized_capabilities :
    String → String → List String → Result TeamError (List String)
unfolding normalize_from
normalized_capabilities kind id capabilities = normalize_from kind id [] capabilities

unfoldable pub intersect : List String → List String → List String
intersect [] right = []
intersect (l ∷ ls) right =
    let rest = intersect ls right in if has_text right l then l ∷ rest else rest

-- `[...candidate].filter((value) => !authorityCeiling.has(value))`.
unfoldable pub broadened : List String → List String → List String
broadened [] ceiling = []
broadened (c ∷ cs) ceiling =
    let rest = broadened cs ceiling in if has_text ceiling c then rest else c ∷ rest

abbrev pub throw_broadened : String → String → List String → Result TeamError (Unit {0})
throw_broadened kind id [] = ok tt
throw_broadened kind id (c ∷ cs) = err (broadened_authority kind id (sort_texts (c ∷ cs)))

unfoldable pub assert_subset :
    String → String → List String → List String → Result TeamError (Unit {0})
unfolding broadened
assert_subset kind id candidate ceiling = throw_broadened kind id (broadened candidate ceiling)
