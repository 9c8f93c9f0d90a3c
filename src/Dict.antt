-- ===== src/Dict.antt =====
-- The JavaScript `Map` with string keys that the repositories in memory keep: entries in insertion
-- order, where `set` on a present key overwrites in place. The laws are in the children.
pub mod Laws
pub mod Index
pub mod Distinct
use discordagent.Base.{
  String, Bool, true, false, Option, none, some, List, [], ◌∷◌, map, ◌==◌, if◌then◌else◌,
}

abbrev pub Dict {ℓ} : Type ℓ → Type ℓ
Dict V = List (String × V)

module _ {ℓ} {V : Type ℓ} where
  unfoldable pub get : String → Dict V → Option V
  get k [] = none
  get k ((j, v) ∷ m) = if j == k then some v else get k m

  unfoldable pub set : String → V → Dict V → Dict V
  set k v [] = (k, v) ∷ []
  set k v ((j, w) ∷ m) = if j == k then (k, v) ∷ m else (j, w) ∷ set k v m

  abbrev pub is_some : Option V → Bool
  is_some none = false
  is_some (some _) = true

  abbrev pub has : String → Dict V → Bool
  has k m = is_some (get k m)

  abbrev pub values : Dict V → List V
  values m = map (λ e. e.1) m
