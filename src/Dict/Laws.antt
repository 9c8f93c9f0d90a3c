-- ===== src/Dict/Laws.antt =====
-- The laws of `Map.get` and `Map.set`, and what holds of every entry.
use discordagent.Base.{String, ◌≡◌, refl, some, [], ◌∷◌, ◌==◌, if◌then◌else◌, All, arith, str_dec}
use discordagent.Dict.{Dict, get, set}

module _ {ℓ} {V : Type ℓ} where
  pub get-set :
      (k j : String) (v : V) (m : Dict V) → get j (set k v m) ≡ (if k == j then some v else get j m)
  unfolding get set
  get-set k j v [] = refl
  get-set k j v ((i, w) ∷ m) = ground (arith, get-set k j v m)

  -- A predicate that every entry has.
  module _ {κ} (P : String × V → Type κ) where
    pub All-set : (k : String) (v : V) (m : Dict V) → P (k, v) → All P m → All P (set k v m)
    unfolding set
    All-set k v [] p h = (p, tt)
    All-set k v ((i, w) ∷ m) p h = ground (arith, All-set k v m p h.1)

    pub get-All : (k : String) (m : Dict V) {v : V} → All P m → get k m ≡ some v → P (k, v)
    unfolding get
    get-All k [] h e = cc
    get-All k ((i, w) ∷ m) h e = elim (str_dec i k) [
      | yes p ↦ ground arith
      | no q ↦ get-All k m h.1 (ground arith)
    ]
