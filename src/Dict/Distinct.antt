-- ===== src/Dict/Distinct.antt =====
-- The keys of a `Map` are distinct, so what holds of every answer holds of every entry.
use discordagent.Base.{
  String, ◌≡◌, refl, none, some, [], ◌∷◌, All, arith, str_dec, inl, inr, Option-cases, sym, ◌∙◌,
  subst,
}
use discordagent.Dict.{Dict, get, set}
use discordagent.Dict.Laws.{get-set}
use discordagent.Dict.Index.{IsIndex}

module _ {ℓ} {V : Type ℓ} where
  abbrev pub IsDistinct : Dict V → Type ℓ
  IsDistinct [] = Unit
  IsDistinct ((k, v) ∷ m) = (get k m ≡ none) × IsDistinct m

  pub set-IsDistinct : (k : String) (v : V) (m : Dict V) → IsDistinct m → IsDistinct (set k v m)
  unfolding set get
  set-IsDistinct k v [] h = (refl, tt)
  set-IsDistinct k v ((j, w) ∷ m) h = elim (str_dec j k) [
    | yes same ↦ ground arith
    | no other ↦ ground (arith, get-set k j v m, set-IsDistinct k v m h.1)
  ]

  -- A key that a later entry has is not that of an earlier one.
  get_tail :
      (j k : String) (w v : V) (m : Dict V)
      → get j m ≡ none
      → get k m ≡ some v
      → get k ((j, w) ∷ m) ≡ some v
  get_tail j k w v m free at = unfold get in ground arith

  pub All-of_get {κ} :
      (P : String × V → Type κ) (m : Dict V)
      → IsDistinct m
      → ((k : String) (v : V) → get k m ≡ some v → P (k, v))
      → All P m
  All-of_get P [] d h = tt
  All-of_get P ((j, w) ∷ m) d h = (
    h j w (unfold get in ground arith),
    All-of_get P m d.1 (λ k v at. h k v (get_tail j k w v m d.0 at)),
  )

-- Two indexes of maps with the same answers have the same answers.
module _ {ℓ} {V : Type ℓ} (p : V → String) (d e : Dict V) (ix jx : Dict String) where
  index_answer :
      IsIndex p d ix
      → IsIndex p e jx
      → ((id : String) → get id d ≡ get id e)
      → (k id : String) → get k ix ≡ some id
      → get k jx ≡ some id
  index_answer h g same k id at =
      let (v, found, text) = h.backward k id at in
      let there = g.forward id v (sym (same id) ∙ found) in
      subst (λ t. get t jx ≡ some id) text there

pub index_unique {ℓ} :
    {V : Type ℓ} (p : V → String) (d e : Dict V) (ix jx : Dict String)
    → IsIndex p d ix
    → IsIndex p e jx
    → ((id : String) → get id d ≡ get id e)
    → (k : String) → get k ix ≡ get k jx
index_unique p d e ix jx h g same k = elim (Option-cases (get k ix)) [
  | inr (id, at) ↦ at ∙ sym (index_answer p d e ix jx h g same k id at)
  | inl gone ↦ elim (Option-cases (get k jx)) [
    | inl gone' ↦ gone ∙ sym gone'
    | inr (id, at) ↦
        let found = index_answer p e d jx ix g h (λ i. sym (same i)) k id at in
        absurd (ground arith)
  ]
]
