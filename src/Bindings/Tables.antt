-- ===== src/Bindings/Tables.antt =====
-- Tables as maps: an UPDATE of many rows, and columns that are UNIQUE.
use discordagent.Base.{
  String, Bool, true, false, ◌≡◌, refl, Option, none, some, [], ◌∷◌, if◌then◌else◌, arith, str_dec,
  any, ap, sym, ◌∙◌, subst, Option-cases, Bool-cases, inl, inr,
}
use discordagent.Dict.{Dict, get, set}
use discordagent.Dict.Laws.{get-set}
use discordagent.Dict.Distinct.{IsDistinct}
use discordagent.Bindings.Runs.{update_all}

abbrev pub map_option {ℓ} : {V : Type ℓ} → (V → V) → Option V → Option V
map_option f none = none
map_option f (some v) = some (f v)

-- What an UPDATE makes of a row.
abbrev pub updated {ℓ} : {V : Type ℓ} → (String → V → Bool) → (V → V) → String → V → V
updated test f k v = if test k v then f v else v

module _ {V : Type 0} where
  pub get-update_all :
      (test : String → V → Bool) (f : V → V) (k : String) (d : Dict V)
      → get k (update_all test f d) ≡ map_option (updated test f k) (get k d)
  unfolding get update_all
  get-update_all test f k [] = refl
  get-update_all test f k ((j, v) ∷ d) = elim (str_dec j k) [
    | yes same ↦ ground (arith, ap (λ i. updated test f i v) same)
    | no other ↦ ground (arith, get-update_all test f k d)
  ]

  -- The row that an updated row comes from.
  pub before_update :
      (test : String → V → Bool) (f : V → V) (k : String) (d : Dict V) (w : V)
      → get k (update_all test f d) ≡ some w
      → (v : V) × (get k d ≡ some v) × (updated test f k v ≡ w)
  before_update test f k d w e = elim (Option-cases (get k d)) [
    | inl gone ↦ absurd (ground (arith, get-update_all test f k d))
    | inr (v, at) ↦ (v, at, ground (arith, get-update_all test f k d))
  ]

  pub after_update :
      (test : String → V → Bool) (f : V → V) (k : String) (d : Dict V) (v : V)
      → get k d ≡ some v
      → get k (update_all test f d) ≡ some (updated test f k v)
  after_update test f k d v at = ground (arith, get-update_all test f k d)

  pub update_all-IsDistinct :
      (test : String → V → Bool) (f : V → V) (d : Dict V)
      → IsDistinct d
      → IsDistinct (update_all test f d)
  unfolding update_all
  update_all-IsDistinct test f [] h = tt
  update_all-IsDistinct test f ((j, v) ∷ d) (free, h) =
      (ground (arith, get-update_all test f j d), update_all-IsDistinct test f d h)

  -- At most one row passes a test.
  abbrev pub IsUniqueFor : (V → Bool) → Dict V → Type 0
  IsUniqueFor test d =
      (i j : String) (x y : V)
      → get i d ≡ some x
      → get j d ≡ some y
      → test x ≡ true
      → test y ≡ true
      → i ≡ j

  pub set-IsUniqueFor :
      (test : V → Bool) (id : String) (new : V) (d : Dict V)
      → IsUniqueFor test d
      → (test new ≡ true → (j : String) (y : V) → get j d ≡ some y → test y ≡ true → j ≡ id)
      → IsUniqueFor test (set id new d)
  set-IsUniqueFor test id new d h free i j x y e f p q = elim (str_dec id i) [
    | yes same ↦ elim (str_dec id j) [
      | yes same' ↦ sym same ∙ same'
      | no other' ↦
          let old : get j d ≡ some y = ground (arith, get-set id j new d) in
          let here : new ≡ x = ground (arith, get-set id i new d) in
          sym same ∙ sym (free (subst (λ r. test r ≡ true) (sym here) p) j y old q)
    ]
    | no other ↦
        let old : get i d ≡ some x = ground (arith, get-set id i new d) in
        elim (str_dec id j) [
          | yes same' ↦
              let here : new ≡ y = ground (arith, get-set id j new d) in
              free (subst (λ r. test r ≡ true) (sym here) q) i x old p ∙ same'
          | no other' ↦ h i j x y old (ground (arith, get-set id j new d)) p q
        ]
  ]

  pub update_all-IsUniqueFor :
      (test : V → Bool) (chosen : String → V → Bool) (f : V → V) (d : Dict V)
      → ((v : V) → test (f v) ≡ true → test v ≡ true)
      → IsUniqueFor test d
      → IsUniqueFor test (update_all chosen f d)
  update_all-IsUniqueFor test chosen f d keep h i j x y e k p q =
      let (v, at, same) = before_update chosen f i d x e in
      let (w, at', same') = before_update chosen f j d y k in
      h i j v w at at' (was chosen i v x same p) (was chosen j w y same' q)
    where
      was :
          (c : String → V → Bool) (k : String) (v w : V)
          → updated c f k v ≡ w
          → test w ≡ true
          → test v ≡ true
      was c k v w same p = elim (Bool-cases (c k v)) [
        | inl yes' ↦ keep v (subst (λ r. test r ≡ true) (ground arith) p)
        | inr no' ↦ subst (λ r. test r ≡ true) (ground arith) p
      ]

  -- No row passes a test that no entry passes.
  pub none_passes :
      (test : V → Bool) (d : Dict V) (id : String) (v : V)
      → any (λ e. test e.1) d ≡ false
      → get id d ≡ some v
      → test v ≡ false
  unfolding get
  none_passes test [] id v free at = absurd (ground arith)
  none_passes test ((j, w) ∷ d) id v free at = elim (str_dec j id) [
    | yes same ↦ let here : w ≡ v = ground arith in subst (λ x. test x ≡ false) here (ground arith)
    | no other ↦ none_passes test d id v (ground arith) (ground arith)
  ]
