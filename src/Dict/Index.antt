-- ===== src/Dict/Index.antt =====
-- A secondary index: a `Map` from a text that each stored value has to the key it is stored under.
use discordagent.Base.{String, ◌≡◌, ◌≢◌, none, some, arith, str_dec}
use discordagent.Dict.{Dict, get, set}
use discordagent.Dict.Laws.{get-set}

module _ {ℓ} {V : Type ℓ} where
  pub get-set_self : (k : String) (v : V) (m : Dict V) → get k (set k v m) ≡ some v
  get-set_self k v m = ground (arith, get-set k k v m)

  pub get-set_ne : (k j : String) (v : V) (m : Dict V) → k ≢ j → get j (set k v m) ≡ get j m
  get-set_ne k j v m h = ground (arith, get-set k j v m)

  module _ (p : V → String) where
    -- Every value is found under its text, and every entry of the index leads to its value.
    pub record IsIndex (d : Dict V) (ix : Dict String) : Type ℓ where
      pub forward : (id : String) (v : V) → get id d ≡ some v → get (p v) ix ≡ some id
      pub backward :
          (t id : String) → get t ix ≡ some id → (v : V) × (get id d ≡ some v) × (p v ≡ t)

    module _ (d : Dict V) (ix : Dict String) (id : String) (v : V) where
      forward_insert :
          IsIndex d ix
          → get (p v) ix ≡ none
          → (j : String) (w : V) → get j (set id v d) ≡ some w
          → get (p w) (set (p v) id ix) ≡ some j
      forward_insert h free j w e = elim (str_dec id j) [
        | yes same ↦ ground (arith, get-set id j v d, get-set (p v) (p w) id ix)
        | no other ↦ ground (
          arith,
          get-set id j v d,
          get-set (p v) (p w) id ix,
          h.forward j w (ground (arith, get-set id j v d)),
        )
      ]

      backward_insert :
          IsIndex d ix
          → get id d ≡ none
          → (t j : String) → get t (set (p v) id ix) ≡ some j
          → (w : V) × (get j (set id v d) ≡ some w) × (p w ≡ t)
      backward_insert h fresh t j e = elim (str_dec (p v) t) [
        | yes same ↦ (v, ground (arith, get-set id j v d, get-set (p v) t id ix), same)
        | no other ↦
            let (w, at, text) = h.backward t j (ground (arith, get-set (p v) t id ix)) in
            (w, ground (arith, get-set id j v d), text)
      ]

      -- A new value with a new text.
      pub IsIndex-insert :
          IsIndex d ix
          → get id d ≡ none
          → get (p v) ix ≡ none
          → IsIndex (set id v d) (set (p v) id ix)
      IsIndex-insert h fresh free = record {
        forward = forward_insert h free;
        backward = backward_insert h fresh;
      }

      -- A new value under an old key, with the text of the old value.
      pub IsIndex-update :
          (old : V) → IsIndex d ix → get id d ≡ some old → p v ≡ p old → IsIndex (set id v d) ix
      IsIndex-update old h at same = record {
        forward = λ j w e. elim (str_dec id j) [
          | yes here ↦ ground (arith, get-set id j v d, h.forward id old at)
          | no other ↦ h.forward j w (ground (arith, get-set id j v d))
        ];
        backward = λ t j e.
            let (w, found, text) = h.backward t j e in
            elim (str_dec id j) [
              | yes here ↦ (v, ground (arith, get-set id j v d), ground arith)
              | no other ↦ (w, ground (arith, get-set id j v d), text)
            ];
      }
