-- ===== src/Text/Order.antt =====
-- The order of `Array.prototype.sort` with no comparator: by UTF-16 code units.
use discordagent.Base.{
  ℕ, String, Bool, true, false, ◌&&◌, List, [], ◌∷◌, ◌≡◌, refl, inl, inr, ltb, nat_beq,
  if◌then◌else◌, arith, All, Bool-cases, any, ◌==◌, ◌∙◌,
}
use discordagent.Text.{code_units}

unfoldable pub le_units : List ℕ → List ℕ → Bool
le_units [] ys = true
le_units (x ∷ xs) [] = false
le_units (x ∷ xs) (y ∷ ys) =
    let rest = le_units xs ys in if ltb x y then true else nat_beq x y && rest

unfoldable pub text_le : String → String → Bool
unfolding le_units code_units
text_le s t = le_units (code_units s) (code_units t)

unfoldable pub insert_text : String → List String → List String
insert_text s [] = s ∷ []
insert_text s (t ∷ ts) = if text_le s t then s ∷ t ∷ ts else t ∷ insert_text s ts

-- `[…].sort()`.
unfoldable pub sort_texts : List String → List String
unfolding insert_text
sort_texts [] = []
sort_texts (s ∷ ss) = insert_text s (sort_texts ss)

-- `set.has(s)`, for a `Set` as the list of its members.
abbrev pub has_text : List String → String → Bool
has_text l s = any (λ t. t == s) l

le_units_total : (xs ys : List ℕ) → le_units xs ys ≡ false → le_units ys xs ≡ true
unfolding le_units
le_units_total [] ys h = absurd (ground arith)
le_units_total (x ∷ xs) [] h = refl
le_units_total (x ∷ xs) (y ∷ ys) h = ground (arith, le_units_total xs ys)

pub text_le_total : (s t : String) → text_le s t ≡ false → text_le t s ≡ true
unfolding text_le
text_le_total s t h = le_units_total (code_units s) (code_units t) h

le_units_trans :
    (xs ys zs : List ℕ) → le_units xs ys ≡ true → le_units ys zs ≡ true → le_units xs zs ≡ true
unfolding le_units
le_units_trans [] ys zs h k = refl
le_units_trans (x ∷ xs) [] zs h k = absurd (ground arith)
le_units_trans (x ∷ xs) (y ∷ ys) [] h k = absurd (ground arith)
le_units_trans (x ∷ xs) (y ∷ ys) (z ∷ zs) h k = ground (arith, le_units_trans xs ys zs)

pub text_le_trans : (s t u : String) → text_le s t ≡ true → text_le t u ≡ true → text_le s u ≡ true
unfolding text_le
text_le_trans s t u h k = le_units_trans (code_units s) (code_units t) (code_units u) h k

-- Every text is before all that follow it.
abbrev pub IsSorted : List String → Type 0
IsSorted [] = Unit
IsSorted (s ∷ ss) = All (λ t. text_le s t ≡ true) ss × IsSorted ss

-- No text occurs twice.
abbrev pub IsUnique : List String → Type 0
IsUnique [] = Unit
IsUnique (s ∷ ss) = (has_text ss s ≡ false) × IsUnique ss

has-insert_text :
    (s t : String) (ts : List String) → has_text (insert_text s ts) t ≡ has_text (s ∷ ts) t
unfolding insert_text
has-insert_text s t [] = refl
has-insert_text s t (u ∷ us) = ground (arith, has-insert_text s t us)

pub has-sort : (ss : List String) (t : String) → has_text (sort_texts ss) t ≡ has_text ss t
unfolding sort_texts
has-sort [] t = refl
has-sort (s ∷ ss) t = ground (arith, has-insert_text s t (sort_texts ss), has-sort ss t)

insert_text-All {κ} :
    (P : String → Type κ) (s : String) (ts : List String)
    → P s
    → All P ts
    → All P (insert_text s ts)
unfolding insert_text
insert_text-All P s [] p h = (p, tt)
insert_text-All P s (t ∷ ts) p h = elim (Bool-cases (text_le s t)) [
  | inl first ↦ rw first (p, h)
  | inr later ↦ rw later (h.0, insert_text-All P s ts p h.1)
]

All-le_trans :
    (s t : String) (us : List String)
    → text_le s t ≡ true
    → All (λ u. text_le t u ≡ true) us
    → All (λ u. text_le s u ≡ true) us
All-le_trans s t [] h a = tt
All-le_trans s t (u ∷ us) h a = (text_le_trans s t u h a.0, All-le_trans s t us h a.1)

insert_text-IsSorted : (s : String) (ts : List String) → IsSorted ts → IsSorted (insert_text s ts)
unfolding insert_text
insert_text-IsSorted s [] h = (tt, tt)
insert_text-IsSorted s (t ∷ ts) h = elim (Bool-cases (text_le s t)) [
  | inl first ↦ rw first ((first, All-le_trans s t ts first h.0), h)
  | inr later ↦ rw later (
    insert_text-All (λ u. text_le t u ≡ true) s ts (text_le_total s t later) h.0,
    insert_text-IsSorted s ts h.1,
  )
]

pub sort-IsSorted : (ss : List String) → IsSorted (sort_texts ss)
unfolding sort_texts
sort-IsSorted [] = tt
sort-IsSorted (s ∷ ss) = insert_text-IsSorted s (sort_texts ss) (sort-IsSorted ss)

insert_text-IsUnique :
    (s : String) (ts : List String)
    → has_text ts s ≡ false
    → IsUnique ts
    → IsUnique (insert_text s ts)
unfolding insert_text
insert_text-IsUnique s [] f h = (refl, tt)
insert_text-IsUnique s (t ∷ ts) f h =
    ground (arith, has-insert_text s t ts, insert_text-IsUnique s ts)

pub sort-IsUnique : (ss : List String) → IsUnique ss → IsUnique (sort_texts ss)
unfolding sort_texts
sort-IsUnique [] h = tt
sort-IsUnique (s ∷ ss) h =
    insert_text-IsUnique s (sort_texts ss) (has-sort ss s ∙ h.0) (sort-IsUnique ss h.1)
