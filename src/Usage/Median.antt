-- ===== src/Usage/Median.antt =====
-- services/usageAdmission.ts: `percentile` of three or four costs is the second of them in order.
use discordagent.Base.{
  ℕ, ◌≤◌, ◌<◌, ◌*◌, ◌/◌, ◌-◌, ◌≡◌, refl, List, [], ◌∷◌, All, length, leb, if◌then◌else◌, suc, arith,
  Bool-cases, inl, inr, subst,
}
use discordagent.Usage.Classify.{insert_cost, sort_costs, nth, percentile}

-- How many costs of a list are at most a bound.
abbrev pub at_most : ℕ → List ℕ → ℕ
at_most d [] = 0
at_most d (x ∷ xs) = let rest = at_most d xs in if leb x d then suc rest else rest

abbrev IsAscending : List ℕ → Type 0
IsAscending [] = Unit
IsAscending (x ∷ xs) = All (λ y. x ≤ y) xs × IsAscending xs

at_most-insert : (d n : ℕ) (xs : List ℕ) → at_most d (insert_cost n xs) ≡ at_most d (n ∷ xs)
unfolding insert_cost
at_most-insert d n [] = refl
at_most-insert d n (x ∷ xs) = ground (arith, at_most-insert d n xs)

at_most-sort : (d : ℕ) (xs : List ℕ) → at_most d (sort_costs xs) ≡ at_most d xs
unfolding sort_costs
at_most-sort d [] = refl
at_most-sort d (x ∷ xs) = ground (arith, at_most-insert d x (sort_costs xs), at_most-sort d xs)

insert-All :
    (a n : ℕ) (xs : List ℕ) → a ≤ n → All (λ y. a ≤ y) xs → All (λ y. a ≤ y) (insert_cost n xs)
unfolding insert_cost
insert-All a n [] h all = (h, tt)
insert-All a n (x ∷ xs) h (first, rest) = ground (arith, insert-All a n xs h rest)

weaken-All : (a b : ℕ) (xs : List ℕ) → a ≤ b → All (λ y. b ≤ y) xs → All (λ y. a ≤ y) xs
weaken-All a b [] h all = tt
weaken-All a b (x ∷ xs) h (first, rest) = (omega arith, weaken-All a b xs h rest)

insert-IsAscending : (n : ℕ) (xs : List ℕ) → IsAscending xs → IsAscending (insert_cost n xs)
unfolding insert_cost
insert-IsAscending n [] h = (tt, tt)
insert-IsAscending n (x ∷ xs) (least, h) = elim (Bool-cases (leb n x)) [
  | inl below ↦ rw below ((ground arith, weaken-All n x xs (ground arith) least), (least, h))
  | inr above ↦ rw above (insert-All x n xs (ground arith) least, insert-IsAscending n xs h)
]

sort-IsAscending : (xs : List ℕ) → IsAscending (sort_costs xs)
unfolding sort_costs
sort-IsAscending [] = tt
sort-IsAscending (x ∷ xs) = insert-IsAscending x (sort_costs xs) (sort-IsAscending xs)

at_most-above : (d b : ℕ) (xs : List ℕ) → d < b → All (λ y. b ≤ y) xs → at_most d xs ≡ 0
at_most-above d b [] h all = refl
at_most-above d b (x ∷ xs) h (first, rest) = ground (arith, at_most-above d b xs h rest)

at_most-second : (d : ℕ) (xs : List ℕ) → IsAscending xs → d < nth 1 xs → at_most d xs ≤ 1
at_most-second d [] s h = absurd (omega (arith, h))
at_most-second d (a ∷ []) s h = absurd (omega (arith, h))
at_most-second d (a ∷ b ∷ xs) (least, (above, s)) h = ground (arith, at_most-above d b xs h above)

-- Where the median of three or four costs exceeds a bound, at most one of them does not.
pub median-above :
    (d : ℕ) (observed : List ℕ)
    → 3 ≤ length observed
    → length observed < 5
    → d < percentile observed 1 2
    → at_most d observed ≤ 1
unfolding percentile
median-above d observed low high h =
    let index : (length observed - 1) * 1 / 2 ≡ 1 = omega (arith, low, high) in
    let second =
      at_most-second d (sort_costs observed) (sort-IsAscending observed)
        (subst (λ n. d < nth n (sort_costs observed)) index h) in
    subst (λ n. n ≤ 1) (at_most-sort d observed) second
