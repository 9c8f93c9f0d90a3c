-- ===== src/Usage/Totals.antt =====
-- services/usageAdmission.ts: what is reserved, as a sum over the table.
use discordagent.Base.{
  ℕ, ◌+◌, ◌≤◌, String, ◌≡◌, refl, ap, Option, none, some, List, [], ◌∷◌, All, if◌then◌else◌, arith,
  subst, str_dec, Bool-cases, inl, inr, leb, ltb, Bool, true, false, not, ◌&&◌, ◌||◌, ◌==◌, ◌≢◌,
  ◌⊎◌, any, all,
}
use discordagent.Dict.{Dict, get, set}
use discordagent.Tasks.Rows.{AgentProviderId}
use discordagent.Usage.Rows.{UsageSnapshot, UsageReservation, UsageStore}
use discordagent.Usage.Repository.{
  filter, is_active_of, active_reservations, same_provider, is_latest,
}
use discordagent.Usage.Admission.{total_high, reserved, least, smaller}

module _ {V : Type 0} (w : V → ℕ) where
  abbrev pub sum : Dict V → ℕ
  sum [] = 0
  sum ((k, v) ∷ d) = w v + sum d

  pub sum-set_new :
      (k : String) (v : V) (d : Dict V) → get k d ≡ none → sum (set k v d) ≡ sum d + w v
  unfolding get set
  sum-set_new k v [] free = omega arith
  sum-set_new k v ((j, u) ∷ d) free = elim (str_dec j k) [
    | yes same ↦ absurd (ground arith)
    | no other ↦ ground (arith, sum-set_new k v d (ground arith))
  ]

  pub sum-set_old :
      (k : String) (u v : V) (d : Dict V) → get k d ≡ some u → sum (set k v d) + w u ≡ sum d + w v
  unfolding get set
  sum-set_old k u v [] at = absurd (ground arith)
  sum-set_old k u v ((j, x) ∷ d) at = elim (str_dec j k) [
    | yes same ↦ let here : x ≡ u = ground arith in ground (arith, ap w here)
    | no other ↦ ground (arith, sum-set_old k u v d (ground arith))
  ]

-- What a reservation holds of a provider's capacity.
abbrev pub share : AgentProviderId → UsageReservation → ℕ
share provider r = if is_active_of provider r then r.high else 0

total_high-filter :
    (provider : AgentProviderId) (d : Dict UsageReservation)
    → total_high (filter (λ e. is_active_of provider e.1) d) ≡ sum (share provider) d
unfolding total_high
total_high-filter provider [] = refl
total_high-filter provider ((k, r) ∷ d) = ground (arith, total_high-filter provider d)

pub reserved-sum :
    (s : UsageStore) (provider : AgentProviderId)
    → reserved s provider ≡ sum (share provider) s.reservations
unfolding reserved active_reservations
reserved-sum s provider = total_high-filter provider s.reservations

-- A bound on what remains, where that is known.
abbrev pub Leaves : ℕ → Option ℕ → Type 0
Leaves n none = Unit
Leaves n (some x) = n ≤ x

smaller-left : (n : ℕ) (a b : Option ℕ) → Leaves n (smaller a b) → Leaves n a
smaller-left n none b h = tt
smaller-left n (some x) none h = h
smaller-left n (some x) (some y) h = elim (Bool-cases (leb x y)) [
  | inl below ↦ ground arith
  | inr above ↦ ground arith
]

smaller-right : (n : ℕ) (a b : Option ℕ) → Leaves n (smaller a b) → Leaves n b
smaller-right n none b h = h
smaller-right n (some x) none h = tt
smaller-right n (some x) (some y) h = elim (Bool-cases (leb x y)) [
  | inl below ↦ ground arith
  | inr above ↦ ground arith
]

-- A bound on the least is a bound on all.
pub least-All :
    (n : ℕ) (rs : List UsageSnapshot) → Leaves n (least rs) → All (λ r. Leaves n r.remaining) rs
unfolding least
least-All n [] h = tt
least-All n (r ∷ rs) h = (
  smaller-left n r.remaining (least rs) h,
  least-All n rs (smaller-right n r.remaining (least rs) h),
)

-- A snapshot is of the provider and of the window of another, and was captured later.
abbrev pub is_after : AgentProviderId → UsageSnapshot → UsageSnapshot → Bool
is_after provider r q =
    same_provider q.provider provider
    && q.window_type == r.window_type
    && ltb r.captured_at q.captured_at

-- A snapshot is another provider's, or a later one of its window is stored, or it leaves `n`.
abbrev pub LeavesLatest : ℕ → AgentProviderId → List UsageSnapshot → UsageSnapshot → Type 0
LeavesLatest n provider rows r =
    (r.provider ≢ provider) ⊎ ((any (is_after provider r) rows ≡ true) ⊎ Leaves n r.remaining)

same_provider-ne : (a b : AgentProviderId) → same_provider a b ≡ false → a ≢ b
same_provider-ne a b e same = grind arith

-- Where not every snapshot of a window is at most as late, some snapshot is later.
any-is_after :
    (provider : AgentProviderId) (r : UsageSnapshot) (rows : List UsageSnapshot)
    → all
        (λ x.
          not (same_provider x.provider provider)
          || not (x.window_type == r.window_type)
          || leb x.captured_at r.captured_at)
        rows
      ≡ false
    → any (is_after provider r) rows ≡ true
any-is_after provider r [] e = absurd (ground arith)
any-is_after provider r (x ∷ rows) e = ground (arith, any-is_after provider r rows)

superseded-LeavesLatest :
    (n : ℕ) (provider : AgentProviderId) (rows : List UsageSnapshot) (r : UsageSnapshot)
    → is_latest provider rows r ≡ false
    → LeavesLatest n provider rows r
superseded-LeavesLatest n provider rows r old =
    elim (Bool-cases (same_provider r.provider provider)) [
      | inl same ↦ inr (inl (any-is_after provider r rows (ground arith)))
      | inr other ↦ inl (same_provider-ne r.provider provider other)
    ]

-- A bound on the latest snapshots, said of all that are stored.
pub filter-LeavesLatest :
    (n : ℕ) (provider : AgentProviderId) (rows rs : List UsageSnapshot)
    → All (λ r. Leaves n r.remaining) (filter (is_latest provider rows) rs)
    → All (LeavesLatest n provider rows) rs
filter-LeavesLatest n provider rows [] h = tt
filter-LeavesLatest n provider rows (r ∷ rs) h =
    let rest = filter (is_latest provider rows) rs in
    let split : (b : Bool)
        → is_latest provider rows r ≡ b
        → All (λ q. Leaves n q.remaining) (if b then r ∷ rest else rest) =
      λ b e. subst (λ b. All (λ q. Leaves n q.remaining) (if b then r ∷ rest else rest)) e h in
    elim (Bool-cases (is_latest provider rows r)) [
      | inl latest ↦
          let (here, others) = split true latest in
          (inr (inr here), filter-LeavesLatest n provider rows rs others)
      | inr old ↦ (
        superseded-LeavesLatest n provider rows r old,
        filter-LeavesLatest n provider rows rs (split false old),
      )
    ]
