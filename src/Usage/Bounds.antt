-- ===== src/Usage/Bounds.antt =====
-- services/usageAdmission.ts: holds stay within the capacity that is known, and end once.
use discordagent.Base.{
  ℕ, ◌+◌, ◌≤◌, ◌<◌, String, true, false, ◌≡◌, refl, sym, subst, ap, Option, none, some, List, All,
  length, leb, ltb, ok, err, throw_if-eq-ok, arith, Bool-cases, Option-cases, inl, inr, ◌||◌,
}
use discordagent.Dict.{Dict, get, set, has}
use discordagent.Dict.Index.{get-set_self}
use discordagent.Tasks.Rows.{AgentProviderId, claude, codex, opencode}
use discordagent.Usage.Rows.{
  UsageReservation, UsageStore, HoldInput, ReservationStatus, usage_failed, usage_constraint,
}
use discordagent.Usage.Repository.{
  same_provider, is_held, latest_snapshots, is_latest, filter, new_hold, create_hold, finished,
  finish, no_reservation, observations_of,
}
use discordagent.Usage.Classify.{default_estimate, percentile, classify_normalized}
use discordagent.Usage.Admission.{
  UsageHost, available, reserved, over, admit, reserve, hold_input, estimate_low, estimate_high,
  costs_of, percent,
}
use discordagent.Usage.Median.{at_most, median-above}
use discordagent.Usage.Totals.{
  sum, sum-set_new, sum-set_old, share, reserved-sum, Leaves, LeavesLatest, filter-LeavesLatest,
  least-All,
}

same_provider_self : (p : AgentProviderId) → same_provider p p ≡ true
same_provider_self claude = refl
same_provider_self codex = refl
same_provider_self opencode = refl

-- A hold that is created adds its estimate to what is reserved, and nothing else.
created_hold :
    (s s' : UsageStore) (input : HoldInput) (id k : String) (now : ℕ)
    → create_hold s input id now ≡ ok (s', k)
    → (reserved s' input.provider ≡ reserved s input.provider + input.high)
      × (s'.snapshots ≡ s.snapshots)
unfolding create_hold
created_hold s s' input id k now e =
    elim (Bool-cases (has id s.reservations || ltb input.high input.low)) [
      | inl bad ↦ absurd (ground arith)
      | inr good ↦
          let new = new_hold input now in
          let free : get id s.reservations ≡ none = fresh (get id s.reservations) (ground arith) in
          let written : set id new s.reservations ≡ s'.reservations = ground arith in
          (
            ground (
              arith,
              reserved-sum s' input.provider,
              ap (sum (share input.provider)) written,
              sum-set_new (share input.provider) id new s.reservations free,
              reserved-sum s input.provider,
              same_provider_self input.provider,
            ),
            ground arith,
          )
    ]
  where
    fresh : (o : Option UsageReservation) → discordagent.Dict.is_some o ≡ false → o ≡ none
    fresh none e = refl
    fresh (some r) e = absurd (ground arith)

over-Leaves :
    (a : Option ℕ) (reserved_now need : ℕ)
    → over a reserved_now need ≡ false
    → Leaves (reserved_now + need) a
over-Leaves none reserved_now need e = tt
over-Leaves (some x) reserved_now need e = ground arith

-- Where `reserve` returns: in each latest window of the provider whose remaining capacity is known,
-- what is reserved now, with the hold that was made and the primary agent's part, does not exceed it.
-- That is so for each stored snapshot of the provider, unless a later one of its window is stored.
pub reserve_within :
    (h : UsageHost) (s s' : UsageStore) (provider : AgentProviderId) (prompt id k : String)
    (now : ℕ)
    → reserve h s provider prompt id now ≡ ok (s', k)
    → All
        (λ r. Leaves (reserved s' provider + h.primary_reserve) r.remaining)
        (latest_snapshots s' provider)
      × All
          (LeavesLatest (reserved s' provider + h.primary_reserve) provider s'.snapshots)
          s'.snapshots
unfolding reserve admit hold_input available
reserve_within h s s' provider prompt id k now e =
    let input = hold_input s provider (classify_normalized (h.to_lower_case prompt)) in
    let need = input.high + h.primary_reserve in
    let (within, made) =
      throw_if-eq-ok (over (available s provider) (reserved s provider) need) _ _ e in
    let (added, kept) = created_hold s s' input id k now made in
    let bound =
      least-All (reserved s provider + need) (latest_snapshots s provider)
        (over-Leaves (available s provider) (reserved s provider) need within) in
    let total : reserved s provider + need ≡ reserved s' provider + h.primary_reserve =
      ground arith in
    let same : latest_snapshots s provider ≡ latest_snapshots s' provider =
      unfold latest_snapshots in ap (λ l. filter (is_latest provider l) l) (sym kept) in
    let within_now =
      subst (λ l. All (λ r. Leaves (reserved s' provider + h.primary_reserve) r.remaining) l) same
        (subst (λ n. All (λ r. Leaves n r.remaining) (latest_snapshots s provider)) total bound) in
    (
      within_now,
      unfold latest_snapshots in
          filter-LeavesLatest (reserved s' provider + h.primary_reserve) provider s'.snapshots
            s'.snapshots within_now,
    )

-- Where `finish` with a status that is not active returns: the reservation was active, what it held is
-- free again for its provider, and finishing it again throws, whatever status that is for.
pub finish_once :
    (s s' : UsageStore) (id : String) (status : ReservationStatus) (actual : Option ℕ) (now : ℕ)
    → is_held status ≡ false
    → finish s id status actual now ≡ ok s'
    → ((r : UsageReservation) × (get id s.reservations ≡ some r)
        × (is_held r.status ≡ true)
        × (reserved s' r.provider + r.high ≡ reserved s r.provider))
      × ((status' : ReservationStatus) (actual' : Option ℕ) (later : ℕ)
          → finish s' id status' actual' later ≡ err (usage_failed no_reservation))
unfolding finish
finish_once s s' id status actual now over e = elim (Option-cases (get id s.reservations)) [
  | inl gone ↦ absurd (ground arith)
  | inr (r, at) ↦ elim (Bool-cases (is_held r.status)) [
    | inl active ↦
        let new = finished status actual now r in
        let written : set id new s.reservations ≡ s'.reservations = ground arith in
        let there : get id s'.reservations ≡ some new =
          subst (λ d. get id d ≡ some new) written (get-set_self id new s.reservations) in
        (
          (
            r,
            at,
            active,
            ground (
              arith,
              reserved-sum s' r.provider,
              ap (sum (share r.provider)) written,
              sum-set_old (share r.provider) id r new s.reservations at,
              reserved-sum s r.provider,
              same_provider_self r.provider,
            ),
          ),
          λ status' actual' later. rw (there, finish) (rw over refl),
        )
    | inr ended ↦ absurd (ground arith)
  ]
]

default-ordered : (cls : String) → (default_estimate cls).0 ≤ (default_estimate cls).1
unfolding default_estimate
default-ordered cls = ground arith

estimates-disordered :
    (observed : List ℕ) (cls : String)
    → estimate_high observed cls < estimate_low observed cls
    → (3 ≤ length observed)
      × (length observed < 5)
      × (percent (default_estimate cls).1 < percentile observed 1 2)
unfolding estimate_high estimate_low
estimates-disordered observed cls h = elim (Bool-cases (leb 5 (length observed))) [
  | inl many ↦ absurd (ground (arith, h))
  | inr few ↦ elim (Bool-cases (leb 3 (length observed))) [
    | inl some_ ↦ (ground arith, ground arith, ground (arith, h))
    | inr none_ ↦ absurd (ground (arith, h, default-ordered cls))
  ]
]

refused_hold :
    (h : UsageHost) (s : UsageStore) (input : HoldInput) (id : String) (now : ℕ)
    → admit h s input id now ≡ err usage_constraint
    → get id s.reservations ≡ none
    → input.high < input.low
unfolding admit create_hold
refused_hold h s input id now e free =
    elim (Bool-cases (
      over (available s input.provider) (reserved s input.provider)
        (input.high + h.primary_reserve))) [
          | inl much ↦ absurd (ground arith)
          | inr within ↦ elim (Bool-cases (has id s.reservations || ltb input.high input.low)) [
            | inl bad ↦ ground arith
            | inr good ↦ absurd (ground arith)
          ]
        ]

-- A prompt's hold violates a constraint of the table only where its id is taken, or where three or
-- four costs are observed whose median is more than the default for the class, so that at most one
-- of them is not.
pub reserve_constraint :
    (h : UsageHost) (s : UsageStore) (provider : AgentProviderId) (prompt id : String) (now : ℕ)
    → reserve h s provider prompt id now ≡ err usage_constraint
    → get id s.reservations ≡ none
    → let cls = classify_normalized (h.to_lower_case prompt) in
      let observed = costs_of (observations_of s provider cls 50) in
      (3 ≤ length observed)
      × (length observed < 5)
      × (percent (default_estimate cls).1 < percentile observed 1 2)
      × (at_most (percent (default_estimate cls).1) observed ≤ 1)
unfolding reserve hold_input
reserve_constraint h s provider prompt id now e free =
    let input = hold_input s provider (classify_normalized (h.to_lower_case prompt)) in
    let observed = costs_of (observations_of s provider input.task_class 50) in
    let (few, fewer, above) =
      estimates-disordered observed input.task_class (refused_hold h s input id now e free) in
    (few, fewer, above, median-above _ observed few fewer above)
