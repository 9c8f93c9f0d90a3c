-- ===== src/Bindings/Placing.antt =====
-- repositories/factoryFloorBindingRepository.ts: `bindSurface` keeps the invariant.
use discordagent.Base.{
  ℕ, String, true, false, not, ◌≡◌, refl, ◌∙◌, subst, Option, none, some, List, [], ◌∷◌, ◌==◌, ◌&&◌,
  ◌||◌, ◌⊎◌, any, arith, str_dec, Bool-cases, inl, inr, ok, >>=-eq-ok, throw_if-eq-ok,
}
use discordagent.Dict.{Dict, get, set, has, is_some}
use discordagent.Tasks.Rows.{TaskHost}
use discordagent.Bindings.Rows.{
  ProjectBindingRow, SurfaceBindingRow, BindingStore, BindSurfaceInput,
}
use discordagent.Bindings.Repository.{
  active_project, has_activity, has_message, has_thread, opt_is, Identity, surface_candidates,
  reconciled_identity, merged, same_identity, reconciled_surface, merge_surface, new_surface,
  place_surface, bind_surface, required, is_anonymous, identity_of,
}
use discordagent.Bindings.Tables.{set-IsUniqueFor}
use discordagent.Bindings.Candidates.{
  AreUnique, AreKnown, AreStored, HaveId, candidates-AreStored, candidates-AreKnown,
}
use discordagent.Bindings.Invariant.{IsNested, surface-IsNested}
use discordagent.Bindings.Binding.{active_project-stored}

-- A merged identity is the old one or the new one.
reconciled_origin :
    (c n m : Option String) (t : String)
    → reconciled_identity c n ≡ ok m
    → opt_is m t ≡ true
    → (opt_is c t ≡ true) ⊎ (n ≡ some t)
unfolding reconciled_identity
reconciled_origin none none m t e is = absurd (ground arith)
reconciled_origin none (some n) m t e is = inr (ground arith)
reconciled_origin (some c) none m t e is = inl (ground arith)
reconciled_origin (some c) (some n) m t e is = elim (str_dec c n) [
  | yes same ↦ inr (ground arith)
  | no other ↦ absurd (ground arith)
]

given_text : (o : Option String) (t : String) → opt_is o t ≡ true → o ≡ some t
given_text none t is = absurd (ground arith)
given_text (some s) t is = ground arith

new-AreUnique :
    (d : Dict SurfaceBindingRow) (project guild channel uuid : String) (i : Identity) (now : ℕ)
    → AreUnique d
    → AreKnown d guild channel uuid i
    → AreUnique (set uuid (new_surface project guild channel i now) d)
new-AreUnique d project guild channel uuid i now u known =
    let new = new_surface project guild channel i now in
    record {
      activity = λ t.
          set-IsUniqueFor (has_activity t) uuid new d (u.activity t)
            (λ is j y at q. known.activity t j y (given_text i.activity t is) at q);
      message = λ t.
          set-IsUniqueFor (has_message t) uuid new d (u.message t)
            (λ is j y at q. known.message t j y (given_text i.message t is) at q);
      thread = λ g c t.
          set-IsUniqueFor (has_thread g c t) uuid new d (u.thread g c t) (λ is j y at q.
            let same_guild : guild ≡ g = ground arith in
            let same_channel : channel ≡ c = ground arith in
            known.thread t j y (given_text i.thread t (ground arith)) at (ground arith));
    }

merged-AreUnique :
    (d : Dict SurfaceBindingRow) (id : String) (r : SurfaceBindingRow) (i : Identity) (now : ℕ)
    (thread message activity : Option String)
    → AreUnique d
    → AreKnown d r.guild_id r.channel_id id i
    → get id d ≡ some r
    → reconciled_identity r.thread_id i.thread ≡ ok thread
    → reconciled_identity r.message_id i.message ≡ ok message
    → reconciled_identity r.activity_instance_id i.activity ≡ ok activity
    → AreUnique (set id (merged now r thread message activity) d)
merged-AreUnique d id r i now thread message activity u known at e f g =
    let new = merged now r thread message activity in
    record {
      activity = λ t. set-IsUniqueFor (has_activity t) id new d (u.activity t) (λ is j y there q.
          elim (reconciled_origin r.activity_instance_id i.activity activity t g is) [
            | inl old ↦ u.activity t j id y r there at q old
            | inr given ↦ known.activity t j y given there q
          ]);
      message = λ t. set-IsUniqueFor (has_message t) id new d (u.message t) (λ is j y there q.
          elim (reconciled_origin r.message_id i.message message t f is) [
            | inl old ↦ u.message t j id y r there at q old
            | inr given ↦ known.message t j y given there q
          ]);
      thread = λ a c t.
          set-IsUniqueFor (has_thread a c t) id new d (u.thread a c t) (λ is j y there q.
            elim (reconciled_origin r.thread_id i.thread thread t e (ground arith)) [
              | inl old ↦ u.thread a c t j id y r there at q (ground arith)
              | inr given ↦ known.thread t j y given there (ground arith)
            ]);
    }

-- The surfaces found have the first one's id where no other id is among them.
one_id :
    (id : String) (l : List (String × SurfaceBindingRow))
    → any (λ e. not (e.0 == id)) l ≡ false
    → HaveId id l
one_id id [] e = tt
one_id id ((j, r) ∷ l) e = (ground arith, one_id id l (ground arith))

merge_surface-IsNested :
    (s : BindingStore) (b : ProjectBindingRow) (project guild channel : String) (i : Identity)
    (now : ℕ) (id : String) (r : SurfaceBindingRow) (s' : BindingStore) (k : String)
    → IsNested s
    → get project s.project_bindings ≡ some b
    → b.retired_at ≡ none
    → b.guild_id ≡ guild
    → get id s.surfaces ≡ some r
    → AreKnown s.surfaces guild channel id i
    → merge_surface s project guild channel i now id r ≡ ok (s', k)
    → IsNested s'
unfolding merge_surface reconciled_surface
merge_surface-IsNested s b project guild channel i now id r s' k h bound active same_guild at known
      e =
    let placed =
      not (r.local_project_id == project)
      || not (r.guild_id == guild)
      || not (r.channel_id == channel) in
    let (own, e1) = throw_if-eq-ok placed _ _ e in
    let (thread, f, e2) = >>=-eq-ok (reconciled_identity r.thread_id i.thread) _ e1 in
    let (message, g, e3) = >>=-eq-ok (reconciled_identity r.message_id i.message) _ e2 in
    let (activity, m, e4) =
      >>=-eq-ok (reconciled_identity r.activity_instance_id i.activity) _ e3 in
    let in_project : project ≡ r.local_project_id = ground arith in
    let in_guild : guild ≡ r.guild_id = ground arith in
    let in_channel : channel ≡ r.channel_id = ground arith in
    let here : AreKnown s.surfaces r.guild_id r.channel_id id i =
      subst (λ c. AreKnown s.surfaces r.guild_id c id i) in_channel
        (subst (λ a. AreKnown s.surfaces a channel id i) in_guild known) in
    let new = merged now r thread message activity in
    let changed =
      surface-IsNested s id new b h
        (subst (λ p. get p s.project_bindings ≡ some b) in_project bound) (same_guild ∙ in_guild)
        active refl
        (merged-AreUnique s.surfaces id r i now thread message activity h.identities here at f g m)
        (λ x there. ground arith) in
    elim (Bool-cases (
      not (is_some r.retired_at)
      && same_identity r.thread_id thread
      && same_identity r.message_id message
      && same_identity r.activity_instance_id activity)) [
        | inl same ↦ let kept : s ≡ s' = ground arith in subst IsNested kept h
        | inr differs ↦
            let written : record s { surfaces = set id new s.surfaces } ≡ s' = ground arith in
            subst IsNested written changed
      ]

place_surface-IsNested :
    (s : BindingStore) (b : ProjectBindingRow) (project guild channel : String) (i : Identity)
    (now : ℕ) (uuid : String) (l : List (String × SurfaceBindingRow)) (s' : BindingStore)
    (k : String)
    → IsNested s
    → get project s.project_bindings ≡ some b
    → b.retired_at ≡ none
    → b.guild_id ≡ guild
    → AreStored s.surfaces l
    → ((id : String) → HaveId id l → AreKnown s.surfaces guild channel id i)
    → place_surface s project guild channel i now uuid l ≡ ok (s', k)
    → IsNested s'
unfolding place_surface
place_surface-IsNested s b project guild channel i now uuid [] s' k h bound active same_guild stored
      known e =
    elim (Bool-cases (has uuid s.surfaces)) [
      | inl taken ↦ absurd (ground arith)
      | inr free ↦
          let new = new_surface project guild channel i now in
          let written : record s { surfaces = set uuid new s.surfaces } ≡ s' = ground arith in
          subst IsNested written (
            surface-IsNested s uuid new b h bound same_guild active refl
              (new-AreUnique s.surfaces project guild channel uuid i now h.identities
                (known uuid tt))
              (λ r at. absurd (ground arith)))
    ]
place_surface-IsNested s b project guild channel i now uuid ((id, r) ∷ rest) s' k h bound active
      same_guild stored known e =
    elim (Bool-cases (any (λ e. not (e.0 == id)) rest)) [
      | inl several ↦ absurd (ground arith)
      | inr one ↦
          merge_surface-IsNested s b project guild channel i now id r s' k h bound active same_guild
            stored.0 (known id (refl, one_id id rest one)) (ground arith)
    ]

pub bind_surface-IsNested :
    (h : TaskHost) (s : BindingStore) (input : BindSurfaceInput) (now : ℕ) (uuid : String)
    (s' : BindingStore) (k : String)
    → IsNested s
    → bind_surface h s input now uuid ≡ ok (s', k)
    → IsNested s'
unfolding bind_surface
bind_surface-IsNested h s input now uuid s' k nested e =
    let i = identity_of input in
    let (bound, local, e1) = >>=-eq-ok (active_project h s input.project_name) _ e in
    let (guild, given, e2) = >>=-eq-ok (required input.guild_id "guild_id_required") _ e1 in
    let (channel, named, e3) = >>=-eq-ok (required input.channel_id "channel_id_required") _ e2 in
    let (identified, e4) = throw_if-eq-ok (is_anonymous i) _ _ e3 in
    let (same_guild, e5) = throw_if-eq-ok (not (bound.1.guild_id == guild)) _ _ e4 in
    let (at, active) = active_project-stored h s input.project_name bound.0 bound.1 local in
    place_surface-IsNested s bound.1 bound.0 guild channel i now uuid
      (surface_candidates s.surfaces guild channel i) s' k nested at active (ground arith)
      (candidates-AreStored s.surfaces guild channel i nested.distinct)
      (λ id. candidates-AreKnown s.surfaces guild channel id i nested.distinct nested.identities) e5
