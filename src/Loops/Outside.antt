-- ===== src/Loops/Outside.antt =====
-- services/scheduledLoopService.ts: what other calls do to a loop while a callback is awaited.
use discordagent.Base.{
  ℕ, String, false, ◌≡◌, ◌≢◌, refl, ◌∙◌, subst, Option, none, some, List, [], ◌∷◌, All, any, arith,
  str_dec, ◌⊎◌, inl, inr, Option-cases, Bool-cases, ◌||◌, ltb, nat_beq,
}
use discordagent.Dict.{Dict, get, set, has, is_some}
use discordagent.Dict.Laws.{get-set}
use discordagent.Dict.Index.{get-set_self}
use discordagent.Tasks.Rows.{TaskHost}
use discordagent.Tasks.Repository.{delete, find_project, or_now}
use discordagent.Loops.Rows.{
  ScheduledLoopStatus, stopped, terminal, is_live, LoopRow, LoopStore, ScheduledLoopRecord,
  CreateScheduledLoopInput,
}
use discordagent.Loops.Repository.{
  update_one, ended, push_found, end_selected, stop_by_channel, terminalize_by_id,
  terminalize_where, terminalize_by_thread, terminalize_by_channel, terminalize_each,
  terminalize_by_project, find_loop, joined_loop, new_loop, thread_clash, channel_clash,
  insert_loop, create_loop_write, create_loop, after_create, find_active_by_channel_id,
}
use discordagent.Loops.Service.{
  RuntimeLoop, LoopService, OutsideCall, creates, stops_channel, ends_thread, ends_channel,
  ends_project, listed, found_list, outside_store, detach_each, call_outside, meanwhile,
}

-- The loop is stored, and is neither waiting nor running.
abbrev pub IsOver : String → LoopStore → Type 0
IsOver id s = (row : LoopRow) × (get id s.loops ≡ some row) × (is_live row.status ≡ false)

-- A loop's row is as it was and is not among the loops that were ended, or the loop is over.
abbrev pub Effect : String → LoopRow → LoopStore → LoopStore × List ScheduledLoopRecord → Type 0
Effect id row s w =
    (w.0.projects ≡ s.projects)
    × (((get id w.0.loops ≡ some row) × All (λ r. r.id ≢ id) w.1) ⊎ IsOver id w.0)

find_loop-id :
    (s : LoopStore) (id : String) (r : ScheduledLoopRecord) → find_loop s id ≡ some r → r.id ≡ id
unfolding find_loop joined_loop
find_loop-id s id r e = elim (Option-cases (get id s.loops)) [
  | inl gone ↦ absurd (ground arith)
  | inr (row, at) ↦ elim (Option-cases (get row.project_id s.projects)) [
    | inl gone ↦ absurd (ground arith)
    | inr (p, there) ↦ ground arith
  ]
]

-- What is read back has the id that was asked for.
listed-id :
    (s : LoopStore) (j id : String) → j ≢ id → All (λ r. r.id ≢ id) (listed (s, find_loop s j)).1
listed-id s j id other = elim (Option-cases (find_loop s j)) [
  | inl gone ↦ rw gone tt
  | inr (r, found) ↦ rw found (ground (arith, find_loop-id s j r found), tt)
]

end_one :
    (h : TaskHost) (s : LoopStore) (j id : String) (status : ScheduledLoopStatus) (reason : String)
    (now : ℕ) (row : LoopRow)
    → is_live status ≡ false
    → get id s.loops ≡ some row
    → Effect id row s (listed (update_one s j is_live (ended h status reason now)))
unfolding update_one
end_one h s j id status reason now row over at = elim (Option-cases (get j s.loops)) [
  | inl gone ↦ rw (gone, update_one) (refl, inl (at, tt))
  | inr (x, there) ↦ elim (Bool-cases (is_live x.status)) [
    | inr dead ↦ rw (there, update_one) (rw dead (refl, inl (at, tt)))
    | inl live ↦
        let new = ended h status reason now x in
        let s' : LoopStore = record s { loops = set j new s.loops } in
        rw (there, update_one)
          (rw live (elim (str_dec j id) [
            | yes same ↦ (
              refl,
              inr (
                new,
                subst (λ i. get i s'.loops ≡ some new) same (get-set_self j new s.loops),
                over,
              ),
            )
            | no other ↦
                (refl, inl (ground (arith, get-set j id new s.loops), listed-id s' j id other))
          ]))
  ]
]

selected-Effect :
    (h : TaskHost) (s : LoopStore) (o : Option ScheduledLoopRecord) (id : String)
    (status : ScheduledLoopStatus) (reason : String) (now : ℕ) (row : LoopRow)
    → is_live status ≡ false
    → get id s.loops ≡ some row
    → Effect id row s (listed (end_selected h s status o reason now))
unfolding end_selected
selected-Effect h s none id status reason now row over at = (refl, inl (at, tt))
selected-Effect h s (some r) id status reason now row over at =
    end_one h s r.id id status reason now row over at

push_found-All :
    (id : String) (o : Option ScheduledLoopRecord) (l : List ScheduledLoopRecord)
    → All (λ r. r.id ≢ id) (found_list o)
    → All (λ r. r.id ≢ id) l
    → All (λ r. r.id ≢ id) (push_found o l)
push_found-All id none l h k = k
push_found-All id (some r) l h k = (h.0, k)

-- A loop that is over stays over.
IsOver-Effect :
    (id : String) (row : LoopRow) (s : LoopStore) (w : LoopStore × List ScheduledLoopRecord)
    → is_live row.status ≡ false
    → Effect id row s w
    → IsOver id w.0
IsOver-Effect id row s w over (same, inl (at, others)) = (row, at, over)
IsOver-Effect id row s w over (same, inr k) = k

each-Effect :
    (h : TaskHost) (s : LoopStore) (rs : List ScheduledLoopRecord) (id reason : String) (now : ℕ)
    (row : LoopRow)
    → get id s.loops ≡ some row
    → Effect id row s (terminalize_each h s rs reason now)
unfolding terminalize_each terminalize_by_id is_live
each-Effect h s [] id reason now row at = (refl, inl (at, tt))
each-Effect h s (r ∷ rs) id reason now row at =
    let first = terminalize_by_id h s r.id reason now in
    let (projects, moved) = end_one h s r.id id terminal reason now row refl at in
    elim moved [
      | inl (kept, others) ↦
          let (projects', moved') = each-Effect h first.0 rs id reason now row kept in
          elim moved' [
            | inl (kept', others') ↦
                (projects' ∙ projects, inl (kept', push_found-All id first.1 _ others others'))
            | inr over ↦ (projects' ∙ projects, inr over)
          ]
      | inr (row', at', over) ↦
          let k = each-Effect h first.0 rs id reason now row' at' in
          (k.0 ∙ projects, inr (IsOver-Effect id row' first.0 _ over k))
    ]

insert-Effect :
    (h : TaskHost) (s : LoopStore) (input : CreateScheduledLoopInput) (o : Option String) (now : ℕ)
    (id : String) (row : LoopRow)
    → get id s.loops ≡ some row
    → Effect id row s ((after_create s input.id (insert_loop h s input o now)).0, [])
unfolding insert_loop
insert-Effect h s input none now id row at = (refl, inl (at, tt))
insert-Effect h s input (some p) now id row at =
    elim (Bool-cases (has input.id s.loops || any (λ e. thread_clash input e.1) s.loops)) [
      | inl clash ↦ rw (clash, insert_loop) (refl, inl (at, tt))
      | inr free ↦ elim (Bool-cases (any (λ e. channel_clash input e.1) s.loops)) [
        | inl taken ↦ rw (free, insert_loop) (rw taken (refl, inl (at, tt)))
        | inr spare ↦
            rw (free, insert_loop)
              (rw spare (
                refl,
                inl (ground (arith, get-set input.id id (new_loop h input p now) s.loops), tt),
              ))
      ]
    ]

create-Effect :
    (h : TaskHost) (s : LoopStore) (input : CreateScheduledLoopInput) (now : ℕ) (id : String)
    (row : LoopRow)
    → get id s.loops ≡ some row
    → Effect id row s ((create_loop h s input now).0, [])
unfolding create_loop create_loop_write
create-Effect h s input now id row at =
    elim (Bool-cases (nat_beq input.interval_ms 0 || ltb 9007199254740991 input.interval_ms)) [
      | inl bad ↦ rw (bad, create_loop_write) (refl, inl (at, tt))
      | inr good ↦ elim (Bool-cases (is_some (find_active_by_channel_id s input.channel_id))) [
        | inl taken ↦ rw (good, create_loop_write) (rw taken (refl, inl (at, tt)))
        | inr spare ↦
            rw (good, create_loop_write)
              (rw spare (
                insert-Effect h s input (find_project h input.project_name s.projects)
                  (or_now input.started_at now) id row at))
      ]
    ]

outside-Effect :
    (h : TaskHost) (s : LoopStore) (c : OutsideCall) (id : String) (row : LoopRow)
    → get id s.loops ≡ some row
    → Effect id row s (outside_store h s c)
unfolding outside_store stop_by_channel terminalize_by_thread terminalize_by_channel
    terminalize_where terminalize_by_project is_live
outside-Effect h s (creates input now) id row at = create-Effect h s input now id row at
outside-Effect h s (stops_channel channel reason now) id row at =
    selected-Effect h s _ id stopped reason now row refl at
outside-Effect h s (ends_thread thread reason now) id row at =
    selected-Effect h s _ id terminal reason now row refl at
outside-Effect h s (ends_channel channel reason now) id row at =
    selected-Effect h s _ id terminal reason now row refl at
outside-Effect h s (ends_project name reason now) id row at = each-Effect h s _ id reason now row at

get-delete_ne {ℓ} : {V : Type ℓ} (k j : String) (d : Dict V) → k ≢ j → get j (delete k d) ≡ get j d
unfolding get delete
get-delete_ne k j [] h = refl
get-delete_ne k j ((i, v) ∷ d) h = ground (arith, get-delete_ne k j d h)

get-detach_each :
    (d : Dict RuntimeLoop) (rs : List ScheduledLoopRecord) (id : String)
    → All (λ r. r.id ≢ id) rs
    → get id (detach_each d rs) ≡ get id d
unfolding detach_each
get-detach_each d [] id h = refl
get-detach_each d (r ∷ rs) id (other, h) =
    get-detach_each (delete r.id d) rs id h ∙ get-delete_ne r.id id d other

-- Meanwhile: the projects stay, and the loop's row and runtime stay, or the loop is over.
abbrev pub Untouched : String → LoopRow → LoopService → LoopService → Type 0
Untouched id row s s' =
    (s'.store.projects ≡ s.store.projects)
    × (((get id s'.store.loops ≡ some row) × (get id s'.runtimes ≡ get id s.runtimes))
        ⊎ IsOver id s'.store)

pub meanwhile-Untouched :
    (h : TaskHost) (s : LoopService) (cs : List OutsideCall) (id : String) (row : LoopRow)
    → get id s.store.loops ≡ some row
    → Untouched id row s (meanwhile h s cs)
unfolding meanwhile call_outside
meanwhile-Untouched h s [] id row at = (refl, inl (at, refl))
meanwhile-Untouched h s (c ∷ cs) id row at =
    let s₁ = call_outside h s c in
    let (projects, moved) = outside-Effect h s.store c id row at in
    elim moved [
      | inl (kept, others) ↦
          let (projects', moved') = meanwhile-Untouched h s₁ cs id row kept in
          let same = get-detach_each s.runtimes (outside_store h s.store c).1 id others in
          elim moved' [
            | inl (kept', same') ↦ (projects' ∙ projects, inl (kept', same' ∙ same))
            | inr over ↦ (projects' ∙ projects, inr over)
          ]
      | inr (row', at', over) ↦
          let (projects', moved') = meanwhile-Untouched h s₁ cs id row' at' in
          elim moved' [
            | inl (kept', same') ↦ (projects' ∙ projects, inr (row', kept', over))
            | inr over' ↦ (projects' ∙ projects, inr over')
          ]
    ]
