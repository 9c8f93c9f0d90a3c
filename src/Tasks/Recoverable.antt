-- ===== src/Tasks/Recoverable.antt =====
-- repositories/taskRepository.ts: `listActive` and `listRecoverable` list each stored task of their
-- statuses once.
use discordagent.Base.{
  String, Bool, true, false, ◌||◌, ◌==◌, ◌≡◌, refl, Option, none, some, List, [], ◌∷◌, any, All,
  arith, if◌then◌else◌, Bool-cases, inl, inr,
}
use discordagent.Dict.{Dict, get}
use discordagent.Dict.Distinct.{IsDistinct}
use discordagent.Tasks.Rows.{TaskStatus, ProjectRow, TaskRow, TaskStore, TaskRecord, TaskHost}
use discordagent.Tasks.Status.{includes}
use discordagent.Tasks.Select.{to_task_record, insert_ordered, list_where}
use discordagent.Tasks.Lifecycle.{joined_stored}

-- The record of a task is in a list.
abbrev pub has_id : String → List TaskRecord → Bool
has_id id l = any (λ t. t.id == id) l

-- No two records of a list have one id.
abbrev pub IsApart : List TaskRecord → Type 0
IsApart [] = Unit
IsApart (t ∷ l) = (has_id t.id l ≡ false) × IsApart l

has_id-insert :
    (id : String) (a : TaskRecord) (l : List TaskRecord)
    → has_id id (insert_ordered a l) ≡ (a.id == id || has_id id l)
unfolding insert_ordered
has_id-insert id a [] = refl
has_id-insert id a (b ∷ l) = ground (arith, has_id-insert id a l)

insert-IsApart :
    (a : TaskRecord) (l : List TaskRecord)
    → has_id a.id l ≡ false
    → IsApart l
    → IsApart (insert_ordered a l)
unfolding insert_ordered
insert-IsApart a [] free h = (refl, tt)
insert-IsApart a (b ∷ l) free h = ground (arith, has_id-insert b.id a l, insert-IsApart a l)

insert-All {κ} :
    (P : TaskRecord → Type κ) (a : TaskRecord) (l : List TaskRecord)
    → P a
    → All P l
    → All P (insert_ordered a l)
unfolding insert_ordered
insert-All P a [] p h = (p, tt)
insert-All P a (b ∷ l) p h = ground (arith, insert-All P a l)

-- Whether a stored row has one of the statuses.
abbrev pub listed : List TaskStatus → Option TaskRow → Bool
listed l none = false
listed l (some row) = includes l row.status

-- Every row of a table has its project.
abbrev pub AreJoined : TaskStore → Dict TaskRow → Type 0
AreJoined s d = All (λ e. (p : ProjectRow) × (get e.1.project_id s.projects ≡ some p)) d

module _ (h : TaskHost) (s : TaskStore) (l : List TaskStatus) where
  -- The list of a table with one more row.
  list_where-cons :
      (i : String) (row : TaskRow) (d : Dict TaskRow) (p : ProjectRow)
      → get row.project_id s.projects ≡ some p
      → list_where h s l ((i, row) ∷ d) ≡ (
          if includes l row.status
          then insert_ordered (to_task_record h i row p (get i s.sessions)) (list_where h s l d)
          else list_where h s l d)
  unfolding list_where
  list_where-cons i row d p there = rw (joined_stored h s i row p there) refl

  pub list_where-has_id :
      (d : Dict TaskRow)
      → IsDistinct d
      → AreJoined s d
      → (id : String) → has_id id (list_where h s l d) ≡ listed l (get id d)
  unfolding list_where get to_task_record
  list_where-has_id [] a j id = refl
  list_where-has_id ((i, row) ∷ d) a ((p, there), j) id =
      let t : TaskRecord = to_task_record h i row p (get i s.sessions) in
      ground (
        arith,
        list_where-cons i row d p there,
        has_id-insert id t (list_where h s l d),
        list_where-has_id d a.1 j id,
      )

  pub list_where-IsApart :
      (d : Dict TaskRow) → IsDistinct d → AreJoined s d → IsApart (list_where h s l d)
  unfolding list_where to_task_record
  list_where-IsApart [] a j = tt
  list_where-IsApart ((i, row) ∷ d) a ((p, there), j) =
      let t : TaskRecord = to_task_record h i row p (get i s.sessions) in
      let free : has_id i (list_where h s l d) ≡ false =
        ground (arith, list_where-has_id d a.1 j i) in
      let rest : IsApart (list_where h s l d) = list_where-IsApart d a.1 j in
      let whole : IsApart (insert_ordered t (list_where h s l d)) =
        insert-IsApart t (list_where h s l d) free rest in
      rw (list_where-cons i row d p there) (elim (Bool-cases (includes l row.status)) [
        | inl listed_now ↦ rw listed_now whole
        | inr left_out ↦ rw left_out rest
      ])

  pub list_where-All :
      (P : TaskRecord → Type 0) (d : Dict TaskRow)
      → AreJoined s d
      → All
          (λ e.
            (p : ProjectRow)
            → includes l e.1.status ≡ true
            → P (to_task_record h e.0 e.1 p (get e.0 s.sessions)))
          d
      → All P (list_where h s l d)
  unfolding list_where
  list_where-All P [] j q = tt
  list_where-All P ((i, row) ∷ d) ((p, there), j) (q, qs) =
      let t : TaskRecord = to_task_record h i row p (get i s.sessions) in
      let rest : All P (list_where h s l d) = list_where-All P d j qs in
      rw (list_where-cons i row d p there) (elim (Bool-cases (includes l row.status)) [
        | inl listed_now ↦ rw listed_now (insert-All P t (list_where h s l d) (q p listed_now) rest)
        | inr left_out ↦ rw left_out rest
      ])
