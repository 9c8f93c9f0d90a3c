-- ===== src/Bindings/Candidates.antt =====
-- repositories/factoryFloorBindingRepository.ts: the surfaces that `bindSurface` finds.
use discordagent.Base.{
  String, Bool, true, false, ◌≡◌, refl, ◌∙◌, subst, Option, none, some, List, [], ◌∷◌, ◌++◌, All,
  arith, str_dec, Bool-cases, inl, inr,
}
use discordagent.Dict.{Dict, get}
use discordagent.Dict.Distinct.{IsDistinct}
use discordagent.Bindings.Rows.{SurfaceBindingRow}
use discordagent.Bindings.Repository.{
  surfaces_with, named_by, surface_candidates, Identity, has_activity, has_message, has_thread,
}
use discordagent.Bindings.Tables.{IsUniqueFor}

-- Entries of a table.
abbrev pub AreStored : Dict SurfaceBindingRow → List (String × SurfaceBindingRow) → Type 0
AreStored d l = All (λ e. get e.0 d ≡ some e.1) l

abbrev pub HaveId : String → List (String × SurfaceBindingRow) → Type 0
HaveId id l = All (λ e. e.0 ≡ id) l

stored_tail :
    (j : String) (r : SurfaceBindingRow) (d : Dict SurfaceBindingRow)
    (l : List (String × SurfaceBindingRow))
    → get j d ≡ none
    → AreStored d l
    → AreStored ((j, r) ∷ d) l
unfolding get
stored_tail j r d [] free h = tt
stored_tail j r d ((k, x) ∷ l) free (at, h) = (ground arith, stored_tail j r d l free h)

surfaces_with-AreStored :
    (test : SurfaceBindingRow → Bool) (d : Dict SurfaceBindingRow)
    → IsDistinct d
    → AreStored d (surfaces_with test d)
unfolding surfaces_with
surfaces_with-AreStored test [] h = tt
surfaces_with-AreStored test ((j, r) ∷ d) (free, h) = elim (Bool-cases (test r)) [
  | inl passes ↦ rw (passes, surfaces_with) (unfold get in ground arith, tt)
  | inr fails ↦
      rw (fails, surfaces_with) (stored_tail j r d _ free (surfaces_with-AreStored test d h))
]

append-All {ℓ κ} : {A : Type ℓ} (P : A → Type κ) (l m : List A) → All P l → All P m → All P (l ++ m)
append-All P [] m h k = k
append-All P (x ∷ l) m (p, h) k = (p, append-All P l m h k)

All-left {ℓ κ} : {A : Type ℓ} (P : A → Type κ) (l m : List A) → All P (l ++ m) → All P l
All-left P [] m h = tt
All-left P (x ∷ l) m (p, h) = (p, All-left P l m h)

All-right {ℓ κ} : {A : Type ℓ} (P : A → Type κ) (l m : List A) → All P (l ++ m) → All P m
All-right P [] m h = h
All-right P (x ∷ l) m (p, h) = All-right P l m h

named_by-AreStored :
    (o : Option String) (test : String → SurfaceBindingRow → Bool) (d : Dict SurfaceBindingRow)
    → IsDistinct d
    → AreStored d (named_by o test d)
unfolding named_by
named_by-AreStored none test d h = tt
named_by-AreStored (some t) test d h = surfaces_with-AreStored (test t) d h

pub candidates-AreStored :
    (d : Dict SurfaceBindingRow) (guild channel : String) (i : Identity)
    → IsDistinct d
    → AreStored d (surface_candidates d guild channel i)
unfolding surface_candidates
candidates-AreStored d guild channel i h =
    append-All _ (named_by i.activity has_activity d ++ named_by i.message has_message d) _
      (append-All _ (named_by i.activity has_activity d) _
        (named_by-AreStored i.activity has_activity d h)
        (named_by-AreStored i.message has_message d h))
      (named_by-AreStored i.thread (has_thread guild channel) d h)

-- A row that passes the test makes the search find one.
surfaces_with-found :
    (test : SurfaceBindingRow → Bool) (d : Dict SurfaceBindingRow) (j : String)
    (y : SurfaceBindingRow)
    → get j d ≡ some y
    → test y ≡ true
    → (k : String) × (z : SurfaceBindingRow) × (surfaces_with test d ≡ (k, z) ∷ [])
      × (test z ≡ true)
unfolding surfaces_with get
surfaces_with-found test [] j y at passes = absurd (ground arith)
surfaces_with-found test ((i, r) ∷ d) j y at passes = elim (Bool-cases (test r)) [
  | inl here ↦ (i, r, rw (here, surfaces_with) refl, here)
  | inr fails ↦ elim (str_dec i j) [
    | yes same ↦
        let own : r ≡ y = ground arith in
        absurd (ground (arith, subst (λ x. test x ≡ false) own fails))
    | no other ↦
        let (k, z, found, holds) = surfaces_with-found test d j y (ground arith) passes in
        (k, z, rw (fails, surfaces_with) found, holds)
  ]
]

-- Where the column is UNIQUE, that is the row itself.
surfaces_with_complete :
    (test : SurfaceBindingRow → Bool) (d : Dict SurfaceBindingRow) (id j : String)
    (y : SurfaceBindingRow)
    → IsDistinct d
    → IsUniqueFor test d
    → HaveId id (surfaces_with test d)
    → get j d ≡ some y
    → test y ≡ true
    → j ≡ id
surfaces_with_complete test d id j y distinct unique h at passes =
    let (k, z, found, holds) = surfaces_with-found test d j y at passes in
    let stored = subst (AreStored d) found (surfaces_with-AreStored test d distinct) in
    let named = subst (HaveId id) found h in unique j k y z at stored.0 passes holds ∙ named.0

-- What the candidates say of the tables' rows: each identity that is given belongs to the
-- candidates' one id, or to none.
pub record AreKnown (d : Dict SurfaceBindingRow) (guild channel id : String) (i : Identity)
    : Type 0 where
  pub activity :
      (t j : String) (y : SurfaceBindingRow)
      → i.activity ≡ some t
      → get j d ≡ some y
      → has_activity t y ≡ true
      → j ≡ id
  pub message :
      (t j : String) (y : SurfaceBindingRow)
      → i.message ≡ some t
      → get j d ≡ some y
      → has_message t y ≡ true
      → j ≡ id
  pub thread :
      (t j : String) (y : SurfaceBindingRow)
      → i.thread ≡ some t
      → get j d ≡ some y
      → has_thread guild channel t y ≡ true
      → j ≡ id

-- The UNIQUE columns of surfaces.
pub record AreUnique (d : Dict SurfaceBindingRow) : Type 0 where
  pub activity : (t : String) → IsUniqueFor (has_activity t) d
  pub message : (t : String) → IsUniqueFor (has_message t) d
  pub thread : (guild channel t : String) → IsUniqueFor (has_thread guild channel t) d

named_by_complete :
    (o : Option String) (test : String → SurfaceBindingRow → Bool) (d : Dict SurfaceBindingRow)
    (id t j : String) (y : SurfaceBindingRow)
    → IsDistinct d
    → IsUniqueFor (test t) d
    → HaveId id (named_by o test d)
    → o ≡ some t
    → get j d ≡ some y
    → test t y ≡ true
    → j ≡ id
unfolding named_by
named_by_complete none test d id t j y distinct unique h given at passes = absurd (ground arith)
named_by_complete (some u) test d id t j y distinct unique h given at passes =
    let same : u ≡ t = ground arith in
    surfaces_with_complete (test t) d id j y distinct unique
      (subst (λ x. HaveId id (surfaces_with (test x) d)) same h) at passes

pub candidates-AreKnown :
    (d : Dict SurfaceBindingRow) (guild channel id : String) (i : Identity)
    → IsDistinct d
    → AreUnique d
    → HaveId id (surface_candidates d guild channel i)
    → AreKnown d guild channel id i
unfolding surface_candidates
candidates-AreKnown d guild channel id i distinct unique h =
    let a = named_by i.activity has_activity d in
    let m = named_by i.message has_message d in
    let n = named_by i.thread (has_thread guild channel) d in
    let am = All-left _ (a ++ m) n h in
    record {
      activity = λ t j y.
          named_by_complete i.activity has_activity d id t j y distinct (unique.activity t)
            (All-left _ a m am);
      message = λ t j y.
          named_by_complete i.message has_message d id t j y distinct (unique.message t)
            (All-right _ a m am);
      thread = λ t j y.
          named_by_complete i.thread (has_thread guild channel) d id t j y distinct
            (unique.thread guild channel t) (All-right _ (a ++ m) n h);
    }
