-- ===== src/Base/Results.antt =====
-- A thrown error as a value: `throw e` is `err e`, and a statement sequence is a `do` block.
use mathlib.Core.Path.{◌≡◌, refl}
use mathlib.Core.Logic.{◌≢◌}
use mathlib.Core.Bool.{Bool, true, false}

pub data Result {ℓ} (E : Type 0) (A : Type ℓ) : Type ℓ where
  err : E → Result E A
  ok : A → Result E A

module _ {E : Type 0} where
  infixl 5 ◌>>=◌ ◌>>◌
  abbrev pub ◌>>=◌ {κ ℓ} : {B : Type κ} {C : Type ℓ} → Result E B → (B → Result E C) → Result E C
  err x >>= next = err x
  ok b >>= next = next b

  abbrev pub ◌>>◌ {ℓ} : {C : Type ℓ} → Result E (Unit {0}) → Result E C → Result E C
  check >> next = check >>= λ _. next

  -- `if (bad) throw x;`
  abbrev pub throw_if : Bool → E → Result E (Unit {0})
  throw_if false x = ok tt
  throw_if true x = err x

  -- A sequence returns only if its first part does.
  pub >>=-eq-ok {κ ℓ} :
      {B : Type κ} {C : Type ℓ} (first : Result E B) (next : B → Result E C) {c : C}
      → (first >>= next) ≡ ok c
      → (b : B) × (first ≡ ok b) × (next b ≡ ok c)
  >>=-eq-ok (err x) next returned = cc
  >>=-eq-ok (ok b) next returned = (b, refl, returned)

  -- A guard that let the rest run.
  pub throw_if-eq-ok {ℓ} :
      {A : Type ℓ} (b : Bool) (e : E) (k : Result E A) {a : A}
      → (throw_if b e >> k) ≡ ok a
      → (b ≡ false) × (k ≡ ok a)
  throw_if-eq-ok true e k h = cc
  throw_if-eq-ok false e k h = (refl, h)

  -- A computation that does not fail with a given error.
  abbrev pub NeverFails {ℓ} : {A : Type ℓ} → E → Result E A → Type 0
  NeverFails e (ok a) = Unit
  NeverFails e (err x) = x ≢ e

  pub NeverFails-bind {ℓ κ} :
      {A : Type ℓ} {B : Type κ} (e : E) (m : Result E A) (f : A → Result E B)
      → NeverFails e m
      → ((a : A) → m ≡ ok a → NeverFails e (f a))
      → NeverFails e (m >>= f)
  NeverFails-bind e (ok a) f h k = k a refl
  NeverFails-bind e (err x) f h k = h

  pub NeverFails-throw_if : (e : E) (b : Bool) (x : E) → x ≢ e → NeverFails e (throw_if b x)
  NeverFails-throw_if e true x h = h
  NeverFails-throw_if e false x h = tt
