-- ===== src/Base/Texts.antt =====
-- Equality of texts as a decision, so that a split on a test has the equation at hand.
use Prim.Native.String.{String}
use text.Mathlib.Text.{◌==◌ as str_eq}
use text.Mathlib.TextEquality.{eq_iff}
use mathlib.Core.Path.{◌≡◌, refl}
use mathlib.Core.Bool.{Bool, true, false}
use native.Mathlib.Omega.{arith}

dec_of_test : (s t : String) (b : Bool) → str_eq s t ≡ b → Dec (s ≡ t)
dec_of_test s t true e = yes ((eq_iff s t).0 e)
dec_of_test s t false e = no (λ p. ground (arith, (eq_iff s t).1 p))

unfoldable pub str_dec : (s t : String) → Dec (s ≡ t)
unfolding dec_of_test
str_dec s t = dec_of_test s t (str_eq s t) refl

infix 50 ◌==◌
abbrev pub ◌==◌ : String → String → Bool
s == t = elim (str_dec s t) [ yes _ ↦ true | no _ ↦ false ]

-- `!s` of a string.
abbrev pub is_empty : String → Bool
is_empty s = s == ""
