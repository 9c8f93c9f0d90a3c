-- ===== src/ServiceAuth/Decimal.antt =====
-- `String(now)` and `Number(text)` of times, as factoryFloor/serviceAuth.ts uses them.
use discordagent.Base.{
  ℕ, zero, suc, ◌+◌, ◌*◌, ◌/◌, ◌%◌, ◌≤◌, ◌<◌, ◌≡◌, refl, ◌∙◌, ap, String, true, false, ltb, arith,
  inl, inr, Bool-cases,
}
use Prim.Native.Char.{Char, code}
use discordagent.ServiceAuth.Header.{is_digit, all_chars, count, number_from, number, is_timestamp}

abbrev digit : ℕ → Char
digit zero = "0"
digit (suc zero) = "1"
digit (suc (suc zero)) = "2"
digit (suc (suc (suc zero))) = "3"
digit (suc (suc (suc (suc zero)))) = "4"
digit (suc (suc (suc (suc (suc zero))))) = "5"
digit (suc (suc (suc (suc (suc (suc zero)))))) = "6"
digit (suc (suc (suc (suc (suc (suc (suc zero))))))) = "7"
digit (suc (suc (suc (suc (suc (suc (suc (suc zero)))))))) = "8"
digit n = "9"

-- The digits of a number in front of a text, with a bound on the rounds.
unfoldable pub digits : ℕ → ℕ → String → String
digits zero n out = String.◌∷◌ (digit n) out
digits (suc fuel) n out = elim (ltb n 10) [
  | true ↦ String.◌∷◌ (digit n) out
  | false ↦ digits fuel (n / 10) (String.◌∷◌ (digit (n % 10)) out)
]

unfoldable pub decimal : ℕ → String
decimal n = digits n n String.[]

code-digit : (n : ℕ) → n < 10 → code (digit n) ≡ 48 + n
code-digit zero h = refl
code-digit (suc zero) h = refl
code-digit (suc (suc zero)) h = refl
code-digit (suc (suc (suc zero))) h = refl
code-digit (suc (suc (suc (suc zero)))) h = refl
code-digit (suc (suc (suc (suc (suc zero))))) h = refl
code-digit (suc (suc (suc (suc (suc (suc zero)))))) h = refl
code-digit (suc (suc (suc (suc (suc (suc (suc zero))))))) h = refl
code-digit (suc (suc (suc (suc (suc (suc (suc (suc zero)))))))) h = refl
code-digit (suc (suc (suc (suc (suc (suc (suc (suc (suc zero))))))))) h = refl
code-digit (suc (suc (suc (suc (suc (suc (suc (suc (suc (suc n)))))))))) h =
    absurd (omega (arith, h))

number-digits :
    (fuel n : ℕ) (out : String) → n ≤ fuel → number (digits fuel n out) ≡ number_from n out
unfolding digits number_from
number-digits zero n out h =
    ap (λ k. number_from k out) (ground (arith, code-digit n (omega (arith, h))))
number-digits (suc fuel) n out h = elim (Bool-cases (ltb n 10)) [
  | inl small ↦
      rw (small, digits) (ap (λ k. number_from k out) (ground (arith, code-digit n (ground arith))))
  | inr big ↦
      rw (big, digits)
        (number-digits fuel (n / 10) (String.◌∷◌ (digit (n % 10)) out) (ground arith)
          ∙ ap (λ k. number_from k out) (ground (arith, code-digit (n % 10) (omega arith))))
]

pub number-decimal : (n : ℕ) → number (decimal n) ≡ n
unfolding decimal number_from
number-decimal n = number-digits n n String.[] (omega arith)

digits-all :
    (fuel n : ℕ) (out : String)
    → n ≤ fuel
    → all_chars is_digit out ≡ true
    → all_chars is_digit (digits fuel n out) ≡ true
unfolding digits all_chars
digits-all zero n out h p = ground (arith, code-digit n (omega (arith, h)))
digits-all (suc fuel) n out h p = elim (Bool-cases (ltb n 10)) [
  | inl small ↦ rw (small, digits) (ground (arith, code-digit n (ground arith)))
  | inr big ↦
      rw (big, digits)
        (digits-all fuel (n / 10) (String.◌∷◌ (digit (n % 10)) out) (ground arith)
          (ground (arith, code-digit (n % 10) (omega arith))))
]

abbrev ten_to : ℕ → ℕ
ten_to zero = 1
ten_to (suc k) = 10 * ten_to k

count-digits :
    (fuel n k : ℕ) (out : String)
    → n ≤ fuel
    → n < ten_to (suc k)
    → count (digits fuel n out) ≤ suc k + count out
unfolding digits count
count-digits zero n k out h b = omega arith
count-digits (suc fuel) n zero out h b = elim (Bool-cases (ltb n 10)) [
  | inl small ↦ rw (small, digits) (omega arith)
  | inr big ↦ absurd (ground arith)
]
count-digits (suc fuel) n (suc k) out h b = elim (Bool-cases (ltb n 10)) [
  | inl small ↦ rw (small, digits) (omega arith)
  | inr big ↦
      let out' = String.◌∷◌ (digit (n % 10)) out in
      rw (big, digits)
        (omega (arith, count-digits fuel (n / 10) k out' (ground arith) (fewer (ten_to (suc k)) b)))
]
  where
    fewer : (m : ℕ) → n < 10 * m → n / 10 < m
    fewer m b = omega (arith, b)

count-digits_pos : (fuel n : ℕ) (out : String) → 0 < count (digits fuel n out)
unfolding digits count
count-digits_pos zero n out = omega arith
count-digits_pos (suc fuel) n out = elim (Bool-cases (ltb n 10)) [
  | inl small ↦ rw (small, digits) (omega arith)
  | inr big ↦ rw (big, digits) (count-digits_pos fuel (n / 10) (String.◌∷◌ (digit (n % 10)) out))
]

-- A safe integer is printed as a timestamp.
pub is_timestamp-decimal : (n : ℕ) → n ≤ 9007199254740991 → is_timestamp (decimal n) ≡ true
unfolding is_timestamp decimal all_chars count
is_timestamp-decimal n h = ground (
  arith,
  digits-all n n String.[] (omega arith) refl,
  count-digits n n 15 String.[] (omega arith) (omega (arith, h)),
  count-digits_pos n n String.[],
)
