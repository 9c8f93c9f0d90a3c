-- ===== src/ServiceAuth/Header.antt =====
-- factoryFloor/serviceAuth.ts: the header of a signed request, and the patterns of its fields. A
-- regular expression is a function that reads the text from its start.
use discordagent.Base.{
  ℕ, suc, ◌+◌, ◌*◌, ◌-◌, String, Bool, true, false, not, ◌&&◌, ◌||◌, Option, none, some, leb,
  nat_beq, if◌then◌else◌, is_empty,
}
use Prim.Native.Char.{Char, code}
use Prim.Native.String.{◌++◌}
use discordagent.Text.{is_space}

-- A match of a part and then of the rest.
infixl 5 ◌>>=◌
abbrev pub ◌>>=◌ {ℓ κ} : {A : Type ℓ} {B : Type κ} → Option A → (A → Option B) → Option B
none >>= next = none
(some a) >>= next = next a

pub record SignedServiceRequest : Type 0 where
  pub key_id : String
  pub timestamp : String
  pub nonce : String
  pub signature : String

unfoldable pub format_service_auth_header : SignedServiceRequest → String
format_service_auth_header i =
    "HMAC-SHA256"
    ++ (" "
        ++ ("keyId="
            ++ (i.key_id
                ++ (",timestamp="
                    ++ (i.timestamp
                        ++ (",nonce=" ++ (i.nonce ++ (",signature=" ++ i.signature))))))))

-- What follows a literal.
unfoldable pub after : String → String → Option String
after String.[] s = some s
after (String.◌∷◌ c p) String.[] = none
after (String.◌∷◌ c p) (String.◌∷◌ d s) = elim (nat_beq (code c) (code d)) [
  | true ↦ after p s
  | false ↦ none
]

abbrev pub is_comma : Char → Bool
is_comma c = nat_beq (code c) 44

abbrev longer : Char → String × String → String × String
longer c (f, rest) = (String.◌∷◌ c f, rest)

-- `[^,]*`, and what follows.
unfoldable pub field : String → String × String
field String.[] = (String.[], String.[])
field (String.◌∷◌ c s) = if is_comma c then (String.[], String.◌∷◌ c s) else longer c (field s)

-- `\s*`.
unfoldable pub skip_spaces : String → String
skip_spaces String.[] = String.[]
skip_spaces (String.◌∷◌ c s) = elim (is_space (code c)) [
  | true ↦ skip_spaces s
  | false ↦ String.◌∷◌ c s
]

-- `\s+`.
unfoldable pub after_spaces : String → Option String
after_spaces String.[] = none
after_spaces (String.◌∷◌ c s) = if is_space (code c) then some (skip_spaces s) else none

-- `[^,]+`.
abbrev pub nonempty_field : String × String → Option (String × String)
nonempty_field (f, rest) = if is_empty f then none else some (f, rest)

abbrev pub last_field : String × String → Option String
last_field (f, rest) = if is_empty f || not (is_empty rest) then none else some f

unfoldable pub parse_service_auth_header : String → Option SignedServiceRequest
parse_service_auth_header header = do
  spaced ← after "HMAC-SHA256" header
  named ← after_spaces spaced
  k ← after "keyId=" named
  key ← nonempty_field (field k)
  t ← after ",timestamp=" key.1
  time ← nonempty_field (field t)
  n ← after ",nonce=" time.1
  once ← nonempty_field (field n)
  s ← after ",signature=" once.1
  signature ← last_field (field s)
  some (record { key_id = key.0; timestamp = time.0; nonce = once.0; signature = signature })

abbrev pub is_digit : Char → Bool
is_digit c = leb 48 (code c) && leb (code c) 57

unfoldable pub all_chars : (Char → Bool) → String → Bool
all_chars test String.[] = true
all_chars test (String.◌∷◌ c s) = test c && all_chars test s

unfoldable pub count : String → ℕ
count String.[] = 0
count (String.◌∷◌ c s) = suc (count s)

-- `TIMESTAMP_PATTERN`.
unfoldable pub is_timestamp : String → Bool
is_timestamp t = all_chars is_digit t && leb 1 (count t) && leb (count t) 16

abbrev pub is_hex_digit : Char → Bool
is_hex_digit c =
    is_digit c || (leb 97 (code c) && leb (code c) 102) || (leb 65 (code c) && leb (code c) 70)

-- `SIGNATURE_PATTERN`.
unfoldable pub is_signature : String → Bool
is_signature t = all_chars is_hex_digit t && nat_beq (count t) 64

-- `Number(t)` of a text of digits.
unfoldable pub number_from : ℕ → String → ℕ
number_from n String.[] = n
number_from n (String.◌∷◌ c s) = number_from (n * 10 + (code c - 48)) s

abbrev pub number : String → ℕ
number t = number_from 0 t
