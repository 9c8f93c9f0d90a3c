-- ===== src/ServiceAuth/RoundTrip.antt =====
-- factoryFloor/serviceAuth.ts: what is signed and formatted is parsed and accepted.
use discordagent.Base.{
  String, Bool, true, false, not, ◌≡◌, refl, ap, some, is_empty, arith, str_dec,
}
use Prim.Native.Char.{Char}
use Prim.Native.String.{◌++◌}
use text.Mathlib.TextLemmas.{cons-append, nil-append}
use discordagent.Text.{is_space}
use discordagent.ServiceAuth.Header.{
  SignedServiceRequest, format_service_auth_header, parse_service_auth_header, after, after_spaces,
  skip_spaces, field, is_comma, all_chars,
}

abbrev pub has_no_comma : String → Bool
has_no_comma = all_chars (λ c. not (is_comma c))

longer_pair :
    (c : Char) (s f rest : String)
    → is_comma c ≡ false
    → field s ≡ (f, rest)
    → field (String.◌∷◌ c s) ≡ (String.◌∷◌ c f, rest)
unfolding field
longer_pair c s f rest plain e = rw (plain, field) (ap (λ p. (String.◌∷◌ c p.0, p.1)) e)

after-append : (p s : String) → after p (p ++ s) ≡ some s
unfolding after
after-append String.[] s = ap some (nil-append s)
after-append (String.◌∷◌ c p) s = rw (cons-append c p s, after) (ground (arith, after-append p s))

field-append :
    (f : String) (c : Char) (s : String)
    → has_no_comma f ≡ true
    → is_comma c ≡ true
    → field (f ++ String.◌∷◌ c s) ≡ (f, String.◌∷◌ c s)
unfolding field all_chars
field-append String.[] c s plain comma = rw (nil-append (String.◌∷◌ c s), field) (ground arith)
field-append (String.◌∷◌ d f) c s plain comma = rw (cons-append d f (String.◌∷◌ c s)) (
    longer_pair d (f ++ String.◌∷◌ c s) f (String.◌∷◌ c s) (ground arith)
      (field-append f c s (ground arith) comma))

field-all : (f : String) → has_no_comma f ≡ true → field f ≡ (f, String.[])
unfolding field all_chars
field-all String.[] plain = refl
field-all (String.◌∷◌ d f) plain =
    longer_pair d f f String.[] (ground arith) (field-all f (ground arith))

after_spaces-key : (x : String) → after_spaces (" " ++ ("keyId=" ++ x)) ≡ some ("keyId=" ++ x)
unfolding after_spaces skip_spaces is_space
after_spaces-key x =
    rw (cons-append " " "" ("keyId=" ++ x), nil-append ("keyId=" ++ x), cons-append "k" "eyId=" x)
      refl

field-before :
    (f l s : String) (c : Char) (k : String)
    → l ≡ String.◌∷◌ c k
    → is_comma c ≡ true
    → has_no_comma f ≡ true
    → field (f ++ (l ++ s)) ≡ (f, l ++ s)
field-before f l s c k e comma plain =
    rw (e, cons-append c k s) (field-append f c (k ++ s) plain comma)

-- A field that the header can hold.
abbrev pub IsField : String → Type 0
IsField t = (is_empty t ≡ false) × (has_no_comma t ≡ true)

pub record IsWritten (i : SignedServiceRequest) : Type 0 where
  pub key_id : IsField i.key_id
  pub timestamp : IsField i.timestamp
  pub nonce : IsField i.nonce
  pub signature : IsField i.signature

-- Where every field is neither empty nor has a comma, `parseServiceAuthHeader` reads back what
-- `formatServiceAuthHeader` has written.
pub parse_format :
    (i : SignedServiceRequest)
    → IsWritten i
    → parse_service_auth_header (format_service_auth_header i) ≡ some i
unfolding parse_service_auth_header format_service_auth_header str_dec
parse_format i w =
    let l₄ = ",signature=" ++ i.signature in
    let l₃ = ",nonce=" ++ (i.nonce ++ l₄) in
    let l₂ = ",timestamp=" ++ (i.timestamp ++ l₃) in
    let l₁ = "keyId=" ++ (i.key_id ++ l₂) in
    rw
      (
        after-append "HMAC-SHA256" (" " ++ l₁),
        after_spaces-key (i.key_id ++ l₂),
        after-append "keyId=" (i.key_id ++ l₂),
        field-before i.key_id ",timestamp=" (i.timestamp ++ l₃) "," "timestamp=" refl refl
            w.key_id.1,
        w.key_id.0,
        after-append ",timestamp=" (i.timestamp ++ l₃),
        field-before i.timestamp ",nonce=" (i.nonce ++ l₄) "," "nonce=" refl refl w.timestamp.1,
        w.timestamp.0,
        after-append ",nonce=" (i.nonce ++ l₄),
        field-before i.nonce ",signature=" i.signature "," "signature=" refl refl w.nonce.1,
        w.nonce.0,
        after-append ",signature=" i.signature,
        field-all i.signature w.signature.1,
        w.signature.0,
      )
      refl
