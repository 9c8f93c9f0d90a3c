-- ===== src/ServiceAuth/Acceptance.antt =====
-- factoryFloor/serviceAuth.ts: what one side signs, the other accepts.
use discordagent.Base.{
  ℕ, ◌≤◌, ◌<◌, String, Bool, true, false, not, ◌≡◌, refl, subst, ◌==◌, some, List, [], ◌∷◌, any,
  length, ltb, ok, is_empty, arith, str_dec,
}
use Prim.Native.Char.{Char}
use text.Mathlib.TextLemmas.{cons-append}
use discordagent.Text.{trim, code_units}
use discordagent.ServiceAuth.Header.{
  SignedServiceRequest, format_service_auth_header, is_timestamp, is_signature, is_digit,
  is_hex_digit, is_comma, all_chars, count,
}
use discordagent.ServiceAuth.Decimal.{decimal, number-decimal, is_timestamp-decimal}
use discordagent.ServiceAuth.Nonces.{NonceRow, is_nonce, unexpired, consume_row, consume_nonce}
use discordagent.ServiceAuth.Verify.{
  AuthHost, ServiceAuthDirection, agent_to_ff, ff_to_agent, ServiceAuthBody, ServiceAuthKeys,
  ServiceRequest, VerifyOptions, distance, max_safe_integer, check_request, verify_service_request,
  consumed, is_signed, has_digest, service_auth_key_id, current_key, verification_keys,
  signature_payload, sign_service_request,
}
use discordagent.ServiceAuth.RoundTrip.{IsField, IsWritten, parse_format}

-- Of `node:crypto`: a digest is 64 hexadecimal digits that are read back, and equals itself.
pub record IsCrypto (h : AuthHost) : Type 0 where
  pub hex : (key payload : String) → h.from_hex (h.to_hex (h.hmac key payload)) ≡ h.hmac key payload
  pub shape : (key payload : String) → is_signature (h.to_hex (h.hmac key payload)) ≡ true
  pub equal :
      (key payload : String) → h.timing_safe_equal (h.hmac key payload) (h.hmac key payload) ≡ true

all_chars_mono :
    (p q : Char → Bool) (s : String)
    → ((c : Char) → p c ≡ true → q c ≡ true)
    → all_chars p s ≡ true
    → all_chars q s ≡ true
unfolding all_chars
all_chars_mono p q String.[] f h = refl
all_chars_mono p q (String.◌∷◌ c s) f h =
    ground (arith, f c (ground arith), all_chars_mono p q s f (ground arith))

nonempty : (t : String) → 0 < count t → is_empty t ≡ false
unfolding count
nonempty t h = elim (str_dec t "") [
  | yes same ↦ absurd (omega (arith, subst (λ s. 0 < count s) same h))
  | no other ↦ ground arith
]

timestamp-IsField : (t : String) → is_timestamp t ≡ true → IsField t
unfolding is_timestamp
timestamp-IsField t h = (
  nonempty t (ground arith),
  all_chars_mono is_digit (λ c. not (is_comma c)) t (λ c d. ground arith) (ground arith),
)

signature-IsField : (t : String) → is_signature t ≡ true → IsField t
unfolding is_signature
signature-IsField t h = (
  nonempty t (ground arith),
  all_chars_mono is_hex_digit (λ c. not (is_comma c)) t (λ c d. ground arith) (ground arith),
)

key_id-IsField : (d : ServiceAuthDirection) → IsField (service_auth_key_id d)
unfolding service_auth_key_id all_chars str_dec
key_id-IsField agent_to_ff = (refl, refl)
key_id-IsField ff_to_agent = (refl, refl)

header-given : (i : SignedServiceRequest) → is_empty (format_service_auth_header i) ≡ false
unfolding format_service_auth_header
header-given i = rw (cons-append "H" "MAC-SHA256" _) (nonempty _ (unfold count in omega arith))

-- A key that the verifier knows has the signature.
known_key :
    (h : AuthHost) (k : IsCrypto h) (key payload : String) (keys : List String)
    → any (λ x. x == key) keys ≡ true
    → any (has_digest h (h.from_hex (h.to_hex (h.hmac key payload))) payload) keys ≡ true
known_key h k key payload [] e = absurd (ground arith)
known_key h k key payload (x ∷ keys) e = elim (str_dec x key) [
  | yes same ↦ rw (k.hex key payload, same) (ground (arith, k.equal key payload))
  | no other ↦ ground (arith, known_key h k key payload keys (ground arith))
]

same_text : (t : String) → (t == t) ≡ true
same_text t = ground arith

signed-IsWritten :
    (h : AuthHost) (c : IsCrypto h) (keys : ServiceAuthKeys) (d : ServiceAuthDirection)
    (method path : String) (body : ServiceAuthBody) (at : ℕ) (nonce : String)
    → IsField nonce
    → at ≤ max_safe_integer
    → IsWritten (sign_service_request h keys d method path body at nonce)
unfolding sign_service_request
signed-IsWritten h c keys d method path body at nonce field safe = record {
  key_id = key_id-IsField d;
  timestamp = timestamp-IsField (decimal at) (is_timestamp-decimal at safe);
  nonce = field;
  signature =
      signature-IsField _
        (c.shape (current_key keys d) (signature_payload h d (decimal at) nonce method path body));
}

abbrev pub signed_request :
    AuthHost
    → ServiceAuthKeys
    → ServiceAuthDirection
    → String
    → String
    → ServiceAuthBody
    → ℕ
    → String
    → ℕ
    → ServiceRequest
signed_request h keys d method path body at nonce now = record {
  direction = d;
  method = method;
  path = path;
  body = body;
  header =
      some (format_service_auth_header (sign_service_request h keys d method path body at nonce));
  now = now;
}

check_signed :
    (h : AuthHost) (c : IsCrypto h) (o : VerifyOptions) (keys : ServiceAuthKeys)
    (d : ServiceAuthDirection) (method path : String) (body : ServiceAuthBody) (at : ℕ)
    (nonce : String) (now : ℕ)
    → any (λ x. x == current_key keys d) (verification_keys o.keys d) ≡ true
    → IsField nonce
    → is_empty (trim nonce) ≡ false
    → length (code_units nonce) ≤ 128
    → at ≤ max_safe_integer
    → distance now at ≤ o.max_skew_ms
    → check_request h o (signed_request h keys d method path body at nonce now)
      ≡ ok (sign_service_request h keys d method path body at nonce)
unfolding check_request sign_service_request is_signed
check_signed h c o keys d method path body at nonce now known field given short safe near =
    let i = sign_service_request h keys d method path body at nonce in
    let payload = signature_payload h d (decimal at) nonce method path body in
    let long : ltb 128 (length (code_units nonce)) ≡ false = ground arith in
    let big : ltb max_safe_integer at ≡ false = ground arith in
    let far : ltb o.max_skew_ms (distance now at) ≡ false = ground arith in
    rw
      (
        header-given i,
        parse_format i (signed-IsWritten h c keys d method path body at nonce field safe),
        same_text (service_auth_key_id d),
        is_timestamp-decimal at safe,
        number-decimal at,
        big,
        far,
        given,
        long,
        c.shape (current_key keys d) payload,
        known_key h c (current_key keys d) payload (verification_keys o.keys d) known,
      )
      refl

trim-key_id : (d : ServiceAuthDirection) → trim (service_auth_key_id d) ≡ service_auth_key_id d
unfolding trim service_auth_key_id
trim-key_id agent_to_ff = refl
trim-key_id ff_to_agent = refl

consumed_fresh :
    (ttl : ℕ) (d : ServiceAuthDirection) (nonce : String) (now : ℕ) (rows : List NonceRow)
    → is_empty (trim nonce) ≡ false
    → any (is_nonce (service_auth_key_id d) (trim nonce)) (unexpired now rows) ≡ false
    → (consumed rows (consume_nonce ttl (service_auth_key_id d) nonce now rows)).1 ≡ ok tt
unfolding consume_nonce consume_row
consumed_fresh ttl d nonce now rows given fresh =
    rw (trim-key_id d, (key_id-IsField d).0, given, fresh) refl

-- Where the digests behave, the verifier knows the signer's key, the nonce has no comma, is not
-- blank, has at most 128 units and is not in the table, and the request was signed at a safe time
-- within the skew that is allowed: what `signServiceRequest` signs and `formatServiceAuthHeader`
-- writes is accepted by `verifyServiceRequest`.
pub signed_accepted :
    (h : AuthHost) (c : IsCrypto h) (o : VerifyOptions) (rows : List NonceRow)
    (keys : ServiceAuthKeys) (d : ServiceAuthDirection) (method path : String)
    (body : ServiceAuthBody) (at : ℕ) (nonce : String) (now : ℕ)
    → any (λ x. x == current_key keys d) (verification_keys o.keys d) ≡ true
    → IsField nonce
    → is_empty (trim nonce) ≡ false
    → length (code_units nonce) ≤ 128
    → at ≤ max_safe_integer
    → distance now at ≤ o.max_skew_ms
    → any (is_nonce (service_auth_key_id d) (trim nonce)) (unexpired now rows) ≡ false
    → (verify_service_request h o rows (signed_request h keys d method path body at nonce now)).1
      ≡ ok tt
unfolding verify_service_request
signed_accepted h c o rows keys d method path body at nonce now known field given short safe near
      fresh =
    rw (check_signed h c o keys d method path body at nonce now known field given short safe near)
      (unfold sign_service_request in consumed_fresh o.ttl_ms d nonce now rows given fresh)
