-- ===== src/ServiceAuth/Verify.antt =====
-- factoryFloor/serviceAuth.ts: the signing and the verification of requests.
use discordagent.Base.{
  ℕ, ◌+◌, ◌-◌, String, Bool, true, false, not, ◌&&◌, ◌==◌, Option, none, some, List, [], ◌∷◌, any,
  length, nat_beq, ltb, Result, ok, err, ◌>>=◌, throw_if, ◌>>◌, is_empty, if◌then◌else◌,
}
use Prim.Native.String.{◌++◌}
use discordagent.Text.{trim, code_units}
use discordagent.ServiceAuth.Header.{
  SignedServiceRequest, parse_service_auth_header, is_timestamp, is_signature, number,
}
use discordagent.ServiceAuth.Decimal.{decimal}
use discordagent.ServiceAuth.Nonces.{NonceRow, consume_nonce}

-- What `node:crypto`, `Buffer` and `toUpperCase` give.
pub record AuthHost : Type 0 where
  pub utf8 : String → List ℕ
  pub sha256_hex : List ℕ → String
  pub hmac : String → String → List ℕ
  pub to_hex : List ℕ → String
  pub from_hex : String → List ℕ
  pub timing_safe_equal : List ℕ → List ℕ → Bool
  pub to_upper_case : String → String

pub data ServiceAuthDirection : Type 0 where
  agent_to_ff : ServiceAuthDirection
  ff_to_agent : ServiceAuthDirection

pub data ServiceAuthBody : Type 0 where
  text : String → ServiceAuthBody
  bytes : List ℕ → ServiceAuthBody

pub record ServiceAuthKeys : Type 0 where
  pub agent_to_factory_key : String
  pub factory_to_agent_key : String
  pub previous_agent_to_factory_key : Option String
  pub previous_factory_to_agent_key : Option String

-- The `ServiceAuthError`s by their messages, and an `Error` of the nonce store.
pub data ServiceAuthError : Type 0 where
  header_required : ServiceAuthError
  header_malformed : ServiceAuthError
  unknown_key : ServiceAuthError
  invalid_timestamp : ServiceAuthError
  timestamp_skew : ServiceAuthError
  nonce_required : ServiceAuthError
  nonce_too_long : ServiceAuthError
  signature_mismatch : ServiceAuthError
  nonce_replayed : ServiceAuthError
  store_error : String → ServiceAuthError

unfoldable pub service_auth_key_id : ServiceAuthDirection → String
service_auth_key_id agent_to_ff = "ff-agent-to-ff-v1"
service_auth_key_id ff_to_agent = "ff-ff-to-agent-v1"

unfoldable pub current_key : ServiceAuthKeys → ServiceAuthDirection → String
current_key keys agent_to_ff = keys.agent_to_factory_key
current_key keys ff_to_agent = keys.factory_to_agent_key

abbrev previous_key : ServiceAuthKeys → ServiceAuthDirection → Option String
previous_key keys agent_to_ff = keys.previous_agent_to_factory_key
previous_key keys ff_to_agent = keys.previous_factory_to_agent_key

-- An empty previous key counts as none.
abbrev pub with_previous : String → Option String → List String
with_previous key none = key ∷ []
with_previous key (some previous) = if is_empty previous then key ∷ [] else key ∷ previous ∷ []

unfoldable pub verification_keys : ServiceAuthKeys → ServiceAuthDirection → List String
verification_keys keys direction =
    with_previous (current_key keys direction) (previous_key keys direction)

unfoldable pub body_buffer : AuthHost → ServiceAuthBody → List ℕ
body_buffer h (text t) = h.utf8 t
body_buffer h (bytes b) = b

unfoldable pub signature_payload :
    AuthHost → ServiceAuthDirection → String → String → String → String → ServiceAuthBody → String
unfolding service_auth_key_id body_buffer
signature_payload h direction timestamp nonce method path body =
    "1\n"
    ++ (service_auth_key_id direction
        ++ ("\n"
            ++ (timestamp
                ++ ("\n"
                    ++ (nonce
                        ++ ("\n"
                            ++ (h.to_upper_case method
                                ++ ("\n"
                                    ++ (path ++ ("\n" ++ h.sha256_hex (body_buffer h body)))))))))))

unfoldable pub sign_service_request :
    AuthHost
    → ServiceAuthKeys
    → ServiceAuthDirection
    → String
    → String
    → ServiceAuthBody
    → ℕ
    → String
    → SignedServiceRequest
sign_service_request h keys direction method path body now nonce = record {
  key_id = service_auth_key_id direction;
  timestamp = decimal now;
  nonce = nonce;
  signature = h.to_hex (
      h.hmac (current_key keys direction)
        (signature_payload h direction (decimal now) nonce method path body));
}

-- `verifyServiceRequest`'s arguments beside its options.
pub record ServiceRequest : Type 0 where
  pub direction : ServiceAuthDirection
  pub method : String
  pub path : String
  pub body : ServiceAuthBody
  pub header : Option String
  pub now : ℕ

pub record VerifyOptions : Type 0 where
  pub keys : ServiceAuthKeys
  pub max_skew_ms : ℕ
  pub ttl_ms : ℕ

abbrev pub max_safe_integer : ℕ
max_safe_integer = 9007199254740991

-- `Math.abs(a - b)`.
abbrev pub distance : ℕ → ℕ → ℕ
distance a b = (a - b) + (b - a)

abbrev pub or_error {ℓ} : {A : Type ℓ} → ServiceAuthError → Option A → Result ServiceAuthError A
or_error e none = err e
or_error e (some a) = ok a

abbrev pub given_header : Option String → Result ServiceAuthError String
given_header none = err header_required
given_header (some t) = if is_empty t then err header_required else ok t

abbrev pub has_digest : AuthHost → List ℕ → String → String → Bool
has_digest h supplied payload key =
    nat_beq (length supplied) (length (h.hmac key payload))
    && h.timing_safe_equal supplied (h.hmac key payload)

-- Some key has the signature: the loop tries every key.
unfoldable pub is_signed : AuthHost → VerifyOptions → ServiceRequest → SignedServiceRequest → Bool
is_signed h o q parsed =
    any
      (has_digest h (h.from_hex parsed.signature)
        (signature_payload h q.direction parsed.timestamp parsed.nonce q.method q.path q.body))
      (verification_keys o.keys q.direction)

-- `verifyServiceRequest` up to the nonce store.
unfoldable pub check_request :
    AuthHost → VerifyOptions → ServiceRequest → Result ServiceAuthError SignedServiceRequest
check_request h o q = do
  header ← given_header q.header
  parsed ← or_error header_malformed (parse_service_auth_header header)
  throw_if (not (parsed.key_id == service_auth_key_id q.direction)) unknown_key
  throw_if (not (is_timestamp parsed.timestamp)) invalid_timestamp
  throw_if (ltb max_safe_integer (number parsed.timestamp)) invalid_timestamp
  throw_if (ltb o.max_skew_ms (distance q.now (number parsed.timestamp))) timestamp_skew
  throw_if (is_empty (trim parsed.nonce)) nonce_required
  throw_if (ltb 128 (length (code_units parsed.nonce))) nonce_too_long
  throw_if (not (is_signature parsed.signature)) signature_mismatch
  throw_if (not (is_signed h o q parsed)) signature_mismatch
  ok parsed

abbrev pub Verified : Type 0
Verified = List NonceRow × Result ServiceAuthError (Unit {0})

-- The answer of the nonce store.
abbrev pub consumed : List NonceRow → Result String (List NonceRow × Bool) → Verified
consumed rows (err message) = (rows, err (store_error message))
consumed rows (ok (rows', true)) = (rows', ok tt)
consumed rows (ok (rows', false)) = (rows', err nonce_replayed)

abbrev pub with_nonce :
    VerifyOptions → ℕ → List NonceRow → Result ServiceAuthError SignedServiceRequest → Verified
with_nonce o now rows (err e) = (rows, err e)
with_nonce o now rows (ok parsed) =
    consumed rows (consume_nonce o.ttl_ms parsed.key_id parsed.nonce now rows)

unfoldable pub verify_service_request :
    AuthHost → VerifyOptions → List NonceRow → ServiceRequest → Verified
verify_service_request h o rows q = with_nonce o q.now rows (check_request h o q)

-- Requests one after the other; an await between them leaves the table as it is.
unfoldable pub serve :
    AuthHost → VerifyOptions → List NonceRow → List ServiceRequest → List NonceRow
serve h o rows [] = rows
serve h o rows (q ∷ qs) = serve h o (verify_service_request h o rows q).0 qs
