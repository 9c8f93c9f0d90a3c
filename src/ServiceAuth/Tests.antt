-- ===== src/ServiceAuth/Tests.antt =====
-- Examples for the signed requests, and the theorems applied to them.
use discordagent.Base.{
  String, true, ◌≡◌, ◌≢◌, refl, none, some, [], ◌∷◌, ok, arith, str_dec, any, ◌==◌,
}
use discordagent.Text.{trim, code_units}
use discordagent.ServiceAuth.Header.{
  SignedServiceRequest, format_service_auth_header, parse_service_auth_header, all_chars, count,
  is_signature,
}
use discordagent.ServiceAuth.Nonces.{unexpired}
use discordagent.ServiceAuth.Verify.{
  AuthHost, agent_to_ff, text, ServiceAuthKeys, ServiceRequest, VerifyOptions, current_key,
  verification_keys, verify_service_request, serve,
}
use discordagent.ServiceAuth.RoundTrip.{IsField, IsWritten, parse_format}
use discordagent.ServiceAuth.Acceptance.{IsCrypto, signed_request, signed_accepted}
use discordagent.ServiceAuth.Replay.{verify_once}

abbrev zeros : String
zeros = "0000000000000000000000000000000000000000000000000000000000000000"

-- One digest for everything.
abbrev toy : AuthHost
toy = record {
  utf8 = code_units;
  sha256_hex = λ _. zeros;
  hmac = λ _ _. 7 ∷ [];
  to_hex = λ _. zeros;
  from_hex = λ _. 7 ∷ [];
  timing_safe_equal = λ _ _. true;
  to_upper_case = λ t. t;
}

toy-IsCrypto : IsCrypto toy
unfolding is_signature all_chars count
toy-IsCrypto = record { hex = λ _ _. refl; shape = λ _ _. refl; equal = λ _ _. refl }

abbrev old_keys : ServiceAuthKeys
old_keys = record {
  agent_to_factory_key = "old";
  factory_to_agent_key = "other";
  previous_agent_to_factory_key = none;
  previous_factory_to_agent_key = none;
}

-- The verifier has a new key, and the old one beside it.
abbrev options : VerifyOptions
options = record {
  keys = record old_keys {
    agent_to_factory_key = "new";
    previous_agent_to_factory_key = some "old";
  };
  max_skew_ms = 30000;
  ttl_ms = 300000;
}

abbrev first_request : ServiceRequest
first_request = signed_request toy old_keys agent_to_ff "POST" "/runs" (text "{}") 5000 "n1" 9000

written_n1 : IsField "n1"
unfolding all_chars str_dec
written_n1 = (refl, refl)

known_old :
    any (λ x. x == current_key old_keys agent_to_ff) (verification_keys options.keys agent_to_ff)
    ≡ true
unfolding verification_keys current_key str_dec
known_old = refl

first_accepted : (verify_service_request toy options [] first_request).1 ≡ ok tt
unfolding trim str_dec code_units unexpired
first_accepted =
    signed_accepted toy toy-IsCrypto options [] old_keys agent_to_ff "POST" "/runs" (text "{}") 5000
      "n1" 9000 known_old written_n1 refl (omega arith) (omega arith) (omega arith) refl

-- An expired row has the nonce.
signed_accepted_example :
    (verify_service_request toy options
      (record { key_id = "ff-agent-to-ff-v1"; nonce = "n1"; consumed_at = 1; expires_at = 2 } ∷ [])
      first_request).1
    ≡ ok tt
unfolding trim str_dec code_units unexpired
signed_accepted_example =
    signed_accepted toy toy-IsCrypto options
      (record { key_id = "ff-agent-to-ff-v1"; nonce = "n1"; consumed_at = 1; expires_at = 2 } ∷ [])
      old_keys agent_to_ff "POST" "/runs" (text "{}") 5000 "n1" 9000 known_old written_n1 refl
      (omega arith) (omega arith) (omega arith) refl

verify_once_example :
    (verify_service_request toy options
      (serve toy options
        (verify_service_request toy options [] first_request).0
        (record first_request { now = 9500 } ∷ record first_request { header = none } ∷ []))
      (record first_request { now = 30000 })).1
    ≢ ok tt
verify_once_example =
    verify_once toy options [] first_request (record first_request { now = 30000 })
      (record first_request { now = 9500 } ∷ record first_request { header = none } ∷ []) refl
      (omega arith) first_accepted (omega arith, (omega arith, tt))

abbrev some_header : SignedServiceRequest
some_header = record { key_id = "k"; timestamp = "5"; nonce = "n 1"; signature = "s" }

some_header-IsWritten : IsWritten some_header
unfolding all_chars str_dec
some_header-IsWritten = record {
  key_id = (refl, refl);
  timestamp = (refl, refl);
  nonce = (refl, refl);
  signature = (refl, refl);
}

parse_format_example :
    parse_service_auth_header (format_service_auth_header some_header) ≡ some some_header
parse_format_example = parse_format some_header some_header-IsWritten
