-- ===== src/ServiceAuth/Replay.antt =====
-- factoryFloor/serviceAuth.ts with the nonce store: a header is accepted once.
use discordagent.Base.{
  ℕ, ◌+◌, ◌≤◌, ◌<◌, String, Bool, true, false, not, ◌≡◌, ◌≢◌, refl, ◌∙◌, subst, ap, ◌==◌, Option,
  none, some, List, [], ◌∷◌, All, length, ltb, Result, ok, err, >>=-eq-ok, throw_if-eq-ok, is_empty,
  arith,
}
use discordagent.Text.{trim, code_units}
use discordagent.ServiceAuth.Header.{
  SignedServiceRequest, parse_service_auth_header, is_timestamp, is_signature, number,
}
use discordagent.ServiceAuth.Nonces.{
  NonceRow, consume_nonce, consume_row, Remembers, consume_row-Remembers, consume_row-first,
  consume_row-again, consume_nonce-ok,
}
use discordagent.ServiceAuth.Verify.{
  AuthHost, ServiceAuthError, ServiceRequest, VerifyOptions, given_header, or_error, distance,
  max_safe_integer, check_request, consumed, with_nonce, verify_service_request, serve, is_signed,
  service_auth_key_id,
}

-- What a request that is checked has said.
check_request-parsed :
    (h : AuthHost) (o : VerifyOptions) (q : ServiceRequest) (p : SignedServiceRequest)
    → check_request h o q ≡ ok p
    → (t : String) × (given_header q.header ≡ ok t)
      × (parse_service_auth_header t ≡ some p)
      × (distance q.now (number p.timestamp) ≤ o.max_skew_ms)
unfolding check_request
check_request-parsed h o q p e =
    let (t, given, e1) = >>=-eq-ok (given_header q.header) _ e in
    let (p', parsed, e2) = >>=-eq-ok (or_error _ (parse_service_auth_header t)) _ e1 in
    let (named, e3) = throw_if-eq-ok (not (p'.key_id == service_auth_key_id q.direction)) _ _ e2 in
    let (timed, e4) = throw_if-eq-ok (not (is_timestamp p'.timestamp)) _ _ e3 in
    let (safe, e5) = throw_if-eq-ok (ltb max_safe_integer (number p'.timestamp)) _ _ e4 in
    let (near, e6) =
      throw_if-eq-ok (ltb o.max_skew_ms (distance q.now (number p'.timestamp))) _ _ e5 in
    let (nonce, e7) = throw_if-eq-ok (is_empty (trim p'.nonce)) _ _ e6 in
    let (short, e8) = throw_if-eq-ok (ltb 128 (length (code_units p'.nonce))) _ _ e7 in
    let (hex, e9) = throw_if-eq-ok (not (is_signature p'.signature)) _ _ e8 in
    let (signed, e10) = throw_if-eq-ok (not (is_signed h o q p')) _ _ e9 in
    let same : p' ≡ p = ground arith in
    (
      t,
      given,
      from_ok _ (parse_service_auth_header t) p' parsed ∙ ap some same,
      subst (λ (x : SignedServiceRequest). distance q.now (number x.timestamp) ≤ o.max_skew_ms) same
          (ground arith),
    )
  where
    from_ok :
        (e : ServiceAuthError) (m : Option SignedServiceRequest) (p : SignedServiceRequest)
        → or_error e m ≡ ok p
        → m ≡ some p
    from_ok x none p e = absurd (ground arith)
    from_ok x (some p') p e = ground arith

consumed-ok :
    (rows : List NonceRow) (a : Result String (List NonceRow × Bool))
    → (consumed rows a).1 ≡ ok tt
    → a ≡ ok ((consumed rows a).0, true)
consumed-ok rows (err m) e = absurd (ground arith)
consumed-ok rows (ok (rows', true)) e = refl
consumed-ok rows (ok (rows', false)) e = absurd (ground arith)

with_nonce-ok :
    (o : VerifyOptions) (now : ℕ) (rows : List NonceRow)
    (r : Result ServiceAuthError SignedServiceRequest)
    → (with_nonce o now rows r).1 ≡ ok tt
    → (p : SignedServiceRequest) × (r ≡ ok p)
      × (consume_row o.ttl_ms (trim p.key_id) (trim p.nonce) now rows
          ≡ ((with_nonce o now rows r).0, true))
with_nonce-ok o now rows (err x) e = absurd (ground arith)
with_nonce-ok o now rows (ok p) e = (
  p,
  refl,
  consume_nonce-ok o.ttl_ms p.key_id p.nonce now rows _
      (consumed-ok rows (consume_nonce o.ttl_ms p.key_id p.nonce now rows) e),
)

-- Whatever a request is, what the table remembers for longer stays.
with_nonce-Remembers :
    (o : VerifyOptions) (now : ℕ) (rows : List NonceRow)
    (r : Result ServiceAuthError SignedServiceRequest) (key nonce : String) (until : ℕ)
    → now < until
    → Remembers key nonce until rows
    → Remembers key nonce until (with_nonce o now rows r).0
with_nonce-Remembers o now rows (err x) key nonce until early h = h
with_nonce-Remembers o now rows (ok p) key nonce until early h =
    by_answer (consume_nonce o.ttl_ms p.key_id p.nonce now rows)
      (consume_nonce-ok o.ttl_ms p.key_id p.nonce now rows)
  where
    by_answer :
        (a : Result String (List NonceRow × Bool))
        → ((w : List NonceRow × Bool)
            → a ≡ ok w
            → consume_row o.ttl_ms (trim p.key_id) (trim p.nonce) now rows ≡ w)
        → Remembers key nonce until (consumed rows a).0
    by_answer (err m) f = h
    by_answer (ok (rows', true)) f =
        subst (λ w. Remembers key nonce until w.0) (f (rows', true) refl)
          (consume_row-Remembers o.ttl_ms (trim p.key_id) (trim p.nonce) key nonce until now rows
            early h)
    by_answer (ok (rows', false)) f =
        subst (λ w. Remembers key nonce until w.0) (f (rows', false) refl)
          (consume_row-Remembers o.ttl_ms (trim p.key_id) (trim p.nonce) key nonce until now rows
            early h)

serve-Remembers :
    (h : AuthHost) (o : VerifyOptions) (rows : List NonceRow) (qs : List ServiceRequest)
    (key nonce : String) (until : ℕ)
    → All (λ q. q.now < until) qs
    → Remembers key nonce until rows
    → Remembers key nonce until (serve h o rows qs)
unfolding serve verify_service_request
serve-Remembers h o rows [] key nonce until early k = k
serve-Remembers h o rows (q ∷ qs) key nonce until (first, rest) k =
    serve-Remembers h o (verify_service_request h o rows q).0 qs key nonce until rest
      (with_nonce-Remembers o q.now rows (check_request h o q) key nonce until first k)

earlier :
    (l : List ServiceRequest) (end until : ℕ)
    → end < until
    → All (λ q. q.now ≤ end) l
    → All (λ q. q.now < until) l
earlier [] end until h k = tt
earlier (q ∷ l) end until h (first, rest) = (omega arith, earlier l end until h rest)

-- Where the time to live of a nonce is more than twice the skew that is allowed: once a request is
-- accepted, no request with the same header is accepted again, whatever requests are verified in
-- between, none of them at a later time than the last.
pub verify_once :
    (h : AuthHost) (o : VerifyOptions) (rows : List NonceRow) (q later : ServiceRequest)
    (between : List ServiceRequest)
    → later.header ≡ q.header
    → o.max_skew_ms + o.max_skew_ms < o.ttl_ms
    → (verify_service_request h o rows q).1 ≡ ok tt
    → All (λ r. r.now ≤ later.now) between
    → (verify_service_request h o (serve h o (verify_service_request h o rows q).0 between) later).1
      ≢ ok tt
unfolding verify_service_request
verify_once h o rows q later between header lasting accepted order again =
    let first = (verify_service_request h o rows q).0 in
    let (p, checked, used) = with_nonce-ok o q.now rows (check_request h o q) accepted in
    let (t, given, parsed, near) = check_request-parsed h o q p checked in
    let rows' = serve h o first between in
    let (p', checked', used') = with_nonce-ok o later.now rows' (check_request h o later) again in
    let (t', given', parsed', near') = check_request-parsed h o later p' checked' in
    let same_text : t' ≡ t = ground (arith, ap given_header header) in
    let same : p' ≡ p = ground (arith, ap parse_service_auth_header same_text) in
    let close : distance later.now (number p.timestamp) ≤ o.max_skew_ms =
      subst (λ (x : SignedServiceRequest). distance later.now (number x.timestamp) ≤ o.max_skew_ms)
        same near' in
    let end : later.now < q.now + o.ttl_ms = omega (arith, near, close, lasting) in
    let remembered =
      consume_row-first o.ttl_ms (trim p.key_id) (trim p.nonce) q.now rows (ap (λ w. w.1) used) in
    let kept =
      serve-Remembers h o first between (trim p.key_id) (trim p.nonce) (q.now + o.ttl_ms)
        (earlier between later.now (q.now + o.ttl_ms) end order)
        (subst (λ w. Remembers (trim p.key_id) (trim p.nonce) (q.now + o.ttl_ms) w.0) used
          remembered) in
    let refused =
      consume_row-again o.ttl_ms (trim p.key_id) (trim p.nonce) (q.now + o.ttl_ms) later.now rows'
        end kept in
    let used'' =
      subst
        (λ (x : SignedServiceRequest).
          (consume_row o.ttl_ms (trim x.key_id) (trim x.nonce) later.now rows').1 ≡ true)
        same (ap (λ w. w.1) used') in
    absurd (ground (arith, refused, used''))
