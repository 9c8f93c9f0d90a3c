-- ===== src/ServiceAuth/Nonces.antt =====
-- repositories/factoryFloorBindingRepository.ts, `createFactoryFloorNonceStore`: the table of nonces
-- that have been used. Times are milliseconds.
use discordagent.Base.{
  ℕ, ◌+◌, ◌≤◌, ◌<◌, String, Bool, true, false, ◌≡◌, refl, ◌&&◌, ◌==◌, List, [], ◌∷◌, any, leb,
  Result, ok, err, ◌⊎◌, ◌>>=◌, is_empty, if◌then◌else◌, arith, Bool-cases, inl, inr,
}
use discordagent.Text.{trim}

pub record NonceRow : Type 0 where
  pub key_id : String
  pub nonce : String
  pub consumed_at : ℕ
  pub expires_at : ℕ

-- `DELETE … WHERE expires_at <= now`.
unfoldable pub unexpired : ℕ → List NonceRow → List NonceRow
unexpired now [] = []
unexpired now (r ∷ rows) =
    let rest = unexpired now rows in if leb r.expires_at now then rest else r ∷ rest

abbrev pub is_nonce : String → String → NonceRow → Bool
is_nonce key nonce r = r.key_id == key && r.nonce == nonce

abbrev pub new_nonce : ℕ → String → String → ℕ → NonceRow
new_nonce ttl key nonce now = record {
  key_id = key;
  nonce = nonce;
  consumed_at = now;
  expires_at = now + ttl;
}

-- The transaction: a nonce that is there already is ignored.
unfoldable pub consume_row : ℕ → String → String → ℕ → List NonceRow → List NonceRow × Bool
consume_row ttl key nonce now rows =
    if any (is_nonce key nonce) (unexpired now rows)
    then (unexpired now rows, false)
    else (new_nonce ttl key nonce now ∷ unexpired now rows, true)

abbrev required_text : String → String → Result String String
required_text trimmed message = if is_empty trimmed then err message else ok trimmed

unfoldable pub consume_nonce :
    ℕ → String → String → ℕ → List NonceRow → Result String (List NonceRow × Bool)
consume_nonce ttl key nonce now rows = do
  key' ← required_text (trim key) "key_id_required"
  nonce' ← required_text (trim nonce) "nonce_required"
  ok (consume_row ttl key' nonce' now rows)

-- The table has a nonce that does not expire before a time.
abbrev pub Remembers : String → String → ℕ → List NonceRow → Type 0
Remembers key nonce until [] = ⊥
Remembers key nonce until (r ∷ rows) =
    ((is_nonce key nonce r ≡ true) × (until ≤ r.expires_at)) ⊎ Remembers key nonce until rows

pub unexpired-Remembers :
    (key nonce : String) (until now : ℕ) (rows : List NonceRow)
    → now < until
    → Remembers key nonce until rows
    → Remembers key nonce until (unexpired now rows)
unfolding unexpired
unexpired-Remembers key nonce until now [] early h = elim h [ ]
unexpired-Remembers key nonce until now (r ∷ rows) early (inl (here, late)) =
    let young : leb r.expires_at now ≡ false = ground arith in
    rw (young, unexpired) (inl (here, late))
unexpired-Remembers key nonce until now (r ∷ rows) early (inr later) =
    elim (Bool-cases (leb r.expires_at now)) [
      | inl old ↦ rw (old, unexpired) (unexpired-Remembers key nonce until now rows early later)
      | inr young ↦
          rw (young, unexpired) (inr (unexpired-Remembers key nonce until now rows early later))
    ]

pub Remembers-any :
    (key nonce : String) (until : ℕ) (rows : List NonceRow)
    → Remembers key nonce until rows
    → any (is_nonce key nonce) rows ≡ true
Remembers-any key nonce until [] h = elim h [ ]
Remembers-any key nonce until (r ∷ rows) (inl (here, late)) = ground arith
Remembers-any key nonce until (r ∷ rows) (inr later) =
    ground (arith, Remembers-any key nonce until rows later)

-- Another use of the table keeps what it remembers.
pub consume_row-Remembers :
    (ttl : ℕ) (k n key nonce : String) (until now : ℕ) (rows : List NonceRow)
    → now < until
    → Remembers key nonce until rows
    → Remembers key nonce until (consume_row ttl k n now rows).0
unfolding consume_row
consume_row-Remembers ttl k n key nonce until now rows early h =
    let kept = unexpired-Remembers key nonce until now rows early h in
    elim (Bool-cases (any (is_nonce k n) (unexpired now rows))) [
      | inl used ↦ rw (used, consume_row) kept
      | inr fresh ↦ rw (fresh, consume_row) (inr kept)
    ]

-- A nonce that is used is remembered for the whole time to live.
pub consume_row-first :
    (ttl : ℕ) (key nonce : String) (now : ℕ) (rows : List NonceRow)
    → (consume_row ttl key nonce now rows).1 ≡ true
    → Remembers key nonce (now + ttl) (consume_row ttl key nonce now rows).0
unfolding consume_row
consume_row-first ttl key nonce now rows e =
    elim (Bool-cases (any (is_nonce key nonce) (unexpired now rows))) [
      | inl used ↦ absurd (ground arith)
      | inr fresh ↦ rw (fresh, consume_row) (inl (ground arith, ground arith))
    ]

pub consume_row-again :
    (ttl : ℕ) (key nonce : String) (until now : ℕ) (rows : List NonceRow)
    → now < until
    → Remembers key nonce until rows
    → (consume_row ttl key nonce now rows).1 ≡ false
unfolding consume_row
consume_row-again ttl key nonce until now rows early h =
    rw
      (
        Remembers-any key nonce until (unexpired now rows)
            (unexpired-Remembers key nonce until now rows early h),
        consume_row,
      )
      refl

-- The store works on the trimmed texts.
pub consume_nonce-ok :
    (ttl : ℕ) (key nonce : String) (now : ℕ) (rows : List NonceRow) (w : List NonceRow × Bool)
    → consume_nonce ttl key nonce now rows ≡ ok w
    → consume_row ttl (trim key) (trim nonce) now rows ≡ w
unfolding consume_nonce
consume_nonce-ok ttl key nonce now rows w e = elim (Bool-cases (is_empty (trim key))) [
  | inl missing ↦ absurd (ground arith)
  | inr given ↦ elim (Bool-cases (is_empty (trim nonce))) [
    | inl missing ↦ absurd (ground arith)
    | inr given' ↦ ground arith
  ]
]
