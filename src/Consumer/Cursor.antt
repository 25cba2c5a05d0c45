-- ===== src/Consumer/Cursor.antt =====
-- space/src/consumer-cursor.ts: the signed cursor that a consumer sends back. JSON with the shape of
-- the fields, HMAC, base64url and dates are the platform's, an argument of the codec.
pub mod Signed
use xtap_pool.Base.{
  Bool, List, Option, Result, Text, [], all, and_then, eq_bool, eqb, false, guard, if◌then◌else◌,
  is_alnum, is_digit, is_filled, is_safe, is_sha256, is_some, leb, length, lit, ltb, nat_eq, none,
  not, ok, or_throw, some, text_beq, text_eq, true, unique, ℕ, ◌&&◌, ◌*◌, ◌++◌, ◌+◌, ◌-◌, ◌==◌,
  ◌>>=◌, ◌>>◌, ◌||◌, ◌∷◌,
}

pub record ObservationPosition : Type 0 where
  pub post_id : Text
  pub observed_at : Text
  pub id : Text

pub record RemovalPosition : Type 0 where
  pub post_id : Text
  pub unit_id : Text

pub data Position : Type 0 where
  idle : Position
  bootstrap content : Option Text → Position
  activation : Text → Option ObservationPosition → Position
  observations : ℕ → Option ObservationPosition → Position
  history : List Text → Text → Text → Option ObservationPosition → Position

pub record Reconciliation : Type 0 where
  pub target : Text
  pub after : Option RemovalPosition

pub record ConsumerCursor : Type 0 where
  pub schema_version : ℕ
  pub target : Text
  pub base : Option Text
  pub started_at : Text
  pub position : Position
  pub metadata_sent : Option Bool
  pub privacy : Option Text
  pub reconciliation : Option Reconciliation

pub data CursorError : Type 0 where
  short_key invalid_shape invalid_cursor expired_cursor : CursorError

-- `z.iso.datetime()` and `Date.parse`, in milliseconds from 1970 on.
pub record Dates : Type 0 where
  pub is_utc : Text → Bool
  pub parse : Text → ℕ

abbrev pub day : ℕ
day = 86400000

abbrev pub cursor_recovery_ms : ℕ
cursor_recovery_ms = 30 * day

abbrev pub page_lease_ms : ℕ
page_lease_ms = 2 * day

abbrev pub max_bytes : ℕ
max_bytes = 8192

abbrev pub is_id : Text → Bool
is_id s = is_filled s && leb (length s) 512

-- `/^\d{1,20}$/`.
abbrev pub is_post_id : Text → Bool
is_post_id s = is_filled s && leb (length s) 20 && all is_digit s

-- A field that may be missing.
abbrev pub optional : {A : Type 0} → (A → Bool) → Option A → Bool
optional test none = true
optional test (some a) = test a

abbrev pub removal_ok : RemovalPosition → Bool
removal_ok p = is_post_id p.post_id && leb (length p.unit_id) 512

abbrev pub reconciliation_ok : Reconciliation → Bool
unfolding is_sha256
reconciliation_ok r = is_sha256 r.target && optional removal_ok r.after

-- The kinds that read changes.
abbrev pub is_changes : Position → Bool
is_changes (content _) = true
is_changes (activation _ _) = true
is_changes (observations _ _) = true
is_changes _ = false

abbrev pub is_idle : Position → Bool
is_idle idle = true
is_idle _ = false

module _ ⦃d : Dates⦄ where
  abbrev pub observation_ok : ObservationPosition → Bool
  unfolding is_sha256
  observation_ok p = is_post_id p.post_id && d.is_utc p.observed_at && is_sha256 p.id

  -- `positionSchema` and the test of the range of a history.
  unfoldable pub position_ok : Position → Bool
  unfolding text_beq
  position_ok idle = true
  position_ok (bootstrap after) = optional is_id after
  position_ok (content after) = optional is_id after
  position_ok (activation unit after) = is_id unit && optional observation_ok after
  position_ok (observations offset after) = is_safe offset && optional observation_ok after
  position_ok (history post_ids since until after) =
      all is_post_id post_ids
      && leb 1 (length post_ids)
      && leb (length post_ids) 100
      && d.is_utc since
      && d.is_utc until
      && optional observation_ok after
      && ltb (d.parse since) (d.parse until)
      && leb (d.parse until - d.parse since) (30 * day)
      && unique post_ids

  -- `consumerCursorSchema`.
  unfoldable pub cursor_ok : ConsumerCursor → Bool
  unfolding position_ok is_sha256
  cursor_ok c =
      eqb c.schema_version 1
      && is_sha256 c.target
      && optional is_sha256 c.base
      && d.is_utc c.started_at
      && position_ok c.position
      && optional is_sha256 c.privacy
      && optional reconciliation_ok c.reconciliation
      && not (is_some c.reconciliation && is_idle c.position)
      && eq_bool (is_changes c.position) (is_some c.base)

  abbrev pub lifetime : ConsumerCursor → ℕ
  lifetime c = if is_idle c.position then cursor_recovery_ms else page_lease_ms

  -- `checkAge`, at a time.
  unfoldable pub check_age : ℕ → ConsumerCursor → Result CursorError (Unit {0})
  check_age now c = do
    guard (leb (d.parse c.started_at) (now + 60000)) invalid_cursor
    guard (ltb now (d.parse c.started_at + lifetime c)) expired_cursor

-- A character of `[A-Za-z0-9_-]`.
abbrev pub is_base64url : ℕ → Bool
is_base64url c = is_alnum c || eqb c b'_' || eqb c b'-'

-- The texts before and after the first dot.
unfoldable pub split_dot : Text → Option (Text × Text)
split_dot [] = none
split_dot (c ∷ s) =
    let rest = and_then (split_dot s) (λ p. some (c ∷ p.0, p.1)) in
    if eqb c b'.' then some ([], s) else rest

-- JSON, HMAC-SHA-256 of a text under a key, and base64url.
pub record Platform : Type 0 where
  pub json : ConsumerCursor → Text
  pub parse_json : Text → Option ConsumerCursor
  pub hmac : Text → Text → Text
  pub to_base64url : Text → Text
  pub of_base64url : Text → Text

-- The constructor of the codec, on its signing key.
unfoldable pub require_key : Text → Result CursorError Text
require_key secret = do guard (leb 32 (length secret)) short_key; ok secret

module _ ⦃d : Dates⦄ (platform : Platform) (secret : Text) (now : ℕ) where
  -- `signature`, of the separate message domain.
  abbrev pub signature : Text → Text
  signature body = platform.hmac secret (lit "xtap-consumer-cursor" ++ 0 ∷ body)

  abbrev pub signed : Text → Text
  signed body = body ++ b'.' ∷ platform.to_base64url (signature body)

  -- `encode`; the text is ASCII, so that its bytes are its length.
  unfoldable pub encode : ConsumerCursor → Result CursorError Text
  unfolding cursor_ok check_age
  encode cursor = do
    guard (cursor_ok cursor) invalid_shape
    check_age now cursor
    guard (leb (length (signed (platform.to_base64url (platform.json cursor)))) max_bytes)
        invalid_cursor
    ok (signed (platform.to_base64url (platform.json cursor)))

  -- The comparison of the signature.
  unfoldable pub verified : Text × Text → Result CursorError Text
  unfolding text_beq
  verified (body, mac) = do
    guard (is_filled body && all is_base64url body && eqb (length mac) 43 && all is_base64url mac)
        invalid_cursor
    guard (platform.of_base64url mac == signature body) invalid_cursor
    ok body

  -- `verifiedBody`; a text that has the shape is ASCII, so that its bytes are its length.
  unfoldable pub verified_body : Text → Result CursorError Text
  unfolding split_dot
  verified_body encoded = do
    guard (leb (length encoded) max_bytes) invalid_cursor
    parts ← or_throw (split_dot encoded) invalid_cursor
    verified parts

  -- `decode`.
  unfoldable pub decode : Text → Result CursorError ConsumerCursor
  unfolding verified_body cursor_ok check_age
  decode encoded = do
    body ← verified_body encoded
    cursor ← or_throw (platform.parse_json (platform.of_base64url body)) invalid_cursor
    guard (cursor_ok cursor) invalid_cursor
    check_age now cursor
    ok cursor
