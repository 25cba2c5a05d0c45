-- ===== src/ServiceAccounts/Token.antt =====
-- The credential format of space/src/service-accounts.ts, `xtap_sa_<account>_<key>_<secret>`.
use xtap_pool.Base.{
  Bool, Option, Text, [], all, and_then, ap, arith, eqb, false, if◌then◌else◌, is_alnum, is_filled,
  is_hex, leb, length, lit, none, refl, some, strip, strip-append, true, ℕ, ◌&&◌, ◌++◌, ◌||◌, ◌∙◌,
  ◌∷◌, ◌≡◌,
}

abbrev is_secret_char : ℕ → Bool
is_secret_char c = is_alnum c || eqb c b'_' || eqb c b'-'

-- The longest prefix of hexadecimal digits, and the rest. The digits exclude the underscore, so the
-- regular expression never backtracks.
unfoldable pub span_hex : Text → Text × Text
span_hex [] = ([], [])
span_hex (c ∷ s) = if is_hex c then (c ∷ (span_hex s).0, (span_hex s).1) else ([], c ∷ s)

-- A nonempty run of hexadecimal digits that an underscore ends, and what follows.
field_of : Text × Text → Option (Text × Text)
unfolding strip
field_of (d, rest) =
    and_then (strip (b'_' ∷ []) rest) (λ left. if is_filled d then some (d, left) else none)

unfoldable pub hex_field : Text → Option (Text × Text)
unfolding span_hex field_of
hex_field s = field_of (span_hex s)

abbrev pub is_secret : Text → Bool
is_secret s = leb 32 (length s) && all is_secret_char s

abbrev pub token_prefix : Text
token_prefix = lit "xtap_sa_"

-- The account id and the key id, if what follows them is a secret.
secret_field : Text → Text × Text → Option (Text × Text)
secret_field account_id (key_id, rest) = if is_secret rest then some (account_id, key_id) else none

key_field : Text × Text → Option (Text × Text)
unfolding hex_field secret_field
key_field (account_id, rest) = and_then (hex_field rest) (secret_field account_id)

-- The fields behind the prefix.
fields_of : Text → Option (Text × Text)
unfolding hex_field key_field
fields_of fields = and_then (hex_field fields) key_field

-- `parseToken`.
unfoldable pub parse_token : Text → Option (Text × Text)
unfolding strip fields_of
parse_token token = and_then (strip token_prefix token) fields_of

-- The token of `issueKey`.
unfoldable pub token_of : Text → Text → Text → Text
token_of account_id key_id secret =
    token_prefix ++ (account_id ++ (b'_' ∷ (key_id ++ (b'_' ∷ secret))))

span_hex-append :
    (d rest : Text) (c : ℕ)
    → all is_hex d ≡ true
    → is_hex c ≡ false
    → span_hex (d ++ c ∷ rest) ≡ (d, c ∷ rest)
unfolding span_hex
span_hex-append [] rest c h k = rw k
span_hex-append (x ∷ d) rest c h k =
    let first : is_hex x ≡ true = ground arith in
    rw (first, span_hex-append d rest c (ground arith) k)

hex_field-append :
    (d rest : Text)
    → is_filled d ≡ true
    → all is_hex d ≡ true
    → hex_field (d ++ b'_' ∷ rest) ≡ some (d, rest)
unfolding hex_field field_of strip
hex_field-append d rest f h = ap field_of (span_hex-append d rest b'_' h refl) ∙ rw (field_of, f)

fields_of-append :
    (a k s : Text)
    → is_filled a ≡ true
    → all is_hex a ≡ true
    → is_filled k ≡ true
    → all is_hex k ≡ true
    → is_secret s ≡ true
    → fields_of (a ++ (b'_' ∷ (k ++ (b'_' ∷ s)))) ≡ some (a, k)
unfolding fields_of key_field secret_field
fields_of-append a k s fa ha fk hk hs =
    let first : fields_of (a ++ (b'_' ∷ (k ++ (b'_' ∷ s)))) ≡ key_field (a, k ++ (b'_' ∷ s)) =
      ap (λ o. and_then o key_field) (hex_field-append a (k ++ (b'_' ∷ s)) fa ha) in
    let second : key_field (a, k ++ (b'_' ∷ s)) ≡ secret_field a (k, s) =
      ap (λ o. and_then o (secret_field a)) (hex_field-append k s fk hk) in
    first ∙ second ∙ rw (secret_field, hs)

-- A token that is built from nonempty hexadecimal ids and a secret of at least 32 characters of the
-- base64url alphabet parses to these ids.
pub parse_token-token_of :
    (account_id key_id secret : Text)
    → is_filled account_id ≡ true
    → all is_hex account_id ≡ true
    → is_filled key_id ≡ true
    → all is_hex key_id ≡ true
    → is_secret secret ≡ true
    → parse_token (token_of account_id key_id secret) ≡ some (account_id, key_id)
unfolding parse_token token_of
parse_token-token_of a k s fa ha fk hk hs =
    ap (λ o. and_then o fields_of) (strip-append token_prefix (a ++ (b'_' ∷ (k ++ (b'_' ∷ s)))))
    ∙ fields_of-append a k s fa ha fk hk hs
