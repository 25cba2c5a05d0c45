-- ===== src/ServiceAccounts/Examples.antt =====
-- Runs on a registry with two accounts.
use xtap_pool.Base.{
  Text, [], err, false, lit, none, ok, refl, replicate, some, text_beq, text_le, ◌++◌, ◌∷◌, ◌≡◌,
  ◌≢◌,
}
use xtap_pool.Storage.Memory.{memory}
use xtap_pool.ServiceAccounts.Registry.{
  ServiceAccount, ServiceAccountKey, active, already_exists, normalize_accounts, normalize_keys,
  normalize_name, normalize_scopes, revoked, to_summary, units_read,
}
use xtap_pool.ServiceAccounts.Registry.Laws.{IsNormal}
use xtap_pool.ServiceAccounts.Token.{parse_token, parse_token-token_of, token_of}
use xtap_pool.ServiceAccounts.Store.{
  Codec, Draw, Identity, Platform, Registry, World, account, authenticate, bucket, issue, mutate,
  revoke, revoke_key, rotate,
}
use xtap_pool.ServiceAccounts.Store.Access.{IsEntitled, authenticate_sound}
use xtap_pool.ServiceAccounts.Store.Invariant.{mutate-IsNormal}
use xtap_pool.ServiceAccounts.Store.Lifecycle.{revoke_key_locks_out, revoke_locks_out}

abbrev secret : Text
secret = replicate 32 b'x'

abbrev token_for : Text → Text → Text
token_for account_id key_id =
    lit "xtap_sa_" ++ (account_id ++ (lit "_" ++ (key_id ++ (lit "_" ++ secret))))

abbrev token : Text
token = token_for (lit "a1") (lit "b2")

-- A hash that is the identity on bytes, and times that are not read.
abbrev platform : Platform
platform = record {
  sha256_hex = λ s. s;
  from_hex = λ s. s;
  to_iso = λ t. lit "now";
  parse_date = λ s. none;
  collate = text_le;
}

abbrev codec : Codec
codec = record {
  encode = λ accounts. [];
  decode = λ raw. err (lit "no JSON");
  schema_message = lit "invalid";
}

abbrev key : Text → Text → ServiceAccountKey
key account_id key_id = record {
  id = key_id;
  token_hash = token_for account_id key_id;
  created_at = lit "now";
  expires_at = some (lit "later");
}

abbrev reader : ServiceAccount
reader = record {
  id = lit "a1";
  name = lit "reader";
  scopes = units_read ∷ [];
  status = active;
  created_at = lit "now";
  updated_at = lit "now";
  keys = key (lit "a1") (lit "b2") ∷ key (lit "a1") (lit "e5") ∷ [];
}

abbrev watcher : ServiceAccount
watcher = record reader {
  id = lit "c3";
  name = lit "watcher";
  keys = key (lit "c3") (lit "d4") ∷ [];
}

abbrev accounts_now : Registry
accounts_now = record {
  accounts = reader ∷ watcher ∷ [];
  source = bucket;
  config_error = none;
  config_error_retryable = false;
}

abbrev world : World platform memory codec
world = record { registry = accounts_now; log = [] }

abbrev draw : Draw
draw = record { account_id = lit "c3"; key_id = lit "d4"; secret = secret }

accounts-IsNormal : IsNormal (reader ∷ watcher ∷ [])
unfolding text_beq
accounts-IsNormal = record {
  ids_lem = refl;
  names_lem = refl;
  keys_lem = refl;
  names_ok = refl;
  scopes_ok = refl;
}

abbrev reader_identity : Identity
reader_identity = record {
  id = lit "a1";
  name = lit "reader";
  key_id = lit "b2";
  scopes = units_read ∷ [];
}

accepted : authenticate platform accounts_now 5 token ≡ some reader_identity
unfolding authenticate text_beq
accepted = refl

authenticate_sound_example : IsEntitled platform accounts_now 5 token reader_identity
authenticate_sound_example =
    authenticate_sound platform accounts_now 5 token reader_identity accepted

parse_token-token_of_example :
    parse_token (token_of (lit "a1") (lit "b2") secret) ≡ some (lit "a1", lit "b2")
parse_token-token_of_example =
    parse_token-token_of (lit "a1") (lit "b2") secret refl refl refl refl refl

mutate-IsNormal_example :
    IsNormal (mutate platform memory codec world (rotate (lit "a1")) draw 9).0.registry.accounts
mutate-IsNormal_example =
    mutate-IsNormal platform memory codec world (rotate (lit "a1")) draw 9 accounts-IsNormal

taken_name :
    (mutate platform memory codec world (issue (lit " Reader") (units_read ∷ [])) draw 9).1
    ≡ err (already_exists (lit "reader"))
unfolding mutate normalize_name text_beq
taken_name = refl

abbrev watcher_identity : Identity
watcher_identity = record {
  id = lit "c3";
  name = lit "watcher";
  key_id = lit "d4";
  scopes = units_read ∷ [];
}

abbrev reader_off : ServiceAccount
reader_off = record reader { status = revoked; keys = [] }

revoked_reader :
    (mutate platform memory codec world (revoke (lit "a1")) draw 9).1
    ≡ ok (account (to_summary reader_off))
unfolding mutate normalize_name text_beq to_summary normalize_accounts normalize_keys
    normalize_scopes
revoked_reader = refl

watcher_stays :
    authenticate platform
      (mutate platform memory codec world (revoke (lit "a1")) draw 9).0.registry
      10
      (token_for (lit "c3") (lit "d4"))
    ≡ some watcher_identity
unfolding mutate normalize_name text_beq authenticate normalize_accounts normalize_keys
    normalize_scopes text_le
watcher_stays = refl

revoke_locks_out_example : watcher_identity.id ≢ lit "a1"
revoke_locks_out_example =
    revoke_locks_out platform memory codec world draw 9 (lit "a1") (account (to_summary reader_off))
      accounts-IsNormal revoked_reader 10 (token_for (lit "c3") (lit "d4")) watcher_identity
      watcher_stays

abbrev reader_less : ServiceAccount
reader_less = record reader { keys = key (lit "a1") (lit "e5") ∷ [] }

revoked_key :
    (mutate platform memory codec world (revoke_key (lit "a1") (lit "b2")) draw 9).1
    ≡ ok (account (to_summary reader_less))
unfolding mutate normalize_name text_beq to_summary normalize_accounts normalize_keys
    normalize_scopes
revoked_key = refl

other_key_stays :
    authenticate platform
      (mutate platform memory codec world (revoke_key (lit "a1") (lit "b2")) draw 9).0.registry
      10
      (token_for (lit "a1") (lit "e5"))
    ≡ some (record reader_identity { key_id = lit "e5" })
unfolding mutate normalize_name text_beq authenticate normalize_accounts normalize_keys
    normalize_scopes text_le
other_key_stays = refl

revoke_key_locks_out_example : lit "e5" ≢ lit "b2"
revoke_key_locks_out_example =
    revoke_key_locks_out platform memory codec world draw 9 (lit "a1") (lit "b2")
      (account (to_summary reader_less)) revoked_key 10 (token_for (lit "a1") (lit "e5"))
      (record reader_identity { key_id = lit "e5" }) other_key_stays refl
