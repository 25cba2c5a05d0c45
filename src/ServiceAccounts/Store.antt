-- ===== src/ServiceAccounts/Store.antt =====
-- `ServiceAccountRegistry` in space/src/service-accounts.ts: its fields, its readers, its mutations
-- and its loading. Methods run one after the other, as `enqueueMutation` arranges. The time and
-- the random bytes that a method draws are arguments.
pub mod Access
pub mod Invariant
pub mod Lifecycle
use xtap_pool.Base.{
  Bool, DateTimes, List, Option, Result, Text, [], any, contains, eqb, err, false, filter, find,
  guard, if◌then◌else◌, is_some, leb, length, lit, map, nat_eq, none, not, ok, or_throw, some,
  text_beq, text_eq, true, ℕ, ◌&&◌, ◌*◌, ◌++◌, ◌+◌, ◌==◌, ◌>>=◌, ◌>>◌, ◌∷◌,
}
use xtap_pool.Storage.{StorageLog}
use xtap_pool.ServiceAccounts.Registry.{
  Error, ServiceAccount, ServiceAccountKey, ServiceAccountScope, Summary, active, already_exists,
  file_ok, is_active, message, normalize_file, normalize_name, normalize_scopes, not_repairable,
  revoked, scope_eq, thrown, to_summary, unavailable, unknown_account, unknown_active, unknown_key,
}
use xtap_pool.ServiceAccounts.Token.{parse_token, token_of}

pub data Source : Type 0 where
  bucket empty : Source

pub record Registry : Type 0 where
  pub accounts : List ServiceAccount
  pub source : Source
  pub config_error : Option Text
  pub config_error_retryable : Bool

pub record Identity : Type 0 where
  pub id : Text
  pub name : Text
  pub key_id : Text
  pub scopes : List ServiceAccountScope

pub record Snapshot : Type 0 where
  pub version : ℕ
  pub accounts : List Summary
  pub source : Source
  pub config_error : Option Text

-- The platform: SHA-256 as hexadecimal digits, `Buffer.from(_, "hex")`, `toISOString`,
-- `Date.parse` without its NaN, and `localeCompare` at most 0.
pub record Platform : Type 0 where
  pub sha256_hex : Text → Text
  pub from_hex : Text → List ℕ
  pub to_iso : ℕ → Text
  pub parse_date : Text → Option ℕ
  pub collate : Text → Text → Bool

-- What a method draws: the account id, the key id and the secret.
pub record Draw : Type 0 where
  pub account_id : Text
  pub key_id : Text
  pub secret : Text

pub data Request : Type 0 where
  issue : Text → List ServiceAccountScope → Request
  rotate : Text → Request
  revoke_key : Text → Text → Request
  revoke : Text → Request
  repair : Request

pub data Reply : Type 0 where
  credential : Summary → Text → Reply
  account : Summary → Reply
  registry : Snapshot → Reply

-- What a mutation commits, if anything, and what it then answers.
pub record Change : Type 0 where
  pub file : Option (List ServiceAccount)
  pub answer : Registry → Reply

abbrev pub key_ttl_ms : ℕ
key_ttl_ms = 365 * 24 * 60 * 60 * 1000

abbrev pub service_accounts_path : Text
service_accounts_path = lit "config/service-accounts.json"

unfoldable pub has_permanent_config_error : Registry → Bool
has_permanent_config_error r = is_some r.config_error && not r.config_error_retryable

unfoldable pub snapshot : Registry → Snapshot
unfolding to_summary
snapshot r = record {
  version = 1;
  accounts = map to_summary r.accounts;
  source = r.source;
  config_error = r.config_error;
}

unfoldable pub assert_writable : Registry → Result Error (Unit {0})
assert_writable r = elim r.config_error [ none ↦ ok tt | some m ↦ err (unavailable m) ]

-- `activeAccount`.
unfoldable pub active_account : Registry → Text → Result Error ServiceAccount
active_account r account_id = elim (find (λ (a : ServiceAccount). a.id == account_id) r.accounts) [
  | none ↦ err (unknown_active account_id)
  | some a ↦ if is_active a.status then ok a else err (unknown_active account_id)
]

-- The accounts that `replaceAccount` commits.
abbrev pub replaced : Registry → ServiceAccount → List ServiceAccount
replaced r a = map (λ (c : ServiceAccount). if c.id == a.id then a else c) r.accounts

-- JSON with the schema library: `JSON.stringify` of the file, and its shape read back, the version
-- with the accounts, or a message.
pub record Codec : Type 0 where
  pub encode : List ServiceAccount → Text
  pub decode : Text → Result Text (ℕ × List ServiceAccount)
  pub schema_message : Text

module _ (platform : Platform) where
  open platform use {sha256_hex, from_hex, to_iso, parse_date, collate}

  -- `tokenHashMatches`.
  unfoldable pub token_hash_matches : Text → Text → Bool
  token_hash_matches token token_hash = text_beq (from_hex (sha256_hex token)) (from_hex token_hash)

  unfoldable pub is_expired : ServiceAccountKey → ℕ → Bool
  is_expired k now = elim k.expires_at [
    | none ↦ false
    | some t ↦ elim (parse_date t) [ none ↦ false | some expiry ↦ leb expiry now ]
  ]

  -- `authenticate` from the account on.
  unfoldable pub identify : Text → Text → ℕ → ServiceAccount → Option Identity
  unfolding token_hash_matches is_expired
  identify token key_id now a = elim (find (λ (k : ServiceAccountKey). k.id == key_id) a.keys) [
    | none ↦ none
    | some k ↦
        if is_expired k now
        then none
        else if token_hash_matches token k.token_hash
        then some (record { id = a.id; name = a.name; key_id = k.id; scopes = a.scopes })
        else none
  ]

  unfoldable pub authenticate : Registry → ℕ → Text → Option Identity
  unfolding identify parse_token
  authenticate r now token = elim (parse_token token) [
    | none ↦ none
    | some ids ↦ elim r.config_error [
      | some m ↦ none
      | none ↦
          elim (find (λ (a : ServiceAccount). a.id == ids.0 && is_active a.status) r.accounts) [
            | none ↦ none
            | some a ↦ identify token ids.1 now a
          ]
    ]
  ]

  unfoldable pub authorize : Registry → ℕ → Text → ServiceAccountScope → Option Identity
  unfolding authenticate
  authorize r now token required_scope = elim (authenticate r now token) [
    | none ↦ none
    | some i ↦ if contains ⦃e = scope_eq⦄ i.scopes required_scope then some i else none
  ]

  -- `issueKey`: the key, whose token is `token_of`.
  unfoldable pub issue_key : Text → Draw → ℕ → ServiceAccountKey
  unfolding token_of
  issue_key account_id draw now = record {
    id = draw.key_id;
    token_hash = sha256_hex (token_of account_id draw.key_id draw.secret);
    created_at = to_iso now;
    expires_at = some (to_iso (now + key_ttl_ms));
  }

  -- The account that `issue` makes.
  issued_account : Text → List ServiceAccountScope → Draw → ℕ → ServiceAccount
  issued_account name scopes draw now = record {
    id = draw.account_id;
    name = name;
    scopes = scopes;
    status = active;
    created_at = to_iso now;
    updated_at = to_iso now;
    keys = issue_key draw.account_id draw now ∷ [];
  }

  -- What each mutation commits and answers.
  unfoldable pub plan : Registry → Request → Draw → ℕ → Result Error Change
  unfolding snapshot assert_writable active_account issued_account issue_key token_of to_summary
      has_permanent_config_error
  plan r (issue name scopes) draw now = do
    assert_writable r
    normalized_name ← normalize_name name
    guard (not (any (λ (a : ServiceAccount). a.name == normalized_name) r.accounts))
        (already_exists normalized_name)
    normalized_scopes ← normalize_scopes scopes
    let made = issued_account normalized_name normalized_scopes draw now
    ok (record {
      file = some (r.accounts ++ made ∷ []);
      answer = λ _. credential (to_summary made) (token_of draw.account_id draw.key_id draw.secret);
    })
  plan r (rotate account_id) draw now = do
    assert_writable r
    a ← active_account r account_id
    let updated = record a {
      updated_at = to_iso now;
      keys = a.keys ++ issue_key a.id draw now ∷ [];
    }
    ok (record {
      file = some (replaced r updated);
      answer = λ _. credential (to_summary updated) (token_of a.id draw.key_id draw.secret);
    })
  plan r (revoke_key account_id key_id) draw now = do
    assert_writable r
    a ← active_account r account_id
    let kept = filter (λ (k : ServiceAccountKey). not (k.id == key_id)) a.keys
    guard (not (eqb (length kept) (length a.keys))) (unknown_key key_id)
    let updated = record a { updated_at = to_iso now; keys = kept }
    ok (record { file = some (replaced r updated); answer = λ _. account (to_summary updated) })
  plan r (revoke account_id) draw now = do
    assert_writable r
    a ←
        or_throw (find (λ (a : ServiceAccount). a.id == account_id) r.accounts)
          (unknown_account account_id)
    let updated = record a { status = revoked; updated_at = to_iso now; keys = [] }
    ok (
        if is_active a.status
        then record { file = some (replaced r updated); answer = λ _. account (to_summary updated) }
        else record { file = none; answer = λ _. account (to_summary a) })
  plan r repair draw now = do
    guard (has_permanent_config_error r) not_repairable
    ok (record { file = some []; answer = λ r'. registry (snapshot r') })

  module _ (store : StorageLog) (codec : Codec) where
    open store use {Log, read_text, write_text}

    pub record World : Type 0 where
      pub registry : Registry
      pub log : Log

    -- The end of `commit`: the fields change only if the write succeeds.
    unfoldable pub finish :
        World → List ServiceAccount → Log × Result Text (Unit {0}) → World × Result Error (Unit {0})
    finish w accounts (l, err m) = (record w { log = l }, err (thrown m))
    finish w accounts (l, ok _) = (
      record {
        registry = record {
          accounts = accounts;
          source = bucket;
          config_error = none;
          config_error_retryable = false;
        };
        log = l;
      },
      ok tt,
    )

    unfoldable pub commit : World → List ServiceAccount → World × Result Error (Unit {0})
    unfolding finish normalize_file
    commit w file = elim (normalize_file collate file) [
      | err e ↦ (w, err e)
      | ok accounts ↦
          finish w accounts (write_text w.log service_accounts_path (codec.encode accounts))
    ]

    unfoldable pub then_answer :
        (Registry → Reply) → World × Result Error (Unit {0}) → World × Result Error Reply
    then_answer answer (w, err e) = (w, err e)
    then_answer answer (w, ok _) = (w, ok (answer w.registry))

    unfoldable pub carry_out : World → Change → World × Result Error Reply
    unfolding then_answer commit
    carry_out w change = elim change.file [
      | none ↦ (w, ok (change.answer w.registry))
      | some file ↦ then_answer change.answer (commit w file)
    ]

    -- One mutating method, from its guards to what it returns.
    unfoldable pub mutate : World → Request → Draw → ℕ → World × Result Error Reply
    unfolding carry_out plan
    mutate w req draw now = elim (plan w.registry req draw now) [
      | err e ↦ (w, err e)
      | ok change ↦ carry_out w change
    ]

    no_accounts : Source → Option Text → Bool → Registry
    no_accounts source config_error retryable = record {
      accounts = [];
      source = source;
      config_error = config_error;
      config_error_retryable = retryable;
    }

    parse_file : ⦃dt : DateTimes⦄ → Text → Result Error (List ServiceAccount)
    unfolding normalize_file
    parse_file raw = elim (codec.decode raw) [
      | err m ↦ err (thrown m)
      | ok file ↦
          if file_ok file.0 file.1
          then normalize_file collate file.1
          else err (thrown codec.schema_message)
    ]

    loaded_text : ⦃dt : DateTimes⦄ → Text → Registry
    unfolding parse_file no_accounts
    loaded_text raw = elim (parse_file raw) [
      | err e ↦ no_accounts empty (some (message e)) false
      | ok accounts ↦ record {
        accounts = accounts;
        source = bucket;
        config_error = none;
        config_error_retryable = false;
      }
    ]

    -- `loadFile`.
    unfoldable pub load_file : ⦃dt : DateTimes⦄ → Log → Registry
    unfolding loaded_text no_accounts
    load_file l = elim (read_text l service_accounts_path) [
      | err m ↦ no_accounts empty (some m) true
      | ok none ↦ no_accounts empty none false
      | ok (some raw) ↦ loaded_text raw
    ]

    -- `load` and `reload`, which normalize what was loaded.
    unfoldable pub load : ⦃dt : DateTimes⦄ → Log → Result Error Registry
    unfolding load_file normalize_file
    load l = do
      accounts ← normalize_file collate (load_file l).accounts
      ok (record (load_file l) { accounts = accounts })
