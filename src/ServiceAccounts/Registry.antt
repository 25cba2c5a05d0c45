-- ===== src/ServiceAccounts/Registry.antt =====
-- The registry file of space/src/service-accounts.ts and its normal form. The scope names are
-- `serviceAccountScopeSchema` in shared/src/unit.ts.
pub mod Laws
use mathlib.Core.Option
use xtap_pool.Base.{
  Bool, DateTimes, Eq, List, Option, Result, Text, [], all, contains, dedup, eqb, eqb_iff, err,
  false, guard, if◌then◌else◌, is_digit, is_filled, is_lower, is_sha256, leb, length, lit, map,
  nat_eq, none, not, ok, refl, some, sort, text_eq, to_lower, trim, true, ℕ, ◌&&◌, ◌++◌, ◌>>=◌,
  ◌>>◌, ◌||◌, ◌↔◌, ◌∷◌, ◌≡◌,
}

pub data ServiceAccountScope : Type 0 where
  units_read taxonomy_read observations_read : ServiceAccountScope

pub data Status : Type 0 where
  active revoked : Status

pub record ServiceAccountKey : Type 0 where
  pub id : Text
  pub token_hash : Text
  pub created_at : Text
  pub expires_at : Option Text

pub record ServiceAccount : Type 0 where
  pub id : Text
  pub name : Text
  pub scopes : List ServiceAccountScope
  pub status : Status
  pub created_at : Text
  pub updated_at : Text
  pub keys : List ServiceAccountKey

pub record KeySummary : Type 0 where
  pub id : Text
  pub created_at : Text
  pub expires_at : Option Text

pub record Summary : Type 0 where
  pub id : Text
  pub name : Text
  pub scopes : List ServiceAccountScope
  pub status : Status
  pub created_at : Text
  pub updated_at : Text
  pub keys : List KeySummary

pub data Error : Type 0 where
  invalid_name no_scope not_repairable : Error
  duplicate_name duplicate_id duplicate_key : Text → Error
  already_exists unknown_key unknown_account unknown_active unavailable : Text → Error
  -- What the log, the JSON parser or the schema library throws, by its message.
  thrown : Text → Error

pub message : Error → Text
message invalid_name = lit "service account name must use lowercase letters, numbers, and hyphens"
message no_scope = lit "service account needs at least one scope"
message not_repairable = lit "service account config does not have a repairable validation error"
message (duplicate_name n) = lit "duplicate service account name: " ++ n
message (duplicate_id n) = lit "duplicate service account id: " ++ n
message (duplicate_key n) = lit "duplicate service account key: " ++ n
message (already_exists n) = lit "service account already exists: " ++ n
message (unknown_key n) = lit "unknown service account key: " ++ n
message (unknown_account n) = lit "unknown service account: " ++ n
message (unknown_active n) = lit "unknown active service account: " ++ n
message (unavailable m) = lit "service account config is unavailable: " ++ m
message (thrown m) = m

-- The place of a scope's name in the order of strings.
abbrev pub rank : ServiceAccountScope → ℕ
rank observations_read = 0
rank taxonomy_read = 1
rank units_read = 2

abbrev pub scope_beq : ServiceAccountScope → ServiceAccountScope → Bool
scope_beq s t = eqb (rank s) (rank t)

pub scope_beq_iff : (s t : ServiceAccountScope) → (scope_beq s t ≡ true) ↔ (s ≡ t)
scope_beq_iff s t = (sound s t, λ e. rw e ((eqb_iff (rank t) (rank t)).1 refl))
  where
    sound : (s t : ServiceAccountScope) → scope_beq s t ≡ true → s ≡ t
    sound units_read units_read h = refl
    sound taxonomy_read taxonomy_read h = refl
    sound observations_read observations_read h = refl
    sound units_read taxonomy_read h = cc
    sound units_read observations_read h = cc
    sound taxonomy_read units_read h = cc
    sound taxonomy_read observations_read h = cc
    sound observations_read units_read h = cc
    sound observations_read taxonomy_read h = cc

instance abbrev pub scope_eq : Eq ServiceAccountScope
scope_eq = record { beq = scope_beq; beq_iff = scope_beq_iff }

abbrev pub scope_le : ServiceAccountScope → ServiceAccountScope → Bool
scope_le s t = leb (rank s) (rank t)

abbrev pub is_active : Status → Bool
is_active active = true
is_active revoked = false

-- `/^[a-z0-9][a-z0-9-]{0,62}$/`.
abbrev is_account_char : ℕ → Bool
is_account_char c = is_lower c || is_digit c || eqb c b'-'

abbrev pub is_account_name : Text → Bool
is_account_name [] = false
is_account_name (c ∷ s) = (is_lower c || is_digit c) && leb (length s) 62 && all is_account_char s

unfoldable pub normalize_name : Text → Result Error Text
unfolding to_lower trim
normalize_name name =
    let normalized = to_lower (trim name) in
    if is_account_name normalized then ok normalized else err invalid_name

unfoldable pub normalize_scopes : List ServiceAccountScope → Result Error (List ServiceAccountScope)
normalize_scopes [] = err no_scope
normalize_scopes (s ∷ scopes) = ok (sort scope_le (dedup (s ∷ scopes)))

-- The keys of an account, after those with the ids `seen`.
unfoldable pub normalize_keys :
    List Text → List ServiceAccountKey → Result Error (List ServiceAccountKey)
normalize_keys seen [] = ok []
normalize_keys seen (k ∷ ks) = do
  guard (not (contains seen k.id)) (duplicate_key k.id)
  rest ← normalize_keys (k.id ∷ seen) ks
  ok (k ∷ rest)

-- The accounts, after those with the given names and ids.
unfoldable pub normalize_accounts :
    List Text → List Text → List ServiceAccount → Result Error (List ServiceAccount)
normalize_accounts names ids [] = ok []
normalize_accounts names ids (a ∷ rest) = do
  name ← normalize_name a.name
  guard (not (contains names name)) (duplicate_name name)
  guard (not (contains ids a.id)) (duplicate_id a.id)
  keys ← normalize_keys [] a.keys
  scopes ← normalize_scopes a.scopes
  others ← normalize_accounts (name ∷ names) (a.id ∷ ids) rest
  ok (record a { name = name; scopes = scopes; keys = keys } ∷ others)

-- `normalizeFile`, where `collate` is `localeCompare` at most 0.
unfoldable pub normalize_file :
    (Text → Text → Bool) → List ServiceAccount → Result Error (List ServiceAccount)
normalize_file collate accounts = do
  normalized ← normalize_accounts [] [] accounts
  ok (sort (λ a b. collate a.name b.name) normalized)

key_summary : ServiceAccountKey → KeySummary
key_summary k = record { id = k.id; created_at = k.created_at; expires_at = k.expires_at }

unfoldable pub to_summary : ServiceAccount → Summary
unfolding key_summary
to_summary a = record {
  id = a.id;
  name = a.name;
  scopes = a.scopes;
  status = a.status;
  created_at = a.created_at;
  updated_at = a.updated_at;
  keys = map key_summary a.keys;
}

-- `serviceAccountsFileSchema`: what it asks of values that have its shape.
module _ ⦃dt : DateTimes⦄ where
  open dt use {is_datetime}

  key_ok : ServiceAccountKey → Bool
  key_ok k =
      is_filled k.id
      && is_sha256 k.token_hash
      && is_datetime k.created_at
      && elim k.expires_at [ none ↦ true | some t ↦ is_datetime t ]

  account_ok : ServiceAccount → Bool
  account_ok a =
      is_filled a.id
      && is_filled a.name
      && leb 1 (length a.scopes)
      && is_datetime a.created_at
      && is_datetime a.updated_at
      && all key_ok a.keys

  pub file_ok : ℕ → List ServiceAccount → Bool
  file_ok version accounts = eqb version 1 && all account_ok accounts
