-- ===== src/Membership/Normal.antt =====
-- The configuration of the pool and its normal form (space/src/membership.ts).
pub mod Names
pub mod Laws
use xtap_pool.Base.{
  Bool, List, Option, Result, Text, [], all, dedup, eqb, err, guard, if◌then◌else◌, is_filled,
  is_name, lit, nat_eq, none, ok, some, sort, take, text_beq, text_eq, text_le, to_lower, traverse,
  trim, true, ℕ, ◌&&◌, ◌++◌, ◌==◌, ◌>>=◌, ◌>>◌, ◌∷◌,
}

pub record MemberOrgGrant : Type 0 where
  pub name : Text
  pub sub : Text
  pub display_name : Option Text

pub record PoolConfig : Type 0 where
  pub version : ℕ
  pub admins : List Text
  pub members : List Text
  pub member_orgs : List MemberOrgGrant
  pub updated_at : Text
  pub updated_by : Option Text

pub record PoolIdentityOrg : Type 0 where
  pub sub : Text
  pub name : Option Text

pub data Error : Type 0 where
  invalid_username invalid_organization : Text → Error
  empty_sub : Error
  -- What the log, the JSON parser or the schema library throws, by its message.
  thrown : Text → Error
  not_repairable last_admin : Error
  still_admin bootstrap_admin unavailable : Text → Error

-- `errorMessage`.
pub message : Error → Text
message (invalid_username u) = lit "invalid Hugging Face username: " ++ u
message (invalid_organization n) = lit "invalid Hugging Face organization: " ++ n
message empty_sub = lit "organization sub must not be empty"
message (thrown m) = m
message not_repairable = lit "pool config does not have a repairable validation error"
message last_admin = lit "pool must keep at least one admin"
message (still_admin u) = lit "@" ++ u ++ lit " is an admin; demote before removing"
message (bootstrap_admin u) =
    lit "@" ++ u ++ lit " is a bootstrap admin; change POOL_ADMINS to demote"
message (unavailable m) = lit "pool config is unavailable: " ++ m

-- `poolConfigSchema`: what it asks of values that have its shape.
display_ok : Option Text → Bool
display_ok none = true
display_ok (some d) = is_filled d

org_ok : MemberOrgGrant → Bool
org_ok o = is_filled o.sub && display_ok o.display_name

pub pool_config_ok : PoolConfig → Bool
pool_config_ok c = eqb c.version 1 && all org_ok c.member_orgs

unfoldable pub normalize_username : Text → Result Error Text
unfolding to_lower trim
normalize_username username =
    let normalized = to_lower (trim username) in
    if is_name normalized then ok normalized else err (invalid_username username)

unfoldable pub normalize_org_name : Text → Result Error Text
unfolding to_lower trim
normalize_org_name name =
    let normalized = to_lower (trim name) in
    if is_name normalized then ok normalized else err (invalid_organization name)

unfoldable pub normalize_users : List Text → Result Error (List Text)
unfolding normalize_username text_le text_beq
normalize_users users = do
  names ← traverse normalize_username users
  ok (sort text_le (dedup names))

-- `displayName !== undefined && displayName.length > 0`, after trimming.
normalize_display : Option Text → Option Text
normalize_display none = none
normalize_display (some d) =
    let trimmed = trim d in if is_filled trimmed then some trimmed else none

unfoldable pub normalize_member_org : MemberOrgGrant → Result Error MemberOrgGrant
unfolding normalize_org_name normalize_display trim
normalize_member_org org = do
  name ← normalize_org_name org.name
  guard (is_filled (trim org.sub)) empty_sub
  ok (record { name = name; sub = trim org.sub; display_name = normalize_display org.display_name })

unfoldable pub normalize_member_orgs : List MemberOrgGrant → Result Error (List MemberOrgGrant)
unfolding normalize_member_org
normalize_member_orgs orgs = do grants ← traverse normalize_member_org orgs; ok (take 1 grants)

pub normalize_updater : Option Text → Result Error (Option Text)
unfolding normalize_username
normalize_updater none = ok none
normalize_updater (some u) = do name ← normalize_username u; ok (some name)

-- `[...new Set([...users, ...admins])].sort()`.
abbrev pub union_sorted : List Text → List Text → List Text
union_sorted users admins = sort text_le (dedup (users ++ admins))

unfoldable pub normalize_config : PoolConfig → Result Error PoolConfig
unfolding normalize_users normalize_member_orgs normalize_updater
normalize_config config = do
  admins ← normalize_users config.admins
  members ← normalize_users config.members
  orgs ← normalize_member_orgs config.member_orgs
  updater ← normalize_updater config.updated_by
  ok (record {
    version = 1;
    admins = admins;
    members = union_sorted members admins;
    member_orgs = orgs;
    updated_at = config.updated_at;
    updated_by = updater;
  })

-- The loop of `normalizeIdentityOrgs`: `Map.set` keeps the place of a key that it has.
abbrev set_org : PoolIdentityOrg → List PoolIdentityOrg → List PoolIdentityOrg
set_org o [] = o ∷ []
set_org o (p ∷ ps) = if p.sub == o.sub then o ∷ ps else p ∷ set_org o ps

normalize_identity_name : Option Text → Result Error (Option Text)
unfolding normalize_org_name
normalize_identity_name none = ok none
normalize_identity_name (some n) = do name ← normalize_org_name n; ok (some name)

-- One round: an organization with an empty `sub` is passed over.
add_identity_org : List PoolIdentityOrg → PoolIdentityOrg → Result Error (List PoolIdentityOrg)
unfolding normalize_identity_name trim
add_identity_org by_sub o =
    let added : Result Error (List PoolIdentityOrg) = normalize_identity_name o.name >>= λ name.
    ok (set_org (record { sub = trim o.sub; name = name }) by_sub) in
    if is_filled (trim o.sub) then added else ok by_sub

identity_orgs_from :
    List PoolIdentityOrg → List PoolIdentityOrg → Result Error (List PoolIdentityOrg)
unfolding add_identity_org
identity_orgs_from by_sub [] = ok by_sub
identity_orgs_from by_sub (o ∷ orgs) = do
  next ← add_identity_org by_sub o
  identity_orgs_from next orgs

unfoldable pub normalize_identity_orgs : List PoolIdentityOrg → Result Error (List PoolIdentityOrg)
unfolding identity_orgs_from
normalize_identity_orgs orgs = identity_orgs_from [] orgs
