-- ===== src/Membership/Pool.antt =====
-- The fields of `PoolMembership` in space/src/membership.ts, what its readers return, and what its
-- mutations would commit.
pub mod Sets
pub mod Plans
use mathlib.Core.Option
use xtap_pool.Base.{
  Bool, List, Option, Result, Text, [], any, contains, dedup, eqb, err, false, filter, find, guard,
  if◌then◌else◌, is_some, length, map, nat_eq, none, not, ok, some, sort, take, text_eq, text_le,
  true, ◌&&◌, ◌++◌, ◌==◌, ◌>>=◌, ◌>>◌, ◌∷◌,
}
use xtap_pool.Membership.Normal.{
  Error, MemberOrgGrant, PoolConfig, PoolIdentityOrg, bootstrap_admin, last_admin,
  normalize_identity_orgs, normalize_member_org, normalize_member_orgs, normalize_org_name,
  normalize_username, normalize_users, not_repairable, still_admin, unavailable,
}

pub data Source : Type 0 where
  bucket bootstrap : Source

pub record PoolMembership : Type 0 where
  pub config : PoolConfig
  pub bootstrap_admins : List Text
  pub source : Source
  pub config_error : Option Text
  pub config_error_retryable : Bool

pub record PoolSnapshot : Type 0 where
  pub admins : List Text
  pub members : List Text
  pub member_orgs : List MemberOrgGrant
  pub updated_at : Text
  pub updated_by : Option Text
  pub bootstrap_admins : List Text
  pub source : Source
  pub config_error : Option Text

pub data PoolAccessGrant : Type 0 where
  admin member : PoolAccessGrant
  member_org : MemberOrgGrant → PoolAccessGrant

-- What a mutation asks for, as the methods take it.
pub data Request : Type 0 where
  add_member remove_member add_admin remove_admin remove_member_org : Text → Request
  add_member_org : MemberOrgGrant → Request
  repair_config : Request

abbrev pub or_first : List Text → List Text → List Text
or_first [] members = take 1 members
or_first (a ∷ others) members = a ∷ others

-- `size !== 0`.
abbrev pub is_filled_list {ℓ} : {A : Type ℓ} → List A → Bool
is_filled_list [] = false
is_filled_list (_ ∷ _) = true

module _ (p : PoolMembership) where
  unfoldable pub has_permanent_config_error : Bool
  has_permanent_config_error = is_some p.config_error && not p.config_error_retryable

  unfoldable pub admin_set : Result Error (List Text)
  admin_set = do admins ← normalize_users p.config.admins; ok (dedup (admins ++ p.bootstrap_admins))

  unfoldable pub member_set : Result Error (List Text)
  unfolding admin_set
  member_set = do
    members ← normalize_users p.config.members
    admins ← admin_set
    ok (dedup (members ++ admins))

  -- `isMember` and `isAdmin`.
  unfoldable pub is_member : Text → Result Error Bool
  unfolding member_set
  is_member username = do
    members ← member_set
    user ← normalize_username username
    ok (contains members user)

  unfoldable pub is_admin : Text → Result Error Bool
  unfolding admin_set
  is_admin username = do
    admins ← admin_set
    user ← normalize_username username
    ok (contains admins user)

  -- The first organization of the identity whose `sub` has a grant.
  granted : List MemberOrgGrant → List PoolIdentityOrg → Option MemberOrgGrant
  granted grants [] = none
  granted grants (o ∷ os) = elim (find (λ (g : MemberOrgGrant). g.sub == o.sub) grants) [
    | some g ↦ some g
    | none ↦ granted grants os
  ]

  unfoldable pub member_org_for : List PoolIdentityOrg → Result Error (Option MemberOrgGrant)
  unfolding granted
  member_org_for orgs = do
    grants ← normalize_member_orgs p.config.member_orgs
    known ← normalize_identity_orgs orgs
    ok (granted grants known)

  unfoldable pub access_for : Text → List PoolIdentityOrg → Result Error (Option PoolAccessGrant)
  unfolding admin_set member_org_for
  access_for username orgs = do
    user ← normalize_username username
    admins ← admin_set
    members ← normalize_users p.config.members
    let by_org = member_org_for orgs >>= λ g. ok (Option.map member_org g)
    if contains admins user
        then ok (some admin)
        else if contains members user
        then ok (some member)
        else by_org

  unfoldable pub snapshot : Result Error PoolSnapshot
  unfolding admin_set
  snapshot = do
    admins ← admin_set
    members ← normalize_users p.config.members
    orgs ← normalize_member_orgs p.config.member_orgs
    ok (record {
      admins = sort text_le admins;
      members = sort text_le (dedup (members ++ sort text_le admins));
      member_orgs = orgs;
      updated_at = p.config.updated_at;
      updated_by = p.config.updated_by;
      bootstrap_admins = p.bootstrap_admins;
      source = p.source;
      config_error = p.config_error;
    })

  unfoldable pub assert_writable : Result Error (Unit {0})
  assert_writable = elim p.config_error [ none ↦ ok tt | some m ↦ err (unavailable m) ]

  -- The configuration that `addAdmin` commits.
  added_admin : Text → Result Error (Option PoolConfig)
  added_admin user = do
    admins ← normalize_users p.config.admins
    members ← normalize_users p.config.members
    ok (
        some (record p.config {
          admins = sort text_le (admins ++ user ∷ []);
          members = sort text_le (dedup (members ++ user ∷ []));
        }))

  -- What each mutation commits; `none` where it leaves the configuration alone.
  unfoldable pub plan : Request → Result Error (Option PoolConfig)
  unfolding admin_set member_set assert_writable has_permanent_config_error added_admin
  plan (add_member username) = do
    assert_writable
    user ← normalize_username username
    known ← member_set
    let change = normalize_users p.config.members >>= λ users.
        ok (some (record p.config { members = sort text_le (users ++ user ∷ []) }))
    if contains known user then ok none else change
  plan (remove_member username) = do
    assert_writable
    user ← normalize_username username
    admins ← admin_set
    guard (not (contains admins user)) (still_admin user)
    users ← normalize_users p.config.members
    let kept = filter (λ m. not (m == user)) users
    ok (
        if eqb (length kept) (length p.config.members)
        then none
        else some (record p.config { members = kept }))
  plan (add_admin username) = do
    assert_writable
    user ← normalize_username username
    known ← admin_set
    if contains known user then ok none else added_admin user
  plan (remove_admin username) = do
    assert_writable
    user ← normalize_username username
    guard (not (contains p.bootstrap_admins user)) (bootstrap_admin user)
    admins ← normalize_users p.config.admins
    let kept = filter (λ a. not (a == user)) admins
    let change =
        guard (is_filled_list (dedup (kept ++ p.bootstrap_admins))) last_admin
        >> ok (some (record p.config { admins = kept }))
    if eqb (length kept) (length p.config.admins) then ok none else change
  plan (add_member_org org) = do
    assert_writable
    grant ← normalize_member_org org
    current ← normalize_member_orgs p.config.member_orgs
    ok (
        if any (λ (g : MemberOrgGrant). g.sub == grant.sub) (take 1 current)
        then none
        else some (record p.config { member_orgs = grant ∷ [] }))
  plan (remove_member_org org_name) = do
    assert_writable
    name ← normalize_org_name org_name
    current ← normalize_member_orgs p.config.member_orgs
    let kept = filter (λ (g : MemberOrgGrant). not (g.name == name)) current
    ok (
        if eqb (length kept) (length current)
        then none
        else some (record p.config { member_orgs = kept }))
  plan repair_config = do guard has_permanent_config_error not_repairable; ok (some p.config)
