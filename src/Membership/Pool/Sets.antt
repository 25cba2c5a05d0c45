-- ===== src/Membership/Pool/Sets.antt =====
-- Administrators and members of a valid pool, and who is admitted.
use mathlib.Core.Option
use xtap_pool.Base.{
  Bool, List, Text, ap, arith, contains, contains-append, contains-dedup, contains-sort, dedup,
  if◌then◌else◌, nat_eq, ok, some, sort, text_eq, text_le, ◌++◌, ◌>>=◌, ◌||◌, ◌∙◌, ◌≡◌,
}
use xtap_pool.Membership.Normal.{PoolIdentityOrg, normalize_username}
use xtap_pool.Membership.Normal.Laws.{
  IsNormal, IsUserList, normalize_member_orgs_of_AreOrgs, normalize_users_of_IsUserList,
}
use xtap_pool.Membership.Pool.{
  PoolMembership, PoolSnapshot, access_for, admin, admin_set, is_admin, is_member, member,
  member_org, member_org_for, member_set, snapshot,
}

-- The configuration is in normal form, and so are the bootstrap administrators.
pub record IsValid (p : PoolMembership) : Type 0 where
  pub normal : IsNormal p.config
  pub bootstrap : IsUserList p.bootstrap_admins

-- Whom the pool counts as administrator and as member, by normalized name.
abbrev pub admin_of : PoolMembership → Text → Bool
admin_of p u = contains p.config.admins u || contains p.bootstrap_admins u

abbrev pub member_of : PoolMembership → Text → Bool
member_of p u = contains p.config.members u || admin_of p u

abbrev pub snapshot_view : PoolMembership → PoolSnapshot
snapshot_view p =
    let admins = sort text_le (dedup (p.config.admins ++ p.bootstrap_admins)) in
    record {
      admins = admins;
      members = sort text_le (dedup (p.config.members ++ admins));
      member_orgs = p.config.member_orgs;
      updated_at = p.config.updated_at;
      updated_by = p.config.updated_by;
      bootstrap_admins = p.bootstrap_admins;
      source = p.source;
      config_error = p.config_error;
    }

module _ (p : PoolMembership) (v : IsValid p) where
  pub admin_set_lem : admin_set p ≡ ok (dedup (p.config.admins ++ p.bootstrap_admins))
  unfolding admin_set
  admin_set_lem = rw (normalize_users_of_IsUserList p.config.admins v.normal.admins)

  pub member_set_lem :
      member_set p ≡ ok (dedup (p.config.members ++ dedup (p.config.admins ++ p.bootstrap_admins)))
  unfolding member_set
  member_set_lem =
      rw (normalize_users_of_IsUserList p.config.members v.normal.members, admin_set_lem)

  pub contains-admin_set :
      (u : Text) → contains (dedup (p.config.admins ++ p.bootstrap_admins)) u ≡ admin_of p u
  contains-admin_set u =
      contains-dedup (p.config.admins ++ p.bootstrap_admins) u
      ∙ contains-append p.config.admins p.bootstrap_admins u

  pub contains-member_set :
      (u : Text)
      → contains (dedup (p.config.members ++ dedup (p.config.admins ++ p.bootstrap_admins))) u
        ≡ member_of p u
  contains-member_set u =
      contains-dedup (p.config.members ++ dedup (p.config.admins ++ p.bootstrap_admins)) u
      ∙ contains-append p.config.members (dedup (p.config.admins ++ p.bootstrap_admins)) u
      ∙ rw (contains-admin_set u)

  -- On a valid pool the two tests answer for every name that can be normalized: an administrator
  -- is in the configuration or the bootstrap list, a member is one of these or in the members.
  pub is_member-is_admin_lem :
      (name u : Text)
      → normalize_username name ≡ ok u
      → (is_member p name ≡ ok (member_of p u)) × (is_admin p name ≡ ok (admin_of p u))
  unfolding is_member is_admin
  is_member-is_admin_lem name u h = (
    rw (member_set_lem, h) (ap ok (contains-member_set u)),
    rw (admin_set_lem, h) (ap ok (contains-admin_set u)),
  )

  pub snapshot_view_lem : snapshot p ≡ ok (snapshot_view p)
  unfolding snapshot
  snapshot_view_lem = rw (
    admin_set_lem,
    normalize_users_of_IsUserList p.config.members v.normal.members,
    normalize_member_orgs_of_AreOrgs p.config.member_orgs v.normal.orgs,
  )

  snapshot_view_admins : (u : Text) → contains (snapshot_view p).admins u ≡ admin_of p u
  snapshot_view_admins u =
      contains-sort text_le (dedup (p.config.admins ++ p.bootstrap_admins)) u ∙ contains-admin_set u

  snapshot_view_members : (u : Text) → contains (snapshot_view p).members u ≡ member_of p u
  snapshot_view_members u =
      let admins = (snapshot_view p).admins in
      contains-sort text_le (dedup (p.config.members ++ admins)) u
      ∙ contains-dedup (p.config.members ++ admins) u
      ∙ contains-append p.config.members admins u
      ∙ ap (λ b. contains p.config.members u || b) (snapshot_view_admins u)

  -- The snapshot of a valid pool exists, and lists its administrators and its members, nobody else.
  pub snapshot_lists :
      (s : PoolSnapshot) × (snapshot p ≡ ok s)
      × ((u : Text) → (contains s.admins u ≡ admin_of p u) × (contains s.members u ≡ member_of p u))
  snapshot_lists =
      (snapshot_view p, snapshot_view_lem, λ u. (snapshot_view_admins u, snapshot_view_members u))

  -- On a valid pool and for a name that can be normalized, an administrator is admitted as such, else a member as such; only someone who is neither is
  -- judged by organization.
  pub access_for_lem :
      (name u : Text) (orgs : List PoolIdentityOrg)
      → normalize_username name ≡ ok u
      → access_for p name orgs ≡ (
          if admin_of p u
          then ok (some admin)
          else if member_of p u
          then ok (some member)
          else (member_org_for p orgs >>= λ g. ok (Option.map member_org g)))
  unfolding access_for
  access_for_lem name u orgs h =
      rw (h, admin_set_lem, normalize_users_of_IsUserList p.config.members v.normal.members)
        (ground (arith, contains-admin_set u))
