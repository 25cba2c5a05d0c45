-- ===== src/Membership/Normal/Laws.antt =====
-- A normalized configuration is left as it is by a second normalization.
pub mod Trimming
use xtap_pool.Base.{
  >>=-eq-ok, All, All-append, All-dedup, All-sort, List, Option, Text, [], arith, contains,
  contains-append, contains-dedup, contains-sort, dedup, dedup-append_covered, dedup_of_unique,
  guard-eq-ok, is_filled, nat_eq, none, ok, refl, some, sort, sort_of_sorted, sorted, sorted-sort,
  take, text_eq, text_le, text_le_total, traverse, traverse-All, traverse_of_fixed, trim, true,
  unique, unique-dedup, unique-sort, ◌++◌, ◌||◌, ◌∙◌, ◌∷◌, ◌≡◌,
}
use xtap_pool.Membership.Normal.{
  MemberOrgGrant, PoolConfig, normalize_config, normalize_display, normalize_member_org,
  normalize_member_orgs, normalize_org_name, normalize_updater, normalize_username, normalize_users,
  union_sorted,
}
use xtap_pool.Membership.Normal.Names.{normalize_org_name_idempotent, normalize_username_idempotent}
use Trimming.{trim_idempotent}

-- Normalized names, each once, in order.
pub record IsUserList (us : List Text) : Type 0 where
  pub names : All (λ u. normalize_username u ≡ ok u) us
  pub once : unique us ≡ true
  pub in_order : sorted text_le us ≡ true

names-IsUserList :
    (us : List Text)
    → All (λ u. normalize_username u ≡ ok u) us
    → IsUserList (sort text_le (dedup us))
names-IsUserList us h = record {
  names = All-sort text_le _ (dedup us) (All-dedup _ us h);
  once = unique-sort text_le (dedup us) (unique-dedup us);
  in_order = sorted-sort text_le text_le_total (dedup us);
}

pub normalize_users-IsUserList : (us vs : List Text) → normalize_users us ≡ ok vs → IsUserList vs
unfolding normalize_users
normalize_users-IsUserList us vs h =
    let (names, run, e) = >>=-eq-ok (traverse normalize_username us) _ h in
    let same : sort text_le (dedup names) ≡ vs = ground arith in
    rw (← same) (
      names-IsUserList names (
        traverse-All (λ u. normalize_username u ≡ ok u) normalize_username
          normalize_username_idempotent us names run))

pub normalize_users_of_IsUserList : (us : List Text) → IsUserList us → normalize_users us ≡ ok us
unfolding normalize_users
normalize_users_of_IsUserList us h = rw (
  traverse_of_fixed normalize_username us h.names,
  dedup_of_unique us h.once,
  sort_of_sorted text_le us h.in_order,
)

pub contains-union_sorted :
    (us vs : List Text) (a : Text)
    → contains (union_sorted us vs) a ≡ (contains us a || contains vs a)
contains-union_sorted us vs a =
    contains-sort text_le (dedup (us ++ vs)) a
    ∙ contains-dedup (us ++ vs) a
    ∙ contains-append us vs a

pub union_sorted-IsUserList :
    (us vs : List Text) → IsUserList us → IsUserList vs → IsUserList (union_sorted us vs)
union_sorted-IsUserList us vs h k = names-IsUserList (us ++ vs) (All-append _ us vs h.names k.names)

pub union_sorted_covered :
    (us vs : List Text)
    → IsUserList us
    → ((a : Text) → contains vs a ≡ true → contains us a ≡ true)
    → union_sorted us vs ≡ us
union_sorted_covered us vs h k =
    rw (dedup-append_covered us vs h.once k) (sort_of_sorted text_le us h.in_order)

normalize_display_idempotent :
    (d : Option Text) → normalize_display (normalize_display d) ≡ normalize_display d
unfolding normalize_display
normalize_display_idempotent none = refl
normalize_display_idempotent (some d) = ground (arith, trim_idempotent d)

normalize_member_org_idempotent :
    (o p : MemberOrgGrant) → normalize_member_org o ≡ ok p → normalize_member_org p ≡ ok p
unfolding normalize_member_org
normalize_member_org_idempotent o p h =
    let (name, run, h₁) = >>=-eq-ok (normalize_org_name o.name) _ h in
    let (filled, h₂) = guard-eq-ok (is_filled (trim o.sub)) _ _ h₁ in
    let e : p ≡ record {
      name = name;
      sub = trim o.sub;
      display_name = normalize_display o.display_name;
    } =
      ground arith in
    rw (
      e,
      normalize_org_name_idempotent o.name name run,
      trim_idempotent o.sub,
      filled,
      normalize_display_idempotent o.display_name,
    )

-- At most one organization, in normal form.
abbrev pub AreOrgs : List MemberOrgGrant → Type 0
AreOrgs os = All (λ o. normalize_member_org o ≡ ok o) os × (take 1 os ≡ os)

take_one : (os : List MemberOrgGrant) → take 1 (take 1 os) ≡ take 1 os
take_one [] = refl
take_one (o ∷ os) = refl

pub normalize_member_orgs-AreOrgs :
    (os ps : List MemberOrgGrant) → normalize_member_orgs os ≡ ok ps → AreOrgs ps
unfolding normalize_member_orgs
normalize_member_orgs-AreOrgs os ps h =
    let (grants, run, e) = >>=-eq-ok (traverse normalize_member_org os) _ h in
    let same : take 1 grants ≡ ps = ground arith in
    rw (← same) (
      All-take grants (
          traverse-All (λ o. normalize_member_org o ≡ ok o) normalize_member_org
            normalize_member_org_idempotent os grants run),
      take_one grants,
    )
  where
    All-take :
        (xs : List MemberOrgGrant)
        → All (λ o. normalize_member_org o ≡ ok o) xs
        → All (λ o. normalize_member_org o ≡ ok o) (take 1 xs)
    All-take [] k = tt
    All-take (x ∷ xs) k = (k.0, tt)

pub normalize_member_orgs_of_AreOrgs :
    (os : List MemberOrgGrant) → AreOrgs os → normalize_member_orgs os ≡ ok os
unfolding normalize_member_orgs
normalize_member_orgs_of_AreOrgs os h = rw (traverse_of_fixed normalize_member_org os h.0, h.1)

normalize_updater_idempotent :
    (u v : Option Text) → normalize_updater u ≡ ok v → normalize_updater v ≡ ok v
unfolding normalize_updater
normalize_updater_idempotent none none h = refl
normalize_updater_idempotent none (some w) h = cc
normalize_updater_idempotent (some u) v h =
    let (name, run, e) = >>=-eq-ok (normalize_username u) _ h in
    let same : v ≡ some name = ground arith in
    rw (same, normalize_updater, normalize_username_idempotent u name run)

-- A configuration in normal form.
pub record IsNormal (c : PoolConfig) : Type 0 where
  pub version : c.version ≡ 1
  pub admins : IsUserList c.admins
  pub members : IsUserList c.members
  pub admins_are_members : (a : Text) → contains c.admins a ≡ true → contains c.members a ≡ true
  pub orgs : AreOrgs c.member_orgs
  pub updater : normalize_updater c.updated_by ≡ ok c.updated_by

-- A configuration that is normalized gives a normal form: sorted lists of distinct normalized names,
-- the administrators among the members, and at most one normalized organization.
pub normalize_config-IsNormal : (c n : PoolConfig) → normalize_config c ≡ ok n → IsNormal n
unfolding normalize_config
normalize_config-IsNormal c n h =
    let (admins, run_a, h₁) = >>=-eq-ok (normalize_users c.admins) _ h in
    let (members, run_m, h₂) = >>=-eq-ok (normalize_users c.members) _ h₁ in
    let (orgs, run_o, h₃) = >>=-eq-ok (normalize_member_orgs c.member_orgs) _ h₂ in
    let (updater, run_u, h₄) = >>=-eq-ok (normalize_updater c.updated_by) _ h₃ in
    let e : n ≡ record {
      version = 1;
      admins = admins;
      members = union_sorted members admins;
      member_orgs = orgs;
      updated_at = c.updated_at;
      updated_by = updater;
    } =
      ground arith in
    let are_admins = normalize_users-IsUserList c.admins admins run_a in
    let are_members = normalize_users-IsUserList c.members members run_m in
    rw e (record {
      version = refl;
      admins = are_admins;
      members = union_sorted-IsUserList members admins are_members are_admins;
      admins_are_members = λ a k. ground (arith, contains-union_sorted members admins a);
      orgs = normalize_member_orgs-AreOrgs c.member_orgs orgs run_o;
      updater = normalize_updater_idempotent c.updated_by updater run_u;
    })

-- A normal form is left as it is.
pub normalize_config_of_IsNormal : (c : PoolConfig) → IsNormal c → normalize_config c ≡ ok c
unfolding normalize_config
normalize_config_of_IsNormal c n =
    let u = union_sorted_covered c.members c.admins n.members n.admins_are_members in
    let v = n.version in
    rw
      (
        normalize_users_of_IsUserList c.admins n.admins,
        normalize_users_of_IsUserList c.members n.members,
        normalize_member_orgs_of_AreOrgs c.member_orgs n.orgs,
        n.updater,
        u,
      )
      (ground arith)

normalize_users_of_names :
    (us : List Text)
    → All (λ u. normalize_username u ≡ ok u) us
    → normalize_users us ≡ ok (sort text_le (dedup us))
unfolding normalize_users
normalize_users_of_names us h = rw (traverse_of_fixed normalize_username us h)

-- A configuration of normalized names, in any order and with repetitions, can be normalized, and
-- nobody is lost or added, but that administrators become members.
pub normalize_config_of_names :
    (c : PoolConfig)
    → All (λ u. normalize_username u ≡ ok u) c.admins
    → All (λ u. normalize_username u ≡ ok u) c.members
    → AreOrgs c.member_orgs
    → normalize_updater c.updated_by ≡ ok c.updated_by
    → (n : PoolConfig) × (normalize_config c ≡ ok n)
      × ((x : Text) → contains n.admins x ≡ contains c.admins x)
      × ((x : Text) → contains n.members x ≡ (contains c.members x || contains c.admins x))
      × (n.member_orgs ≡ c.member_orgs)
unfolding normalize_config
normalize_config_of_names c a m o u =
    let admins = sort text_le (dedup c.admins) in
    let members = sort text_le (dedup c.members) in
    let in_admins : (x : Text) → contains admins x ≡ contains c.admins x =
      λ x. contains-sort text_le (dedup c.admins) x ∙ contains-dedup c.admins x in
    let in_members : (x : Text) → contains members x ≡ contains c.members x =
      λ x. contains-sort text_le (dedup c.members) x ∙ contains-dedup c.members x in
    (
      record {
        version = 1;
        admins = admins;
        members = union_sorted members admins;
        member_orgs = c.member_orgs;
        updated_at = c.updated_at;
        updated_by = c.updated_by;
      },
      rw (
        normalize_users_of_names c.admins a,
        normalize_users_of_names c.members m,
        normalize_member_orgs_of_AreOrgs c.member_orgs o,
        u,
      ),
      in_admins,
      (λ x. contains-union_sorted members admins x ∙ ground (arith, in_admins x, in_members x)),
      refl,
    )

pub normalize_updater_of_name :
    (u n : Text) → normalize_username u ≡ ok n → normalize_updater (some n) ≡ ok (some n)
unfolding normalize_updater
normalize_updater_of_name u n h = rw (normalize_username_idempotent u n h)
