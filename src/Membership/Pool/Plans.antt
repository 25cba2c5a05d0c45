-- ===== src/Membership/Pool/Plans.antt =====
-- What each mutation would commit on a valid pool whose configuration has no error, and what it
-- refuses.
use xtap_pool.Base.{
  List, Text, [], arith, contains, dedup, eqb, err, filter, if◌then◌else◌, length, nat_eq, none,
  not, ok, some, sort, text_eq, text_le, ◌++◌, ◌==◌, ◌∷◌, ◌≡◌,
}
use xtap_pool.Membership.Normal.{bootstrap_admin, last_admin, normalize_username, still_admin}
use xtap_pool.Membership.Normal.Laws.{normalize_users_of_IsUserList}
use xtap_pool.Membership.Pool.{
  PoolMembership, add_admin, add_member, assert_writable, is_filled_list, plan, remove_admin,
  remove_member,
}
use xtap_pool.Membership.Pool.Sets.{
  IsValid, admin_of, admin_set_lem, contains-admin_set, contains-member_set, member_of,
  member_set_lem,
}

assert_writable_lem : (p : PoolMembership) → p.config_error ≡ none → assert_writable p ≡ ok tt
unfolding assert_writable
assert_writable_lem p h = rw h

module _ (p : PoolMembership) (v : IsValid p) (clean : p.config_error ≡ none) where
  abbrev pub without : Text → List Text → List Text
  without u = filter (λ m. not (m == u))

  pub plan-add_member :
      (name u : Text)
      → normalize_username name ≡ ok u
      → plan p (add_member name)
        ≡ ok (
            if member_of p u
            then none
            else some (record p.config { members = sort text_le (p.config.members ++ u ∷ []) }))
  unfolding plan
  plan-add_member name u h =
      rw
        (
          assert_writable_lem p clean,
          h,
          member_set_lem p v,
          normalize_users_of_IsUserList p.config.members v.normal.members,
        )
        (ground (arith, contains-member_set p v u))

  pub plan-remove_member :
      (name u : Text)
      → normalize_username name ≡ ok u
      → plan p (remove_member name) ≡ (
          if admin_of p u
          then err (still_admin u)
          else ok (
              if eqb (length (without u p.config.members)) (length p.config.members)
              then none
              else some (record p.config { members = without u p.config.members })))
  unfolding plan
  plan-remove_member name u h =
      rw
        (
          assert_writable_lem p clean,
          h,
          admin_set_lem p v,
          normalize_users_of_IsUserList p.config.members v.normal.members,
        )
        (ground (arith, contains-admin_set p v u))

  pub plan-add_admin :
      (name u : Text)
      → normalize_username name ≡ ok u
      → plan p (add_admin name)
        ≡ ok (
            if admin_of p u
            then none
            else some (record p.config {
              admins = sort text_le (p.config.admins ++ u ∷ []);
              members = sort text_le (dedup (p.config.members ++ u ∷ []));
            }))
  unfolding plan
  plan-add_admin name u h =
      rw
        (
          assert_writable_lem p clean,
          h,
          admin_set_lem p v,
          normalize_users_of_IsUserList p.config.admins v.normal.admins,
          normalize_users_of_IsUserList p.config.members v.normal.members,
        )
        (ground (arith, contains-admin_set p v u))

  pub plan-remove_admin :
      (name u : Text)
      → normalize_username name ≡ ok u
      → plan p (remove_admin name) ≡ (
          if contains p.bootstrap_admins u
          then err (bootstrap_admin u)
          else if eqb (length (without u p.config.admins)) (length p.config.admins)
          then ok none
          else if is_filled_list (dedup (without u p.config.admins ++ p.bootstrap_admins))
          then ok (some (record p.config { admins = without u p.config.admins }))
          else err last_admin)
  unfolding plan
  plan-remove_admin name u h =
      rw
        (
          assert_writable_lem p clean,
          h,
          normalize_users_of_IsUserList p.config.admins v.normal.admins,
        )
        (ground arith)
