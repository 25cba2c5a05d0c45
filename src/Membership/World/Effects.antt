-- ===== src/Membership/World/Effects.antt =====
-- Who belongs to the pool after a mutation that is carried out.
use xtap_pool.Membership.Pool.{
  PoolMembership, PoolSnapshot, Request, access_for, add_admin, add_member, admin, bucket, is_admin,
  is_member, member, member_org_for, plan, remove_member, snapshot,
}
use xtap_pool.Base.{
  All, All-append, All-dedup, All-filter, All-sort, Bool, Bool-cases, List, Text, [],
  absent_of_length, ap, arith, contains, contains-append, contains-dedup, contains-filter,
  contains-sort, dedup, eqb, false, if◌then◌else◌, inl, inr, length, nat_eq, none, not, ok, refl,
  some, sort, sym, text_beq_iff, text_eq, text_le, true, ◌&&◌, ◌++◌, ◌==◌, ◌||◌, ◌∙◌, ◌∷◌, ◌≡◌, ◌≢◌,
}
use xtap_pool.Storage.{StorageLog}
use xtap_pool.Membership.Normal.Names.{normalize_username_idempotent}
use xtap_pool.Membership.Normal.{PoolConfig, PoolIdentityOrg, normalize_username}
use xtap_pool.Membership.Normal.Laws.{
  AreOrgs, IsUserList, normalize_config-IsNormal, normalize_config_of_names,
  normalize_updater_of_name,
}
use xtap_pool.Membership.Pool.Sets.{
  IsValid, access_for_lem, admin_of, is_member-is_admin_lem, member_of, snapshot_lists,
}
use xtap_pool.Membership.World.{
  Codec, World, commit, committed, finish, mutate, pool_config_path, then_snapshot,
}
use xtap_pool.Membership.Pool.Plans.{plan-add_admin, plan-add_member, plan-remove_member, without}

-- A configuration of normalized names that a mutation hands to `commit`.
record IsReady (c : PoolConfig) : Type 0 where
  admins : All (λ u. normalize_username u ≡ ok u) c.admins
  members : All (λ u. normalize_username u ≡ ok u) c.members
  orgs : AreOrgs c.member_orgs

-- The pool is valid with the administrators and the members as given, and with the organizations
-- that it had before.
record Becomes (before p : PoolMembership) (admins members : Text → Bool) : Type 0 where
  admins_lem : (x : Text) → admin_of p x ≡ admins x
  members_lem : (x : Text) → member_of p x ≡ members x
  orgs_lem : p.config.member_orgs ≡ before.config.member_orgs
  valid : IsValid p

-- What the pool answers once a user is a member, against what it answered before.
pub record IsAdded (u : Text) (before p : PoolMembership) : Type 0 where
  pub added :
      (name : Text) (orgs : List PoolIdentityOrg)
      → normalize_username name ≡ ok u
      → (is_member p name ≡ ok true)
        × (is_admin p name ≡ is_admin before name)
        × (access_for p name orgs ≡ ok (some (if admin_of before u then admin else member)))
  pub others :
      (name x : Text) (orgs : List PoolIdentityOrg)
      → normalize_username name ≡ ok x
      → x ≢ u
      → (is_member p name ≡ is_member before name)
        × (is_admin p name ≡ is_admin before name)
        × (access_for p name orgs ≡ access_for before name orgs)
  pub orgs : p.config.member_orgs ≡ before.config.member_orgs

Becomes-IsAdded :
    (u : Text) (before p : PoolMembership)
    → IsValid before
    → Becomes before p (admin_of before) (λ x. u == x || member_of before x)
    → IsAdded u before p
unfolding member_org_for
Becomes-IsAdded u before p v b = record {
  added = λ name orgs h.
      let (members, admins) = is_member-is_admin_lem p b.valid name u h in
      let (_, old) = is_member-is_admin_lem before v name u h in
      let counted : member_of p u ≡ true = b.members_lem u ∙ ground (arith, text_beq_iff u u) in
      (
        members ∙ ap ok counted,
        admins ∙ ap ok (b.admins_lem u) ∙ sym old,
        access_for_lem p b.valid name u orgs h ∙ rw (counted, b.admins_lem u) (ground arith),
      );
  others = λ name x orgs h other.
      let (members, admins) = is_member-is_admin_lem p b.valid name x h in
      let (old_members, old) = is_member-is_admin_lem before v name x h in
      let counted : member_of p x ≡ member_of before x =
        b.members_lem x ∙ ground (arith, text_beq_iff u x) in
      (
        members ∙ ap ok counted ∙ sym old_members,
        admins ∙ ap ok (b.admins_lem x) ∙ sym old,
        access_for_lem p b.valid name x orgs h
            ∙ rw (counted, b.admins_lem x, b.orgs_lem)
                (sym (access_for_lem before v name x orgs h)),
      );
  orgs = b.orgs_lem;
}

module _ (store : StorageLog) (codec : Codec) where
  open store use {Log, read_text, write_text}

  commit_lem :
      (w : World store codec) (actor now : Text) (next c : PoolConfig) (l : Log)
      → committed next actor now ≡ ok c
      → write_text w.log pool_config_path (codec.encode c) ≡ (l, ok tt)
      → commit store codec w next actor now ≡ (
        record {
          pool = record w.pool {
            config = c;
            source = bucket;
            config_error = none;
            config_error_retryable = false;
          };
          log = l;
        },
        ok tt,
      )
  unfolding commit finish
  commit_lem w actor now next c l done written =
      rw (done, commit) (ap (finish store codec w c) written)

  mutate_commits :
      (w w₁ : World store codec) (req : Request) (actor now : Text) (next : PoolConfig)
      → plan w.pool req ≡ ok (some next)
      → commit store codec w next actor now ≡ (w₁, ok tt)
      → mutate store codec w req actor now ≡ (w₁, snapshot w₁.pool)
  unfolding mutate then_snapshot
  mutate_commits w w₁ req actor now next planned done =
      rw (planned, mutate) (ap (then_snapshot store codec) done)

  module _ (w : World store codec) (actor a now : Text) (by : normalize_username actor ≡ ok a)
      (v : IsValid w.pool) (clean : w.pool.config_error ≡ none)
      (writes : (content : Text)
        → (l : Log) × (write_text w.log pool_config_path content ≡ (l, ok tt))) where
    -- The mutation returns, in a world that `Q` holds of.
    abbrev pub Returns : Request → (World store codec → Type 0) → Type 0
    Returns req Q =
        (w₁ : World store codec) × (s : PoolSnapshot) × (mutate store codec w req actor now
          ≡ (w₁, ok s))
        × Q w₁

    -- A ready configuration is committed: the method returns, and the new configuration has its
    -- administrators, and its members with the administrators.
    commits :
        (req : Request) (next : PoolConfig)
        → plan w.pool req ≡ ok (some next)
        → IsReady next
        → Returns req (λ w₁.
          (w₁.pool.bootstrap_admins ≡ w.pool.bootstrap_admins)
          × ((x : Text)
              → (contains w₁.pool.config.admins x ≡ contains next.admins x)
                × (contains w₁.pool.config.members x
                    ≡ (contains next.members x || contains next.admins x)))
          × (w₁.pool.config.member_orgs ≡ next.member_orgs)
          × IsValid w₁.pool)
    unfolding committed
    commits req next planned r =
        let stamped = record next { updated_at = now; updated_by = some a } in
        let (c, run, in_admins, in_members, orgs) =
          normalize_config_of_names stamped r.admins r.members r.orgs
            (normalize_updater_of_name actor a by) in
        let (l, written) = writes (codec.encode c) in
        let p : PoolMembership = record w.pool {
          config = c;
          source = bucket;
          config_error = none;
          config_error_retryable = false;
        } in
        let w₁ : World store codec = record { pool = p; log = l } in
        let whole =
          mutate_commits w w₁ req actor now next planned
            (commit_lem w actor now next c l (rw by run) written) in
        let valid : IsValid p = record {
          normal = normalize_config-IsNormal stamped c run;
          bootstrap = v.bootstrap;
        } in
        let (s, taken, _) = snapshot_lists p valid in
        (
          w₁,
          s,
          whole ∙ ap (λ r. (w₁, r)) taken,
          (refl, λ x. (in_admins x, in_members x), orgs, valid),
        )

    -- Where nothing is to be committed the method returns and the world stays.
    stays : (req : Request) → plan w.pool req ≡ ok none → Returns req (λ w₁. w₁ ≡ w)
    unfolding mutate
    stays req planned =
        let (s, taken, _) = snapshot_lists w.pool v in
        (w, s, rw (planned, mutate) (ap (λ r. (w, r)) taken), refl)

    fixed_names :
        (u : Text) (us : List Text)
        → normalize_username u ≡ ok u
        → IsUserList us
        → All (λ x. normalize_username x ≡ ok x) (us ++ u ∷ [])
    fixed_names u us h k = All-append _ us (u ∷ []) k.names (h, tt)

    add_member-Becomes :
        (name u : Text)
        → normalize_username name ≡ ok u
        → Returns
            (add_member name)
            (λ w₁. Becomes w.pool w₁.pool (admin_of w.pool) (λ x. u == x || member_of w.pool x))
    add_member-Becomes name u h = elim (Bool-cases (member_of w.pool u)) [
      | inl old ↦
          let (w₁, s, run, same) =
            stays (add_member name) (plan-add_member w.pool v clean name u h ∙ rw old) in
          (
            w₁,
            s,
            run,
            rw same (record {
              admins_lem = λ x. refl;
              members_lem = λ x. ground (arith, text_beq_iff u x);
              orgs_lem = refl;
              valid = v;
            }),
          )
      | inr new ↦
          let next = record w.pool.config {
            members = sort text_le (w.pool.config.members ++ u ∷ []);
          } in
          let (w₁, s, run, changed) =
            commits (add_member name) next (plan-add_member w.pool v clean name u h ∙ rw new)
              (record {
                admins = v.normal.admins.names;
                members = All-sort text_le _ (w.pool.config.members ++ u ∷ []) (
                    fixed_names u w.pool.config.members (normalize_username_idempotent name u h)
                      v.normal.members);
                orgs = v.normal.orgs;
              }) in
          (
            w₁,
            s,
            run,
            record {
              admins_lem =
                  λ x. let (kept, facts, _, _) = changed in let (fa, fm) = facts x in rw (fa, kept);
              members_lem = λ x.
                  let (kept, facts, _, _) = changed in
                  let (fa, fm) = facts x in
                  let fs =
                    contains-sort text_le (w.pool.config.members ++ u ∷ []) x
                    ∙ contains-append w.pool.config.members (u ∷ []) x in
                  rw (fm, fa, kept, fs) (ground arith);
              orgs_lem = let (_, _, orgs, _) = changed in orgs;
              valid = let (_, _, _, valid) = changed in valid;
            },
          )
    ]

    -- On a valid pool without a configuration error, whose log takes every write of the configuration,
    -- with an actor and a user whose names normalize, adding the member returns. Then every name that
    -- normalizes to this user's is a member and is admitted, as an administrator if it was one before,
    -- else as a member; for every other name that normalizes, the pool answers as before whether it
    -- is a member or an administrator, and how it is admitted with any organizations; and the
    -- organizations that give access stay.
    pub add_member_effect :
        (name u : Text)
        → normalize_username name ≡ ok u
        → Returns (add_member name) (λ w₁. IsAdded u w.pool w₁.pool)
    add_member_effect name u h =
        let (w₁, s, run, b) = add_member-Becomes name u h in
        (w₁, s, run, Becomes-IsAdded u w.pool w₁.pool v b)

    -- On a valid pool without a configuration error, whose log takes the write, and for an actor
    -- whose name is one, removing a member who is no administrator returns: the named user is one no longer, and nobody
    -- else's standing changes.
    remove_member_effect :
        (name u : Text)
        → normalize_username name ≡ ok u
        → admin_of w.pool u ≡ false
        → Returns (remove_member name) (λ w₁.
          Becomes w.pool w₁.pool (admin_of w.pool) (λ x. not (x == u) && member_of w.pool x))
    remove_member_effect name u h plain =
        let kept_users = without w.pool v clean u w.pool.config.members in
        elim (Bool-cases (eqb (length kept_users) (length w.pool.config.members))) [
          | inl same_length ↦
              let (w₁, s, run, same) =
                stays (remove_member name)
                  (plan-remove_member w.pool v clean name u h ∙ rw (plain, same_length)) in
              let absent = absent_of_length u w.pool.config.members same_length in
              (
                w₁,
                s,
                run,
                rw same (record {
                  admins_lem = λ x. refl;
                  members_lem = λ x. ground (arith, text_beq_iff x u);
                  orgs_lem = refl;
                  valid = v;
                }),
              )
          | inr shorter ↦
              let next = record w.pool.config { members = kept_users } in
              let (w₁, s, run, changed) =
                commits (remove_member name) next
                  (plan-remove_member w.pool v clean name u h ∙ rw (plain, shorter))
                  (record {
                    admins = v.normal.admins.names;
                    members = All-filter _ _ w.pool.config.members v.normal.members.names;
                    orgs = v.normal.orgs;
                  }) in
              (
                w₁,
                s,
                run,
                record {
                  admins_lem = λ x.
                      let (kept, facts, _, _) = changed in let (fa, fm) = facts x in rw (fa, kept);
                  members_lem = λ x.
                      let (kept, facts, _, _) = changed in
                      let (fa, fm) = facts x in
                      let fs = contains-filter (λ m. not (m == u)) w.pool.config.members x in
                      rw (fm, fa, kept, fs) (ground (arith, text_beq_iff x u));
                  orgs_lem = let (_, _, orgs, _) = changed in orgs;
                  valid = let (_, _, _, valid) = changed in valid;
                },
              )
        ]

    -- On a valid pool without a configuration error, whose log takes the write, and for an actor
    -- whose name is one, adding an administrator returns: the named user becomes administrator and member, and nobody else's
    -- standing changes.
    add_admin_effect :
        (name u : Text)
        → normalize_username name ≡ ok u
        → Returns (add_admin name) (λ w₁.
          Becomes w.pool w₁.pool
            (λ x. u == x || admin_of w.pool x)
            (λ x. u == x || member_of w.pool x))
    add_admin_effect name u h = elim (Bool-cases (admin_of w.pool u)) [
      | inl old ↦
          let (w₁, s, run, same) =
            stays (add_admin name) (plan-add_admin w.pool v clean name u h ∙ rw old) in
          (
            w₁,
            s,
            run,
            rw same (record {
              admins_lem = λ x. ground (arith, text_beq_iff u x);
              members_lem = λ x. ground (arith, text_beq_iff u x);
              orgs_lem = refl;
              valid = v;
            }),
          )
      | inr new ↦
          let fixed = normalize_username_idempotent name u h in
          let next = record w.pool.config {
            admins = sort text_le (w.pool.config.admins ++ u ∷ []);
            members = sort text_le (dedup (w.pool.config.members ++ u ∷ []));
          } in
          let (w₁, s, run, changed) =
            commits (add_admin name) next (plan-add_admin w.pool v clean name u h ∙ rw new)
              (record {
                admins =
                    All-sort text_le _ (w.pool.config.admins ++ u ∷ [])
                      (fixed_names u w.pool.config.admins fixed v.normal.admins);
                members = All-sort text_le _ (dedup (w.pool.config.members ++ u ∷ [])) (
                    All-dedup _ (w.pool.config.members ++ u ∷ [])
                      (fixed_names u w.pool.config.members fixed v.normal.members));
                orgs = v.normal.orgs;
              }) in
          (
            w₁,
            s,
            run,
            record {
              admins_lem = λ x.
                  let (kept, facts, _, _) = changed in
                  let (fa, fm) = facts x in
                  rw (fa, kept, sorted_in w.pool.config.admins u x) (ground arith);
              members_lem = λ x.
                  let (kept, facts, _, _) = changed in
                  let (fa, fm) = facts x in
                  let fs =
                    contains-sort text_le (dedup (w.pool.config.members ++ u ∷ [])) x
                    ∙ contains-dedup (w.pool.config.members ++ u ∷ []) x
                    ∙ contains-append w.pool.config.members (u ∷ []) x in
                  rw (fm, fa, kept, fs, sorted_in w.pool.config.admins u x) (ground arith);
              orgs_lem = let (_, _, orgs, _) = changed in orgs;
              valid = let (_, _, _, valid) = changed in valid;
            },
          )
    ]
      where
        sorted_in :
            (us : List Text) (u x : Text)
            → contains (sort text_le (us ++ u ∷ [])) x ≡ (contains us x || contains (u ∷ []) x)
        sorted_in us u x = contains-sort text_le (us ++ u ∷ []) x ∙ contains-append us (u ∷ []) x
