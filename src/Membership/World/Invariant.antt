-- ===== src/Membership/World/Invariant.antt =====
-- The pool stays valid, and a mutation that throws leaves it as it was.
use xtap_pool.Base.{
  >>=-eq-ok, List, Result, Result-cases, Text, [], ap, arith, contains, err, inl, inr, nat_eq, none,
  ok, refl, some, text_eq, true, ◌∙◌, ◌∷◌, ◌≡◌,
}
use xtap_pool.Storage.{StorageLog}
use xtap_pool.Membership.Normal.{
  Error, PoolConfig, PoolIdentityOrg, normalize_config, normalize_username, normalize_users,
}
use xtap_pool.Membership.Normal.Laws.{
  IsNormal, normalize_config-IsNormal, normalize_users-IsUserList,
}
use xtap_pool.Membership.Pool.{
  PoolMembership, Request, access_for, admin, is_admin, is_member, or_first, plan,
}
use xtap_pool.Membership.Pool.Sets.{
  IsValid, access_for_lem, admin_of, is_member-is_admin_lem, snapshot_lists,
}
use xtap_pool.Membership.World.{
  Codec, World, commit, committed, finish, load, load_config, mutate, pool_config_path,
  then_snapshot,
}

committed-IsNormal :
    (next c : PoolConfig) (actor now : Text) → committed next actor now ≡ ok c → IsNormal c
unfolding committed
committed-IsNormal next c actor now h =
    let (updater, _, h₁) = >>=-eq-ok (normalize_username actor) _ h in
    normalize_config-IsNormal (record next { updated_at = now; updated_by = some updater }) c h₁

module _ (store : StorageLog) (codec : Codec) where
  open store use {Log, read_text, write_text}

  then_snapshot_pool :
      (r : World store codec × Result Error (Unit {0})) → (then_snapshot store codec r).0 ≡ r.0
  unfolding then_snapshot
  then_snapshot_pool (u, ok _) = refl
  then_snapshot_pool (u, err e) = refl

  module _ (w : World store codec) (v : IsValid w.pool) where
    finish-IsValid :
        (c : PoolConfig) (r : Log × Result Text (Unit {0}))
        → IsNormal c
        → IsValid (finish store codec w c r).0.pool
    unfolding finish
    finish-IsValid c (l, err m) n = v
    finish-IsValid c (l, ok _) n = record { normal = n; bootstrap = v.bootstrap }

    commit-IsValid :
        (next : PoolConfig) (actor now : Text)
        → IsValid (commit store codec w next actor now).0.pool
    unfolding commit
    commit-IsValid next actor now = elim (Result-cases (committed next actor now)) [
      | inl (c, e) ↦
          rw (e, commit)
            (finish-IsValid c (write_text w.log pool_config_path (codec.encode c))
              (committed-IsNormal next c actor now e))
      | inr (x, e) ↦ rw (e, commit) v
    ]

    -- Every mutation of a valid pool leaves it valid, whether it returns or throws.
    pub mutate-IsValid :
        (req : Request) (actor now : Text) → IsValid (mutate store codec w req actor now).0.pool
    unfolding mutate
    mutate-IsValid req actor now = elim (Result-cases (plan w.pool req)) [
      | inr (x, e) ↦ rw (e, mutate) v
      | inl (none, e) ↦ rw (e, mutate) v
      | inl (some next, e) ↦
          rw (e, mutate, then_snapshot_pool (commit store codec w next actor now))
            (commit-IsValid next actor now)
    ]

    finish_error :
        (c : PoolConfig) (r : Log × Result Text (Unit {0})) (x : Error)
        → (finish store codec w c r).1 ≡ err x
        → (finish store codec w c r).0.pool ≡ w.pool
    unfolding finish
    finish_error c (l, err m) x h = refl
    finish_error c (l, ok _) x h = cc

    commit_error :
        (next : PoolConfig) (actor now : Text) (x : Error)
        → (commit store codec w next actor now).1 ≡ err x
        → (commit store codec w next actor now).0.pool ≡ w.pool
    unfolding commit
    commit_error next actor now x h = elim (Result-cases (committed next actor now)) [
      | inl (c, e) ↦
          rw (e, commit)
            (finish_error c (write_text w.log pool_config_path (codec.encode c)) x
              (rw (e, commit) at h))
      | inr (y, e) ↦ rw (e, commit)
    ]

    -- After a commit the snapshot of the valid pool cannot fail.
    snapshot_error :
        (r : World store codec × Result Error (Unit {0})) (x : Error)
        → IsValid r.0.pool
        → (then_snapshot store codec r).1 ≡ err x
        → r.1 ≡ err x
    unfolding then_snapshot
    snapshot_error (u, ok _) x k h = let (s, e, _) = snapshot_lists u.pool k in cc
    snapshot_error (u, err e) x k h = cc

    -- A mutation of a valid pool that throws, at any point and for any reason, leaves the pool as
    -- it was.
    pub mutate_error :
        (req : Request) (actor now : Text) (x : Error)
        → (mutate store codec w req actor now).1 ≡ err x
        → (mutate store codec w req actor now).0.pool ≡ w.pool
    unfolding mutate
    mutate_error req actor now x h = elim (Result-cases (plan w.pool req)) [
      | inr (y, e) ↦ rw (e, mutate)
      | inl (none, e) ↦ rw (e, mutate)
      | inl (some next, e) ↦
          let r = commit store codec w next actor now in
          let failed = snapshot_error r x (commit-IsValid next actor now) (rw (e, mutate) at h) in
          rw (e, mutate, then_snapshot_pool r) (commit_error next actor now x failed)
    ]

  -- A pool that loads is valid, whatever the log holds.
  pub load-IsValid :
      (bootstrap_members bootstrap_admins : List Text) (now : Text) (l : Log) (p : PoolMembership)
      → load store codec bootstrap_members bootstrap_admins now l ≡ ok p
      → IsValid p
  unfolding load
  load-IsValid ms as_ now l p h =
      let (loaded, _, h₁) = >>=-eq-ok (load_config store codec ms as_ now l) _ h in
      let (admins, run_a, h₂) = >>=-eq-ok (normalize_users (or_first as_ ms)) _ h₁ in
      let (config, run_c, h₃) = >>=-eq-ok (normalize_config loaded.config) _ h₂ in
      let e : p ≡ record {
        config = config;
        bootstrap_admins = admins;
        source = loaded.source;
        config_error = loaded.config_error;
        config_error_retryable = loaded.retryable;
      } =
        ground arith in
      rw e (record {
        normal = normalize_config-IsNormal loaded.config config run_c;
        bootstrap = normalize_users-IsUserList (or_first as_ ms) admins run_a;
      })

  -- Mutations one after the other, each with its actor and time.
  unfoldable pub run : World store codec → List (Request × Text × Text) → World store codec
  run w [] = w
  run w ((req, actor, now) ∷ rest) = run (mutate store codec w req actor now).0 rest

  finish_bootstrap :
      (w : World store codec) (c : PoolConfig) (r : Log × Result Text (Unit {0}))
      → (finish store codec w c r).0.pool.bootstrap_admins ≡ w.pool.bootstrap_admins
  unfolding finish
  finish_bootstrap w c (l, ok _) = refl
  finish_bootstrap w c (l, err m) = refl

  commit_bootstrap :
      (w : World store codec) (next : PoolConfig) (actor now : Text)
      → (commit store codec w next actor now).0.pool.bootstrap_admins ≡ w.pool.bootstrap_admins
  unfolding commit
  commit_bootstrap w next actor now = elim (Result-cases (committed next actor now)) [
    | inr (y, e) ↦ rw (e, commit)
    | inl (c, e) ↦
        rw (e, commit) (finish_bootstrap w c (write_text w.log pool_config_path (codec.encode c)))
  ]

  mutate_bootstrap :
      (w : World store codec) (req : Request) (actor now : Text)
      → (mutate store codec w req actor now).0.pool.bootstrap_admins ≡ w.pool.bootstrap_admins
  unfolding mutate
  mutate_bootstrap w req actor now = elim (Result-cases (plan w.pool req)) [
    | inr (y, e) ↦ rw (e, mutate)
    | inl (none, e) ↦ rw (e, mutate)
    | inl (some next, e) ↦
        rw (e, mutate, then_snapshot_pool (commit store codec w next actor now))
          (commit_bootstrap w next actor now)
  ]

  bootstrap_admin_lem :
      (p : PoolMembership) (name u : Text) (orgs : List PoolIdentityOrg)
      → IsValid p
      → normalize_username name ≡ ok u
      → contains p.bootstrap_admins u ≡ true
      → (is_admin p name ≡ ok true)
        × (is_member p name ≡ ok true)
        × (access_for p name orgs ≡ ok (some admin))
  bootstrap_admin_lem p name u orgs v h found =
      let (members, admins) = is_member-is_admin_lem p v name u h in
      let counted : admin_of p u ≡ true = ground arith in
      (
        admins ∙ ap ok counted,
        members ∙ ap ok (ground arith),
        access_for_lem p v name u orgs h ∙ rw counted,
      )

  run-IsValid :
      (w : World store codec) (reqs : List (Request × Text × Text))
      → IsValid w.pool
      → IsValid (run w reqs).pool × ((run w reqs).pool.bootstrap_admins ≡ w.pool.bootstrap_admins)
  unfolding run
  run-IsValid w [] v = (v, refl)
  run-IsValid w ((req, actor, now) ∷ rest) v =
      let w₁ = (mutate store codec w req actor now).0 in
      let (v', e) = run-IsValid w₁ rest (mutate-IsValid w v req actor now) in
      (v', e ∙ mutate_bootstrap w req actor now)

  -- Whatever mutations of a valid pool are asked for, one after the other, and whether each returns
  -- or throws, the pool stays valid, and for every name that normalizes to a bootstrap administrator
  -- of the first pool the last one answers that it is an administrator and a member, and admits it as
  -- an administrator, whatever its organizations.
  pub run_keeps_bootstrap_admins :
      (w : World store codec) (reqs : List (Request × Text × Text)) (name u : Text)
      → (orgs : List PoolIdentityOrg) → IsValid w.pool
      → normalize_username name ≡ ok u
      → contains w.pool.bootstrap_admins u ≡ true
      → IsValid (run w reqs).pool
        × (is_admin (run w reqs).pool name ≡ ok true)
        × (is_member (run w reqs).pool name ≡ ok true)
        × (access_for (run w reqs).pool name orgs ≡ ok (some admin))
  run_keeps_bootstrap_admins w reqs name u orgs v h found =
      let (v', e) = run-IsValid w reqs v in
      let (admins, members, access) =
        bootstrap_admin_lem (run w reqs).pool name u orgs v' h
          (ap (λ us. contains us u) e ∙ found) in
      (v', admins, members, access)
