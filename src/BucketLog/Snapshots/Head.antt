-- ===== src/BucketLog/Snapshots/Head.antt =====
-- A discovered snapshot is the head of an append-only log.
use mathlib.Core.Path.{subst}
use xtap_pool.Base.{
  All, All-map, All-put_all, AllPairs, Bool-cases, DateTimes, List, Option, Result, Text, [], ap,
  arith, contains, eq_of_==, eqb, eqb_iff, err_not_ok, find-none, get, get-All, guard-eq-ok,
  guard-true, inl, inr, is_some, map, nat_eq, none, ok, ok-injective, or_else_throw-eq-ok, put_all,
  refl, returned, some, sort, sym, text_eq, then_in-ok, traverse_in, traverse_in-AllPairs, true,
  with_state, ◌==◌, ◌∙◌, ◌∷◌, ◌≡◌,
}
use xtap_pool.BucketLog.{BucketLog, Client, Object, Platform, Segment, Snapshot, SnapshotFile}
use xtap_pool.BucketLog.Reads.Authentic.{IsVerified, verify_listed_object-IsVerified}
use xtap_pool.BucketLog.Snapshots.{
  baseline_of, by_locale, described, discover_listed, discover_one, discover_over,
  discover_snapshot, first_deleted, no_deleted, object_key, remember_files, same_listing,
  snapshot_of, verify_known,
}
use xtap_pool.BucketLog.Reads.{verified, verify_listed_object}
use xtap_pool.BucketLog.Keys.{segment_prefix}
use xtap_pool.BucketLog.Schemas.{file_key, require_snapshot, snapshot_ok}

module _ ⦃d : DateTimes⦄ (platform : Platform) (client : Client) where
  open platform use {sha256, snapshot_bytes}
  open client use {Store, list}

  -- The description of a listed object: an object that was known before has kept its content and
  -- its size, and either its listing is the known one or it was verified again; a new object was
  -- verified.
  pub data IsFound (previous : List (Text × SnapshotFile)) (remote : Store) (o : Object)
      (file : SnapshotFile) : Type 0 where
    listed :
        (old : SnapshotFile)
        → get previous o.key ≡ some old
        → same_listing old o.oid ≡ true
        → old.size ≡ o.size
        → file ≡ old
        → IsFound previous remote o file
    verified_again :
        (old : SnapshotFile)
        → get previous o.key ≡ some old
        → (s : Segment) × (v : SnapshotFile) × IsVerified platform client remote o s v
          × (v.oid ≡ old.oid)
          × (file ≡ described old o v)
        → old.size ≡ o.size
        → IsFound previous remote o file
    new :
        get previous o.key ≡ none
        → (s : Segment) → IsVerified platform client remote o s file
        → IsFound previous remote o file

  -- Reads leave the Bucket and the name as they are.
  abbrev pub IsSame : BucketLog Store → BucketLog Store → Type 0
  IsSame l l' = (l'.remote ≡ l.remote) × (l'.name ≡ l.name)

  verify_listed_lem :
      (l l' : BucketLog Store) (o : Object) (file : SnapshotFile)
      → verify_listed_object platform client l o ≡ (l', ok file)
      → IsSame l l' × (s : Segment) × IsVerified platform client l.remote o s file
  verify_listed_lem l l' o file h =
      let (s, found, state) = verify_listed_object-IsVerified platform client l l' o file h in
      (
        (ap (λ (m : BucketLog Store). m.remote) state, ap (λ (m : BucketLog Store). m.name) state),
        s,
        found,
      )

  verify_known_lem :
      (l l' : BucketLog Store) (old : SnapshotFile) (o : Object) (file : SnapshotFile)
      → verify_known platform client l old o ≡ (l', ok file)
      → IsSame l l'
        × (s : Segment) × IsVerified platform client l.remote o s file
        × (file.oid ≡ old.oid)
  unfolding verify_known
  verify_known_lem l l' old o file h =
      let r = verify_listed_object platform client l o in
      let (v, found, h₁) = then_in-ok _ _ l' file h in
      let state = ap (λ (x : BucketLog Store × Result Text SnapshotFile). x.0) h₁ in
      let checked = ap (λ (x : BucketLog Store × Result Text SnapshotFile). x.1) h₁ in
      let (same, whole) = guard-eq-ok (v.oid == old.oid) _ _ checked in
      let (kept, s, verified) =
        verify_listed_lem l r.0 o v (with_state r (ok v) (or_else_throw-eq-ok r.1 _ found)) in
      rw (← state, ← ok-injective whole) (kept, s, verified, eq_of_== v.oid old.oid same)

  discover_over_lem :
      (previous : List (Text × SnapshotFile)) (l l' : BucketLog Store) (o : Object)
      (file : SnapshotFile) (known : Option SnapshotFile)
      → get previous o.key ≡ known
      → discover_over platform client l o known ≡ (l', ok file)
      → IsSame l l' × IsFound previous l.remote o file
  unfolding discover_over
  discover_over_lem previous l l' o file none known h =
      let (same, s, verified) = verify_listed_lem l l' o file h in (same, new known s verified)
  discover_over_lem previous l l' o file (some old) known h =
      elim (Bool-cases (eqb old.size o.size)) [
        | inr differs ↦ absurd (
            err_not_ok _ file
              (ap (λ (x : BucketLog Store × Result Text SnapshotFile). x.1) (rw differs at h)))
        | inl sized ↦ elim (Bool-cases (same_listing old o.oid)) [
          | inl same ↦
              let (state, whole) = returned (rw (sized, same) at h) in
              rw (← state) (
                (refl, refl),
                listed old known same ((eqb_iff old.size o.size).0 sized) (sym whole),
              )
          | inr other ↦
              let (v, found, last) = then_in-ok _ _ l' file (rw (sized, other) at h) in
              let r = verify_known platform client l old o in
              let (kept, s, verified, unchanged) =
                verify_known_lem l r.0 old o v (with_state r (ok v) found) in
              let (state, whole) = returned last in
              rw (← state) (
                kept,
                verified_again old known (s, v, verified, unchanged, sym whole)
                    ((eqb_iff old.size o.size).0 sized),
              )
        ]
      ]

  -- A snapshot that describes a listing in its order. It is well formed, every file that was known
  -- is in it, and each of its files is one that was known and did not change, or was verified.
  pub record IsHead (l l' : BucketLog Store) (baseline : List SnapshotFile) (revision : Text)
      (snapshot : Snapshot) : Type 0 where
    pub objects : List Object
    pub listing : list l.remote segment_prefix ≡ ok objects
    pub found :
        AllPairs
          (IsFound (put_all file_key [] baseline) l.remote)
          (sort (by_locale platform client) objects)
          snapshot.files
    pub keys :
        map file_key snapshot.files ≡ map object_key (sort (by_locale platform client) objects)
    pub kept :
        All (λ (f : SnapshotFile). contains (map file_key snapshot.files) f.key ≡ true) baseline
    pub well_formed : snapshot_ok snapshot ≡ true
    pub own_revision : revision ≡ sha256 (snapshot_bytes snapshot)
    pub source : snapshot.bucket ≡ l.name
    pub noted : l'.known_files ≡ put_all file_key [] snapshot.files

  IsFound-key :
      (previous : List (Text × SnapshotFile)) (remote : Store) (o : Object) (file : SnapshotFile)
      → All (λ (e : Text × SnapshotFile). e.1.key ≡ e.0) previous
      → IsFound previous remote o file
      → file.key ≡ o.key
  IsFound-key previous remote o file own (listed old known same sized e) =
      ap file_key e ∙ get-All _ previous o.key old own known
  IsFound-key previous remote o file own
        (verified_again old known (s, v, verified, same, e) sized) =
      ap file_key e ∙ elim (Bool-cases (is_some o.oid)) [
        | inl given ↦ rw given verified.same_key
        | inr absent ↦ rw absent (get-All _ previous o.key old own known)
      ]
  IsFound-key previous remote o file own (new known s verified) = verified.same_key

  found_keys :
      (previous : List (Text × SnapshotFile)) (remote : Store) (objects : List Object)
      (files : List SnapshotFile)
      → All (λ (e : Text × SnapshotFile). e.1.key ≡ e.0) previous
      → AllPairs (IsFound previous remote) objects files
      → map file_key files ≡ map object_key objects
  found_keys previous remote [] [] own h = refl
  found_keys previous remote [] (f ∷ files) own h = absurd h
  found_keys previous remote (o ∷ objects) [] own h = absurd h
  found_keys previous remote (o ∷ objects) (f ∷ files) own h =
      rw (IsFound-key previous remote o f own h.0, found_keys previous remote objects files own h.1)

  all_kept :
      (baseline : List SnapshotFile) (objects : List Object)
      → first_deleted baseline objects ≡ none
      → All (λ (f : SnapshotFile). contains (map object_key objects) f.key ≡ true) baseline
  all_kept baseline objects h = All-map (λ f e. ground (arith, e)) baseline (find-none _ baseline h)

  no_deleted_lem : (o : Option SnapshotFile) → no_deleted o ≡ ok tt → o ≡ none
  no_deleted_lem none h = refl
  no_deleted_lem (some file) h = cc

  require_snapshot_lem : (s : Snapshot) → require_snapshot platform s ≡ ok tt → snapshot_ok s ≡ true
  unfolding require_snapshot
  require_snapshot_lem s h = guard-true (snapshot_ok s) _ h

  -- A discovery that succeeds describes the whole listing: the files of its snapshot have the keys
  -- of the listing in its order, every file of the baseline is among them, and each was known with
  -- the same size and, unless its listed identity is the known one, verified again with the known
  -- digest, or it is new and verified. The snapshot is well formed, and its files are the known ones.
  pub discover_snapshot-IsHead :
      (l l' : BucketLog Store) (known : Option (List SnapshotFile)) (revision : Text)
      (snapshot : Snapshot)
      → discover_snapshot platform client l known ≡ (l', ok (revision, snapshot))
      → IsHead l l' (baseline_of platform client l known) revision snapshot
  unfolding discover_snapshot discover_listed discover_one remember_files
  discover_snapshot-IsHead l l' known revision snapshot h =
      let baseline = baseline_of platform client l known in
      let previous = put_all file_key [] baseline in
      let (objects, listing, h₁) = then_in-ok _ _ l' (revision, snapshot) h in
      let (_, present, h₂) = then_in-ok _ _ l' (revision, snapshot) h₁ in
      let (files, found, h₃) = then_in-ok _ _ l' (revision, snapshot) h₂ in
      let (_, required, last) = then_in-ok _ _ l' (revision, snapshot) h₃ in
      let sorted = sort (by_locale platform client) objects in
      let loop = traverse_in (discover_one platform client previous) l sorted in
      let ((remote, name), pairs) =
        traverse_in-AllPairs (IsSame l) (IsFound previous l.remote)
          (discover_one platform client previous)
          (λ s t o file same step.
            let (next, one) = discover_over_lem previous s t o file _ refl step in
            ((next.0 ∙ same.0, next.1 ∙ same.1), subst (λ r. IsFound previous r o file) same.0 one))
          l loop.0 sorted files (refl, refl) (with_state loop (ok files) found) in
      let own : All (λ (e : Text × SnapshotFile). e.1.key ≡ e.0) previous =
        All-put_all _ file_key [] baseline (λ f. refl) tt in
      let keys = found_keys previous l.remote sorted files own pairs in
      let kept = all_kept baseline sorted (no_deleted_lem _ present) in
      rw (← (returned last).0) (
        subst (λ (r : Text × Snapshot). IsHead l (remember_files loop.0 files) baseline r.0 r.1)
          (returned last).1
          (record {
            objects = objects;
            listing = listing;
            found = pairs;
            keys = keys;
            kept = rw keys kept;
            well_formed = require_snapshot_lem (snapshot_of loop.0.name files) required;
            own_revision = refl;
            source = name;
            noted = refl;
          }))
