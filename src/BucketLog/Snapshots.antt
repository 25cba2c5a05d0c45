-- ===== src/BucketLog/Snapshots.antt =====
-- The snapshots of `BucketLog` in space/src/bucket-log.ts.
pub mod Head
use xtap_pool.Base.{
  Bool, DateTimes, List, Option, Result, Text, [], contains, eqb, err, false, filter, find, get,
  guard, if◌then◌else◌, is_sha256, is_some, lit, map, nat_eq, none, not, ok, or_else_throw,
  or_throw, put_all, some, sort, text_eq, then_in, traverse_in, values, ◌++◌, ◌==◌, ◌>>=◌, ◌>>◌,
  ◌∷◌,
}
use xtap_pool.BucketLog.{
  BucketLog, Bytes, Client, Object, Platform, Segment, Snapshot, SnapshotFile,
}
use xtap_pool.BucketLog.Keys.{segment_prefix, snapshot_prefix}
use xtap_pool.BucketLog.Schemas.{file_key, require_snapshot}
use xtap_pool.BucketLog.Reads.{load_segment, verify_listed_object}
use xtap_pool.BucketLog.Writes.{upload_new}

abbrev pub object_key : Object → Text
object_key o = o.key

-- `rememberFiles`.
unfoldable pub remember_files : {S : Type 0} → BucketLog S → List SnapshotFile → BucketLog S
unfolding put_all
remember_files l files = record l { known_files = put_all file_key [] files }

abbrev pub is_listed : Option Text → Text → Bool
is_listed none oid = false
is_listed (some listed) oid = listed == oid

-- `object.oid !== undefined && old.listed_oid === object.oid`.
abbrev pub same_listing : SnapshotFile → Option Text → Bool
same_listing old none = false
same_listing old (some oid) = is_listed old.listed_oid oid

-- The first file of a list whose key is not listed.
abbrev pub first_deleted : List SnapshotFile → List Object → Option SnapshotFile
first_deleted files objects =
    find (λ (file : SnapshotFile). not (contains (map object_key objects) file.key)) files

abbrev pub no_deleted : Option SnapshotFile → Result Text (Unit {0})
no_deleted none = ok tt
no_deleted (some file) = err (lit "raw Bucket source segments were deleted: " ++ file.key)

abbrev pub changed : Text → Text
changed key = lit "raw Bucket source segment changed: " ++ key

abbrev pub described : SnapshotFile → Object → SnapshotFile → SnapshotFile
described old o file = if is_some o.oid then file else old

abbrev pub snapshot_of : Text → List SnapshotFile → Snapshot
snapshot_of name files = record { schema_version = 1; bucket = name; files = files }

abbrev pub snapshot_key : Text → Text
snapshot_key revision = snapshot_prefix ++ (lit "/" ++ (revision ++ lit ".json"))

abbrev pub read_back : Text → Bytes → Option Bytes → Result Text (Unit {0})
read_back key raw none = err (lit "Bucket snapshot read-back mismatch: " ++ key)
read_back key raw (some stored) =
    guard (stored == raw) (lit "Bucket snapshot read-back mismatch: " ++ key)

abbrev pub only_object : Text → List Object → Result Text Object
only_object key (o ∷ []) = ok o
only_object key _ = err (lit "Bucket segment key is not unique: " ++ key)

module _ ⦃d : DateTimes⦄ (platform : Platform) (client : Client) where
  open platform use {sha256, snapshot_bytes, read_snapshot, locale_le}
  open client use {Store, list, download}

  -- A known file that has to be verified again: its new description.
  unfoldable pub verify_known :
      BucketLog Store → SnapshotFile → Object → BucketLog Store × Result Text SnapshotFile
  unfolding verify_listed_object
  verify_known l old o =
      let r = verify_listed_object platform client l o in
      then_in (r.0, or_else_throw r.1 (changed o.key))
        (λ l₁ file. (l₁, do guard (file.oid == old.oid) (changed o.key); ok file))

  -- One round of the loop of `discoverSnapshot`.
  unfoldable pub discover_over :
      BucketLog Store → Object → Option SnapshotFile → BucketLog Store × Result Text SnapshotFile
  unfolding verify_listed_object verify_known
  discover_over l o none = verify_listed_object platform client l o
  discover_over l o (some old) =
      if not (eqb old.size o.size)
      then (l, err (lit "Bucket object size changed while discovering head: " ++ o.key))
      else if same_listing old o.oid
      then (l, ok old)
      else then_in (verify_known l old o) (λ l₁ file. (l₁, ok (described old o file)))

  unfoldable pub discover_one :
      List (Text × SnapshotFile)
      → BucketLog Store
      → Object
      → BucketLog Store × Result Text SnapshotFile
  unfolding discover_over get
  discover_one previous l o = discover_over l o (get previous o.key)

  abbrev pub by_locale : Object → Object → Bool
  by_locale a b = locale_le a.key b.key

  -- `discoverSnapshot` behind the listing.
  unfoldable pub discover_listed :
      List SnapshotFile
      → BucketLog Store
      → List Object
      → BucketLog Store × Result Text (Text × Snapshot)
  unfolding put_all discover_one require_snapshot remember_files
  discover_listed baseline l objects =
      then_in (l, no_deleted (first_deleted baseline objects))
        (λ l₁ _.
          then_in (traverse_in (discover_one (put_all file_key [] baseline)) l₁ objects)
            (λ l₂ files.
              then_in (l₂, require_snapshot platform (snapshot_of l₂.name files))
                (λ l₃ _. (
                  remember_files l₃ files,
                  ok (
                    sha256 (snapshot_bytes (snapshot_of l₃.name files)),
                    snapshot_of l₃.name files,
                  ),
                ))))

  unfoldable pub baseline_of : BucketLog Store → Option (List SnapshotFile) → List SnapshotFile
  unfolding values
  baseline_of l none = values l.known_files
  baseline_of l (some known) = known

  -- `discoverSnapshot`, its revision and its snapshot.
  unfoldable pub discover_snapshot :
      BucketLog Store → Option (List SnapshotFile) → BucketLog Store × Result Text (Text × Snapshot)
  unfolding discover_listed
  discover_snapshot l known =
      then_in (l, list l.remote segment_prefix)
        (λ l₁ objects. discover_listed (baseline_of l₁ known) l₁ (sort by_locale objects))

  unfoldable pub same_source : BucketLog Store → Snapshot → Result Text (Unit {0})
  same_source l s = guard (s.bucket == l.name) (lit "Bucket snapshot source mismatch: " ++ s.bucket)

  -- `storeSnapshot` behind its checks.
  unfoldable pub store_checked :
      Snapshot → BucketLog Store → BucketLog Store × Result Text (Text × Snapshot)
  unfolding upload_new
  store_checked s l =
      let raw = snapshot_bytes s in
      let revision = sha256 raw in
      let key = snapshot_key revision in
      then_in (l, download l.remote key)
        (λ l₁ existing. then_in (upload_new platform client l₁ key raw existing) (λ l₂ _.
          then_in (l₂, download l₂.remote key)
            (λ l₃ stored. (l₃, do read_back key raw stored; ok (revision, s)))))

  -- `storeSnapshot`.
  unfoldable pub store_snapshot :
      BucketLog Store → Snapshot → BucketLog Store × Result Text (Text × Snapshot)
  unfolding require_snapshot same_source store_checked
  store_snapshot l s =
      then_in (l, do require_snapshot platform s; same_source l s) (λ l₁ _. store_checked s l₁)

  -- `createSnapshot`.
  unfoldable pub create_snapshot : BucketLog Store → BucketLog Store × Result Text (Text × Snapshot)
  unfolding discover_snapshot store_snapshot
  create_snapshot l =
      then_in (discover_snapshot l (some []))
        (λ l₁ found. store_snapshot (record l₁ { newly_verified = [] }) found.1)

  -- The snapshot of a revision, as it is read.
  unfoldable pub read_revision : BucketLog Store → Text → Result Text Snapshot
  unfolding is_sha256 require_snapshot same_source
  read_revision l revision = do
    guard (is_sha256 revision) (lit "invalid Bucket snapshot revision: " ++ revision)
    found ← download l.remote (snapshot_key revision)
    raw ← or_throw found (lit "Bucket snapshot is missing: " ++ snapshot_key revision)
    guard (sha256 raw == revision)
        (lit "Bucket snapshot checksum mismatch: " ++ snapshot_key revision)
    s ←
        or_else_throw (read_snapshot raw)
          (lit "Bucket snapshot is not valid UTF-8 JSON: " ++ snapshot_key revision)
    require_snapshot platform s
    same_source l s
    ok s

  -- `loadSnapshot`.
  unfoldable pub load_snapshot : BucketLog Store → Text → BucketLog Store × Result Text Snapshot
  unfolding read_revision remember_files
  load_snapshot l revision =
      then_in (l, read_revision l revision) (λ l₁ s. (remember_files l₁ s.files, ok s))

  -- `verifyListedObject`, then `loadSegment`.
  unfoldable pub load_listed :
      BucketLog Store → Object → BucketLog Store × Result Text (SnapshotFile × Segment)
  unfolding verify_listed_object load_segment
  load_listed l o =
      then_in (verify_listed_object platform client l o)
        (λ l₁ file. then_in (load_segment platform client l₁ file) (λ l₂ s. (l₂, ok (file, s))))

  -- `loadSegmentByKey`.
  unfoldable pub load_segment_by_key :
      BucketLog Store → Text → BucketLog Store × Result Text (SnapshotFile × Segment)
  unfolding load_listed
  load_segment_by_key l key =
      then_in
        (
          l,
          do
            objects ← list l.remote key
            only_object key (filter (λ (o : Object). o.key == key) objects),
        )
        load_listed
