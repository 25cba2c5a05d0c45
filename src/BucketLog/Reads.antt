-- ===== src/BucketLog/Reads.antt =====
-- Reading one segment: `verifyListedObject` and `loadSegment` of `BucketLog` in
-- space/src/bucket-log.ts.
pub mod Authentic
use xtap_pool.Base.{
  DateTimes, Option, Result, Text, delete, eqb, get, guard, is_sha256, length, lit, nat_eq, none,
  not, ok, or_else_throw, or_throw, put, some, text_eq, then_in, ◌++◌, ◌==◌, ◌>>=◌, ◌>>◌, ◌||◌,
}
use xtap_pool.BucketLog.{BucketLog, Client, Object, Platform, Segment, SnapshotFile}
use xtap_pool.BucketLog.Names.{assert_key_matches, segment_hash, validate_operations}
use xtap_pool.BucketLog.Schemas.{require_segment}

module _ ⦃d : DateTimes⦄ (platform : Platform) (client : Client) where
  open platform use {gunzip, sha256, segment_bytes, read_segment}
  open client use {Store, download}

  -- The segment in the bytes of an object, with its description in a snapshot.
  unfoldable pub verified : BucketLog Store → Object → Result Text (Segment × SnapshotFile)
  unfolding segment_hash require_segment validate_operations assert_key_matches
  verified l o = do
    found ← download l.remote o.key
    compressed ← or_throw found (lit "Bucket object disappeared while creating snapshot: " ++ o.key)
    guard (eqb (length compressed) o.size)
        (lit "Bucket object size changed while creating snapshot: " ++ o.key)
    raw ← or_else_throw (gunzip compressed) (lit "Bucket object is not valid gzip: " ++ o.key)
    digest ← segment_hash platform o.key
    guard (sha256 raw == digest) (lit "Bucket object checksum mismatch: " ++ o.key)
    s ← read_segment raw
    require_segment platform s
    validate_operations platform s.operations
    guard (segment_bytes s == raw) (lit "Bucket object is not canonical: " ++ o.key)
    assert_key_matches platform o.key s digest
    ok (
      s,
      record {
        key = o.key;
        oid = sha256 compressed;
        listed_oid = o.oid;
        size = o.size;
        content_sha256 = digest;
      },
    )

  -- `verifyListedObject`.
  unfoldable pub verify_listed_object :
      BucketLog Store → Object → BucketLog Store × Result Text SnapshotFile
  unfolding verified put
  verify_listed_object l o =
      then_in (l, verified l o)
        (λ l₁ found.
          (record l₁ { newly_verified = put l₁.newly_verified o.key found.0 }, ok found.1))

  -- The end of `loadSegment`: the segment is read again.
  unfoldable pub read_again : BucketLog Store → SnapshotFile → Result Text Segment
  unfolding is_sha256 require_segment validate_operations assert_key_matches
  read_again l file = do
    found ← download l.remote file.key
    compressed ← or_throw found (lit "Bucket segment is missing: " ++ file.key)
    guard (eqb (length compressed) file.size) (lit "Bucket segment size mismatch: " ++ file.key)
    guard (not (is_sha256 file.oid) || sha256 compressed == file.oid)
        (lit "Bucket segment object identity mismatch: " ++ file.key)
    raw ← gunzip compressed
    guard (sha256 raw == file.content_sha256) (lit "Bucket segment checksum mismatch: " ++ file.key)
    s ←
        or_else_throw (read_segment raw)
          (lit "Bucket segment is not valid UTF-8 JSON: " ++ file.key)
    require_segment platform s
    validate_operations platform s.operations
    guard (segment_bytes s == raw) (lit "Bucket segment is not canonical: " ++ file.key)
    assert_key_matches platform file.key s file.content_sha256
    ok s

  -- What `loadSegment` does with the segment that was verified before, if any.
  unfoldable pub load_over :
      BucketLog Store → SnapshotFile → Option Segment → BucketLog Store × Result Text Segment
  unfolding delete read_again
  load_over l file (some s) = (record l { newly_verified = delete l.newly_verified file.key }, ok s)
  load_over l file none = (l, read_again l file)

  unfoldable pub check_hash : SnapshotFile → Result Text (Unit {0})
  unfolding segment_hash
  check_hash file = do
    digest ← segment_hash platform file.key
    guard (digest == file.content_sha256)
        (lit "Bucket snapshot segment hash mismatch: " ++ file.key)

  -- `loadSegment`.
  unfoldable pub load_segment :
      BucketLog Store → SnapshotFile → BucketLog Store × Result Text Segment
  unfolding check_hash load_over get
  load_segment l file =
      then_in (l, check_hash file) (λ l₁ _. load_over l₁ file (get l₁.newly_verified file.key))
