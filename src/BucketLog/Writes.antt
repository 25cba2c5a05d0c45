-- ===== src/BucketLog/Writes.antt =====
-- Writing: `putSegment`, `commitBatch` and `writeText` of `BucketLog` in space/src/bucket-log.ts.
-- The time and the identifier that `randomUUID` gives are arguments.
pub mod Kept
pub mod Primed
pub mod Stored
pub mod Loaded
use xtap_pool.Base.{
  DateTimes, List, Option, Result, Text, [], err, guard, if◌then◌else◌, leb, length, lit, map,
  nat_eq, none, ok, or_else_throw, or_throw, put, some, text_eq, then_in, ℕ, ◌++◌, ◌+◌, ◌==◌, ◌>>=◌,
  ◌>>◌, ◌∷◌,
}
use xtap_pool.BucketLog.{
  BucketLog, Bytes, Client, Operation, Platform, Segment, SnapshotFile, append, write,
}
use xtap_pool.BucketLog.Names.{is_date, segment_hash, source_segment_key, validate_operations}
use xtap_pool.BucketLog.Schemas.{require_segment}

abbrev pub append_of : Text × List Text → Operation
append_of a = append a.0 a.1

abbrev pub write_of : Text × Text → Operation
write_of w = write w.0 w.1

-- The segment of a batch.
abbrev pub batch_of : Text → Text → List (Text × List Text) → List (Text × Text) → Segment
batch_of uuid created_at appends writes = record {
  schema_version = 1;
  transaction_id = uuid;
  created_at = created_at;
  operations = map append_of appends ++ map write_of writes;
}

module _ ⦃d : DateTimes⦄ (platform : Platform) (client : Client) where
  open platform use {gzip, gunzip, sha256, segment_bytes, parse_date, to_iso, write_local}
  open client use {Store, download, upload}

  -- `putSegment` up to the key.
  unfoldable pub prepare : Segment → Result Text Text
  unfolding require_segment validate_operations source_segment_key
  prepare s = do
    require_segment platform s
    validate_operations platform s.operations
    guard (is_date (parse_date s.created_at)) (lit "segment created_at is outside the safe range")
    source_segment_key platform s (sha256 (segment_bytes s))

  -- `requireWriter().upload`.
  unfoldable pub upload_by :
      Option (Store → Text → Bytes → Store × Result Text (Unit {0}))
      → BucketLog Store
      → Text
      → Bytes
      → BucketLog Store × Result Text (Unit {0})
  upload_by none l key content = (l, err (lit "raw Bucket is read-only"))
  upload_by (some send) l key content =
      let sent = send l.remote key content in (record l { remote = sent.0 }, sent.1)

  -- The upload where there is no object yet.
  unfoldable pub upload_new :
      BucketLog Store → Text → Bytes → Option Bytes → BucketLog Store × Result Text (Unit {0})
  unfolding upload_by
  upload_new l key content (some existing) = (l, ok tt)
  upload_new l key content none = upload_by upload l key content

  -- `verifyStoredSegment`.
  unfoldable pub verify_stored_segment : BucketLog Store → Text → Bytes → Result Text (Unit {0})
  unfolding segment_hash
  verify_stored_segment l key expected = do
    found ← download l.remote key
    stored ← or_throw found (lit "Bucket did not retain segment: " ++ key)
    raw ← or_else_throw (gunzip stored) (lit "Bucket segment read-back is not valid gzip: " ++ key)
    guard (raw == expected) (lit "Bucket segment read-back mismatch: " ++ key)
    digest ← segment_hash platform key
    guard (sha256 raw == digest) (lit "Bucket segment read-back mismatch: " ++ key)

  -- What `putSegment` notes of the segment that it has stored.
  abbrev pub stored_file : Text → Segment → SnapshotFile
  stored_file key s = record {
    key = key;
    oid = sha256 (gzip (segment_bytes s));
    listed_oid = none;
    size = length (gzip (segment_bytes s));
    content_sha256 = sha256 (segment_bytes s);
  }

  -- `putSegment` from the key on.
  unfoldable pub store_segment :
      Segment → BucketLog Store → Text → BucketLog Store × Result Text Text
  unfolding upload_new verify_stored_segment put
  store_segment s l key =
      then_in (l, download l.remote key)
        (λ l₁ existing. then_in (upload_new l₁ key (gzip (segment_bytes s)) existing) (λ l₂ _.
          then_in (l₂, verify_stored_segment l₂ key (segment_bytes s))
            (λ l₃ _.
              (record l₃ { known_files = put l₃.known_files key (stored_file key s) }, ok key))))

  -- `putSegment`.
  unfoldable pub put_segment : BucketLog Store → Segment → BucketLog Store × Result Text Text
  unfolding prepare store_segment
  put_segment l s = then_in (l, prepare s) (store_segment s)

  -- `nextCreatedAt`: the time moves before it is written.
  unfoldable pub next_created_at : BucketLog Store → ℕ → BucketLog Store × Result Text Text
  next_created_at l now =
      let next = if leb (l.last_created_at_ms + 1) now then now else l.last_created_at_ms + 1 in
      (record l { last_created_at_ms = next }, to_iso next)

  -- `commitBatch`.
  unfoldable pub commit_batch :
      BucketLog Store
      → ℕ
      → Text
      → List (Text × List Text)
      → List (Text × Text)
      → BucketLog Store × Result Text Text
  unfolding next_created_at put_segment
  commit_batch l now uuid appends writes =
      then_in (next_created_at l now)
        (λ l₁ created_at. put_segment l₁ (batch_of uuid created_at appends writes))

  -- `rememberText`: the value is there also where the copy fails.
  unfoldable pub remember_text :
      BucketLog Store → Text → Text → BucketLog Store × Result Text (Unit {0})
  unfolding put
  remember_text l p content =
      (record l { text_values = put l.text_values p content }, write_local p content)

  -- `writeText`.
  unfoldable pub write_text :
      BucketLog Store → ℕ → Text → Text → Text → BucketLog Store × Result Text (Unit {0})
  unfolding commit_batch remember_text
  write_text l now uuid p content =
      then_in (commit_batch l now uuid [] ((p, content) ∷ [])) (λ l₁ _. remember_text l₁ p content)
