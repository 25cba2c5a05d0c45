-- ===== src/BucketLog/Schemas.antt =====
-- The schemas of segments and snapshots in space/src/bucket-log.ts. `strict()` and the types of the
-- fields are in the parsers of the platform.
use xtap_pool.Base.{
  Bool, DateTimes, List, Option, Result, Text, [], all, eqb, guard, is_filled, is_safe, is_sha256,
  is_some, keys, leb, length, map, nat_eq, none, not, some, text_eq, text_le, true, unique, ◌&&◌,
  ◌∷◌,
}
use xtap_pool.BucketLog.{Operation, Platform, Segment, Snapshot, SnapshotFile, append, path, write}
use xtap_pool.BucketLog.Keys.{is_uuid, segment_key}

-- `appendOperationSchema` and `writeOperationSchema`.
abbrev pub operation_ok : Operation → Bool
operation_ok (append p lines) = is_filled p && (leb 1 (length lines) && all is_filled lines)
operation_ok (write p content) = is_filled p

-- `bucketSegmentSchema`.
unfoldable pub segment_ok : ⦃d : DateTimes⦄ → Segment → Bool
unfolding is_uuid
segment_ok ⦃d = d⦄ s =
    eqb s.schema_version 1
    && (is_uuid s.transaction_id
        && (d.is_datetime s.created_at
            && (leb 1 (length s.operations)
                && (all operation_ok s.operations && unique (map path s.operations)))))

abbrev filled_or_absent : Option Text → Bool
filled_or_absent none = true
filled_or_absent (some s) = is_filled s

-- `snapshotFileSchema`.
unfoldable pub file_ok : SnapshotFile → Bool
unfolding segment_key is_sha256
file_ok f =
    is_some (segment_key f.key)
    && (is_sha256 f.oid
        && (filled_or_absent f.listed_oid && (is_safe f.size && is_sha256 f.content_sha256)))

abbrev pub file_key : SnapshotFile → Text
file_key f = f.key

-- Whether no key is at most the one before it.
unfoldable pub ascending : List Text → Bool
unfolding text_le
ascending [] = true
ascending (k ∷ []) = true
ascending (k ∷ j ∷ keys) = not (text_le j k) && ascending (j ∷ keys)

-- `bucketSnapshotSchema`.
unfoldable pub snapshot_ok : Snapshot → Bool
unfolding file_ok ascending
snapshot_ok s =
    eqb s.schema_version 1
    && (leb 3 (length s.bucket)
        && (all file_ok s.files
            && (unique (map file_key s.files) && ascending (map file_key s.files))))

module _ (platform : Platform) where
  -- `bucketSegmentSchema.parse` and `bucketSnapshotSchema.parse` of a value with their fields.
  unfoldable pub require_segment : ⦃d : DateTimes⦄ → Segment → Result Text (Unit {0})
  unfolding segment_ok
  require_segment s = guard (segment_ok s) platform.schema_message

  unfoldable pub require_snapshot : Snapshot → Result Text (Unit {0})
  unfolding snapshot_ok
  require_snapshot s = guard (snapshot_ok s) platform.schema_message
