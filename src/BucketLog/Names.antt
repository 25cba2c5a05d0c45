-- ===== src/BucketLog/Names.antt =====
-- The key of a segment, what a key says of it, and the validation of its operations
-- (space/src/bucket-log.ts).
use xtap_pool.Base.{
  Bool, List, Result, Text, [], decimal, dedup, drop, eqb, err, false, guard, if◌then◌else◌,
  is_filled, lit, nat_eq, number_from, ok, or_throw, pad_start, take, text_eq, traverse, trim, true,
  ℕ, ◌&&◌, ◌++◌, ◌+◌, ◌==◌, ◌>>=◌, ◌>>◌, ◌∷◌,
}
use xtap_pool.BucketLog.{
  LineCheck, Operation, Platform, Segment, SourceKind, Time, append, attempt, before, enrichment,
  no_json, no_record, not_a_number, receipt, record_line, registry, since, tweet, write,
}
use xtap_pool.BucketLog.Keys.{
  assert_config_path, is_uuid, key_day, key_digest, key_time, key_transaction, segment_key,
  segment_prefix, source_kind,
}

abbrev pub kind_name : SourceKind → Text
kind_name tweet = lit "tweet"
kind_name enrichment = lit "enrichment"
kind_name attempt = lit "attempt"
kind_name registry = lit "registry"
kind_name receipt = lit "receipt"

unfoldable pub operation_category : Operation → Result Text Text
unfolding source_kind
operation_category (write p content) = ok (lit "config")
operation_category (append p lines) = do kind ← source_kind p; ok (kind_name kind)

abbrev pub only : List Text → Text
only [] = lit "mixed"
only (c ∷ []) = c
only (c ∷ d ∷ cs) = lit "mixed"

-- `segmentCategory`.
unfoldable pub segment_category : List Operation → Result Text Text
unfolding operation_category
segment_category operations = do
  found ← traverse operation_category operations
  ok (only (dedup found))

-- `String(time)`.
unfoldable pub time_text : Time → Text
unfolding decimal
time_text (since ms) = decimal 16 ms
time_text (before ms) = lit "-" ++ decimal 16 ms
time_text not_a_number = lit "NaN"

-- `Number.isSafeInteger(time)`; a date is within 8.64e15 milliseconds of 1970.
abbrev pub is_date : Time → Bool
is_date (since ms) = true
is_date (before ms) = true
is_date not_a_number = false

-- `content.split("\n")`.
abbrev pub line_head : ℕ → List Text → List Text
line_head c [] = (c ∷ []) ∷ []
line_head c (l ∷ ls) = (c ∷ l) ∷ ls

unfoldable pub split_lines : Text → List Text
split_lines [] = [] ∷ []
split_lines (c ∷ s) = let rest = split_lines s in if eqb c 10 then [] ∷ rest else line_head c rest

-- `lines.join("\n")` with a last line break.
unfoldable pub join_lines : List Text → Text
join_lines [] = 10 ∷ []
join_lines (l ∷ []) = l ++ 10 ∷ []
join_lines (l ∷ m ∷ ls) = l ++ 10 ∷ join_lines (m ∷ ls)

module _ (platform : Platform) where
  open platform use {parse_date, to_iso, check_line, sha256}

  -- `sourceSegmentKey`.
  unfoldable pub source_segment_key : Segment → Text → Result Text Text
  unfolding segment_category pad_start
  source_segment_key s content_sha256 = do
    category ← segment_category s.operations
    let day = take 10 s.created_at
    ok (
        segment_prefix
        ++ (lit "/"
            ++ (category
                ++ (lit "/"
                    ++ (take 4 day
                        ++ (lit "/"
                            ++ (take 2 (drop 5 day)
                                ++ (lit "/"
                                    ++ (take 2 (drop 8 day)
                                        ++ (lit "/"
                                            ++ (pad_start 13 (time_text (parse_date s.created_at))
                                                ++ (lit "-"
                                                    ++ (s.transaction_id
                                                        ++ (lit "-"
                                                            ++ (content_sha256
                                                            ++ lit ".json.gz")))))))))))))))

  -- `assertSegmentKeyMatches`.
  unfoldable pub assert_key_matches : Text → Segment → Text → Result Text (Unit {0})
  unfolding source_segment_key
  assert_key_matches key s content_sha256 = do
    own ← source_segment_key s content_sha256
    guard (key == own) (lit "Bucket segment key does not match its contents: " ++ key)

  -- `segmentHash`.
  unfoldable pub segment_hash : Text → Result Text Text
  unfolding segment_key number_from is_uuid
  segment_hash key = do
    m ← or_throw (segment_key key) (lit "invalid Bucket segment key: " ++ key)
    iso ← to_iso (number_from 0 (key_time m))
    guard (take 10 iso == key_day m && is_uuid (key_transaction m))
        (lit "invalid Bucket segment key: " ++ key)
    ok (key_digest m)

  -- `segmentCreatedAtMs`.
  unfoldable pub segment_created_at_ms : Text → Result Text ℕ
  unfolding segment_key number_from
  segment_created_at_ms key = do
    m ← or_throw (segment_key key) (lit "invalid Bucket segment key: " ++ key)
    ok (number_from 0 (key_time m))

  unfoldable pub line_failure : SourceKind → Text → ℕ → LineCheck → Result Text (Unit {0})
  unfolding decimal
  line_failure kind p n no_json =
      err (lit "invalid JSON in " ++ (p ++ (lit " at line " ++ decimal 16 n)))
  line_failure kind p n no_record = err (
      lit "invalid "
      ++ (kind_name kind ++ (lit " record in " ++ (p ++ (lit " at line " ++ decimal 16 n)))))
  line_failure kind p n record_line = ok tt

  -- The loop of `assertValidSource`, with the number of its first line.
  unfoldable pub check_lines : SourceKind → Text → ℕ → List Text → Result Text (Unit {0})
  unfolding trim
  check_lines kind p n [] = ok tt
  check_lines kind p n (line ∷ lines) = do
    if is_filled (trim line) then line_failure kind p n (check_line kind line) else ok tt
    check_lines kind p (n + 1) lines

  -- `assertValidSource`.
  unfoldable pub assert_valid_source : Text → Text → Result Text (Unit {0})
  unfolding source_kind check_lines split_lines
  assert_valid_source p content = do
    kind ← source_kind p
    check_lines kind p 1 (split_lines content)

  -- `validateOperations`.
  unfoldable pub validate_operations : List Operation → Result Text (Unit {0})
  unfolding assert_config_path assert_valid_source join_lines
  validate_operations [] = ok tt
  validate_operations (write p content ∷ operations) = do
    assert_config_path p
    validate_operations operations
  validate_operations (append p lines ∷ operations) = do
    assert_valid_source p (join_lines lines)
    validate_operations operations
