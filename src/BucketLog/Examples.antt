-- ===== src/BucketLog/Examples.antt =====
-- Runs on a Bucket in memory, with one segment that writes a configuration.
use mathlib.Core.Option
use mathlib.Core.Path.{subst}
use xtap_pool.Base.{
  DateTimes, List, Result, Text, [], ap, arith, decimal, delete, drop, err, false, filter, get,
  get-put_self, includes, is_sha256, is_space, keys, length, lit, nat_eq, none, number_from, ok,
  pad_start, put, put_all, refl, some, starts_with, strip, suc, text_beq, text_eq, text_le, then_in,
  traverse_in, trim, trim_start, true, unique, values, zero, ℕ, ◌++◌, ◌∷◌, ◌≡◌,
}
use xtap_pool.BucketLog.{
  BucketLog, Bytes, Client, Object, Platform, Segment, Snapshot, SnapshotFile, record_line, since,
}
use xtap_pool.BucketLog.Writes.{
  batch_of, commit_batch, next_created_at, prepare, put_segment, remember_text, store_segment,
  stored_file, upload_by, upload_new, verify_stored_segment, write_text,
}
use xtap_pool.BucketLog.Writes.Stored.{IsStored, put_segment-IsStored}
use xtap_pool.BucketLog.Keys.{
  assert_config_path, behind_segment, fits, fits_behind, fitting, is_tweet_path, is_uuid, match_key,
  segment_key, source_kind,
}
use xtap_pool.BucketLog.Names.{
  assert_key_matches, assert_valid_source, check_lines, join_lines, line_failure,
  operation_category, segment_category, segment_created_at_ms, segment_hash, source_segment_key,
  split_lines, time_text, validate_operations,
}
use xtap_pool.BucketLog.Schemas.{
  ascending, file_ok, require_segment, require_snapshot, segment_ok, snapshot_ok,
}
use xtap_pool.BucketLog.Reads.{
  check_hash, load_over, load_segment, read_again, verified, verify_listed_object,
}
use xtap_pool.BucketLog.Reads.Authentic.{IsAuthentic}
use xtap_pool.BucketLog.Writes.Loaded.{
  KeepsUploads, load_segment-put_segment, load_segment-put_segment_differs,
}
use xtap_pool.BucketLog.Writes.Primed.{
  HoldsWrite, Primed, read_primed, read_primed-written, written,
}
use xtap_pool.BucketLog.Snapshots.{
  baseline_of, discover_listed, discover_one, discover_over, discover_snapshot, remember_files,
  snapshot_of, verify_known,
}
use xtap_pool.BucketLog.Snapshots.Head.{IsHead, discover_snapshot-IsHead}
use xtap_pool.BucketLog.Texts.{
  Entry, entry_le, holds_texts, is_config_file, is_mixed_file, latest_text_write, load_entries,
  load_entry, prime_text_cache, put_entries, put_writes, read_text, remember_text_entries,
  remember_texts, value_of,
}
use xtap_pool.BucketLog.Receipts.{
  ReceiptMetadata, Selection, concat, has_registry_cursor, latest_receipt_in_files, newer_receipt,
  newer_than, observe, receipts_in_operations, receipts_of, select_from,
}
use xtap_pool.BucketLog.Receipts.Latest.{IsLatest, latest_receipt_in_files-IsLatest}
use xtap_pool.BucketLog.Tweets.{
  Tweet, append_tweets_to, lines_at, lines_of, tweet_appends, tweet_appends-lines, tweet_path_for,
}
use xtap_pool.BucketLog.Run.{Call, discover, put_one, run, run-IsAuthentic, step}
use xtap_pool.BucketLog.Texts.Primed.{read_text-prime_text_cache}

instance abbrev any_time : DateTimes
any_time = record { is_datetime = λ s. true }

abbrev new_year : Text
new_year = lit "2026-01-01T00:00:00.000Z"

abbrev uuid : Text
uuid = lit "00000000-0000-4000-8000-000000000000"

abbrev pool_path : Text
pool_path = lit "config/pool.json"

abbrev sample : Segment
sample = batch_of uuid new_year [] ((pool_path, lit "{}") ∷ [])

abbrev bytes_of : Segment → Bytes
bytes_of s = s.created_at

-- Packed bytes start with 1; those that start with 0 and 1 unpack to the same.
abbrev unpack : Bytes → Result Text Bytes
unpack [] = err (lit "unexpected end of file")
unpack (zero ∷ b) = ok (drop 1 b)
unpack (suc n ∷ b) = ok b

unfoldable hash_of : Bytes → Text
unfolding decimal pad_start
hash_of b = pad_start 64 (decimal 4 (length b))

abbrev platform : Platform
platform = record {
  gzip = λ b. 1 ∷ b;
  gunzip = unpack;
  sha256 = hash_of;
  segment_bytes = bytes_of;
  snapshot_bytes = λ s. s.bucket;
  read_segment = λ b. ok sample;
  read_snapshot = λ b. err (lit "no JSON");
  file_json = λ f. f.key;
  schema_message = lit "invalid";
  parse_date = λ s. since 1767225600000;
  to_iso = λ ms. ok new_year;
  date_iso = λ s. ok s;
  locale_le = text_le;
  check_line = λ kind line. record_line;
  parse_receipt = λ line. ok none;
  write_local = λ p content. ok tt;
}

abbrev Files : Type 0
Files = List (Text × Bytes)

abbrev objects_of : Files → List Object
objects_of [] = []
objects_of (f ∷ files) = record { key = f.0; oid = none; size = length f.1 } ∷ objects_of files

abbrev send : Files → Text → Bytes → Files × Result Text (Unit {0})
send b key content = (put b key content, ok tt)

abbrev client : Client
client = record {
  Store = Files;
  list = λ b prefix. ok (objects_of b);
  download = λ b key. ok (get b key);
  upload = some send;
}

abbrev log_of : Files → BucketLog Files
log_of b = record {
  name = lit "pool";
  last_receipt = none;
  last_registry_receipt = none;
  last_created_at_ms = 0;
  text_cache_complete = false;
  text_values = [];
  known_files = [];
  newly_verified = [];
  remote = b;
}

abbrev sample_key : Text
sample_key =
    lit "v1/segments/config/2026/01/01/1767225600000-00000000-0000-4000-8000-000000000000-"
    ++ (hash_of new_year ++ lit ".json.gz")

abbrev sample_file : SnapshotFile
sample_file = stored_file platform client sample_key sample

abbrev after_put : BucketLog Files
after_put = record (log_of ((sample_key, 1 ∷ new_year) ∷ [])) {
  known_files = (sample_key, sample_file) ∷ [];
}

sample_stored : put_segment platform client (log_of []) sample ≡ (after_put, ok sample_key)
unfolding put_segment prepare require_segment segment_ok is_uuid fits text_beq validate_operations
    assert_config_path source_segment_key segment_category operation_category time_text decimal
    pad_start hash_of store_segment then_in upload_new upload_by verify_stored_segment segment_hash
    segment_key match_key strip fitting number_from get put
sample_stored = refl

put_segment-IsStored_example :
    IsStored platform client after_put sample_key sample
    × (get after_put.known_files sample_key ≡ some sample_file)
put_segment-IsStored_example =
    put_segment-IsStored platform client (log_of []) after_put sample sample_key sample_stored

keeps_uploads : KeepsUploads platform client
keeps_uploads other e b key content h =
    let same : send ≡ other = Option.some-injective _ _ e in
    subst
      (λ (u : Files → Text → Bytes → Files × Result Text (Unit {0})).
        client.download (u b key content).0 key ≡ ok (some content))
      same (ap ok (get-put_self b key content))

load_segment-put_segment_example :
    load_segment platform client after_put sample_file ≡ (after_put, ok sample)
unfolding get
load_segment-put_segment_example =
    load_segment-put_segment platform client (log_of []) after_put sample sample_key keeps_uploads
      refl sample_stored refl refl

-- The Bucket holds the segment in the other encoding.
abbrev other_encoding : Files
other_encoding = (sample_key, 0 ∷ 1 ∷ new_year) ∷ []

abbrev after_other : BucketLog Files
after_other = record (log_of other_encoding) { known_files = (sample_key, sample_file) ∷ [] }

other_stored :
    put_segment platform client (log_of other_encoding) sample ≡ (after_other, ok sample_key)
unfolding put_segment prepare require_segment segment_ok is_uuid fits text_beq validate_operations
    assert_config_path source_segment_key segment_category operation_category time_text decimal
    pad_start hash_of store_segment then_in upload_new upload_by verify_stored_segment segment_hash
    segment_key match_key strip fitting number_from get put
other_stored = refl

load_segment-put_segment_differs_example :
    load_segment platform client after_other sample_file
    ≡ (after_other, err (lit "Bucket segment size mismatch: " ++ sample_key))
unfolding get hash_of text_beq decimal pad_start
load_segment-put_segment_differs_example =
    load_segment-put_segment_differs platform client (log_of other_encoding) after_other sample
      sample_key (0 ∷ 1 ∷ new_year) other_stored refl (omega arith) refl

abbrev head : Snapshot
head = snapshot_of (lit "pool") (sample_file ∷ [])

abbrev after_discovery : BucketLog Files
after_discovery = record after_put { newly_verified = (sample_key, sample) ∷ [] }

discovered :
    discover_snapshot platform client after_put none
    ≡ (after_discovery, ok (hash_of (lit "pool"), head))
unfolding discover_snapshot baseline_of values discover_listed put_all discover_one discover_over
    traverse_in verify_known verify_listed_object verified require_snapshot snapshot_ok file_ok
    is_sha256 ascending text_le remember_files assert_key_matches put_segment prepare
    require_segment segment_ok is_uuid fits text_beq validate_operations assert_config_path
    source_segment_key segment_category operation_category time_text decimal pad_start hash_of
    store_segment then_in upload_new upload_by verify_stored_segment segment_hash segment_key
    match_key strip fitting number_from get put
discovered = refl

discover_snapshot-IsHead_example :
    IsHead platform client after_put after_discovery
      (baseline_of platform client after_put none)
      (hash_of (lit "pool"))
      head
discover_snapshot-IsHead_example =
    discover_snapshot-IsHead platform client after_put after_discovery none (hash_of (lit "pool"))
      head discovered

abbrev draw : ℕ → ℕ × Text
draw n = (n, uuid)

abbrev primed : Primed platform client
primed = record {
  log = record (log_of []) { text_cache_complete = true };
  primed = refl;
  commits = 0;
}

abbrev after_write : Primed platform client
after_write = (written platform client draw primed pool_path (lit "{}")).0

pool_written : written platform client draw primed pool_path (lit "{}") ≡ (after_write, ok tt)
unfolding written write_text commit_batch next_created_at remember_text put_segment prepare
    require_segment segment_ok is_uuid fits text_beq validate_operations assert_config_path
    source_segment_key segment_category operation_category time_text decimal pad_start hash_of
    store_segment then_in upload_new upload_by verify_stored_segment segment_hash segment_key
    match_key strip fitting number_from get put
pool_written = refl

read_primed-written_example :
    (read_primed platform client draw after_write pool_path ≡ ok (some (lit "{}")))
    × HoldsWrite platform client after_write.log pool_path (lit "{}")
read_primed-written_example =
    read_primed-written platform client draw primed after_write pool_path (lit "{}") pool_written

abbrev entries : List Entry
entries = (sample_file, sample) ∷ []

abbrev after_prime : BucketLog Files
after_prime = record after_put {
  text_values = (pool_path, lit "{}") ∷ [];
  text_cache_complete = true;
}

entries_loaded :
    (load_entries platform client after_put (filter holds_texts head.files)).1 ≡ ok entries
unfolding load_entries traverse_in load_entry load_segment check_hash load_over read_again
    assert_key_matches is_sha256 holds_texts is_config_file is_mixed_file includes starts_with
    put_segment prepare require_segment segment_ok is_uuid fits text_beq validate_operations
    assert_config_path source_segment_key segment_category operation_category time_text decimal
    pad_start hash_of store_segment then_in upload_new upload_by verify_stored_segment segment_hash
    segment_key match_key strip fitting number_from get put
entries_loaded = refl

cache_primed : prime_text_cache platform client after_put head ≡ (after_prime, ok tt)
unfolding prime_text_cache remember_text_entries remember_texts remember_text put_entries put_writes
    entry_le load_entries traverse_in load_entry load_segment check_hash load_over read_again
    assert_key_matches is_sha256 holds_texts is_config_file is_mixed_file includes starts_with
    put_segment prepare require_segment segment_ok is_uuid fits text_beq validate_operations
    assert_config_path source_segment_key segment_category operation_category time_text decimal
    pad_start hash_of store_segment then_in upload_new upload_by verify_stored_segment segment_hash
    segment_key match_key strip fitting number_from get put
cache_primed = refl

read_text-prime_text_cache_example :
    read_text platform client after_prime pool_path none
    ≡ (after_prime, ok (value_of (latest_text_write entries pool_path)))
unfolding latest_text_write entry_le text_le put_segment prepare require_segment segment_ok is_uuid
    fits text_beq validate_operations assert_config_path source_segment_key segment_category
    operation_category time_text decimal pad_start hash_of store_segment then_in upload_new
    upload_by verify_stored_segment segment_hash segment_key match_key strip fitting number_from get
    put
read_text-prime_text_cache_example =
    read_text-prime_text_cache platform client after_put after_prime head entries pool_path tt refl
      entries_loaded refl ((refl, tt), tt) cache_primed refl

-- The segment is put and verified, and the load takes what was verified.
abbrev calls : List Call
calls = put_one sample ∷ discover none ∷ []

segment_loaded :
    load_segment platform client (run platform client (log_of []) calls) sample_file
    ≡ (after_put, ok sample)
unfolding run step load_segment check_hash load_over delete discover_snapshot baseline_of values
    discover_listed put_all discover_one discover_over traverse_in verify_known verify_listed_object
    verified require_snapshot snapshot_ok file_ok is_sha256 ascending text_le remember_files
    assert_key_matches put_segment prepare require_segment segment_ok is_uuid fits text_beq
    validate_operations assert_config_path source_segment_key segment_category operation_category
    time_text decimal pad_start hash_of store_segment then_in upload_new upload_by
    verify_stored_segment segment_hash segment_key match_key strip fitting number_from get put
segment_loaded = refl

run-IsAuthentic_example :
    IsAuthentic platform sample_key sample × (hash_of new_year ≡ hash_of new_year)
run-IsAuthentic_example =
    run-IsAuthentic platform client (log_of []) after_put calls sample_file sample refl
      segment_loaded

-- A file with two receipts, whose lines are the times at which they finished.
abbrev receipts : Segment
receipts =
    batch_of uuid new_year
      ((lit "enrichment/receipts/2026-01-01.jsonl", lit "a" ∷ lit "b" ∷ []) ∷ []) []

abbrev receipts_platform : Platform
receipts_platform = record platform {
  read_segment = λ b. ok receipts;
  parse_receipt = λ line. ok (some (record { finished_at = line; registry_scan = none }));
}

abbrev receipts_key : Text
receipts_key =
    lit "v1/segments/receipt/2026/01/01/1767225600000-00000000-0000-4000-8000-000000000000-"
    ++ (hash_of new_year ++ lit ".json.gz")

abbrev receipts_files : List SnapshotFile
receipts_files = stored_file receipts_platform client receipts_key receipts ∷ []

abbrev receipts_log : BucketLog Files
receipts_log = log_of ((receipts_key, 1 ∷ new_year) ∷ [])

abbrev metadata : Text → ReceiptMetadata
metadata time = record {
  receipt = record { finished_at = time; registry_scan = none };
  created_at_ms = 1767225600000;
}

abbrev selection : Selection
selection = record { latest = some (metadata (lit "b")); latest_registry = none }

receipts_found :
    latest_receipt_in_files receipts_platform client receipts_log receipts_files
    ≡ (receipts_log, ok selection)
unfolding latest_receipt_in_files observe receipts_in_operations receipts_of segment_created_at_ms
    select_from newer_receipt newer_than has_registry_cursor source_kind is_tweet_path fits_behind
    behind_segment assert_valid_source check_lines split_lines join_lines line_failure trim
    trim_start is_space text_le load_entries traverse_in load_entry load_segment check_hash
    load_over read_again assert_key_matches is_sha256 holds_texts is_config_file is_mixed_file
    includes starts_with put_segment prepare require_segment segment_ok is_uuid fits text_beq
    validate_operations assert_config_path source_segment_key segment_category operation_category
    time_text decimal pad_start hash_of store_segment then_in upload_new upload_by
    verify_stored_segment segment_hash segment_key match_key strip fitting number_from get put
receipts_found = refl

latest_receipt_in_files-IsLatest_example :
    (observed : List (List ReceiptMetadata)) × ((traverse_in
        (observe receipts_platform client)
        receipts_log
        receipts_files).1
      ≡ ok observed)
    × IsLatest (concat observed) (some (metadata (lit "b")))
    × IsLatest (filter has_registry_cursor (concat observed)) none
latest_receipt_in_files-IsLatest_example =
    latest_receipt_in_files-IsLatest receipts_platform client receipts_log receipts_log
      receipts_files selection receipts_found

abbrev tweet_of : Text → Text → Tweet
tweet_of contributor json = record {
  contributed_by = contributor;
  captured_at = new_year;
  json = json;
}

abbrev tweets : List Tweet
tweets =
    tweet_of (lit "ann") (lit "1")
    ∷ tweet_of (lit "bob") (lit "2")
    ∷ tweet_of (lit "ann") (lit "3")
    ∷ []

abbrev ann_path : Text
ann_path = lit "data/ann/2026/01/tweets-2026-01-01.jsonl"

abbrev appended : List (Text × List Text)
appended =
    (ann_path, lit "1" ∷ lit "3" ∷ [])
    ∷ (lit "data/bob/2026/01/tweets-2026-01-01.jsonl", lit "2" ∷ [])
    ∷ []

tweets_appended : tweet_appends platform tweets ≡ ok appended
unfolding tweet_appends append_tweets_to tweet_path_for get put text_beq
tweets_appended = refl

tweet_appends-lines_example :
    (unique (keys appended) ≡ true)
    × (lines_at appended ann_path ≡ lines_of platform ann_path tweets)
tweet_appends-lines_example = tweet_appends-lines platform tweets appended ann_path tweets_appended
