-- ===== src/BucketLog.antt =====
-- space/src/bucket-log.ts: the transaction log in a private Bucket, an object per segment. JSON,
-- gzip, SHA-256, dates and the Hub client are arguments, with the messages of what they throw; an
-- error is its message. The line schemas of shared/ are arguments too. Titles of commits are not
-- stored, and reports of progress are taken to return: both are left out.
pub mod Keys
pub mod Names
pub mod Schemas
pub mod Reads
pub mod Writes
pub mod Snapshots
pub mod Texts
pub mod Receipts
pub mod Tweets
pub mod Run
mod Examples
use xtap_pool.Base.{Bool, List, Option, Result, Text, [], lit, ℕ, ◌∷◌}

abbrev pub Bytes : Type 0
Bytes = List ℕ

-- `BucketOperation`, by its mode.
pub data Operation : Type 0 where
  append : Text → List Text → Operation
  write : Text → Text → Operation

abbrev pub path : Operation → Text
path (append p lines) = p
path (write p content) = p

pub record Segment : Type 0 where
  pub schema_version : ℕ
  pub transaction_id : Text
  pub created_at : Text
  pub operations : List Operation

pub record SnapshotFile : Type 0 where
  pub key : Text
  pub oid : Text
  pub listed_oid : Option Text
  pub size : ℕ
  pub content_sha256 : Text

pub record Snapshot : Type 0 where
  pub schema_version : ℕ
  pub bucket : Text
  pub files : List SnapshotFile

-- `BucketObject`, an item of a listing.
pub record Object : Type 0 where
  pub key : Text
  pub oid : Option Text
  pub size : ℕ

pub data SourceKind : Type 0 where
  tweet enrichment attempt registry receipt : SourceKind

-- `EnrichReceipt`, as far as the log reads it: `registry_scan` is its count with its name, where
-- that is a string.
pub record Receipt : Type 0 where
  pub finished_at : Text
  pub registry_scan : Option (ℕ × Option Text)

-- What the validation of one line finds: no JSON, no record of its kind, or a record.
pub data LineCheck : Type 0 where
  no_json no_record record_line : LineCheck

-- What `Date.parse` gives: the milliseconds since 1970 or before it, or no number.
pub data Time : Type 0 where
  since before : ℕ → Time
  not_a_number : Time

pub record Platform : Type 0 where
  pub gzip : Bytes → Bytes
  pub gunzip : Bytes → Result Text Bytes
  pub sha256 : Bytes → Text
  pub segment_bytes : Segment → Bytes
  pub snapshot_bytes : Snapshot → Bytes
  -- The fields and their types, read from UTF-8 JSON.
  pub read_segment : Bytes → Result Text Segment
  pub read_snapshot : Bytes → Result Text Snapshot
  -- `JSON.stringify` of a file of a snapshot.
  pub file_json : SnapshotFile → Text
  pub schema_message : Text
  -- `Date.parse`, and `toISOString` of a time since 1970.
  pub parse_date : Text → Time
  pub to_iso : ℕ → Result Text Text
  -- `new Date(text).toISOString()`.
  pub date_iso : Text → Result Text Text
  -- `localeCompare(...) <= 0`.
  pub locale_le : Text → Text → Bool
  pub check_line : SourceKind → Text → LineCheck
  -- `parseEnrichReceipt(JSON.parse(line))`, which throws where the line is no JSON.
  pub parse_receipt : Text → Result Text (Option Receipt)
  -- The copy of a text below the cache directory: `localPath`, `mkdirSync` and `writeFileSync`.
  pub write_local : Text → Text → Result Text (Unit {0})

-- `RawBucketClient`; that of a `RawBucketReader` cannot upload.
pub record Client : Type 1 where
  pub Store : Type 0
  pub list : Store → Text → Result Text (List Object)
  pub download : Store → Text → Result Text (Option Bytes)
  pub upload : Option (Store → Text → Bytes → Store × Result Text (Unit {0}))

-- The fields of `BucketLog`, with the Bucket itself.
pub record BucketLog (Store : Type 0) : Type 0 where
  pub name : Text
  pub last_receipt : Option Receipt
  pub last_registry_receipt : Option Receipt
  pub last_created_at_ms : ℕ
  pub text_cache_complete : Bool
  pub text_values : List (Text × Text)
  pub known_files : List (Text × SnapshotFile)
  pub newly_verified : List (Text × Segment)
  pub remote : Store

abbrev pub raw_config_paths : List Text
raw_config_paths =
    lit "config/labels.json"
    ∷ lit "config/pool.json"
    ∷ lit "config/service-accounts.json"
    ∷ lit "enrichment/vocabulary.json"
    ∷ []
