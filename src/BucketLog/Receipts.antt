-- ===== src/BucketLog/Receipts.antt =====
-- The latest receipts of enrichment runs in `BucketLog` (space/src/bucket-log.ts).
pub mod Latest
use xtap_pool.Base.{
  Bool, DateTimes, List, Option, Result, Text, [], err, false, filter, get, guard, if◌then◌else◌,
  includes, leb, lit, nat_eq, none, not, ok, put_all, some, text_eq, text_le, then_in, traverse,
  traverse_in, true, ℕ, ◌++◌, ◌==◌, ◌>>=◌, ◌>>◌, ◌∷◌,
}
use xtap_pool.BucketLog.{
  BucketLog, Client, Operation, Platform, Receipt, Snapshot, SnapshotFile, SourceKind, append,
  write,
}
use xtap_pool.BucketLog.Keys.{source_kind}
use xtap_pool.BucketLog.Names.{segment_created_at_ms}
use xtap_pool.BucketLog.Schemas.{file_key}
use xtap_pool.BucketLog.Reads.{load_segment}
use xtap_pool.BucketLog.Texts.{is_mixed_file}

pub record ReceiptMetadata : Type 0 where
  pub receipt : Receipt
  pub created_at_ms : ℕ

-- `ReceiptSelection`: the latest receipt, and the latest with a cursor of the registry.
pub record Selection : Type 0 where
  pub latest : Option ReceiptMetadata
  pub latest_registry : Option ReceiptMetadata

abbrev pub finished : ReceiptMetadata → Text
finished m = m.receipt.finished_at

abbrev pub is_cursor : Option (ℕ × Option Text) → Bool
is_cursor none = false
is_cursor (some (scanned, none)) = false
is_cursor (some (scanned, some after_name)) = leb 1 scanned

-- `hasRegistryCursor`.
unfoldable pub has_registry_cursor : ReceiptMetadata → Bool
has_registry_cursor m = is_cursor m.receipt.registry_scan

-- `newerReceipt`, whose second argument is there.
unfoldable pub newer_than : Option ReceiptMetadata → ReceiptMetadata → ReceiptMetadata
newer_than none right = right
newer_than (some left) right =
    if not (text_le (finished right) (finished left)) then right else left

-- `newerReceipt`.
unfoldable pub newer_receipt :
    Option ReceiptMetadata → Option ReceiptMetadata → Option ReceiptMetadata
unfolding newer_than
newer_receipt left none = left
newer_receipt left (some right) = some (newer_than left right)

-- `Math.min(...values)`, of the times that are there.
abbrev pub min_of : Option ReceiptMetadata → Option ReceiptMetadata → Option ℕ
min_of none none = none
min_of none (some b) = some b.created_at_ms
min_of (some a) none = some a.created_at_ms
min_of (some a) (some b) =
    some (if leb a.created_at_ms b.created_at_ms then a.created_at_ms else b.created_at_ms)

-- `earliestReceiptSegment`.
unfoldable pub earliest_receipt_segment : Selection → Option ℕ
earliest_receipt_segment s = min_of s.latest s.latest_registry

-- The loop over the observed receipts, with the selection so far.
unfoldable pub select_from : Selection → List ReceiptMetadata → Selection
unfolding newer_receipt has_registry_cursor
select_from s [] = s
select_from s (m ∷ items) =
    select_from
      (record {
        latest = newer_receipt s.latest (some m);
        latest_registry =
            if has_registry_cursor m
            then newer_receipt s.latest_registry (some m)
            else s.latest_registry;
      })
      items

abbrev pub no_selection : Selection
no_selection = record { latest = none; latest_registry = none }

abbrev pub is_receipt : SourceKind → Bool
is_receipt SourceKind.receipt = true
is_receipt _ = false

unfoldable pub is_receipt_file : SnapshotFile → Bool
unfolding includes
is_receipt_file file = includes file.key (lit "/receipt/")

abbrev pub concat : {A : Type 0} → List (List A) → List A
concat [] = []
concat (xs ∷ xss) = xs ++ concat xss

abbrev pub present : {A : Type 0} → List (Option A) → List A
present [] = []
present (none ∷ os) = present os
present (some a ∷ os) = a ∷ present os

abbrev pub receipt_of : Option ReceiptMetadata → Option Receipt
receipt_of none = none
receipt_of (some m) = some m.receipt

module _ ⦃d : DateTimes⦄ (platform : Platform) (client : Client) where
  open platform use {parse_receipt, file_json}
  open client use {Store}

  -- The loops of `receiptsInSegment`.
  unfoldable pub receipts_in_operations : List Operation → Result Text (List Receipt)
  unfolding source_kind
  receipts_in_operations [] = ok []
  receipts_in_operations (write p content ∷ operations) = receipts_in_operations operations
  receipts_in_operations (append p lines ∷ operations) = do
    kind ← source_kind p
    found ← if is_receipt kind then traverse parse_receipt lines else ok []
    rest ← receipts_in_operations operations
    ok (present found ++ rest)

  -- The receipts of a file, with the time of its segment.
  unfoldable pub receipts_of : SnapshotFile → List Receipt → Result Text (List ReceiptMetadata)
  unfolding segment_created_at_ms
  receipts_of file = traverse (λ r. do
    ms ← segment_created_at_ms platform file.key
    ok (record { receipt = r; created_at_ms = ms }))

  unfoldable pub observe :
      BucketLog Store → SnapshotFile → BucketLog Store × Result Text (List ReceiptMetadata)
  unfolding load_segment receipts_in_operations receipts_of
  observe l file =
      then_in (load_segment platform client l file)
        (λ l₁ s. (l₁, do receipts ← receipts_in_operations s.operations; receipts_of file receipts))

  -- `latestReceiptInFiles`.
  unfoldable pub latest_receipt_in_files :
      BucketLog Store → List SnapshotFile → BucketLog Store × Result Text Selection
  unfolding observe select_from
  latest_receipt_in_files l files =
      then_in (traverse_in observe l files)
        (λ l₁ observed. (l₁, ok (select_from no_selection (concat observed))))

  -- One file of `receiptFiles`, which has to be one of the snapshot.
  abbrev pub same_file : SnapshotFile → Option SnapshotFile → Result Text SnapshotFile
  same_file file none = err (lit "receipt source is outside the validated snapshot: " ++ file.key)
  same_file file (some known) = do
    guard (file_json known == file_json file)
        (lit "receipt source is outside the validated snapshot: " ++ file.key)
    ok known

  unfoldable pub known_receipts : Snapshot → List SnapshotFile → Result Text (List SnapshotFile)
  unfolding get put_all
  known_receipts s = traverse (λ file. same_file file (get (put_all file_key [] s.files) file.key))

  -- The mixed files that are not older than the receipts that were found.
  unfoldable pub recent_files : Option ℕ → List SnapshotFile → Result Text (List SnapshotFile)
  unfolding segment_created_at_ms
  recent_files none files = ok files
  recent_files (some cutoff) [] = ok []
  recent_files (some cutoff) (file ∷ files) = do
    ms ← segment_created_at_ms platform file.key
    rest ← recent_files (some cutoff) files
    ok (if leb cutoff ms then file ∷ rest else rest)

  abbrev pub with_receipts :
      BucketLog Store → Option ReceiptMetadata → Option ReceiptMetadata → BucketLog Store
  with_receipts l latest cursor = record l {
    last_receipt = receipt_of latest;
    last_registry_receipt = receipt_of cursor;
  }

  -- `hydrateMetadata` without `receiptFiles`.
  unfoldable pub hydrate_from_snapshot :
      BucketLog Store → Snapshot → BucketLog Store × Result Text (Unit {0})
  unfolding latest_receipt_in_files recent_files earliest_receipt_segment newer_receipt
      is_receipt_file is_mixed_file
  hydrate_from_snapshot l s =
      then_in (latest_receipt_in_files l (filter is_receipt_file s.files)) (λ l₁ dedicated.
        then_in
          (l₁, recent_files (earliest_receipt_segment dedicated) (filter is_mixed_file s.files))
          (λ l₂ files. then_in (latest_receipt_in_files l₂ files) (λ l₃ mixed. (
            with_receipts l₃ (newer_receipt dedicated.latest mixed.latest)
                (newer_receipt dedicated.latest_registry mixed.latest_registry),
            ok tt,
          ))))

  -- `hydrateMetadata`.
  unfoldable pub hydrate_metadata :
      BucketLog Store
      → Snapshot
      → Option (List SnapshotFile)
      → BucketLog Store × Result Text (Unit {0})
  unfolding hydrate_from_snapshot known_receipts latest_receipt_in_files
  hydrate_metadata l s none = hydrate_from_snapshot l s
  hydrate_metadata l s (some files) =
      then_in (l, known_receipts s files)
        (λ l₁ known.
          then_in (latest_receipt_in_files l₁ known)
            (λ l₂ found. (with_receipts l₂ found.latest found.latest_registry, ok tt)))
