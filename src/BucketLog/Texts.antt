-- ===== src/BucketLog/Texts.antt =====
-- The texts of the configuration in `BucketLog` (space/src/bucket-log.ts): reading them from the
-- segments, and the cache that is filled from them. The segments of several files are loaded one
-- after the other; which of several failures is thrown depends on the times of the downloads.
pub mod Latest
pub mod Last
pub mod Primed
use xtap_pool.Base.{
  Bool, DateTimes, List, Option, Result, Text, [], filter, get, if◌then◌else◌, includes, is_some,
  lit, nat_eq, none, not, ok, put, some, sort, text_eq, text_le, then_in, traverse_in, true, values,
  ◌&&◌, ◌++◌, ◌==◌, ◌||◌, ◌∷◌,
}
use xtap_pool.BucketLog.{
  BucketLog, Client, Operation, Platform, Segment, Snapshot, SnapshotFile, append, write,
}
use xtap_pool.BucketLog.Keys.{assert_config_path}
use xtap_pool.BucketLog.Schemas.{require_snapshot}
use xtap_pool.BucketLog.Reads.{load_segment}
use xtap_pool.BucketLog.Writes.{remember_text}
use xtap_pool.BucketLog.Snapshots.{discover_snapshot, remember_files, same_source}

-- A file with its segment.
abbrev pub Entry : Type 0
Entry = SnapshotFile × Segment

-- The order of a write in `latestTextWrite`.
abbrev pub order_of : Entry → Text
order_of (file, s) = s.created_at ++ (0 ∷ s.transaction_id ++ (0 ∷ file.key))

-- `latest === undefined || order > latest.order`.
abbrev pub is_later : Text → Option (Text × Text) → Bool
is_later order none = true
is_later order (some latest) = not (text_le order latest.0)

-- The loops of `latestTextWrite`, with the latest write so far: its order and its value.
unfoldable pub latest_in_operations :
    Text → Text → Option (Text × Text) → List Operation → Option (Text × Text)
unfolding text_le
latest_in_operations p order latest [] = latest
latest_in_operations p order latest (append q lines ∷ operations) =
    latest_in_operations p order latest operations
latest_in_operations p order latest (write q content ∷ operations) =
    latest_in_operations p order
      (if q == p && is_later order latest then some (order, content) else latest) operations

unfoldable pub latest_from : Text → Option (Text × Text) → List Entry → Option (Text × Text)
unfolding latest_in_operations
latest_from p latest [] = latest
latest_from p latest (e ∷ entries) =
    latest_from p (latest_in_operations p (order_of e) latest e.1.operations) entries

-- `latestTextWrite`.
unfoldable pub latest_text_write : List Entry → Text → Option (Text × Text)
unfolding latest_from
latest_text_write entries p = latest_from p none entries

-- `mixedLatest !== undefined && (latest === undefined || mixedLatest.order > latest.order)`.
abbrev pub later_of : Option (Text × Text) → Option (Text × Text) → Option (Text × Text)
later_of latest none = latest
later_of latest (some mixed) = if is_later mixed.0 latest then some mixed else latest

abbrev pub value_of : Option (Text × Text) → Option Text
value_of none = none
value_of (some latest) = some latest.1

-- `file.key.includes("/config/")` and `file.key.includes("/mixed/")`.
unfoldable pub is_config_file : SnapshotFile → Bool
unfolding includes
is_config_file file = includes file.key (lit "/config/")

unfoldable pub is_mixed_file : SnapshotFile → Bool
unfolding includes
is_mixed_file file = includes file.key (lit "/mixed/")

unfoldable pub holds_texts : SnapshotFile → Bool
unfolding is_config_file is_mixed_file
holds_texts file = is_config_file file || is_mixed_file file

-- The writes of a segment, in a map that may hold earlier ones.
unfoldable pub put_writes : List (Text × Text) → List Operation → List (Text × Text)
unfolding put
put_writes values [] = values
put_writes values (append p lines ∷ operations) = put_writes values operations
put_writes values (write p content ∷ operations) = put_writes (put values p content) operations

unfoldable pub put_entries : List (Text × Text) → List Entry → List (Text × Text)
unfolding put_writes
put_entries values [] = values
put_entries values (e ∷ entries) = put_entries (put_writes values e.1.operations) entries

module _ ⦃d : DateTimes⦄ (platform : Platform) (client : Client) where
  open platform use {locale_le}
  open client use {Store}

  -- `compareTextEntries`, as whether the first entry is not above the second.
  abbrev pub by_locale_or : Text → Text → Bool → Bool
  by_locale_or a b next = if locale_le a b && locale_le b a then next else locale_le a b

  unfoldable pub entry_le : Entry → Entry → Bool
  entry_le (f, s) (g, t) =
      by_locale_or s.created_at t.created_at
        (by_locale_or s.transaction_id t.transaction_id (locale_le f.key g.key))

  unfoldable pub load_entry : BucketLog Store → SnapshotFile → BucketLog Store × Result Text Entry
  unfolding load_segment
  load_entry l file = then_in (load_segment platform client l file) (λ l₁ s. (l₁, ok (file, s)))

  unfoldable pub load_entries :
      BucketLog Store → List SnapshotFile → BucketLog Store × Result Text (List Entry)
  unfolding load_entry
  load_entries = traverse_in load_entry

  -- `for (const [path, content] of values) this.rememberText(path, content)`.
  unfoldable pub remember_texts :
      BucketLog Store → List (Text × Text) → BucketLog Store × Result Text (Unit {0})
  unfolding remember_text
  remember_texts l [] = (l, ok tt)
  remember_texts l (v ∷ values) =
      then_in (remember_text platform client l v.0 v.1) (λ l₁ _. remember_texts l₁ values)

  abbrev pub complete_cache : BucketLog Store → Unit {0} → BucketLog Store × Result Text (Unit {0})
  complete_cache l _ = (record l { text_cache_complete = true }, ok tt)

  -- `rememberTextEntries`.
  unfoldable pub remember_text_entries :
      BucketLog Store → List Entry → BucketLog Store × Result Text (Unit {0})
  unfolding put_entries remember_texts entry_le
  remember_text_entries l entries =
      then_in (remember_texts l (put_entries [] (sort entry_le entries))) complete_cache

  -- `primeTextCache`.
  unfoldable pub prime_text_cache :
      BucketLog Store → Snapshot → BucketLog Store × Result Text (Unit {0})
  unfolding load_entries remember_text_entries
  prime_text_cache l s = then_in (load_entries l (filter holds_texts s.files)) remember_text_entries

  -- `readText` with the snapshot to read from.
  unfoldable pub read_from :
      Text → BucketLog Store → Snapshot → BucketLog Store × Result Text (Option Text)
  unfolding same_source remember_files load_entries latest_text_write is_config_file is_mixed_file
  read_from p l s =
      then_in (l, same_source platform client l s)
        (λ l₁ _.
          then_in (load_entries (remember_files l₁ s.files) (filter is_config_file s.files))
            (λ l₂ dedicated. then_in (load_entries l₂ (filter is_mixed_file s.files)) (λ l₃ mixed. (
              l₃,
              ok (value_of (later_of (latest_text_write dedicated p) (latest_text_write mixed p))),
            ))))

  unfoldable pub read_uncached :
      Text → BucketLog Store → Option Snapshot → BucketLog Store × Result Text (Option Text)
  unfolding discover_snapshot require_snapshot read_from
  read_uncached p l none =
      then_in (discover_snapshot platform client l none) (λ l₁ found. read_from p l₁ found.1)
  read_uncached p l (some s) = then_in (l, require_snapshot platform s) (λ l₁ _. read_from p l₁ s)

  -- `readText`, with the snapshot of its options.
  unfoldable pub read_text :
      BucketLog Store → Text → Option Snapshot → BucketLog Store × Result Text (Option Text)
  unfolding assert_config_path read_uncached get
  read_text l p s =
      then_in (l, assert_config_path p)
        (λ l₁ _.
          if l₁.text_cache_complete && not (is_some s)
          then (l₁, ok (get l₁.text_values p))
          else read_uncached p l₁ s)
