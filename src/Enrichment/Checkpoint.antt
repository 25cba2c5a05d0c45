-- ===== src/Enrichment/Checkpoint.antt =====
-- The object store of checkpoints, `createEnrichmentCheckpointStore` and
-- `createReadOnlyEnrichmentCheckpointStore` in space/src/enrich-checkpoint.ts, over the Hub client.
-- Reads go through the retry, so a call of the client takes the number of the attempt.
pub mod Writes
pub mod Prefetch
pub mod Adapter
mod Examples
use xtap_pool.Base.{
  Bool, List, Option, Result, Text, [], eqb, err, false, if◌then◌else◌, none, ok, some, sort,
  text_beq, text_le, ℕ, ◌>>=◌,
}
use xtap_pool.Retry.{Failure, Kind, Thrown, hub_api, retry_transient_hub_read}

-- The bytes of an object.
abbrev pub Bytes : Type 0
Bytes = List ℕ

-- What the code uses of the Hub client: `downloadFile`, `uploadFile` and the files of `listFiles`.
pub record Hub : Type 1 where
  pub Bucket : Type 0
  pub download : Bucket → Text → ℕ → Result Failure (Option Bytes)
  pub upload : Bucket → Text → Bytes → Bucket × Result Failure (Unit {0})
  pub list_files : Bucket → Text → ℕ → Result Failure (List Text)

pub data StoreError : Type 0 where
  unread : Thrown → StoreError
  failed : Failure → StoreError
  differs mismatch disappeared missing : Text → StoreError
  read_only concurrency_invalid : StoreError

-- `CheckpointObjectStore`. A listing may fill a cache, so it gives a new store.
pub record ObjectStore : Type 1 where
  pub Store : Type 0
  pub read : Store → Text → Result StoreError (Option Bytes)
  pub list : Store → Text → Store × Result StoreError (List Text)
  pub write_immutable : Store → Text → Bytes → Store × Result StoreError (Unit {0})
  pub write_pointer_hint : Store → Text → Bytes → Store × Result StoreError (Unit {0})

abbrev is_missing : Kind → Bool
is_missing (hub_api status) = eqb status 404
is_missing _ = false

-- A call for which status 404 is an answer.
abbrev or_missing : {A : Type 0} → A → Result Failure A → Result Failure A
or_missing absent (ok a) = ok a
or_missing absent (err e) = if is_missing e.kind then ok absent else err e

abbrev or_unread : {A : Type 0} → Result Thrown A → Result StoreError A
or_unread (ok a) = ok a
or_unread (err e) = err (unread e)

module _ (hub : Hub) where
  open hub use {Bucket, download, upload, list_files}

  unfoldable pub read_object : Bucket → Text → Result StoreError (Option Bytes)
  unfolding retry_transient_hub_read
  read_object b path =
      or_unread (retry_transient_hub_read (λ attempt. or_missing none (download b path attempt))).1

  unfoldable pub list_objects : Bucket → Text → Result StoreError (List Text)
  unfolding retry_transient_hub_read text_le
  list_objects b prefix =
      or_unread
        (retry_transient_hub_read (λ attempt. or_missing [] (list_files b prefix attempt))).1
      >>= λ paths. ok (sort text_le paths)

  -- The end of `writeImmutable`, after the upload.
  read_back : Text → Bytes → Result StoreError (Option Bytes) → Result StoreError (Unit {0})
  unfolding text_beq
  read_back path bytes (err e) = err e
  read_back path bytes (ok none) = err (mismatch path)
  read_back path bytes (ok (some stored)) =
      if text_beq stored bytes then ok tt else err (mismatch path)

  confirm :
      Text → Bytes → Bucket × Result Failure (Unit {0}) → Bucket × Result StoreError (Unit {0})
  unfolding read_object read_back
  confirm path bytes (b, err e) = (b, err (failed e))
  confirm path bytes (b, ok _) = (b, read_back path bytes (read_object b path))

  -- `writeImmutable`, from the object that is there.
  write_over :
      Bucket
      → Text
      → Bytes
      → Result StoreError (Option Bytes)
      → Bucket × Result StoreError (Unit {0})
  unfolding confirm text_beq
  write_over b path bytes (err e) = (b, err e)
  write_over b path bytes (ok none) = confirm path bytes (upload b path bytes)
  write_over b path bytes (ok (some existing)) =
      (b, if text_beq existing bytes then ok tt else err (differs path))

  unfoldable pub write_object : Bucket → Text → Bytes → Bucket × Result StoreError (Unit {0})
  unfolding read_object write_over
  write_object b path bytes = write_over b path bytes (read_object b path)

  hinted : Bucket × Result Failure (Unit {0}) → Bucket × Result StoreError (Unit {0})
  hinted (b, ok _) = (b, ok tt)
  hinted (b, err e) = (b, err (failed e))

  unfoldable pub checkpoint_store : ObjectStore
  unfolding read_object list_objects write_object hinted
  checkpoint_store = record {
    Store = Bucket;
    read = read_object;
    list = λ b prefix. (b, list_objects b prefix);
    write_immutable = write_object;
    write_pointer_hint = λ b path bytes. hinted (upload b path bytes);
  }

  unfoldable pub read_only_checkpoint_store : ObjectStore
  unfolding read_object list_objects
  read_only_checkpoint_store = record {
    Store = Bucket;
    read = read_object;
    list = λ b prefix. (b, list_objects b prefix);
    write_immutable = λ b path bytes. (b, err read_only);
    write_pointer_hint = λ b path bytes. (b, ok tt);
  }
