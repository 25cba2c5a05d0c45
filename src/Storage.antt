-- ===== src/Storage.antt =====
-- What the configuration registries use of the Bucket log (`StorageLog` in
-- space/src/bucket-log.ts): reading and writing one text by its path. The commit title of a write
-- is not stored by the log, so it is left out.
pub mod Memory
use xtap_pool.Base.{Option, Result, Text, ok, some, ◌≡◌}

pub record StorageLog : Type 1 where
  pub Log : Type 0
  pub read_text : Log → Text → Result Text (Option Text)
  pub write_text : Log → Text → Text → Log × Result Text (Unit {0})
  -- A write that reports success is what the next read of the path returns.
  pub read_after_write :
      (l l' : Log) (path content : Text)
      → write_text l path content ≡ (l', ok tt)
      → read_text l' path ≡ ok (some content)
