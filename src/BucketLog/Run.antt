-- ===== src/BucketLog/Run.antt =====
-- The calls of a `BucketLog`, one after the other, whatever each gives or throws.
mod Calls
use xtap_pool.Base.{
  All, Bool-cases, DateTimes, List, Option, Text, [], filter, inl, inr, is_some, not, ok, some,
  then_in-keeps, ℕ, ◌&&◌, ◌∷◌, ◌≡◌,
}
use xtap_pool.BucketLog.{BucketLog, Client, Platform, Segment, Snapshot, SnapshotFile}
use xtap_pool.BucketLog.Reads.{load_segment, verified}
use xtap_pool.BucketLog.Reads.Authentic.{
  IsAuthentic, IsKept, load_segment-IsAuthentic, load_segment-keeps,
}
use xtap_pool.BucketLog.Writes.{commit_batch, put_segment, remember_text, write_text}
use xtap_pool.BucketLog.Writes.Kept.{commit_batch-Keeps, put_segment-Keeps}
use xtap_pool.BucketLog.Snapshots.{
  create_snapshot, discover_snapshot, load_segment_by_key, load_snapshot, remember_files,
  store_snapshot,
}
use xtap_pool.BucketLog.Receipts.{hydrate_metadata}
use xtap_pool.BucketLog.Tweets.{Tweet, append_tweets}
use xtap_pool.BucketLog.Run.Calls.{
  Kept, discover_snapshot_keeps, hydrate_keeps, load_entries_keeps, load_listed_keeps,
  read_uncached_keeps, remember_texts_keeps, store_snapshot_keeps,
}
use xtap_pool.BucketLog.Texts.{
  holds_texts, load_entries, prime_text_cache, read_text, remember_text_entries,
}

pub data Call : Type 0 where
  commit : ℕ → Text → List (Text × List Text) → List (Text × Text) → Call
  put_one : Segment → Call
  write_one : ℕ → Text → Text → Text → Call
  discover : Option (List SnapshotFile) → Call
  create : Call
  store : Snapshot → Call
  load_revision : Text → Call
  load_file : SnapshotFile → Call
  load_key : Text → Call
  prime : Snapshot → Call
  read_one : Text → Option Snapshot → Call
  hydrate : Snapshot → Option (List SnapshotFile) → Call
  append_all : ℕ → Text → List Tweet → Call

module _ ⦃d : DateTimes⦄ (platform : Platform) (client : Client) where
  open client use {Store}

  unfoldable pub step : BucketLog Store → Call → BucketLog Store
  step l (commit now uuid appends writes) =
      (commit_batch platform client l now uuid appends writes).0
  step l (put_one s) = (put_segment platform client l s).0
  step l (write_one now uuid p content) = (write_text platform client l now uuid p content).0
  step l (discover known) = (discover_snapshot platform client l known).0
  step l create = (create_snapshot platform client l).0
  step l (store s) = (store_snapshot platform client l s).0
  step l (load_revision revision) = (load_snapshot platform client l revision).0
  step l (load_file file) = (load_segment platform client l file).0
  step l (load_key key) = (load_segment_by_key platform client l key).0
  step l (prime s) = (prime_text_cache platform client l s).0
  step l (read_one p s) = (read_text platform client l p s).0
  step l (hydrate s files) = (hydrate_metadata platform client l s files).0
  step l (append_all now uuid tweets) = (append_tweets platform client l now uuid tweets).0

  unfoldable pub run : BucketLog Store → List Call → BucketLog Store
  unfolding step
  run l [] = l
  run l (c ∷ calls) = run (step l c) calls

  step_keeps :
      (l : BucketLog Store) (c : Call)
      → (Kept platform client) l
      → (Kept platform client) (step l c)
  unfolding step write_text append_tweets create_snapshot load_snapshot remember_files
      load_segment_by_key prime_text_cache remember_text_entries read_text remember_text
  step_keeps l (commit now uuid appends writes) h =
      commit_batch-Keeps platform client (λ verified complete. All (IsKept platform) verified) l now
        uuid appends writes h
  step_keeps l (put_one s) h =
      put_segment-Keeps platform client (λ verified complete. All (IsKept platform) verified) l s h
  step_keeps l (write_one now uuid p content) h =
      then_in-keeps {E = Text} (Kept platform client)
        (commit_batch platform client l now uuid [] ((p, content) ∷ [])) _
        (commit_batch-Keeps platform client (λ verified complete. All (IsKept platform) verified) l
          now uuid [] ((p, content) ∷ []) h)
        (λ l₁ key h₁. h₁)
  step_keeps l (discover known) h = discover_snapshot_keeps platform client l known h
  step_keeps l create h =
      then_in-keeps {E = Text} (Kept platform client)
        (discover_snapshot platform client l (some [])) _
        (discover_snapshot_keeps platform client l (some []) h)
        (λ l₁ found h₁. store_snapshot_keeps platform client _ found.1 tt)
  step_keeps l (store s) h = store_snapshot_keeps platform client l s h
  step_keeps l (load_revision revision) h =
      then_in-keeps {E = Text} (Kept platform client) _ _ h (λ l₁ s h₁. h₁)
  step_keeps l (load_file file) h = load_segment-keeps platform client l file h
  step_keeps l (load_key key) h =
      then_in-keeps {E = Text} (Kept platform client) _ _ h
        (λ l₁ o h₁. load_listed_keeps platform client l₁ o h₁)
  step_keeps l (prime s) h =
      then_in-keeps {E = Text} (Kept platform client)
        (load_entries platform client l (filter holds_texts s.files)) _
        (load_entries_keeps platform client l _ h)
        (λ l₁ entries h₁.
          then_in-keeps {E = Text} (Kept platform client) _ _
            (remember_texts_keeps platform client _ l₁ h₁) (λ l₂ u h₂. h₂))
  step_keeps l (read_one p s) h = then_in-keeps {E = Text} (Kept platform client) _ _ h (λ l₁ u h₁.
      elim (Bool-cases (l₁.text_cache_complete && not (is_some s))) [
        | inl cached ↦ rw cached h₁
        | inr other ↦ rw other (read_uncached_keeps platform client p l₁ s h₁)
      ])
  step_keeps l (hydrate s files) h = hydrate_keeps platform client l s files h
  step_keeps l (append_all now uuid tweets) h =
      then_in-keeps {E = Text} (Kept platform client) _ _ h (λ l₁ appends h₁.
        commit_batch-Keeps platform client (λ verified complete. All (IsKept platform) verified) l₁
          now uuid appends [] h₁)

  run_keeps :
      (l : BucketLog Store) (calls : List Call)
      → (Kept platform client) l
      → (Kept platform client) (run l calls)
  unfolding run
  run_keeps l [] h = h
  run_keeps l (c ∷ calls) h = run_keeps (step l c) calls (step_keeps l c h)

  -- After any calls on a log that has verified nothing yet, a segment that is loaded is authentic,
  -- be it read again or verified by an earlier call: it is valid, the file's key is its own, and the
  -- digest of its bytes is the one that the file names.
  pub run-IsAuthentic :
      (l l' : BucketLog Store) (calls : List Call) (file : SnapshotFile) (s : Segment)
      → l.newly_verified ≡ []
      → load_segment platform client (run l calls) file ≡ (l', ok s)
      → IsAuthentic platform file.key s
        × (platform.sha256 (platform.segment_bytes s) ≡ file.content_sha256)
  run-IsAuthentic l l' calls file s fresh h =
      load_segment-IsAuthentic platform client (run l calls) l' file s
        (run_keeps l calls (rw fresh tt)) h
