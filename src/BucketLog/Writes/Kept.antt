-- ===== src/BucketLog/Writes/Kept.antt =====
-- Putting a segment leaves the verified segments and the state of the text cache as they are.
use xtap_pool.Base.{Bool, DateTimes, List, Option, Result, Text, none, some, then_in-keeps, ℕ}
use xtap_pool.BucketLog.{BucketLog, Bytes, Client, Platform, Segment}
use xtap_pool.BucketLog.Writes.{
  batch_of, commit_batch, next_created_at, put_segment, store_segment, upload_by, upload_new,
}

module _ ⦃d : DateTimes⦄ (platform : Platform) (client : Client)
    (Q : List (Text × Segment) → Bool → Type 0) where
  open client use {Store}

  abbrev Keeps : BucketLog Store → Type 0
  Keeps l = Q l.newly_verified l.text_cache_complete

  upload_by-Keeps :
      (send : Option (Store → Text → Bytes → Store × Result Text (Unit {0}))) (l : BucketLog Store)
      (key : Text) (content : Bytes)
      → Keeps l
      → Keeps (upload_by platform client send l key content).0
  unfolding upload_by
  upload_by-Keeps none l key content h = h
  upload_by-Keeps (some send) l key content h = h

  pub upload_new-Keeps :
      (l : BucketLog Store) (key : Text) (content : Bytes) (existing : Option Bytes)
      → Keeps l
      → Keeps (upload_new platform client l key content existing).0
  unfolding upload_new
  upload_new-Keeps l key content (some b) h = h
  upload_new-Keeps l key content none h = upload_by-Keeps client.upload l key content h

  pub put_segment-Keeps :
      (l : BucketLog Store) (s : Segment) → Keeps l → Keeps (put_segment platform client l s).0
  unfolding put_segment store_segment
  put_segment-Keeps l s h = then_in-keeps {E = Text} Keeps _ _ h (λ l₁ key h₁.
      then_in-keeps {E = Text} Keeps _ _ h₁ (λ l₂ existing h₂.
        then_in-keeps {E = Text} Keeps _ _ (upload_new-Keeps l₂ key _ existing h₂)
          (λ l₃ u h₃. then_in-keeps {E = Text} Keeps _ _ h₃ (λ l₄ v h₄. h₄))))

  pub commit_batch-Keeps :
      (l : BucketLog Store) (now : ℕ) (uuid : Text) (appends : List (Text × List Text))
      (writes : List (Text × Text))
      → Keeps l
      → Keeps (commit_batch platform client l now uuid appends writes).0
  unfolding commit_batch next_created_at
  commit_batch-Keeps l now uuid appends writes h =
      then_in-keeps {E = Text} Keeps (next_created_at platform client l now) _ h
        (λ l₁ at h₁. put_segment-Keeps l₁ (batch_of uuid at appends writes) h₁)
