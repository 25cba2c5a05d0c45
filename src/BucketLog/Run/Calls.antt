-- ===== src/BucketLog/Run/Calls.antt =====
-- What each operation of the log does to the segments that it has verified: they stay authentic.
use xtap_pool.Base.{
  All, Bool-cases, DateTimes, List, Option, Text, [], eqb, inl, inr, none, some, then_in-keeps,
  traverse_in-keeps, values, ◌∷◌,
}
use xtap_pool.BucketLog.{BucketLog, Client, Object, Platform, Snapshot, SnapshotFile}
use xtap_pool.BucketLog.Reads.Authentic.{
  IsKept, KeepsVerified, load_segment-keeps, verify_listed_object-keeps,
}
use xtap_pool.BucketLog.Writes.{remember_text}
use xtap_pool.BucketLog.Writes.Kept.{upload_new-Keeps}
use xtap_pool.BucketLog.Snapshots.{
  discover_listed, discover_one, discover_over, discover_snapshot, load_listed, remember_files,
  same_listing, store_checked, store_snapshot, verify_known,
}
use xtap_pool.BucketLog.Receipts.{
  hydrate_from_snapshot, hydrate_metadata, latest_receipt_in_files, observe,
}
use xtap_pool.BucketLog.Texts.{load_entries, load_entry, read_from, read_uncached, remember_texts}

module _ ⦃d : DateTimes⦄ (platform : Platform) (client : Client) where
  open client use {Store}

  abbrev pub Kept : BucketLog Store → Type 0
  Kept = KeepsVerified platform client

  verify_known_keeps :
      (l : BucketLog Store) (old : SnapshotFile) (o : Object)
      → Kept l
      → Kept (verify_known platform client l old o).0
  unfolding verify_known
  verify_known_keeps l old o h =
      then_in-keeps {E = Text} Kept _ _ (verify_listed_object-keeps platform client l o h)
        (λ l₁ file h₁. h₁)

  discover_over_keeps :
      (l : BucketLog Store) (o : Object) (known : Option SnapshotFile)
      → Kept l
      → Kept (discover_over platform client l o known).0
  unfolding discover_over
  discover_over_keeps l o none h = verify_listed_object-keeps platform client l o h
  discover_over_keeps l o (some old) h = elim (Bool-cases (eqb old.size o.size)) [
    | inr differs ↦ rw differs h
    | inl sized ↦ elim (Bool-cases (same_listing old o.oid)) [
      | inl same ↦ rw (sized, same) h
      | inr other ↦
          rw (sized, other)
            (then_in-keeps {E = Text} Kept _ _ (verify_known_keeps l old o h) (λ l₁ file h₁. h₁))
    ]
  ]

  pub discover_snapshot_keeps :
      (l : BucketLog Store) (known : Option (List SnapshotFile))
      → Kept l
      → Kept (discover_snapshot platform client l known).0
  unfolding discover_snapshot discover_listed discover_one remember_files
  discover_snapshot_keeps l known h = then_in-keeps {E = Text} Kept _ _ h (λ l₁ objects h₁.
      then_in-keeps {E = Text} Kept _ _ h₁ (λ l₂ u h₂.
        then_in-keeps {E = Text} Kept _ _
          (traverse_in-keeps Kept _ (λ m o k. discover_over_keeps m o _ k) l₂ _ h₂)
          (λ l₃ files h₃. then_in-keeps {E = Text} Kept _ _ h₃ (λ l₄ v h₄. h₄))))

  pub store_snapshot_keeps :
      (l : BucketLog Store) (s : Snapshot) → Kept l → Kept (store_snapshot platform client l s).0
  unfolding store_snapshot store_checked
  store_snapshot_keeps l s h = then_in-keeps {E = Text} Kept _ _ h (λ l₁ u h₁.
      then_in-keeps {E = Text} Kept _ _ h₁ (λ l₂ existing h₂.
        then_in-keeps {E = Text} Kept _ _
          (upload_new-Keeps platform client (λ verified complete. All (IsKept platform) verified) l₂
            _ _ existing h₂)
          (λ l₃ v h₃. then_in-keeps {E = Text} Kept _ _ h₃ (λ l₄ stored h₄. h₄))))

  pub load_listed_keeps :
      (l : BucketLog Store) (o : Object) → Kept l → Kept (load_listed platform client l o).0
  unfolding load_listed
  load_listed_keeps l o h =
      then_in-keeps {E = Text} Kept _ _ (verify_listed_object-keeps platform client l o h)
        (λ l₁ file h₁.
          then_in-keeps {E = Text} Kept _ _ (load_segment-keeps platform client l₁ file h₁)
            (λ l₂ s h₂. h₂))

  pub load_entries_keeps :
      (l : BucketLog Store) (files : List SnapshotFile)
      → Kept l
      → Kept (load_entries platform client l files).0
  unfolding load_entries load_entry
  load_entries_keeps l files h =
      traverse_in-keeps Kept _
        (λ m file k.
          then_in-keeps {E = Text} Kept _ _ (load_segment-keeps platform client m file k)
            (λ l₁ s h₁. h₁))
        l files h

  pub remember_texts_keeps :
      (values : List (Text × Text)) (l : BucketLog Store)
      → Kept l
      → Kept (remember_texts platform client l values).0
  unfolding remember_texts remember_text
  remember_texts_keeps [] l h = h
  remember_texts_keeps (v ∷ values) l h =
      then_in-keeps {E = Text} Kept (remember_text platform client l v.0 v.1) _ h
        (λ l₁ u h₁. remember_texts_keeps values l₁ h₁)

  read_from_keeps :
      (p : Text) (l : BucketLog Store) (s : Snapshot)
      → Kept l
      → Kept (read_from platform client p l s).0
  unfolding read_from remember_files
  read_from_keeps p l s h = then_in-keeps {E = Text} Kept _ _ h (λ l₁ u h₁.
      then_in-keeps {E = Text} Kept _ _ (load_entries_keeps _ _ h₁) (λ l₂ dedicated h₂.
        then_in-keeps {E = Text} Kept _ _ (load_entries_keeps l₂ _ h₂) (λ l₃ mixed h₃. h₃)))

  pub read_uncached_keeps :
      (p : Text) (l : BucketLog Store) (s : Option Snapshot)
      → Kept l
      → Kept (read_uncached platform client p l s).0
  unfolding read_uncached
  read_uncached_keeps p l none h =
      then_in-keeps {E = Text} Kept _ _ (discover_snapshot_keeps l none h)
        (λ l₁ found h₁. read_from_keeps p l₁ found.1 h₁)
  read_uncached_keeps p l (some s) h =
      then_in-keeps {E = Text} Kept _ _ h (λ l₁ u h₁. read_from_keeps p l₁ s h₁)

  latest_receipt_keeps :
      (l : BucketLog Store) (files : List SnapshotFile)
      → Kept l
      → Kept (latest_receipt_in_files platform client l files).0
  unfolding latest_receipt_in_files observe
  latest_receipt_keeps l files h =
      then_in-keeps {E = Text} Kept _ _
        (traverse_in-keeps Kept (observe platform client)
          (λ m file k.
            then_in-keeps {E = Text} Kept _ _ (load_segment-keeps platform client m file k)
              (λ l₁ s h₁. h₁))
          l files h)
        (λ l₁ observed h₁. h₁)

  pub hydrate_keeps :
      (l : BucketLog Store) (s : Snapshot) (files : Option (List SnapshotFile))
      → Kept l
      → Kept (hydrate_metadata platform client l s files).0
  unfolding hydrate_metadata hydrate_from_snapshot
  hydrate_keeps l s (some files) h = then_in-keeps {E = Text} Kept _ _ h (λ l₁ known h₁.
      then_in-keeps {E = Text} Kept _ _ (latest_receipt_keeps l₁ known h₁) (λ l₂ found h₂. h₂))
  hydrate_keeps l s none h =
      then_in-keeps {E = Text} Kept _ _ (latest_receipt_keeps l _ h) (λ l₁ dedicated h₁.
        then_in-keeps {E = Text} Kept _ _ h₁ (λ l₂ files h₂.
          then_in-keeps {E = Text} Kept _ _ (latest_receipt_keeps l₂ files h₂) (λ l₃ mixed h₃. h₃)))
