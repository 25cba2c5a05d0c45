-- ===== src/Enrichment/Checkpoint/Prefetch.antt =====
-- `withCheckpointClaimPrefetch` in space/src/enrich-checkpoint.ts: a store that keeps the claims that
-- it has read. Of the reads in a batch of which one fails, the model keeps those before it; which
-- of the others stay cached depends on their times.
pub mod Contract
pub mod Refinement
use xtap_pool.Base.{
  List, Option, Result, Text, [], err, if◌then◌else◌, keys, none, ok, some, starts_with, text_beq,
  ℕ, ◌∷◌,
}
use xtap_pool.Concurrency.{BatchError, require_concurrency}
use xtap_pool.Enrichment.Checkpoint.{
  Bytes, ObjectStore, StoreError, concurrency_invalid, disappeared,
}

abbrev pub Cache : Type 0
Cache = List (Text × Bytes)

-- `Map.get`; `Map.set` puts the entry first.
unfoldable pub lookup : Cache → Text → Option Bytes
unfolding text_beq
lookup [] path = none
lookup (entry ∷ c) path =
    let rest = lookup c path in if text_beq entry.0 path then some entry.1 else rest

module _ (store : ObjectStore) (claims_prefix : Text) (concurrency : ℕ) where
  open store use {Store, read, list, write_immutable, write_pointer_hint}

  -- One key of the prefetch, from what is cached and from what the store reads.
  fetched : Cache → Text → Option Bytes → Result StoreError (Option Bytes) → Result StoreError Cache
  fetched c key (some cached) found = ok c
  fetched c key none (err e) = err e
  fetched c key none (ok none) = err (disappeared key)
  fetched c key none (ok (some value)) = ok ((key, value) ∷ c)

  unfoldable pub prefetch : Store → Cache → List Text → Cache × Result StoreError (Unit {0})
  unfolding lookup fetched
  prefetch s c [] = (c, ok tt)
  prefetch s c (key ∷ keys) = elim (fetched c key (lookup c key) (read s key)) [
    | err e ↦ (c, err e)
    | ok c' ↦ prefetch s c' keys
  ]

  unfoldable pub cached_read : Store × Cache → Text → Result StoreError (Option Bytes)
  unfolding lookup
  cached_read (s, c) path = elim (lookup c path) [
    | some cached ↦ ok (some cached)
    | none ↦ read s path
  ]

  filled :
      Store
      → List Text
      → Cache × Result StoreError (Unit {0})
      → (Store × Cache) × Result StoreError (List Text)
  filled s keys (c, err e) = ((s, c), err e)
  filled s keys (c, ok _) = ((s, c), ok keys)

  -- The listing of the claims, after `requireConcurrency`.
  filled_if :
      Store
      → Cache
      → List Text
      → Result BatchError (Unit {0})
      → (Store × Cache) × Result StoreError (List Text)
  unfolding filled prefetch
  filled_if s c keys (err e) = ((s, c), err concurrency_invalid)
  filled_if s c keys (ok _) = filled s keys (prefetch s c keys)

  listed :
      Cache
      → Text
      → Store × Result StoreError (List Text)
      → (Store × Cache) × Result StoreError (List Text)
  unfolding filled_if require_concurrency text_beq
  listed c prefix (s, err e) = ((s, c), err e)
  listed c prefix (s, ok keys) =
      if text_beq prefix claims_prefix
      then filled_if s c keys (require_concurrency concurrency)
      else ((s, c), ok keys)

  unfoldable pub cached_list :
      Store × Cache → Text → (Store × Cache) × Result StoreError (List Text)
  unfolding listed
  cached_list (s, c) prefix = listed c prefix (list s prefix)

  written :
      Cache
      → Text
      → Bytes
      → Store × Result StoreError (Unit {0})
      → (Store × Cache) × Result StoreError (Unit {0})
  unfolding starts_with
  written c path bytes (s, err e) = ((s, c), err e)
  written c path bytes (s, ok _) =
      ((s, if starts_with path claims_prefix then (path, bytes) ∷ c else c), ok tt)

  unfoldable pub cached_write :
      Store × Cache → Text → Bytes → (Store × Cache) × Result StoreError (Unit {0})
  unfolding written
  cached_write (s, c) path bytes = written c path bytes (write_immutable s path bytes)

  unfoldable pub hint_through :
      Cache → Store × Result StoreError (Unit {0}) → (Store × Cache) × Result StoreError (Unit {0})
  hint_through c (s, r) = ((s, c), r)

  abbrev pub with_prefetch : ObjectStore
  with_prefetch = record {
    Store = Store × Cache;
    read = cached_read;
    list = cached_list;
    write_immutable = cached_write;
    write_pointer_hint = λ sc path bytes. hint_through sc.1 (write_pointer_hint sc.0 path bytes);
  }
