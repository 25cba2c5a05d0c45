-- ===== src/Enrichment/Checkpoint/Prefetch/Contract.antt =====
-- The clients of a checkpoint store, and what the prefetch promises them.
use xtap_pool.Base.{
  All, List, Option, Result, Text, [], err, false, ok, some, starts_with, true, ℕ, ◌∷◌, ◌≡◌, ◌≢◌,
  ◌⊎◌,
}
use xtap_pool.Concurrency.{require_concurrency}
use xtap_pool.Enrichment.Checkpoint.{Bytes, ObjectStore, StoreError}
use xtap_pool.Enrichment.Checkpoint.Prefetch.{Cache}

pub data Op : Type 0 where
  reading listing : Text → Op
  writing hinting : Text → Bytes → Op

pub data Reply : Type 0 where
  object : Result StoreError (Option Bytes) → Reply
  found_keys : Result StoreError (List Text) → Reply
  done : Result StoreError (Unit {0}) → Reply

-- A client of a store: operations one after the other, whatever they reply.
module _ (store : ObjectStore) where
  open store use {Store, read, list, write_immutable, write_pointer_hint}

  abbrev pub perform : Store → Op → Store × Reply
  perform s (reading path) = (s, object (read s path))
  perform s (listing prefix) = ((list s prefix).0, found_keys (list s prefix).1)
  perform s (writing path bytes) =
      ((write_immutable s path bytes).0, done (write_immutable s path bytes).1)
  perform s (hinting path bytes) =
      ((write_pointer_hint s path bytes).0, done (write_pointer_hint s path bytes).1)

  abbrev pub run : Store → List Op → Store × List Reply
  run s [] = (s, [])
  run s (op ∷ ops) =
      let (s', replies) = run (perform s op).0 ops in (s', (perform s op).1 ∷ replies)

  -- Objects stay as they were written: a read that finds one finds the same after any listing, any
  -- immutable write and any hint at another path; a write that reports success has stored its bytes;
  -- and a listing gives paths under its prefix.
  pub record IsImmutable : Type 0 where
    pub kept_by_list :
        (s : Store) (path : Text) (bytes : Bytes) (prefix : Text)
        → read s path ≡ ok (some bytes)
        → read (list s prefix).0 path ≡ ok (some bytes)
    pub kept_by_write :
        (s : Store) (path : Text) (bytes : Bytes) (other : Text) (content : Bytes)
        → read s path ≡ ok (some bytes)
        → read (write_immutable s other content).0 path ≡ ok (some bytes)
    pub kept_by_hint :
        (s : Store) (path : Text) (bytes : Bytes) (other : Text) (content : Bytes)
        → read s path ≡ ok (some bytes)
        → path ≢ other
        → read (write_pointer_hint s other content).0 path ≡ ok (some bytes)
    pub listed_under :
        (s : Store) (prefix : Text) (found : List Text)
        → (list s prefix).1 ≡ ok found
        → All (λ path. starts_with path prefix ≡ true) found
    pub stored :
        (s : Store) (path : Text) (bytes : Bytes)
        → (write_immutable s path bytes).1 ≡ ok tt
        → read (write_immutable s path bytes).0 path ≡ ok (some bytes)

module _ (store : ObjectStore) (claims_prefix : Text) (concurrency : ℕ) where
  open store use {Store, read, list, write_immutable, write_pointer_hint}

  -- One of the paths has no object that the store reads.
  abbrev pub AnyUnread : Store → List Text → Type 0
  AnyUnread s [] = ⊥
  AnyUnread s (path ∷ paths) = ((bytes : Bytes) → read s path ≢ ok (some bytes)) ⊎ AnyUnread s paths

  -- A listing of the claims may fail although the plain one does not: where the concurrency is
  -- refused, or a listed claim is not read.
  abbrev pub MayFailOn : Text → Store × Result StoreError (List Text) → Type 0
  MayFailOn prefix r =
      (prefix ≡ claims_prefix)
      × ((require_concurrency concurrency ≢ ok tt)
          ⊎ ((found : List Text) × (r.1 ≡ ok found) × AnyUnread r.0 found))

  abbrev pub MayFail : Store → Op → Type 0
  MayFail s (listing prefix) = MayFailOn prefix (list s prefix)
  MayFail s _ = ⊥

  -- The reply is the plain store's, or an error where a listing may fail.
  abbrev pub Answers : Store → Op → Reply → Type 0
  Answers s op reply =
      (reply ≡ (perform store s op).1)
      ⊎ (MayFail s op × ((e : StoreError) × (reply ≡ found_keys (err e))))

  -- The replies of a run from the store answer its operations, one by one.
  abbrev pub AllAnswer : Store → List Op → List Reply → Type 0
  AllAnswer s [] [] = Unit
  AllAnswer s [] (_ ∷ _) = ⊥
  AllAnswer s (_ ∷ _) [] = ⊥
  AllAnswer s (op ∷ ops) (reply ∷ replies) =
      Answers s op reply × AllAnswer (perform store s op).0 ops replies

  -- A hint is not at a path of a claim.
  abbrev pub IsClaimSafe : Op → Type 0
  IsClaimSafe (hinting path bytes) = starts_with path claims_prefix ≡ false
  IsClaimSafe _ = Unit

  abbrev pub IsClaim : Text → Type 0
  IsClaim path = starts_with path claims_prefix ≡ true

  -- Every cached object is a claim, and what the store would read.
  abbrev pub IsCoherent : Store → Cache → Type 0
  IsCoherent s = All (λ (entry : Text × Bytes).
      (read s entry.0 ≡ ok (some entry.1)) × (starts_with entry.0 claims_prefix ≡ true))
