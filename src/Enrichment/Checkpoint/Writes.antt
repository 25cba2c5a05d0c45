-- ===== src/Enrichment/Checkpoint/Writes.antt =====
-- What a write to the checkpoint store guarantees.
use xtap_pool.Base.{
  Option, Result, Text, ap, arith, err, if◌then◌else◌, none, ok, refl, some, text_beq, text_beq_iff,
  true, ◌∙◌, ◌≡◌,
}
use xtap_pool.Retry.{Failure}
use xtap_pool.Enrichment.Checkpoint.{
  Bytes, Hub, StoreError, confirm, differs, read_back, read_object, write_object, write_over,
}

module _ (hub : Hub) where
  open hub use {Bucket, upload}

  read_back_ok :
      (path bytes : Text) (r : Result StoreError (Option Bytes))
      → read_back hub path bytes r ≡ ok tt
      → r ≡ ok (some bytes)
  unfolding read_back
  read_back_ok path bytes (err e) h = cc
  read_back_ok path bytes (ok none) h = cc
  read_back_ok path bytes (ok (some stored)) h =
      let same : text_beq stored bytes ≡ true = ground arith in
      ap (λ s. ok (some s)) ((text_beq_iff stored bytes).0 same)

  confirm_ok :
      (path bytes : Text) (r : Bucket × Result Failure (Unit {0}))
      → (confirm hub path bytes r).1 ≡ ok tt
      → read_object hub (confirm hub path bytes r).0 path ≡ ok (some bytes)
  unfolding confirm
  confirm_ok path bytes (b, err e) h = cc
  confirm_ok path bytes (b, ok _) h = read_back_ok path bytes (read_object hub b path) h

  write_over_ok :
      (b : Bucket) (path bytes : Text) (r : Result StoreError (Option Bytes))
      → read_object hub b path ≡ r
      → (write_over hub b path bytes r).1 ≡ ok tt
      → read_object hub (write_over hub b path bytes r).0 path ≡ ok (some bytes)
  unfolding write_over
  write_over_ok b path bytes (err e) there h = cc
  write_over_ok b path bytes (ok none) there h = confirm_ok path bytes (upload b path bytes) h
  write_over_ok b path bytes (ok (some existing)) there h =
      let same : text_beq existing bytes ≡ true = ground arith in
      there ∙ ap (λ s. ok (some s)) ((text_beq_iff existing bytes).0 same)

  -- A write that reports success leaves exactly its bytes at the path, whether it uploaded them or
  -- found them there.
  pub write_object_stored :
      (b : Bucket) (path : Text) (bytes : Bytes)
      → (write_object hub b path bytes).1 ≡ ok tt
      → read_object hub (write_object hub b path bytes).0 path ≡ ok (some bytes)
  unfolding write_object
  write_object_stored b path bytes h = write_over_ok b path bytes (read_object hub b path) refl h

  -- An object that is there is never replaced: the bucket stays, and other bytes are refused.
  pub write_object_keeps :
      (b : Bucket) (path : Text) (bytes existing : Bytes)
      → read_object hub b path ≡ ok (some existing)
      → write_object hub b path bytes
        ≡ (b, if text_beq existing bytes then ok tt else err (differs path))
  unfolding write_object write_over
  write_object_keeps b path bytes existing h = ap (write_over hub b path bytes) h
