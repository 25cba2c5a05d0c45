-- ===== src/BucketLog/Writes/Loaded.antt =====
-- Loading a segment by what `putSegment` has noted of it.
use mathlib.Core.Option
use mathlib.Core.Path.{subst}
use xtap_pool.Base.{
  ==_refl, >>=-eq-ok, Bool, DateTimes, Option, Result, Text, ap, arith, eqb, eqb_iff, err, false,
  get, is_sha256, length, lit, nat_eq, none, not, ok, ok-injective, refl, returned, some, sym,
  text_eq, then_in, then_in-ok, true, ◌++◌, ◌==◌, ◌||◌, ◌∙◌, ◌≡◌, ◌≢◌,
}
use xtap_pool.BucketLog.{BucketLog, Bytes, Client, Platform, Segment}
use xtap_pool.BucketLog.Names.{assert_key_matches, source_segment_key, validate_operations}
use xtap_pool.BucketLog.Schemas.{require_segment}
use xtap_pool.BucketLog.Reads.{check_hash, load_over, load_segment, read_again, verified}
use xtap_pool.BucketLog.Writes.{
  prepare, put_segment, store_segment, stored_file, upload_by, upload_new,
}
use xtap_pool.BucketLog.Writes.Stored.{IsStored, put_segment-IsStored}

or_of_right : (a : Bool) {b : Bool} → b ≡ true → (a || b) ≡ true
or_of_right true h = refl
or_of_right false h = h

module _ ⦃d : DateTimes⦄ (platform : Platform) (client : Client) where
  open platform use {gzip, gunzip, sha256, segment_bytes, read_segment}
  open client use {Store, download, upload}

  -- An upload that reports success is what the next download gives.
  abbrev pub KeepsUploads : Type 0
  KeepsUploads =
      (send : Store → Text → Bytes → Store × Result Text (Unit {0}))
      → upload ≡ some send
      → (b : Store) (key : Text) (content : Bytes) → (send b key content).1 ≡ ok tt
      → download (send b key content).0 key ≡ ok (some content)

  upload_new_lem :
      (l : BucketLog Store) (key : Text) (content : Bytes)
      (send : Option (Store → Text → Bytes → Store × Result Text (Unit {0})))
      → KeepsUploads
      → upload ≡ send
      → (upload_by platform client send l key content).1 ≡ ok tt
      → download (upload_by platform client send l key content).0.remote key ≡ ok (some content)
  unfolding upload_by
  upload_new_lem l key content none keeps e h = cc
  upload_new_lem l key content (some send) keeps e h = keeps send e l.remote key content h

  prepare_checks :
      (s : Segment) (key : Text)
      → prepare platform client s ≡ ok key
      → (require_segment platform s ≡ ok tt) × (validate_operations platform s.operations ≡ ok tt)
  unfolding prepare
  prepare_checks s key h =
      let (_, required, h₁) = >>=-eq-ok (require_segment platform s) _ h in
      let (_, valid, _) = >>=-eq-ok (validate_operations platform s.operations) _ h₁ in
      (required, valid)

  check_hash-stored_file :
      (l : BucketLog Store) (s : Segment) (key : Text)
      → IsStored platform client l key s
      → check_hash platform client (stored_file platform client key s) ≡ ok tt
  unfolding check_hash
  check_hash-stored_file l s key stored = rw (stored.hash, ==_refl (sha256 (segment_bytes s))) refl

  assert_own_key :
      (s : Segment) (key : Text)
      → source_segment_key platform s (sha256 (segment_bytes s)) ≡ ok key
      → assert_key_matches platform key s (sha256 (segment_bytes s)) ≡ ok tt
  unfolding assert_key_matches
  assert_own_key s key own = rw (own, ==_refl key) refl

  read_again_lem :
      (l : BucketLog Store) (s : Segment) (key : Text)
      → IsStored platform client l key s
      → download l.remote key ≡ ok (some (gzip (segment_bytes s)))
      → read_segment (segment_bytes s) ≡ ok s
      → require_segment platform s ≡ ok tt
      → validate_operations platform s.operations ≡ ok tt
      → read_again platform client l (stored_file platform client key s) ≡ ok s
  unfolding read_again
  read_again_lem l s key stored held parsed required valid =
      let raw = segment_bytes s in
      let same : stored.stored ≡ gzip raw =
        Option.some-injective _ _ (ok-injective (sym stored.held ∙ held)) in
      let unpacked : gunzip (gzip raw) ≡ ok raw = rw (← same) stored.bytes in
      let oid : (not (is_sha256 (sha256 (gzip raw))) || sha256 (gzip raw) == sha256 (gzip raw))
          ≡ true =
        or_of_right (not (is_sha256 (sha256 (gzip raw)))) (==_refl (sha256 (gzip raw))) in
      let size = (eqb_iff (length (gzip raw)) (length (gzip raw))).1 refl in
      rw
        (
          held,
          size,
          oid,
          unpacked,
          ==_refl (sha256 raw),
          parsed,
          required,
          valid,
          ==_refl raw,
          assert_own_key s key stored.own_key,
        )
        refl

  load_stored :
      (l : BucketLog Store) (s : Segment) (key : Text)
      → IsStored platform client l key s
      → get l.newly_verified key ≡ none
      → load_segment platform client l (stored_file platform client key s)
        ≡ (l, read_again platform client l (stored_file platform client key s))
  unfolding load_segment load_over then_in
  load_stored l s key stored fresh = rw (check_hash-stored_file l s key stored, fresh) refl

  upload_by_verified :
      (send : Option (Store → Text → Bytes → Store × Result Text (Unit {0}))) (l : BucketLog Store)
      (key : Text) (content : Bytes)
      → (upload_by platform client send l key content).0.newly_verified ≡ l.newly_verified
  unfolding upload_by
  upload_by_verified none l key content = refl
  upload_by_verified (some send) l key content = refl

  sent_lem :
      (l : BucketLog Store) (key : Text) (content : Bytes) (existing : Option Bytes)
      → KeepsUploads
      → existing ≡ none
      → (upload_new platform client l key content existing).1 ≡ ok tt
      → let after = (upload_new platform client l key content existing).0 in
        (download after.remote key ≡ ok (some content)) × (after.newly_verified ≡ l.newly_verified)
  unfolding upload_new
  sent_lem l key content (some held) keeps absent h = cc
  sent_lem l key content none keeps absent h =
      (upload_new_lem l key content upload keeps refl h, upload_by_verified upload l key content)

  put_checks :
      (l l' : BucketLog Store) (s : Segment) (key : Text)
      → put_segment platform client l s ≡ (l', ok key)
      → (require_segment platform s ≡ ok tt) × (validate_operations platform s.operations ≡ ok tt)
  unfolding put_segment
  put_checks l l' s key h =
      let (own, prepared, _) = then_in-ok _ _ l' key h in prepare_checks s own prepared

  -- What a put of a new key leaves: the bytes that it has sent, and nothing verified.
  pub put_new :
      (l l' : BucketLog Store) (s : Segment) (key : Text)
      → KeepsUploads
      → put_segment platform client l s ≡ (l', ok key)
      → download l.remote key ≡ ok none
      → (download l'.remote key ≡ ok (some (gzip (segment_bytes s))))
        × (l'.newly_verified ≡ l.newly_verified)
  unfolding put_segment store_segment
  put_new l l' s key keeps h absent =
      let (own, prepared, h₁) = then_in-ok _ _ l' key h in
      let (existing, found, h₂) = then_in-ok _ _ l' key h₁ in
      let (_, sent, h₃) = then_in-ok _ _ l' key h₂ in
      let (_, checked, last) = then_in-ok _ _ l' key h₃ in
      let (state, same) = returned last in
      let none_held = ok-injective (sym found ∙ ap (download l.remote) same ∙ absent) in
      let (held, verified) =
        sent_lem l own (gzip (segment_bytes s)) existing keeps none_held sent in
      let after = (upload_new platform client l own (gzip (segment_bytes s)) existing).0 in
      (
        subst (λ (m : BucketLog Store). download m.remote key ≡ ok (some (gzip (segment_bytes s))))
            state
            (subst (λ k. download after.remote k ≡ ok (some (gzip (segment_bytes s)))) same held),
        subst (λ (m : BucketLog Store). m.newly_verified ≡ l.newly_verified) state verified,
      )

  -- A segment that is put under a new key is loaded again by what the log has noted of it, where
  -- the Bucket keeps what is uploaded and the segment's bytes are read as the segment.
  pub load_segment-put_segment :
      (l l' : BucketLog Store) (s : Segment) (key : Text)
      → KeepsUploads
      → read_segment (segment_bytes s) ≡ ok s
      → put_segment platform client l s ≡ (l', ok key)
      → download l.remote key ≡ ok none
      → get l.newly_verified key ≡ none
      → load_segment platform client l' (stored_file platform client key s) ≡ (l', ok s)
  load_segment-put_segment l l' s key keeps parsed h absent fresh =
      let (stored, _) = put_segment-IsStored platform client l l' s key h in
      let (held, verified) = put_new l l' s key keeps h absent in
      let (required, valid) = put_checks l l' s key h in
      load_stored l' s key stored (rw verified fresh)
      ∙ ap (λ r. (l', r)) (read_again_lem l' s key stored held parsed required valid)

  -- Where a put succeeds while the Bucket holds the segment in bytes of another size than those that
  -- were packed, loading the file that the log has noted fails, unless the segment was verified.
  pub load_segment-put_segment_differs :
      (l l' : BucketLog Store) (s : Segment) (key : Text) (held : Bytes)
      → put_segment platform client l s ≡ (l', ok key)
      → download l'.remote key ≡ ok (some held)
      → length held ≢ length (gzip (segment_bytes s))
      → get l'.newly_verified key ≡ none
      → load_segment platform client l' (stored_file platform client key s)
        ≡ (l', err (lit "Bucket segment size mismatch: " ++ key))
  unfolding read_again
  load_segment-put_segment_differs l l' s key held h found differs fresh =
      let (stored, _) = put_segment-IsStored platform client l l' s key h in
      let size : eqb (length held) (length (gzip (segment_bytes s))) ≡ false =
        ground (arith, differs) in
      load_stored l' s key stored fresh ∙ rw (found, size) refl
