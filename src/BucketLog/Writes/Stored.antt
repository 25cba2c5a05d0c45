-- ===== src/BucketLog/Writes/Stored.antt =====
-- What a segment that was put has left in the Bucket.
use xtap_pool.Base.{
  >>=-eq-ok, DateTimes, Result, Text, ap, eq_of_==, get, get-put_self, guard-eq-ok, guard-true,
  nat_eq, ok, or_else_throw, or_else_throw-eq-ok, or_throw, or_throw-eq-ok, put, refl, returned,
  some, sym, text_eq, then_in-ok, ◌==◌, ◌∙◌, ◌≡◌,
}
use xtap_pool.BucketLog.{BucketLog, Bytes, Client, Platform, Segment}
use xtap_pool.BucketLog.Names.{is_date, segment_hash, source_segment_key, validate_operations}
use xtap_pool.BucketLog.Writes.{
  prepare, put_segment, store_segment, stored_file, verify_stored_segment,
}
use xtap_pool.BucketLog.Schemas.{require_segment}

module _ ⦃d : DateTimes⦄ (platform : Platform) (client : Client) where
  open platform use {gunzip, sha256, segment_bytes}
  open client use {Store, download}

  -- A key under which the Bucket holds the bytes of a segment, which the key names.
  pub record IsStored (l : BucketLog Store) (key : Text) (s : Segment) : Type 0 where
    pub stored : Bytes
    pub held : download l.remote key ≡ ok (some stored)
    pub bytes : gunzip stored ≡ ok (segment_bytes s)
    pub own_key : source_segment_key platform s (sha256 (segment_bytes s)) ≡ ok key
    pub hash : segment_hash platform key ≡ ok (sha256 (segment_bytes s))

  pub verify_stored_lem :
      (l : BucketLog Store) (key : Text) (s : Segment)
      → verify_stored_segment platform client l key (segment_bytes s) ≡ ok tt
      → source_segment_key platform s (sha256 (segment_bytes s)) ≡ ok key
      → IsStored l key s
  unfolding verify_stored_segment
  verify_stored_lem l key s h own =
      let (found, held, h₁) = >>=-eq-ok (download l.remote key) _ h in
      let (stored, present, h₂) = >>=-eq-ok (or_throw found _) _ h₁ in
      let (raw, unpacked, h₃) = >>=-eq-ok (or_else_throw (gunzip stored) _) _ h₂ in
      let (same, h₄) = guard-eq-ok (raw == segment_bytes s) _ _ h₃ in
      let (digest, hash, h₅) = >>=-eq-ok (segment_hash platform key) _ h₄ in
      let hashed = guard-true (sha256 raw == digest) _ h₅ in
      let whole = eq_of_== raw (segment_bytes s) same in
      record {
        stored = stored;
        held = held ∙ ap ok (or_throw-eq-ok found _ present);
        bytes = or_else_throw-eq-ok (gunzip stored) _ unpacked ∙ ap ok whole;
        own_key = own;
        hash = hash ∙ ap ok (sym (eq_of_== (sha256 raw) digest hashed) ∙ ap sha256 whole);
      }

  pub prepare-own_key :
      (s : Segment) (key : Text)
      → prepare platform client s ≡ ok key
      → source_segment_key platform s (sha256 (segment_bytes s)) ≡ ok key
  unfolding prepare
  prepare-own_key s key h =
      let (_, _, h₁) = >>=-eq-ok (require_segment platform s) _ h in
      let (_, _, h₂) = >>=-eq-ok (validate_operations platform s.operations) _ h₁ in
      (guard-eq-ok (is_date (platform.parse_date s.created_at)) _ _ h₂).1

  -- The fields that the log keeps in memory do not matter.
  pub IsStored-remote :
      (l m : BucketLog Store) (key : Text) (s : Segment)
      → l.remote ≡ m.remote
      → IsStored l key s
      → IsStored m key s
  IsStored-remote l m key s same h = record {
    stored = h.stored;
    held = rw (← same) h.held;
    bytes = h.bytes;
    own_key = h.own_key;
    hash = h.hash;
  }

  pub noted_lem :
      (m l' : BucketLog Store) (s : Segment) (own key : Text)
      → IsStored m own s
      → Path
          (BucketLog Store × Result Text Text)
          (
            record m { known_files = put m.known_files own (stored_file platform client own s) },
            ok own,
          )
          (l', ok key)
      → IsStored l' key s × (get l'.known_files key ≡ some (stored_file platform client key s))
  noted_lem m l' s own key stored h =
      let after = record m {
        known_files = put m.known_files own (stored_file platform client own s);
      } in
      let (state, same) = returned h in
      rw (← state, ← same)
        (
          IsStored-remote m after own s refl stored,
          get-put_self m.known_files own (stored_file platform client own s),
        )

  -- A put that succeeds gives the segment's own key. The Bucket then holds an object under it that
  -- unpacks to the segment's bytes, and their digest is the one in the key; the file is known.
  pub put_segment-IsStored :
      (l l' : BucketLog Store) (s : Segment) (key : Text)
      → put_segment platform client l s ≡ (l', ok key)
      → IsStored l' key s × (get l'.known_files key ≡ some (stored_file platform client key s))
  unfolding put_segment store_segment
  put_segment-IsStored l l' s key h =
      let (own, prepared, h₁) = then_in-ok _ _ l' key h in
      let (existing, _, h₂) = then_in-ok _ _ l' key h₁ in
      let (_, _, h₃) = then_in-ok _ _ l' key h₂ in
      let (_, checked, last) = then_in-ok _ _ l' key h₃ in
      noted_lem _ l' s own key (verify_stored_lem _ own s checked (prepare-own_key s own prepared))
        last
