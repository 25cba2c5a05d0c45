-- ===== src/BucketLog/Reads/Authentic.antt =====
-- What a segment that was read is known to be.
use mathlib.Core.Path.{subst}
use xtap_pool.Base.{
  >>=-eq-ok, All, All-delete, All-put, DateTimes, Option, Result, Text, ap, eq_of_==, eqb, eqb_iff,
  get, get-All, guard-eq-ok, guard-true, is_sha256, length, nat_eq, none, not, ok, ok-injective,
  or_else_throw, or_else_throw-eq-ok, or_throw, or_throw-eq-ok, put, refl, returned, some, sym,
  text_eq, then_in-keeps, then_in-keeps_ok, then_in-ok, true, ◌==◌, ◌||◌, ◌∙◌, ◌≡◌,
}
use xtap_pool.BucketLog.{BucketLog, Bytes, Client, Object, Platform, Segment, SnapshotFile}
use xtap_pool.BucketLog.Names.{
  assert_key_matches, segment_hash, source_segment_key, validate_operations,
}
use xtap_pool.BucketLog.Schemas.{require_segment, segment_ok}
use xtap_pool.BucketLog.Reads.{
  check_hash, load_over, load_segment, read_again, verified, verify_listed_object,
}

module _ ⦃d : DateTimes⦄ (platform : Platform) where
  open platform use {sha256, segment_bytes}

  -- A valid segment whose bytes have the digest that the key names, and whose own key it is.
  pub record IsAuthentic (key : Text) (s : Segment) : Type 0 where
    pub hash : segment_hash platform key ≡ ok (sha256 (segment_bytes s))
    pub own_key : source_segment_key platform s (sha256 (segment_bytes s)) ≡ ok key
    pub schema : segment_ok s ≡ true
    pub operations : validate_operations platform s.operations ≡ ok tt

  abbrev pub IsKept : Text × Segment → Type 0
  IsKept e = IsAuthentic e.0 e.1

  assert_key_matches_lem :
      (key : Text) (s : Segment) (digest : Text)
      → assert_key_matches platform key s digest ≡ ok tt
      → source_segment_key platform s digest ≡ ok key
  unfolding assert_key_matches
  assert_key_matches_lem key s digest h =
      let (own, e, h₁) = >>=-eq-ok (source_segment_key platform s digest) _ h in
      e ∙ ap ok (sym (eq_of_== key own (guard-true (key == own) _ h₁)))

  require_segment_lem : (s : Segment) → require_segment platform s ≡ ok tt → segment_ok s ≡ true
  unfolding require_segment
  require_segment_lem s h = guard-true (segment_ok s) _ h

  -- The checks at the end of both ways to read a segment.
  IsAuthentic-of_raw :
      (key : Text) (s : Segment) (raw digest : Text)
      → segment_hash platform key ≡ ok digest
      → (sha256 raw == digest) ≡ true
      → require_segment platform s ≡ ok tt
      → validate_operations platform s.operations ≡ ok tt
      → (segment_bytes s == raw) ≡ true
      → assert_key_matches platform key s digest ≡ ok tt
      → IsAuthentic key s
  IsAuthentic-of_raw key s raw digest hash hashed required valid canonical matches =
      let bytes = eq_of_== (segment_bytes s) raw canonical in
      let same : digest ≡ sha256 (segment_bytes s) =
        sym (ap sha256 bytes ∙ eq_of_== (sha256 raw) digest hashed) in
      record {
        hash = hash ∙ ap ok same;
        own_key = rw (← same) (assert_key_matches_lem key s digest matches);
        schema = require_segment_lem s required;
        operations = valid;
      }

  module _ (client : Client) where
    open platform use {gunzip, read_segment}
    open client use {Store, download}

    abbrev file_of : Object → Bytes → Text → SnapshotFile
    file_of o compressed digest = record {
      key = o.key;
      oid = sha256 compressed;
      listed_oid = o.oid;
      size = o.size;
      content_sha256 = digest;
    }

    -- What the verification of a listed object has found.
    pub record IsVerified (remote : Store) (o : Object) (s : Segment) (file : SnapshotFile)
        : Type 0 where
      pub compressed : Bytes
      pub held : download remote o.key ≡ ok (some compressed)
      pub bytes : gunzip compressed ≡ ok (segment_bytes s)
      pub authentic : IsAuthentic o.key s
      pub same_key : file.key ≡ o.key
      pub same_oid : file.oid ≡ sha256 compressed
      pub same_size : file.size ≡ length compressed
      pub listed_size : file.size ≡ o.size
      pub content : file.content_sha256 ≡ sha256 (segment_bytes s)

    pub verified_lem :
        (l : BucketLog Store) (o : Object) (s : Segment) (file : SnapshotFile)
        → verified platform client l o ≡ ok (s, file)
        → IsVerified l.remote o s file
    unfolding verified
    verified_lem l o s file h =
        let (found, held, h₁) = >>=-eq-ok (download l.remote o.key) _ h in
        let (compressed, present, h₂) = >>=-eq-ok (or_throw found _) _ h₁ in
        let (sized, h₃) = guard-eq-ok (eqb (length compressed) o.size) _ _ h₂ in
        let (raw, unpacked, h₄) = >>=-eq-ok (or_else_throw (gunzip compressed) _) _ h₃ in
        let (digest, hash, h₅) = >>=-eq-ok (segment_hash platform o.key) _ h₄ in
        let (hashed, h₆) = guard-eq-ok (sha256 raw == digest) _ _ h₅ in
        let (t, parsed, h₇) = >>=-eq-ok (read_segment raw) _ h₆ in
        let (_, required, h₈) = >>=-eq-ok (require_segment platform t) _ h₇ in
        let (_, valid, h₉) = >>=-eq-ok (validate_operations platform t.operations) _ h₈ in
        let (canonical, k₁) = guard-eq-ok (segment_bytes t == raw) _ _ h₉ in
        let (_, matches, k₂) = >>=-eq-ok (assert_key_matches platform o.key t digest) _ k₁ in
        let found_so : Path (Segment × SnapshotFile) (t, file_of o compressed digest) (s, file) =
          ok-injective k₂ in
        let authentic =
          IsAuthentic-of_raw o.key t raw digest hash hashed required valid canonical matches in
        let bytes = eq_of_== (segment_bytes t) raw canonical in
        subst (λ (x : Segment × SnapshotFile). IsVerified l.remote o x.0 x.1) found_so
          (record {
            compressed = compressed;
            held = held ∙ ap ok (or_throw-eq-ok found _ present);
            bytes = or_else_throw-eq-ok (gunzip compressed) _ unpacked ∙ ap ok (sym bytes);
            authentic = authentic;
            same_key = refl;
            same_oid = refl;
            same_size = sym ((eqb_iff (length compressed) o.size).0 sized);
            listed_size = refl;
            content = sym (ap sha256 bytes ∙ eq_of_== (sha256 raw) digest hashed);
          })

    read_again-IsAuthentic :
        (l : BucketLog Store) (file : SnapshotFile) (s : Segment)
        → segment_hash platform file.key ≡ ok file.content_sha256
        → read_again platform client l file ≡ ok s
        → IsAuthentic file.key s
    unfolding read_again
    read_again-IsAuthentic l file s hash h =
        let (found, held, h₁) = >>=-eq-ok (download l.remote file.key) _ h in
        let (compressed, present, h₂) = >>=-eq-ok (or_throw found _) _ h₁ in
        let (_, h₃) = guard-eq-ok (eqb (length compressed) file.size) _ _ h₂ in
        let (_, h₄) =
          guard-eq-ok (not (is_sha256 file.oid) || sha256 compressed == file.oid) _ _ h₃ in
        let (raw, unpacked, h₅) = >>=-eq-ok (gunzip compressed) _ h₄ in
        let (hashed, h₆) = guard-eq-ok (sha256 raw == file.content_sha256) _ _ h₅ in
        let (t, parsed, h₇) = >>=-eq-ok (or_else_throw (read_segment raw) _) _ h₆ in
        let (_, required, h₈) = >>=-eq-ok (require_segment platform t) _ h₇ in
        let (_, valid, h₉) = >>=-eq-ok (validate_operations platform t.operations) _ h₈ in
        let (canonical, k₁) = guard-eq-ok (segment_bytes t == raw) _ _ h₉ in
        let (_, matches, k₂) =
          >>=-eq-ok (assert_key_matches platform file.key t file.content_sha256) _ k₁ in
        let same : t ≡ s = ok-injective k₂ in
        rw (← same) (
          IsAuthentic-of_raw file.key t raw file.content_sha256 hash hashed required valid canonical
            matches)

    abbrev pub KeepsVerified : BucketLog Store → Type 0
    KeepsVerified l = All IsKept l.newly_verified

    pub verify_listed_object-keeps :
        (l : BucketLog Store) (o : Object)
        → KeepsVerified l
        → KeepsVerified (verify_listed_object platform client l o).0
    unfolding verify_listed_object
    verify_listed_object-keeps l o kept =
        then_in-keeps_ok {E = Text} KeepsVerified (l, verified platform client l o) _ kept
          (λ found h.
            All-put IsKept l.newly_verified o.key found.0 kept
              (verified_lem l o found.0 found.1 h).authentic)

    pub verify_listed_object-IsVerified :
        (l l' : BucketLog Store) (o : Object) (file : SnapshotFile)
        → verify_listed_object platform client l o ≡ (l', ok file)
        → (s : Segment) × IsVerified l.remote o s file
          × (l' ≡ record l { newly_verified = put l.newly_verified o.key s })
    unfolding verify_listed_object
    verify_listed_object-IsVerified l l' o file h =
        let (found, checked, last) = then_in-ok _ _ l' file h in
        let (state, same) = returned last in
        (
          found.0,
          verified_lem l o found.0 file (checked ∙ ap (λ f. ok (found.0, f)) same),
          sym state,
        )

    load_over-keeps :
        (l : BucketLog Store) (file : SnapshotFile) (known : Option Segment)
        → KeepsVerified l
        → KeepsVerified (load_over platform client l file known).0
    unfolding load_over
    load_over-keeps l file none kept = kept
    load_over-keeps l file (some s) kept = All-delete IsKept l.newly_verified file.key kept

    pub load_segment-keeps :
        (l : BucketLog Store) (file : SnapshotFile)
        → KeepsVerified l
        → KeepsVerified (load_segment platform client l file).0
    unfolding load_segment
    load_segment-keeps l file kept =
        then_in-keeps {E = Text} KeepsVerified (l, check_hash platform client file) _ kept
          (λ l₁ u kept₁. load_over-keeps l₁ file (get l₁.newly_verified file.key) kept₁)

    load_over-IsAuthentic :
        (l l' : BucketLog Store) (file : SnapshotFile) (s : Segment) (known : Option Segment)
        → segment_hash platform file.key ≡ ok file.content_sha256
        → KeepsVerified l
        → get l.newly_verified file.key ≡ known
        → load_over platform client l file known ≡ (l', ok s)
        → IsAuthentic file.key s
    unfolding load_over
    load_over-IsAuthentic l l' file s none hash kept known h =
        read_again-IsAuthentic l file s hash
          (ap (λ (r : BucketLog Store × Result Text Segment). r.1) h)
    load_over-IsAuthentic l l' file s (some t) hash kept known h =
        rw (← (returned h).1) (get-All IsKept l.newly_verified file.key t kept known)

    check_hash_lem :
        (file : SnapshotFile)
        → check_hash platform client file ≡ ok tt
        → segment_hash platform file.key ≡ ok file.content_sha256
    unfolding check_hash
    check_hash_lem file h =
        let (digest, hash, h₁) = >>=-eq-ok (segment_hash platform file.key) _ h in
        hash
        ∙ ap ok
            (eq_of_== digest file.content_sha256 (guard-true (digest == file.content_sha256) _ h₁))

    -- Where the segments that are kept are authentic, a segment that is loaded is authentic, be it
    -- read again or kept: it is valid, the file's key is its own, and the digest of its bytes is
    -- the one that the file names.
    pub load_segment-IsAuthentic :
        (l l' : BucketLog Store) (file : SnapshotFile) (s : Segment)
        → KeepsVerified l
        → load_segment platform client l file ≡ (l', ok s)
        → IsAuthentic file.key s × (sha256 (segment_bytes s) ≡ file.content_sha256)
    unfolding load_segment
    load_segment-IsAuthentic l l' file s kept h =
        let (_, checked, last) = then_in-ok _ _ l' s h in
        let hash = check_hash_lem file checked in
        let authentic = load_over-IsAuthentic l l' file s _ hash kept refl last in
        (authentic, ok-injective (sym authentic.hash ∙ hash))
