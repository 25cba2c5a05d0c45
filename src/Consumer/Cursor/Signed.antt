-- ===== src/Consumer/Cursor/Signed.antt =====
-- What a cursor that is accepted is, and that what is encoded is accepted.
use mathlib.Core.Option
use xtap_pool.Base.{
  >>=-eq-ok, Bool, Option, Text, [], all, and_then, ap, arith, eqb, eqb_iff, false, guard-eq-ok,
  guard-true, if◌then◌else◌, is_filled, leb, leb→le, length, ltb→lt, none, ok, ok-injective,
  or_throw, or_throw-eq-ok, refl, some, text_beq, text_beq_iff, true, ℕ, ◌&&◌, ◌++◌, ◌+◌, ◌<◌, ◌∙◌,
  ◌∷◌, ◌≡◌, ◌≤◌,
}
use xtap_pool.Consumer.Cursor.{
  ConsumerCursor, Dates, Platform, check_age, cursor_ok, decode, encode, invalid_cursor,
  is_base64url, lifetime, max_bytes, signature, signed, split_dot, verified, verified_body,
}

split_dot-append :
    (body mac : Text)
    → all is_base64url body ≡ true
    → split_dot (body ++ b'.' ∷ mac) ≡ some (body, mac)
unfolding split_dot
split_dot-append [] mac h = refl
split_dot-append (c ∷ body) mac h =
    let no_dot : eqb c b'.' ≡ false = dotless c (ground arith) in
    rw (no_dot, split_dot-append body mac (ground arith))
  where
    dotless : (c : ℕ) → is_base64url c ≡ true → eqb c b'.' ≡ false
    dotless c k = ground arith

abbrev pair_in : ℕ → Text × Text → Option (Text × Text)
pair_in c p = some (c ∷ p.0, p.1)

joined :
    (c : ℕ) (t : Text) (dot : Bool) (rest : Option (Text × Text)) (parts : Text × Text)
    → (dot ≡ true → c ≡ b'.')
    → ((p : Text × Text) → rest ≡ some p → t ≡ p.0 ++ b'.' ∷ p.1)
    → (if dot then some ([], t) else and_then rest (pair_in c)) ≡ some parts
    → c ∷ t ≡ parts.0 ++ b'.' ∷ parts.1
joined c t true rest parts here later h =
    rw (← Option.some-injective _ _ h) (ap (λ k. k ∷ t) (here refl))
joined c t false none parts here later h = cc
joined c t false (some p) parts here later h =
    rw (← Option.some-injective _ _ h) (ap (◌∷◌ c) (later p refl))

split_dot_sound :
    (t : Text) (parts : Text × Text) → split_dot t ≡ some parts → t ≡ parts.0 ++ b'.' ∷ parts.1
unfolding split_dot
split_dot_sound [] parts h = cc
split_dot_sound (c ∷ t) parts h =
    joined c t (eqb c b'.') (split_dot t) parts (eqb_iff c b'.').0 (split_dot_sound t) h

module _ ⦃d : Dates⦄ (platform : Platform) (secret : Text) where
  abbrev pub body_of : ConsumerCursor → Text
  body_of cursor = platform.to_base64url (platform.json cursor)

  abbrev pub mac_of : Text → ℕ → Text
  mac_of body now = platform.to_base64url (signature platform secret now body)

  -- The platform reads back what it writes of a cursor: texts of the alphabet, of which the signature
  -- has 43 characters.
  pub record IsReadable (now : ℕ) (cursor : ConsumerCursor) : Type 0 where
    pub parsed : platform.parse_json (platform.json cursor) ≡ some cursor
    pub body_back : platform.of_base64url (body_of cursor) ≡ platform.json cursor
    pub body_filled : is_filled (body_of cursor) ≡ true
    pub body_alphabet : all is_base64url (body_of cursor) ≡ true
    pub mac_back :
        platform.of_base64url (mac_of (body_of cursor) now)
        ≡ signature platform secret now (body_of cursor)
    pub mac_length : eqb (length (mac_of (body_of cursor) now)) 43 ≡ true
    pub mac_alphabet : all is_base64url (mac_of (body_of cursor) now) ≡ true

  verified_body-signed :
      (now : ℕ) (cursor : ConsumerCursor)
      → IsReadable now cursor
      → leb (length (signed platform secret now (body_of cursor))) max_bytes ≡ true
      → verified_body platform secret now (signed platform secret now (body_of cursor))
        ≡ ok (body_of cursor)
  unfolding verified_body verified
  verified_body-signed now cursor r short =
      let parts = split_dot-append (body_of cursor) (mac_of (body_of cursor) now) r.body_alphabet in
      let same =
        (text_beq_iff (platform.of_base64url (mac_of (body_of cursor) now))
            (signature platform secret now (body_of cursor))).1
          r.mac_back in
      rw (short, parts, r.body_filled, r.body_alphabet, r.mac_length, r.mac_alphabet, same)

  -- A cursor that is encoded is decoded to itself at the same time, if the platform reads back what it
  -- writes of it.
  pub decode-encode :
      (now : ℕ) (cursor : ConsumerCursor) (encoded : Text)
      → IsReadable now cursor
      → encode platform secret now cursor ≡ ok encoded
      → decode platform secret now encoded ≡ ok cursor
  unfolding encode decode
  decode-encode now cursor encoded r made =
      let (valid, e₁) = guard-eq-ok (cursor_ok cursor) _ _ made in
      let (u, young, e₂) = >>=-eq-ok (check_age now cursor) _ e₁ in
      let (short, e₃) =
        guard-eq-ok (leb (length (signed platform secret now (body_of cursor))) max_bytes) _ _ e₂ in
      rw (
        ← ok-injective e₃,
        verified_body-signed now cursor r short,
        r.body_back,
        r.parsed,
        valid,
        young,
      )

  -- What a text is that is accepted at a time.
  pub record IsSigned (now : ℕ) (encoded : Text) (cursor : ConsumerCursor) : Type 0 where
    pub body : Text
    pub mac : Text
    pub joined_by_dot : encoded ≡ body ++ b'.' ∷ mac
    pub is_authentic : platform.of_base64url mac ≡ signature platform secret now body
    pub is_content : platform.parse_json (platform.of_base64url body) ≡ some cursor
    pub is_valid : cursor_ok cursor ≡ true
    pub not_before : d.parse cursor.started_at ≤ now + 60000
    pub not_after : now < d.parse cursor.started_at + lifetime cursor

  -- A text that is decoded carries the signature of its body under the key, and the cursor is what the
  -- body says, has the schema's shape, started a minute from now at the latest, and is within its
  -- lifetime.
  pub decode-IsSigned :
      (now : ℕ) (encoded : Text) (cursor : ConsumerCursor)
      → decode platform secret now encoded ≡ ok cursor
      → IsSigned now encoded cursor
  unfolding decode verified_body check_age verified
  decode-IsSigned now encoded cursor h =
      let (body, v, h₁) = >>=-eq-ok (verified_body platform secret now encoded) _ h in
      let (c, read, h₂) =
        >>=-eq-ok (or_throw (platform.parse_json (platform.of_base64url body)) invalid_cursor) _
          h₁ in
      let (valid, h₃) = guard-eq-ok (cursor_ok c) _ _ h₂ in
      let (u, young, h₄) = >>=-eq-ok (check_age now c) _ h₃ in
      let same = ok-injective h₄ in
      let (early, late) = guard-eq-ok (leb (d.parse c.started_at) (now + 60000)) _ _ young in
      let (_, v₁) = guard-eq-ok (leb (length encoded) max_bytes) _ _ v in
      let (parts, split, v₂) = >>=-eq-ok (or_throw (split_dot encoded) invalid_cursor) _ v₁ in
      let (_, v₃) =
        guard-eq-ok
          (is_filled parts.0
            && all is_base64url parts.0
            && eqb (length parts.1) 43
            && all is_base64url parts.1)
          _ _ v₂ in
      let (mac, v₄) =
        guard-eq-ok
          (text_beq (platform.of_base64url parts.1) (signature platform secret now parts.0)) _ _
          v₃ in
      let at : parts.0 ≡ body = ok-injective v₄ in
      rw (← same) (record {
        body = parts.0;
        mac = parts.1;
        joined_by_dot = split_dot_sound encoded parts (or_throw-eq-ok _ _ split);
        is_authentic = (text_beq_iff _ _).0 mac;
        is_content =
            ap (λ b. platform.parse_json (platform.of_base64url b)) at ∙ or_throw-eq-ok _ _ read;
        is_valid = valid;
        not_before = leb→le _ _ early;
        not_after = ltb→lt _ _ (guard-true _ _ late);
      })
