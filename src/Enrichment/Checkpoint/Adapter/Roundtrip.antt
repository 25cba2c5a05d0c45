-- ===== src/Enrichment/Checkpoint/Adapter/Roundtrip.antt =====
-- Saving and restoring a checkpoint.
use mathlib.Core.Option
use mathlib.Core.Path.{subst}
use xtap_pool.Base.{
  ==_refl, >>=-eq-ok, DateTimes, List, Result, Text, [], ap, eqb, err, guard-eq-ok, length, ok,
  ok-injective, or_throw, or_throw-eq-ok, some, sym, text_beq, true, ◌∙◌, ◌∷◌, ◌≡◌,
}
use xtap_pool.Enrichment.Checkpoint.{Bytes}
use xtap_pool.Enrichment.Checkpoint.Prefetch.{lookup}
use xtap_pool.Enrichment.Checkpoint.Adapter.{
  Evidence, Manifest, MetadataCodec, bitmap_path, evidence, is_identified, metadata_path,
  or_invalid, or_unparsed, payloads_invalid, restore, restored, save,
}
use xtap_pool.Enrichment.Bitmap.{IsBytes}
use xtap_pool.Enrichment.State.Validation.{validate}
use xtap_pool.Enrichment.State.{State, StateError, metadata_ok}
use xtap_pool.Enrichment.State.Operations.{serialize_metadata}
use xtap_pool.Enrichment.State.Validation.Exact.{
  IsWellFormed, validate_iff, validate_of_IsWellFormed,
}

module _ ⦃d : DateTimes⦄ (codec : MetadataCodec) where
  restored_of_IsWellFormed :
      (s : State) (m : Manifest)
      → IsWellFormed s
      → is_identified m s.metadata ≡ true
      → restored codec m s.completed_bitmap s.metadata ≡ ok (s, evidence s)
  unfolding restored
  restored_of_IsWellFormed s m w id = rw (w.schema, id, validate_of_IsWellFormed s w)

  saved : State → List (Text × Bytes)
  saved s = (metadata_path, codec.encode s.metadata) ∷ (bitmap_path, s.completed_bitmap) ∷ []

  save_lem : (s : State) → IsWellFormed s → save codec s s.sequence ≡ ok (saved s)
  unfolding save serialize_metadata saved
  save_lem s w = rw (==_refl s.sequence, w.schema)

  restore-saved :
      (s : State) (m : Manifest)
      → IsWellFormed s
      → is_identified m s.metadata ≡ true
      → codec.parse (codec.encode s.metadata) ≡ ok s.metadata
      → restore codec m (saved s) ≡ ok (s, evidence s)
  unfolding restore lookup saved text_beq
  restore-saved s m w id read = rw read (restored_of_IsWellFormed s m w id)

  -- A well-formed state is saved at its own sequence, and a manifest of its run, plan and sequence
  -- restores exactly this state from the payloads, if its metadata reads back from JSON.
  pub restore-save :
      (s : State) (m : Manifest)
      → IsWellFormed s
      → is_identified m s.metadata ≡ true
      → codec.parse (codec.encode s.metadata) ≡ ok s.metadata
      → (payloads : List (Text × Bytes)) × (save codec s s.sequence ≡ ok payloads)
        × (restore codec m payloads ≡ ok (s, evidence s))
  restore-save s m w id read = (saved s, save_lem s w, restore-saved s m w id read)

  or_invalid-ok : {A : Type 0} (r : Result StateError A) (a : A) → or_invalid r ≡ ok a → r ≡ ok a
  or_invalid-ok (ok x) a h = ap ok (ok-injective h)
  or_invalid-ok (err e) a h = cc

  -- What is restored from payloads whose bitmap consists of bytes is a well-formed state of the
  -- manifest's run, plan and sequence, with exactly the saved bitmap, and the evidence is the state's.
  pub restore-IsWellFormed :
      (m : Manifest) (payloads : List (Text × Bytes)) (bitmap : Bytes) (s : State) (e : Evidence)
      → lookup payloads bitmap_path ≡ some bitmap
      → IsBytes bitmap
      → restore codec m payloads ≡ ok (s, e)
      → IsWellFormed s
        × (is_identified m s.metadata ≡ true)
        × (s.completed_bitmap ≡ bitmap)
        × (e ≡ evidence s)
  unfolding restore restored
  restore-IsWellFormed m payloads bitmap s e there bytes h =
      let (metadata_bytes, _, h₁) =
        >>=-eq-ok (or_throw (lookup payloads metadata_path) payloads_invalid) _ h in
      let (b, found, h₂) =
        >>=-eq-ok (or_throw (lookup payloads bitmap_path) payloads_invalid) _ h₁ in
      let same : b ≡ bitmap = Option.some-injective _ _ (sym (or_throw-eq-ok _ _ found) ∙ there) in
      let (_, h₃) = guard-eq-ok (eqb (length payloads) 2) _ _ h₂ in
      let (metadata, _, h₄) = >>=-eq-ok (or_unparsed (codec.parse metadata_bytes)) _ h₃ in
      let (_, h₅) = guard-eq-ok (metadata_ok metadata) _ _ h₄ in
      let (id, h₆) = guard-eq-ok (is_identified m metadata) _ _ h₅ in
      let (state, checked, h₇) =
        >>=-eq-ok (or_invalid (validate (record { metadata = metadata; completed_bitmap = b }))) _
          h₆ in
      let raw : State = record { metadata = metadata; completed_bitmap = b } in
      let (w, unchanged) =
        (validate_iff raw state (subst IsBytes (sym same) bytes)).0 (or_invalid-ok _ _ checked) in
      let ends = ok-injective h₇ in
      let back : raw ≡ s = sym unchanged ∙ ap (λ r. r.0) ends in
      let shown : e ≡ evidence s = sym (ap (λ r. r.1) ends) ∙ ap evidence (ap (λ r. r.0) ends) in
      (
        subst IsWellFormed back w,
        subst (λ (s : State). is_identified m s.metadata ≡ true) back id,
        sym (ap (λ (s : State). s.completed_bitmap) back) ∙ same,
        shown,
      )
