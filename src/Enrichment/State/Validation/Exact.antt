-- ===== src/Enrichment/State/Validation/Exact.antt =====
-- What the validation of a checkpoint state accepts.
use mathlib.Core.List.{reverse_aux}
use xtap_pool.Base.{
  >>=-eq-ok, DateTimes, [], arith, eq_bool, eqb, guard-eq-ok, is_safe, leb, length, nat_eq, ok,
  text_eq, true, unique, ◌++◌, ◌↔◌, ◌∙◌, ◌≡◌, ◌≤◌,
}
use xtap_pool.Enrichment.Bitmap.{IsBytes, bitmap_bytes, count_completed}
use xtap_pool.Enrichment.Bitmap.Laws.{completed_below, count_completed-completed_below}
use xtap_pool.Enrichment.State.{
  Metadata, State, blocked_ordinals, blocked_outside, blocked_repeated, completed_blocked,
  completed_retrying, has_database, holds_database, metadata_ok, queue_ok, retry_ordinals,
  retry_outside, retry_repeated,
}
use xtap_pool.Enrichment.State.Validation.{check_unresolved, validate}
use xtap_pool.Enrichment.State.Validation.Unresolved.{
  AreOpen, check_ok, check_sound, fresh-append, fresh-unique, unique_of_fresh,
}

-- A state as it may be stored: its fields have the schema's shape, the bitmap has a byte for every
-- eight ordinals and its count agrees with `done`, no ordinal is unresolved twice or after its
-- completion, the registry cursor is in range, and a database is named exactly in the states
-- that have one.
pub record IsWellFormed ⦃d : DateTimes⦄ (s : State) : Type 0 where
  pub schema : metadata_ok s.metadata ≡ true
  pub bytes : IsBytes s.completed_bitmap
  pub bitmap_length : length s.completed_bitmap ≡ bitmap_bytes s.queue.total
  pub counted : completed_below s.completed_bitmap s.queue.total ≡ s.queue.done
  pub retrying_open : AreOpen s.completed_bitmap s.queue.total (retry_ordinals s.queue)
  pub blocked_open : AreOpen s.completed_bitmap s.queue.total (blocked_ordinals s.queue)
  pub unresolved_once : unique (retry_ordinals s.queue ++ blocked_ordinals s.queue) ≡ true
  pub cursor : s.registry.next_ordinal ≤ s.registry.total
  pub published : eq_bool (holds_database s.publication.state) (has_database s.publication) ≡ true

module _ ⦃d : DateTimes⦄ where
  pub metadata_ok-total : (m : Metadata) → metadata_ok m ≡ true → is_safe m.queue.total ≡ true
  unfolding metadata_ok queue_ok
  metadata_ok-total m h = ground arith

  -- A well-formed state passes unchanged.
  pub validate_of_IsWellFormed : (s : State) → IsWellFormed s → validate s ≡ ok s
  unfolding validate
  validate_of_IsWellFormed s w =
      let rs = retry_ordinals s.queue in
      let bs = blocked_ordinals s.queue in
      let small = metadata_ok-total s.metadata w.schema in
      let all_new = fresh-unique (rs ++ bs) ∙ w.unresolved_once in
      let parts = fresh-append [] rs bs in
      let first =
        check_ok retry_outside completed_retrying retry_repeated s.completed_bitmap s.queue.total []
          rs small w.retrying_open (ground arith) in
      let second =
        check_ok blocked_outside completed_blocked blocked_repeated s.completed_bitmap s.queue.total
          (reverse_aux rs []) bs small w.blocked_open (ground arith) in
      ground
        (arith, first, second, count_completed-completed_below s.completed_bitmap s.queue.total)

  validate_sound :
      (s : State) {t : State}
      → IsBytes s.completed_bitmap
      → validate s ≡ ok t
      → IsWellFormed s × (t ≡ s)
  unfolding validate
  validate_sound s {t} bytes h =
      let rs = retry_ordinals s.queue in
      let bs = blocked_ordinals s.queue in
      let (schema, h₁) = guard-eq-ok (metadata_ok s.metadata) _ _ h in
      let (long, h₂) =
        guard-eq-ok (eqb (length s.completed_bitmap) (bitmap_bytes s.queue.total)) _ _ h₁ in
      let (count, h₃) =
        guard-eq-ok (eqb (count_completed s.completed_bitmap s.queue.total) s.queue.done) _ _ h₂ in
      let (seen, first, h₄) =
        >>=-eq-ok
          (check_unresolved retry_outside completed_retrying retry_repeated s.completed_bitmap
            s.queue.total [] rs)
          _ h₃ in
      let (_, second, h₅) =
        >>=-eq-ok
          (check_unresolved blocked_outside completed_blocked blocked_repeated s.completed_bitmap
            s.queue.total seen bs)
          _ h₄ in
      let (cursor, h₆) = guard-eq-ok (leb s.registry.next_ordinal s.registry.total) _ _ h₅ in
      let (published, same) =
        guard-eq-ok (eq_bool (holds_database s.publication.state) (has_database s.publication)) _ _
          h₆ in
      let (open_rs, new_rs, is_seen) =
        check_sound _ _ _ s.completed_bitmap s.queue.total [] rs first in
      let (open_bs, new_bs, _) =
        check_sound _ _ _ s.completed_bitmap s.queue.total seen bs second in
      (
        record {
          schema = schema;
          bytes = bytes;
          bitmap_length = ground arith;
          counted =
              ground (arith, count_completed-completed_below s.completed_bitmap s.queue.total);
          retrying_open = open_rs;
          blocked_open = open_bs;
          unresolved_once = unique_of_fresh rs bs seen new_rs is_seen new_bs;
          cursor = ground arith;
          published = published;
        },
        cc,
      )

  -- Validation accepts a state with a bitmap of bytes exactly if it is well formed, and returns it
  -- unchanged.
  pub validate_iff :
      (s t : State) → IsBytes s.completed_bitmap → (validate s ≡ ok t) ↔ (IsWellFormed s × (t ≡ s))
  validate_iff s t bytes = (validate_sound s bytes, λ w. rw w.1 (validate_of_IsWellFormed s w.0))
