-- ===== src/Enrichment/State/Validation.antt =====
-- `validateEnrichmentState` of space/src/enrich-state.ts.
pub mod Unresolved
pub mod Exact
use xtap_pool.Base.{
  DateTimes, List, Result, [], contains, eq_bool, eqb, guard, leb, length, nat_eq, not, ok, text_eq,
  ℕ, ◌>>=◌, ◌>>◌, ◌∷◌,
}
use xtap_pool.Enrichment.Bitmap.{bitmap_bytes, count_completed, is_completed}
use xtap_pool.Enrichment.State.{
  State, StateError, bitmap_count_mismatch, bitmap_length_mismatch, blocked_ordinals,
  blocked_outside, blocked_repeated, completed_blocked, completed_retrying, has_database,
  holds_database, in_plan, metadata_ok, publication_mismatch, registry, registry_cursor_exceeds,
  retry_ordinals, retry_outside, retry_repeated, schema_mismatch,
}

-- One loop of `validateEnrichmentState` over unresolved records: each ordinal is in the plan, not
-- completed, and new to the set, which the loop extends.
unfoldable pub check_unresolved :
    StateError → StateError → StateError → List ℕ → ℕ → List ℕ → List ℕ → Result StateError (List ℕ)
check_unresolved outside completed repeated bitmap total seen [] = ok seen
check_unresolved outside completed repeated bitmap total seen (o ∷ os) = do
  guard (in_plan o total) outside
  guard (not (is_completed bitmap o)) completed
  guard (not (contains seen o)) repeated
  check_unresolved outside completed repeated bitmap total (o ∷ seen) os

module _ ⦃d : DateTimes⦄ where
  -- `validateEnrichmentState`.
  unfoldable pub validate : State → Result StateError State
  validate s = do
    guard (metadata_ok s.metadata) schema_mismatch
    guard (eqb (length s.completed_bitmap) (bitmap_bytes s.queue.total)) bitmap_length_mismatch
    guard (eqb (count_completed s.completed_bitmap s.queue.total) s.queue.done)
        bitmap_count_mismatch
    seen ←
        check_unresolved retry_outside completed_retrying retry_repeated s.completed_bitmap
          s.queue.total [] (retry_ordinals s.queue)
    _ ←
        check_unresolved blocked_outside completed_blocked blocked_repeated s.completed_bitmap
          s.queue.total seen (blocked_ordinals s.queue)
    guard (leb s.registry.next_ordinal s.registry.total) registry_cursor_exceeds
    guard (eq_bool (holds_database s.publication.state) (has_database s.publication))
        publication_mismatch
    ok s
