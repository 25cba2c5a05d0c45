-- ===== src/Enrichment/State/Operations.antt =====
-- The operations of space/src/enrich-state.ts.
pub mod Kept
pub mod Marking
pub mod Attempts
pub mod Creation
pub mod Cursors
use xtap_pool.Base.{
  Bool, DateTimes, List, Result, Text, [], contains, eqb, false, filter, guard, if◌then◌else◌,
  is_safe, is_sha256, leb, length, nat_eq, none, not, ok, replicate, some, sort, suc, text_eq, true,
  zero, ℕ, ◌++◌, ◌+◌, ◌>>=◌, ◌>>◌, ◌∷◌,
}
use xtap_pool.Enrichment.Bitmap.{bitmap_bytes, is_completed, set_completed}
use xtap_pool.Enrichment.State.Validation.{validate}
use xtap_pool.Enrichment.State.{
  BlockedRecord, Decision, Metadata, OutputFrontier, OutputKind, Outputs, Publication, Queue,
  Registry, RetryRecord, State, StateError, approved, attempt, chain_invalid, completed_attempt,
  decisions_exceed, enrichment, in_plan, metadata_ok, ordinal_outside, pending,
  queue_baseline_exceeds, queue_baseline_invalid, queue_total_invalid, receipt, registry,
  registry_baseline_exceeds, registry_baseline_invalid, registry_total_invalid, rejected,
  schema_mismatch, sequence_invalid,
}

-- `replaceOrdinal`.
unfoldable pub replace_ordinal {ℓ} : {A : Type ℓ} → (A → ℕ) → List A → A → List A
replace_ordinal ordinal records value =
    sort (λ left right. leb (ordinal left) (ordinal right))
      (filter (λ r. not (eqb (ordinal r) (ordinal value))) records ++ value ∷ [])

-- The loop of `markQueueCompleted`.
unfoldable pub mark_from : ℕ → List ℕ → List ℕ → ℕ → Result StateError (List ℕ × ℕ)
mark_from total [] bitmap done = ok (bitmap, done)
mark_from total (o ∷ os) bitmap done = do
  guard (in_plan o total) ordinal_outside
  if is_completed bitmap o
      then mark_from total os bitmap done
      else mark_from total os (set_completed bitmap o) (done + 1)

-- The loop of `createEmptyEnrichmentState` that completes the baseline.
unfoldable pub baseline_from : ℕ → ℕ → List ℕ → List ℕ
baseline_from zero ordinal bitmap = bitmap
baseline_from (suc left) ordinal bitmap =
    baseline_from left (ordinal + 1) (set_completed bitmap ordinal)

unfoldable pub is_approved : Decision → Bool
is_approved approved = true
is_approved _ = false

unfoldable pub is_rejected : Decision → Bool
is_rejected rejected = true
is_rejected _ = false

abbrev pub frontier : OutputKind → Outputs → OutputFrontier
frontier enrichment o = o.enrichment
frontier attempt o = o.attempt
frontier registry o = o.registry
frontier receipt o = o.receipt

abbrev pub set_frontier : OutputKind → OutputFrontier → Outputs → Outputs
set_frontier enrichment f o = record o { enrichment = f }
set_frontier attempt f o = record o { attempt = f }
set_frontier registry f o = record o { registry = f }
set_frontier receipt f o = record o { receipt = f }

pub data Attempt : Type 0 where
  retry : RetryRecord → Attempt
  block : BlockedRecord → Attempt

abbrev pub attempt_ordinal : Attempt → ℕ
attempt_ordinal (retry r) = r.ordinal
attempt_ordinal (block r) = r.ordinal

pub record EmptyOptions : Type 0 where
  pub run_id : Text
  pub plan_sha256 : Text
  pub queue_total : ℕ
  pub queue_baseline_done : ℕ
  pub registry_total : ℕ
  pub registry_baseline_scanned : ℕ

abbrev pub empty_frontier : OutputFrontier
empty_frontier = record { sequence = 0; chain_sha256 = none }

abbrev pub unpublished : Publication
unpublished = record {
  state = pending;
  database_key = none;
  database_sha256 = none;
  database_bytes = none;
  manifest = none;
}

-- The state that `createEmptyEnrichmentState` hands to the validation.
unfoldable pub empty_state : EmptyOptions → State
empty_state o = record {
  metadata = record {
    schema_version = 1;
    run_id = o.run_id;
    plan_sha256 = o.plan_sha256;
    sequence = 0;
    queue = record {
      total = o.queue_total;
      done = o.queue_baseline_done;
      retrying = [];
      blocked = [];
    };
    registry = record {
      total = o.registry_total;
      next_ordinal = o.registry_baseline_scanned;
      approved = 0;
      rejected = 0;
    };
    outputs = record {
      enrichment = empty_frontier;
      attempt = empty_frontier;
      registry = empty_frontier;
      receipt = empty_frontier;
    };
    publication = unpublished;
  };
  completed_bitmap =
      baseline_from o.queue_baseline_done 0 (replicate (bitmap_bytes o.queue_total) 0);
}

abbrev pub with_queue : State → Queue → State
with_queue s q = record s { metadata = record s.metadata { queue = q } }

abbrev pub with_registry : State → Registry → State
with_registry s r = record s { metadata = record s.metadata { registry = r } }

abbrev pub with_outputs : State → Outputs → State
with_outputs s o = record s { metadata = record s.metadata { outputs = o } }

-- The queue after the completions of `markQueueCompleted`.
unfoldable pub marked_queue : Queue → List ℕ → ℕ → Queue
marked_queue q ordinals done = record q {
  done = done;
  retrying = filter (λ (r : RetryRecord). not (contains ordinals r.ordinal)) q.retrying;
  blocked = filter (λ (r : BlockedRecord). not (contains ordinals r.ordinal)) q.blocked;
}

abbrev pub marked_state : State → List ℕ → List ℕ → ℕ → State
marked_state s ordinals bitmap done = record s {
  metadata = record s.metadata { queue = marked_queue s.queue ordinals done };
  completed_bitmap = bitmap;
}

-- The queue of `recordQueueAttempt`: the record moves to its own list and leaves the other.
unfoldable pub attempted_queue : Queue → Attempt → Queue
attempted_queue q (retry v) = record q {
  retrying = replace_ordinal (λ (r : RetryRecord). r.ordinal) q.retrying v;
  blocked = filter (λ (r : BlockedRecord). not (eqb r.ordinal v.ordinal)) q.blocked;
}
attempted_queue q (block v) = record q {
  retrying = filter (λ (r : RetryRecord). not (eqb r.ordinal v.ordinal)) q.retrying;
  blocked = replace_ordinal (λ (r : BlockedRecord). r.ordinal) q.blocked v;
}

unfoldable pub advanced_registry : Registry → List Decision → Registry
advanced_registry r decisions = record r {
  next_ordinal = r.next_ordinal + length decisions;
  approved = r.approved + length (filter is_approved decisions);
  rejected = r.rejected + length (filter is_rejected decisions);
}

unfoldable pub advanced_outputs : Outputs → OutputKind → Text → Outputs
advanced_outputs o kind chain =
    set_frontier kind
      (record { sequence = (frontier kind o).sequence + 1; chain_sha256 = some chain }) o

module _ ⦃d : DateTimes⦄ where
  unfoldable pub create_empty : EmptyOptions → Result StateError State
  create_empty o = do
    guard (is_safe o.queue_total) queue_total_invalid
    guard (is_safe o.queue_baseline_done) queue_baseline_invalid
    guard (is_safe o.registry_total) registry_total_invalid
    guard (is_safe o.registry_baseline_scanned) registry_baseline_invalid
    guard (leb o.queue_baseline_done o.queue_total) queue_baseline_exceeds
    guard (leb o.registry_baseline_scanned o.registry_total) registry_baseline_exceeds
    validate (empty_state o)

  unfoldable pub mark_queue_completed : State → List ℕ → Result StateError State
  mark_queue_completed s ordinals = do
    marked ← mark_from s.queue.total ordinals s.completed_bitmap s.queue.done
    validate (marked_state s ordinals marked.0 marked.1)

  unfoldable pub record_queue_attempt : State → Attempt → Result StateError State
  record_queue_attempt s a = do
    guard (in_plan (attempt_ordinal a) s.queue.total) ordinal_outside
    guard (not (is_completed s.completed_bitmap (attempt_ordinal a))) completed_attempt
    validate (with_queue s (attempted_queue s.queue a))

  unfoldable pub advance_registry_cursor : State → List Decision → Result StateError State
  advance_registry_cursor s decisions = do
    guard (leb (s.registry.next_ordinal + length decisions) s.registry.total) decisions_exceed
    validate (with_registry s (advanced_registry s.registry decisions))

  unfoldable pub set_publication_state : State → Publication → Result StateError State
  set_publication_state s p =
      validate (record s { metadata = record s.metadata { publication = p } })

  unfoldable pub advance_output_frontier : State → OutputKind → Text → Result StateError State
  advance_output_frontier s kind chain = do
    guard (is_sha256 chain) chain_invalid
    validate (with_outputs s (advanced_outputs s.outputs kind chain))

  unfoldable pub with_checkpoint_sequence : State → ℕ → Result StateError State
  with_checkpoint_sequence s sequence = do
    guard (is_safe sequence) sequence_invalid
    validate (record s { metadata = record s.metadata { sequence = sequence } })

  -- `serializeEnrichmentMetadata`.
  unfoldable pub serialize_metadata : State → Result StateError Metadata
  serialize_metadata s = do guard (metadata_ok s.metadata) schema_mismatch; ok s.metadata
