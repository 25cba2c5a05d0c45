-- ===== src/Enrichment/State/Examples.antt =====
-- Runs on a plan of ten ordinals, and a state that the operations start from.
use xtap_pool.Base.{
  DateTimes, List, Result, Text, [], arith, contains, filter, is_sha256, lit, nat_eq, none, not, ok,
  refl, replicate, some, text_beq, text_eq, true, ℕ, ◌>>=◌, ◌↔◌, ◌∷◌, ◌≡◌,
}
use xtap_pool.Enrichment.Bitmap.{
  IsBytes, bitmap_bytes, count_completed, is_completed, set_completed,
}
use xtap_pool.Enrichment.State.{
  Publication, State, StateError, approved, blocked_ok, blocked_ordinals, building, enrichment,
  frontier_ok, has_database, metadata_ok, outputs_ok, publication_ok, queue_ok, registry_ok,
  retry_ok, retry_ordinals,
}
use xtap_pool.Enrichment.State.Validation.{check_unresolved, validate}
use xtap_pool.Enrichment.State.Operations.{
  Attempt, EmptyOptions, baseline_from, create_empty, empty_frontier, empty_state, mark_from,
  mark_queue_completed, marked_queue, record_queue_attempt, retry, unpublished,
}
use xtap_pool.Enrichment.State.Validation.Exact.{IsWellFormed, validate_iff}
use xtap_pool.Enrichment.Bitmap.Laws.{completed_below}
use xtap_pool.Enrichment.State.History.{
  Extends, Operation, attempted, decide_next, mark, output, publish, renumber, run, run-Keeps,
}
use xtap_pool.Enrichment.State.Operations.Kept.{IsRecorded, SameBesidesQueue}
use xtap_pool.Enrichment.State.Operations.Marking.{Completes, mark_queue_completed_total}
use xtap_pool.Enrichment.State.Operations.Attempts.{
  moved_blocks, moved_retries, record_queue_attempt_total,
}
use xtap_pool.Enrichment.Checkpoint.{Bytes}
use xtap_pool.Enrichment.Checkpoint.Prefetch.{lookup}
use xtap_pool.Enrichment.Checkpoint.Adapter.{
  Manifest, MetadataCodec, bitmap_path, evidence, is_identified, metadata_path, restore, restored,
  save,
}
use xtap_pool.Enrichment.Checkpoint.Adapter.Roundtrip.{restore-IsWellFormed, restore-save}

instance abbrev any_time : DateTimes
any_time = record { is_datetime = λ _. true }

abbrev digest : Text
digest = replicate 64 b'0'

abbrev options : EmptyOptions
options = record {
  run_id = lit "run-1";
  plan_sha256 = digest;
  queue_total = 10;
  queue_baseline_done = 3;
  registry_total = 4;
  registry_baseline_scanned = 1;
}

-- Ordinal 5 waits for a retry, ordinal 6 is blocked.
abbrev sample : State
sample = record {
  metadata = record {
    schema_version = 1;
    run_id = lit "run-1";
    plan_sha256 = digest;
    sequence = 7;
    queue = record {
      total = 10;
      done = 3;
      retrying =
          record { ordinal = 5; attempts = 1; error_class = lit "timeout"; next_retry_at = none }
          ∷ [];
      blocked =
          record { ordinal = 6; attempts = 3; reason = lit "policy"; evidence_sha256 = digest }
          ∷ [];
    };
    registry = record { total = 4; next_ordinal = 1; approved = 1; rejected = 0 };
    outputs = record {
      enrichment = record { sequence = 2; chain_sha256 = some digest };
      attempt = empty_frontier;
      registry = empty_frontier;
      receipt = empty_frontier;
    };
    publication = unpublished;
  };
  completed_bitmap = 7 ∷ 0 ∷ [];
}

abbrev again : Attempt
again =
    retry (record { ordinal = 6; attempts = 4; error_class = lit "timeout"; next_retry_at = none })

sample-IsBytes : IsBytes sample.completed_bitmap
sample-IsBytes = (omega arith, (omega arith, tt))

sample-IsWellFormed : IsWellFormed sample
unfolding metadata_ok queue_ok registry_ok outputs_ok frontier_ok publication_ok retry_ok blocked_ok
    is_sha256 bitmap_bytes is_completed completed_below has_database
sample-IsWellFormed = record {
  schema = refl;
  bytes = sample-IsBytes;
  bitmap_length = refl;
  counted = refl;
  retrying_open = ((omega arith, refl), tt);
  blocked_open = ((omega arith, refl), tt);
  unresolved_once = refl;
  cursor = omega arith;
  published = refl;
}

validate_iff_example : (validate sample ≡ ok sample) ↔ (IsWellFormed sample × (sample ≡ sample))
validate_iff_example = validate_iff sample sample sample-IsBytes

mark_queue_completed_total_example :
    (t : State) × (mark_queue_completed sample (3 ∷ 5 ∷ []) ≡ ok t)
    × IsWellFormed t
    × Completes (3 ∷ 5 ∷ []) sample.completed_bitmap t.completed_bitmap
    × (t.queue.total ≡ sample.queue.total)
    × (t.queue.retrying ≡ filter (λ r. not (contains (3 ∷ 5 ∷ []) r.ordinal)) sample.queue.retrying)
    × (t.queue.blocked ≡ filter (λ r. not (contains (3 ∷ 5 ∷ []) r.ordinal)) sample.queue.blocked)
    × SameBesidesQueue sample t
mark_queue_completed_total_example =
    mark_queue_completed_total sample (3 ∷ 5 ∷ []) sample-IsWellFormed
      (omega arith, (omega arith, tt))

record_queue_attempt_total_example :
    (t : State) × (record_queue_attempt sample again ≡ ok t)
    × IsWellFormed t
    × IsRecorded again sample.queue t.queue
    × (retry_ordinals t.queue ≡ moved_retries again (retry_ordinals sample.queue))
    × (blocked_ordinals t.queue ≡ moved_blocks again (blocked_ordinals sample.queue))
    × (t.completed_bitmap ≡ sample.completed_bitmap)
    × (t.queue.total ≡ sample.queue.total)
    × (t.queue.done ≡ sample.queue.done)
    × SameBesidesQueue sample t
unfolding retry_ok is_completed
record_queue_attempt_total_example =
    record_queue_attempt_total sample again sample-IsWellFormed refl refl refl

abbrev building_now : Publication
building_now = record unpublished { state = building }

-- The second operation fails, the others succeed.
abbrev history : List Operation
history =
    mark (3 ∷ [])
    ∷ mark (10 ∷ [])
    ∷ attempted again
    ∷ decide_next (approved ∷ [])
    ∷ output enrichment digest
    ∷ publish building_now
    ∷ renumber 8
    ∷ []

run-Keeps_example : IsWellFormed (run sample history) × Extends sample (run sample history)
run-Keeps_example = run-Keeps sample history sample-IsWellFormed

-- Runs of the code.
marks :
    mark_queue_completed sample (3 ∷ 5 ∷ [])
    ≡ ok (record sample {
      metadata = record sample.metadata { queue = record sample.queue { done = 5; retrying = [] } };
      completed_bitmap = 47 ∷ 0 ∷ [];
    })
unfolding mark_queue_completed mark_from validate check_unresolved metadata_ok queue_ok registry_ok
    outputs_ok frontier_ok publication_ok retry_ok blocked_ok is_sha256 bitmap_bytes is_completed
    count_completed has_database marked_queue set_completed
marks = refl

abbrev map_done : Result StateError State → Result StateError ℕ
map_done r = r >>= λ s. ok s.queue.done

creates : map_done (create_empty options) ≡ ok 3
unfolding create_empty empty_state baseline_from validate check_unresolved metadata_ok queue_ok
    registry_ok outputs_ok frontier_ok publication_ok is_sha256 bitmap_bytes is_completed
    count_completed has_database set_completed
creates = refl

-- JSON that says one metadata only.
abbrev codec : MetadataCodec
codec = record { encode = λ m. lit "{}"; parse = λ bytes. ok sample.metadata }

restore-save_example :
    (payloads : List (Text × Bytes)) × (save codec sample 7 ≡ ok payloads)
    × (restore codec
          (record { run_id = lit "run-1"; plan_sha256 = digest; boundary_sequence = 7 })
          payloads
        ≡ ok (sample, evidence sample))
unfolding text_beq
restore-save_example =
    restore-save codec sample
      (record { run_id = lit "run-1"; plan_sha256 = digest; boundary_sequence = 7 })
      sample-IsWellFormed refl refl

abbrev saved_payloads : List (Text × Bytes)
saved_payloads = (metadata_path, lit "{}") ∷ (bitmap_path, sample.completed_bitmap) ∷ []

abbrev its_manifest : Manifest
its_manifest = record { run_id = lit "run-1"; plan_sha256 = digest; boundary_sequence = 7 }

restores : restore codec its_manifest saved_payloads ≡ ok (sample, evidence sample)
unfolding restore restored lookup text_beq validate metadata_ok is_sha256 queue_ok retry_ok
    blocked_ok registry_ok outputs_ok frontier_ok publication_ok bitmap_bytes count_completed
    check_unresolved has_database
restores = refl

restore-IsWellFormed_example :
    IsWellFormed sample
    × (is_identified its_manifest sample.metadata ≡ true)
    × (sample.completed_bitmap ≡ sample.completed_bitmap)
    × (evidence sample ≡ evidence sample)
unfolding lookup text_beq
restore-IsWellFormed_example =
    restore-IsWellFormed codec its_manifest saved_payloads sample.completed_bitmap sample
      (evidence sample) refl sample-IsBytes restores
