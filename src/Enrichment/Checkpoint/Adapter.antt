-- ===== src/Enrichment/Checkpoint/Adapter.antt =====
-- `EnrichmentCheckpointAdapter` in space/src/enrich-checkpoint.ts: what a checkpoint saves of the
-- state, and the state that is restored from it. The adapter's field is the state; the methods
-- take it and give the new one.
pub mod Roundtrip
use xtap_pool.Base.{
  Bool, DateTimes, List, Result, Text, [], eqb, err, guard, length, lit, nat_eq, ok, or_throw,
  text_eq, ℕ, ◌&&◌, ◌==◌, ◌>>=◌, ◌>>◌, ◌∷◌,
}
use xtap_pool.Enrichment.Checkpoint.{Bytes}
use xtap_pool.Enrichment.Checkpoint.Prefetch.{lookup}
use xtap_pool.Enrichment.State.{Metadata, State, StateError, metadata_ok, registry, schema_mismatch}
use xtap_pool.Enrichment.State.Validation.{validate}
use xtap_pool.Enrichment.State.Operations.{serialize_metadata}

-- JSON in canonical form, and its shape read back, or a message.
pub record MetadataCodec : Type 0 where
  pub encode : Metadata → Bytes
  pub parse : Bytes → Result Text Metadata

-- What `restore` reads of a checkpoint manifest.
pub record Manifest : Type 0 where
  pub run_id : Text
  pub plan_sha256 : Text
  pub boundary_sequence : ℕ

pub record Evidence : Type 0 where
  pub sequence : ℕ
  pub queue_done : ℕ
  pub registry_next_ordinal : ℕ

pub data AdapterError : Type 0 where
  boundary_mismatch payloads_invalid identity_mismatch : AdapterError
  unparsed : Text → AdapterError
  invalid : StateError → AdapterError

abbrev pub metadata_path : Text
metadata_path = lit "state.json"

abbrev pub bitmap_path : Text
bitmap_path = lit "queue-completed.bin"

abbrev pub evidence : State → Evidence
evidence s = record {
  sequence = s.sequence;
  queue_done = s.queue.done;
  registry_next_ordinal = s.registry.next_ordinal;
}

abbrev pub or_invalid : {A : Type 0} → Result StateError A → Result AdapterError A
or_invalid (ok a) = ok a
or_invalid (err e) = err (invalid e)

abbrev pub or_unparsed : {A : Type 0} → Result Text A → Result AdapterError A
or_unparsed (ok a) = ok a
or_unparsed (err m) = err (unparsed m)

abbrev pub is_identified : Manifest → Metadata → Bool
is_identified manifest m =
    m.run_id == manifest.run_id
    && m.plan_sha256 == manifest.plan_sha256
    && m.sequence == manifest.boundary_sequence

module _ ⦃d : DateTimes⦄ (codec : MetadataCodec) where
  -- The constructor and `replace`.
  unfoldable pub replace : State → Result AdapterError State
  replace state = or_invalid (validate state)

  unfoldable pub save : State → ℕ → Result AdapterError (List (Text × Bytes))
  save state boundary_sequence = do
    guard (boundary_sequence == state.sequence) boundary_mismatch
    metadata ← or_invalid (serialize_metadata state)
    ok ((metadata_path, codec.encode metadata) ∷ (bitmap_path, state.completed_bitmap) ∷ [])

  -- `restore`, from the parsed metadata on.
  unfoldable pub restored : Manifest → Bytes → Metadata → Result AdapterError (State × Evidence)
  restored manifest bitmap metadata = do
    guard (metadata_ok metadata) (invalid schema_mismatch)
    guard (is_identified manifest metadata) identity_mismatch
    state ← or_invalid (validate (record { metadata = metadata; completed_bitmap = bitmap }))
    ok (state, evidence state)

  unfoldable pub restore : Manifest → List (Text × Bytes) → Result AdapterError (State × Evidence)
  restore manifest payloads = do
    metadata_bytes ← or_throw (lookup payloads metadata_path) payloads_invalid
    bitmap ← or_throw (lookup payloads bitmap_path) payloads_invalid
    guard (eqb (length payloads) 2) payloads_invalid
    metadata ← or_unparsed (codec.parse metadata_bytes)
    restored manifest bitmap metadata
