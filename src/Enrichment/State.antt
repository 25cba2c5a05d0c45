-- ===== src/Enrichment/State.antt =====
-- space/src/enrich-state.ts: the checkpoint state of a run, its validation and its operations.
pub mod Validation
pub mod Operations
pub mod History
mod Examples
use xtap_pool.Base.{
  Bool, DateTimes, List, Option, Text, all, eqb, false, if◌then◌else◌, is_filled, is_positive,
  is_safe, is_sha256, is_some, ltb, map, none, not, some, true, ℕ, ◌&&◌, ◌*◌,
}
use xtap_pool.Enrichment.Manifest.{DurableIndexManifest, manifest_ok}

pub record RetryRecord : Type 0 where
  pub ordinal : ℕ
  pub attempts : ℕ
  pub error_class : Text
  pub next_retry_at : Option Text

pub record BlockedRecord : Type 0 where
  pub ordinal : ℕ
  pub attempts : ℕ
  pub reason : Text
  pub evidence_sha256 : Text

pub record OutputFrontier : Type 0 where
  pub sequence : ℕ
  pub chain_sha256 : Option Text

pub record Queue : Type 0 where
  pub total : ℕ
  pub done : ℕ
  pub retrying : List RetryRecord
  pub blocked : List BlockedRecord

pub record Registry : Type 0 where
  pub total : ℕ
  pub next_ordinal : ℕ
  pub approved : ℕ
  pub rejected : ℕ

pub record Outputs : Type 0 where
  pub enrichment : OutputFrontier
  pub attempt : OutputFrontier
  pub registry : OutputFrontier
  pub receipt : OutputFrontier

pub data PublicationState : Type 0 where
  pending building uploaded verified published : PublicationState

pub record Publication : Type 0 where
  pub state : PublicationState
  pub database_key : Option Text
  pub database_sha256 : Option Text
  pub database_bytes : Option ℕ
  pub manifest : Option DurableIndexManifest

pub record Metadata : Type 0 where
  pub schema_version : ℕ
  pub run_id : Text
  pub plan_sha256 : Text
  pub sequence : ℕ
  pub queue : Queue
  pub registry : Registry
  pub outputs : Outputs
  pub publication : Publication

pub record State : Type 0 where
  pub metadata : Metadata
  pub open metadata use *
  pub completed_bitmap : List ℕ

pub data StateError : Type 0 where
  queue_total_invalid queue_baseline_invalid registry_total_invalid : StateError
  registry_baseline_invalid queue_baseline_exceeds registry_baseline_exceeds : StateError
  schema_mismatch bitmap_length_mismatch bitmap_count_mismatch : StateError
  retry_outside completed_retrying retry_repeated : StateError
  blocked_outside completed_blocked blocked_repeated : StateError
  registry_cursor_exceeds publication_mismatch : StateError
  ordinal_outside completed_attempt decisions_exceed : StateError
  chain_invalid sequence_invalid : StateError

pub data OutputKind : Type 0 where
  enrichment attempt registry receipt : OutputKind

pub data Decision : Type 0 where
  candidate approved rejected : Decision

abbrev or_null {ℓ} : {A : Type ℓ} → (A → Bool) → Option A → Bool
or_null test none = true
or_null test (some a) = test a

-- `outputFrontierSchema` with its refinement.
unfoldable pub frontier_ok : OutputFrontier → Bool
frontier_ok f =
    is_safe f.sequence
    && or_null is_sha256 f.chain_sha256
    && (if eqb f.sequence 0 then not (is_some f.chain_sha256) else is_some f.chain_sha256)

unfoldable pub outputs_ok : Outputs → Bool
outputs_ok o =
    frontier_ok o.enrichment
    && frontier_ok o.attempt
    && frontier_ok o.registry
    && frontier_ok o.receipt

unfoldable pub publication_ok : Publication → Bool
publication_ok p =
    or_null is_filled p.database_key
    && or_null is_sha256 p.database_sha256
    && or_null is_positive p.database_bytes
    && or_null manifest_ok p.manifest

abbrev pub holds_database : PublicationState → Bool
holds_database pending = false
holds_database building = false
holds_database uploaded = true
holds_database verified = true
holds_database published = true

unfoldable pub has_database : Publication → Bool
has_database p =
    is_some p.database_key
    && is_some p.database_sha256
    && is_some p.database_bytes
    && is_some p.manifest

-- `requireOrdinal`: negative ordinals and fractions are outside the model's numbers.
abbrev pub in_plan : ℕ → ℕ → Bool
in_plan value total = is_safe value && ltb value total

abbrev pub retry_ordinals : Queue → List ℕ
retry_ordinals q = map (λ (r : RetryRecord). r.ordinal) q.retrying

abbrev pub blocked_ordinals : Queue → List ℕ
blocked_ordinals q = map (λ (r : BlockedRecord). r.ordinal) q.blocked

module _ ⦃d : DateTimes⦄ where
  unfoldable pub retry_ok : RetryRecord → Bool
  retry_ok r =
      is_safe r.ordinal
      && is_safe r.attempts
      && is_filled r.error_class
      && or_null d.is_datetime r.next_retry_at

  unfoldable pub blocked_ok : BlockedRecord → Bool
  blocked_ok r =
      is_safe r.ordinal
      && is_positive r.attempts
      && is_filled r.reason
      && is_sha256 r.evidence_sha256

  unfoldable pub queue_ok : Queue → Bool
  queue_ok q =
      is_safe q.total && is_safe q.done && all retry_ok q.retrying && all blocked_ok q.blocked

  unfoldable pub registry_ok : Registry → Bool
  registry_ok r =
      is_safe r.total && is_safe r.next_ordinal && is_safe r.approved && is_safe r.rejected

  -- `enrichmentCheckpointMetadataSchema`.
  unfoldable pub metadata_ok : Metadata → Bool
  metadata_ok m =
      eqb m.schema_version 1
      && is_filled m.run_id
      && is_sha256 m.plan_sha256
      && is_safe m.sequence
      && queue_ok m.queue
      && registry_ok m.registry
      && outputs_ok m.outputs
      && publication_ok m.publication
