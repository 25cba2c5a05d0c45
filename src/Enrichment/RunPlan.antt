-- ===== src/Enrichment/RunPlan.antt =====
-- space/src/enrich-run-plan.ts: the immutable plan of a run, whose identity is the digest of its
-- canonical JSON. That digest is the platform's, an argument of the functions.
pub mod Identity
use xtap_pool.Base.{
  Bool, DateTimes, Option, Result, Text, all, eqb, guard, is_filled, is_hex, is_name, is_positive,
  is_safe, is_sha256, leb, length, lit, nat_eq, none, ok, some, take, text_eq, true, ℕ, ◌&&◌, ◌++◌,
  ◌==◌, ◌>>=◌, ◌>>◌,
}

pub record ObjectReference : Type 0 where
  pub key : Text
  pub sha256 : Text
  pub bytes : ℕ

pub record Source : Type 0 where
  pub bucket : Text
  pub snapshot_revision : Text
  pub ordered_segments : ObjectReference

pub record Contract : Type 0 where
  pub worker_revision : Text
  pub contract_sha256 : Text
  pub taxonomy_version : ℕ
  pub model : Text
  pub provider : Text

pub record BaseIndex : Type 0 where
  pub object : ObjectReference
  pub source_revision : Text
  pub source_segment_count : ℕ
  pub receipt_count : ℕ
  pub registry_revision : ℕ

pub record Work : Type 0 where
  pub object : ObjectReference
  pub queue_total : ℕ
  pub queue_baseline_done : ℕ
  pub registry_total : ℕ
  pub registry_baseline_scanned : ℕ

pub record PlanInput : Type 0 where
  pub schema_version : ℕ
  pub created_at : Text
  pub source : Source
  pub contract : Contract
  pub base_index : BaseIndex
  pub work : Work

pub record RunPlan : Type 0 where
  pub input : PlanInput
  pub run_id : Text

pub data PlanError : Type 0 where
  schema_mismatch id_mismatch digest_mismatch : PlanError

-- `SAFE_ID`.
abbrev pub is_safe_id : Text → Bool
is_safe_id s = is_name s && leb (length s) 128

abbrev pub object_ok : ObjectReference → Bool
unfolding is_sha256
object_ok o = is_filled o.key && is_sha256 o.sha256 && is_positive o.bytes

abbrev pub source_ok : Source → Bool
unfolding is_sha256
source_ok s =
    leb 3 (length s.bucket) && is_sha256 s.snapshot_revision && object_ok s.ordered_segments

abbrev pub contract_ok : Contract → Bool
unfolding is_sha256
contract_ok c =
    all is_hex c.worker_revision
    && leb 40 (length c.worker_revision)
    && leb (length c.worker_revision) 64
    && is_sha256 c.contract_sha256
    && is_positive c.taxonomy_version
    && is_filled c.model
    && is_filled c.provider

abbrev pub base_index_ok : BaseIndex → Bool
unfolding is_sha256
base_index_ok b =
    object_ok b.object
    && is_sha256 b.source_revision
    && is_safe b.source_segment_count
    && is_safe b.receipt_count
    && is_safe b.registry_revision

abbrev pub work_ok : Work → Bool
work_ok w =
    object_ok w.object
    && is_safe w.queue_total
    && is_safe w.queue_baseline_done
    && is_safe w.registry_total
    && is_safe w.registry_baseline_scanned

-- The digest `sha256Canonical` of the plan without its id.
pub record PlanDigest : Type 0 where
  pub digest : PlanInput → Text

module _ ⦃d : DateTimes⦄ where
  -- `enrichmentRunPlanInputSchema`.
  unfoldable pub input_ok : PlanInput → Bool
  input_ok p =
      eqb p.schema_version 1
      && d.is_datetime p.created_at
      && source_ok p.source
      && contract_ok p.contract
      && base_index_ok p.base_index
      && work_ok p.work

  -- `enrichmentRunPlanSchema`.
  unfoldable pub plan_ok : RunPlan → Bool
  unfolding input_ok
  plan_ok plan =
      input_ok plan.input
      && is_safe_id plan.run_id
      && leb plan.input.work.queue_baseline_done plan.input.work.queue_total
      && leb plan.input.work.registry_baseline_scanned plan.input.work.registry_total

  module _ (sha : PlanDigest) where
    abbrev pub run_id_of : PlanInput → Text
    run_id_of input = lit "xtap-" ++ take 32 (sha.digest input)

    -- `createEnrichmentRunPlan`.
    unfoldable pub create_plan : PlanInput → Result PlanError (RunPlan × Text)
    create_plan input = do
      guard (input_ok input) schema_mismatch
      guard (plan_ok (record { input = input; run_id = run_id_of input })) schema_mismatch
      ok (record { input = input; run_id = run_id_of input }, sha.digest input)

    -- `expectedSha256 !== undefined && sha256 !== expectedSha256`, negated.
    abbrev pub is_expected : Option Text → Text → Bool
    is_expected none sha256 = true
    is_expected (some expected) sha256 = sha256 == expected

    -- `parseEnrichmentRunPlan`, of a value whose fields have their types.
    unfoldable pub parse_plan : RunPlan → Option Text → Result PlanError (RunPlan × Text)
    parse_plan plan expected = do
      guard (plan_ok plan) schema_mismatch
      guard (plan.run_id == run_id_of plan.input) id_mismatch
      guard (is_expected expected (sha.digest plan.input)) digest_mismatch
      ok (plan, sha.digest plan.input)
