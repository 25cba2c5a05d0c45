-- ===== src/Enrichment/ActiveRun/Resolve.antt =====
-- Which run is active: `resolveActiveEnrichmentRunEvidence` and what it calls.
use xtap_pool.Base.{
  DateTimes, List, Option, Result, Text, [], eqb, err, filter, guard, keys, length, lit, ltb,
  nat_eq, none, ok, or_throw, some, sort, text_eq, text_le, then_in, ℕ, ◌++◌, ◌==◌, ◌>>=◌, ◌>>◌,
  ◌∷◌,
}
use xtap_pool.Concurrency.{BatchError, map_batches_in_order}
use xtap_pool.Enrichment.ActiveRun.{
  ActiveError, ActiveRun, Claim, Evidence, Platform, activation_key, activation_prefix,
  active_run_ok, empty, generation_mismatch, is_claim_key, last_claim, missing, not_contiguous,
  numbered, plan_failed, plan_id_mismatch, run_prefix, schema_mismatch, store_failed, unparsed,
  unverified,
}
use xtap_pool.Enrichment.Checkpoint.{Bytes, ObjectStore, StoreError}
use xtap_pool.Enrichment.RunPlan.{PlanDigest, PlanError, parse_plan}

abbrev pub from_store : {A : Type 0} → Result StoreError A → Result ActiveError A
from_store (ok a) = ok a
from_store (err e) = err (store_failed e)

abbrev pub from_plan : {A : Type 0} → Result PlanError A → Result ActiveError A
from_plan (ok a) = ok a
from_plan (err e) = err (plan_failed e)

abbrev pub from_batch : {A : Type 0} → Result BatchError A → Result ActiveError A
from_batch (ok a) = ok a
from_batch (err e) = err (unverified e)

abbrev pub fulfilled : {A : Type 0} → Result ActiveError A → Option A
fulfilled (ok a) = some a
fulfilled (err e) = none

abbrev pub options_digest : Option ActiveRun → Option Text
options_digest none = none
options_digest (some run) = some run.plan_sha256

module _ ⦃d : DateTimes⦄ (sha : PlanDigest) (platform : Platform) (store : ObjectStore) where
  open store use {Store, read, list, write_immutable, write_pointer_hint}

  -- `requiredObject`.
  unfoldable pub required_object : Store → Text → Result ActiveError Bytes
  required_object s key = from_store (read s key) >>= λ found. or_throw found (missing key)

  -- `verifyPlan`.
  unfoldable pub verify_plan : Store → ActiveRun → Result ActiveError (Unit {0})
  verify_plan s run = do
    value ← required_object s (run_prefix ++ (lit "/" ++ (run.run_id ++ lit "/plan.json")))
    plan ← or_throw (platform.parse_plan_json value) unparsed
    (parsed, digest) ← from_plan (parse_plan sha plan (some run.plan_sha256))
    guard (parsed.run_id == run.run_id) plan_id_mismatch

  -- The operation on one key.
  unfoldable pub load_claim : Store → Text × ℕ → Result ActiveError Claim
  load_claim s (key, generation) = do
    guard (key == activation_key generation) not_contiguous
    value ← required_object s key
    run ← or_throw (platform.parse_run value) unparsed
    guard (active_run_ok run) schema_mismatch
    guard (eqb run.generation generation) generation_mismatch
    verify_plan s run
    ok (record { key = key; value = value; run = run })

  abbrev evidence_of : Claim → Evidence
  evidence_of claim = record {
    active_run = claim.run;
    key = claim.key;
    bytes = claim.value;
    sha256 = platform.sha256 claim.value;
  }

  -- `resolveActiveEnrichmentRunEvidence`, from the listed keys on.
  unfoldable pub resolve_keys : Store → List Text → Result ActiveError Evidence
  resolve_keys s keys = do
    guard (ltb 0 (length keys)) empty
    claims ←
        from_batch (map_batches_in_order (λ k. fulfilled (load_claim s k)) 8 (numbered 1 keys)).1
    last ← last_claim none claims
    claim ← or_throw last empty
    ok (evidence_of claim)

  abbrev pub claim_keys : List Text → List Text
  claim_keys keys = sort text_le (filter is_claim_key keys)

  unfoldable pub resolve_active_evidence : Store → Store × Result ActiveError Evidence
  resolve_active_evidence s =
      let (s₁, listed) = list s activation_prefix in
      (s₁, from_store listed >>= λ keys. resolve_keys s₁ (claim_keys keys))

  -- `resolveActiveEnrichmentRun`.
  unfoldable pub resolve_active : Store → Store × Result ActiveError ActiveRun
  resolve_active s =
      let (s₁, found) = resolve_active_evidence s in
      (s₁, found >>= λ evidence. ok evidence.active_run)

  abbrev resolve_listed : Store → List Text → Store × Result ActiveError (Option ActiveRun)
  resolve_listed s [] = (s, ok none)
  resolve_listed s (_ ∷ _) =
      let (s₁, run) = resolve_active s in (s₁, run >>= λ active. ok (some active))

  -- `resolveOptionalActiveRun`.
  unfoldable pub resolve_optional : Store → Store × Result ActiveError (Option ActiveRun)
  resolve_optional s =
      let (s₁, listed) = list s activation_prefix in
      then_in (s₁, from_store listed) (λ s₂ keys. resolve_listed s₂ (filter is_claim_key keys))
