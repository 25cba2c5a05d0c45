-- ===== src/Enrichment/ActiveRun/Examples.antt =====
-- A plan, and a history of two activations of it.
use xtap_pool.Base.{
  DateTimes, Option, Text, [], decimal, eqb, if◌then◌else◌, is_sha256, lit, map, none, ok,
  pad_start, refl, replicate, some, strip, text_beq, text_le, then_in, true, ℕ, ◌∷◌, ◌≡◌,
}
use xtap_pool.Concurrency.{load, map_batches_in_order, map_from, require_concurrency}
use xtap_pool.Enrichment.Checkpoint.{Bytes, ObjectStore}
use xtap_pool.Enrichment.Checkpoint.Prefetch.{Cache, lookup}
use xtap_pool.Enrichment.RunPlan.{
  ObjectReference, PlanDigest, PlanInput, RunPlan, create_plan, input_ok, parse_plan, plan_ok,
}
use xtap_pool.Enrichment.RunPlan.Identity.{parse_plan-create_plan}
use xtap_pool.Enrichment.ActiveRun.{
  ActiveRun, Platform, activation_key, active_run_ok, follows, is_claim_key, is_claim_name,
  last_claim,
}
use xtap_pool.Enrichment.ActiveRun.Resolve.{
  load_claim, required_object, resolve_active, resolve_active_evidence, resolve_keys,
  resolve_optional, verify_plan,
}
use xtap_pool.Enrichment.ActiveRun.Activate.{
  Activation, activate, activate_over, resolve_written, write_claim, write_pointer,
}
use xtap_pool.Enrichment.ActiveRun.Activate.Next.{IsExpected}
use xtap_pool.Enrichment.ActiveRun.Activate.Outcome.{IsActivated, activate-IsActivated}

instance abbrev any_time : DateTimes
any_time = record { is_datetime = λ _. true }

abbrev digest : Text
digest = replicate 64 b'0'

abbrev sha : PlanDigest
sha = record { digest = λ input. digest }

abbrev object : ObjectReference
object = record { key = lit "object"; sha256 = digest; bytes = 1 }

abbrev input : PlanInput
input = record {
  schema_version = 1;
  created_at = lit "2026-01-01T00:00:00Z";
  source = record {
    bucket = lit "org/pool";
    snapshot_revision = digest;
    ordered_segments = object;
  };
  contract = record {
    worker_revision = replicate 40 b'a';
    contract_sha256 = digest;
    taxonomy_version = 1;
    model = lit "model";
    provider = lit "provider";
  };
  base_index = record {
    object = object;
    source_revision = digest;
    source_segment_count = 2;
    receipt_count = 0;
    registry_revision = 0;
  };
  work = record {
    object = object;
    queue_total = 10;
    queue_baseline_done = 3;
    registry_total = 4;
    registry_baseline_scanned = 4;
  };
}

abbrev plan : RunPlan
plan = record { input = input; run_id = lit "xtap-00000000000000000000000000000000" }

parse_plan-create_plan_example :
    (parse_plan sha plan (some digest) ≡ ok (plan, digest))
    × (parse_plan sha plan none ≡ ok (plan, digest))
unfolding create_plan input_ok plan_ok is_sha256
parse_plan-create_plan_example = parse_plan-create_plan sha input plan digest refl

abbrev activation : ℕ → Option Text → ActiveRun
activation generation previous = record {
  schema_version = 1;
  generation = generation;
  run_id = plan.run_id;
  plan_sha256 = digest;
  previous_plan_sha256 = previous;
  activated_at = lit "2026-01-01T00:00:00Z";
}

abbrev parse_run : Bytes → Option ActiveRun
parse_run [] = none
parse_run (n ∷ _) = some (if eqb n 1 then activation 1 none else activation n (some digest))

abbrev platform : Platform
platform = record {
  parse_run = parse_run;
  canonical_bytes = λ run. run.generation ∷ [];
  parse_plan_json = λ bytes. some plan;
  sha256 = λ bytes. digest;
}

abbrev in_memory : ObjectStore
in_memory = record {
  Store = Cache;
  read = λ s path. ok (lookup s path);
  list = λ s prefix. (s, ok (map (λ (e : Text × Bytes). e.0) s));
  write_immutable = λ s path bytes. ((path, bytes) ∷ s, ok tt);
  write_pointer_hint = λ s path bytes. (s, ok tt);
}

abbrev history : Cache
history =
    (lit "operations/enrichment/runs/activations/000000000002.json", 2 ∷ [])
    ∷ (lit "operations/enrichment/runs/activations/000000000001.json", 1 ∷ [])
    ∷ (lit "operations/enrichment/runs/xtap-00000000000000000000000000000000/plan.json", [])
    ∷ []

-- The first activation, in a store that has the plan only.
abbrev fresh : Cache
fresh = (lit "operations/enrichment/runs/xtap-00000000000000000000000000000000/plan.json", []) ∷ []

abbrev activated : Cache
activated = (lit "operations/enrichment/runs/activations/000000000001.json", 1 ∷ []) ∷ fresh

abbrev first_activation : Activation
first_activation = record {
  run_id = plan.run_id;
  plan_sha256 = digest;
  activated_at = lit "2026-01-01T00:00:00Z";
  expected_current_plan_sha256 = none;
}

activate-IsActivated_example :
    (before : Cache) × (current : Option ActiveRun) × (resolve_optional sha platform in_memory fresh
      ≡ (before, ok current))
    × IsExpected first_activation current
    × IsActivated sha platform in_memory first_activation before current activated
        (activation 1 none)
unfolding then_in activate activate_over write_claim write_pointer resolve_written resolve_optional
    resolve_active resolve_active_evidence resolve_keys is_claim_key strip is_claim_name text_beq
    text_le map_batches_in_order map_from load require_concurrency load_claim activation_key
    pad_start decimal required_object lookup active_run_ok is_sha256 verify_plan parse_plan plan_ok
    input_ok last_claim follows
activate-IsActivated_example =
    activate-IsActivated sha platform in_memory first_activation fresh activated (activation 1 none)
      refl
