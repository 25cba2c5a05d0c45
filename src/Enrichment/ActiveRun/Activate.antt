-- ===== src/Enrichment/ActiveRun/Activate.antt =====
-- `activateEnrichmentRun`: the first activation, a repeated one, and a successor.
pub mod Next
pub mod Outcome
use xtap_pool.Base.{
  Bool, DateTimes, Option, Result, Text, err, false, guard, if◌then◌else◌, nat_eq, none, not, ok,
  some, text_eq, then_in, true, ℕ, ◌&&◌, ◌+◌, ◌==◌, ◌>>=◌, ◌>>◌,
}
use xtap_pool.Enrichment.ActiveRun.{
  ActiveError, ActiveRun, Platform, activation_key, active_pointer_key, active_run_ok, changed,
  read_back_mismatch, schema_mismatch,
}
use xtap_pool.Enrichment.ActiveRun.Resolve.{
  from_store, options_digest, required_object, resolve_active, resolve_optional, verify_plan,
}
use xtap_pool.Enrichment.Checkpoint.{ObjectStore}
use xtap_pool.Enrichment.RunPlan.{PlanDigest}

-- The options of an activation.
pub record Activation : Type 0 where
  pub run_id : Text
  pub plan_sha256 : Text
  pub activated_at : Text
  pub expected_current_plan_sha256 : Option Text

-- `current?.plan_sha256 !== options.expectedCurrentPlanSha256`, negated, where one is expected.
abbrev pub is_expected_current : Option Text → Option ActiveRun → Bool
is_expected_current none current = true
is_expected_current (some expected) none = false
is_expected_current (some expected) (some run) = run.plan_sha256 == expected

abbrev pub is_same_run : Activation → Option ActiveRun → Bool
is_same_run options none = false
is_same_run options (some run) =
    run.plan_sha256 == options.plan_sha256 && run.run_id == options.run_id

abbrev pub next_generation : Option ActiveRun → ℕ
next_generation none = 1
next_generation (some run) = run.generation + 1

-- The claim that an activation writes.
abbrev pub successor : Activation → Option ActiveRun → ActiveRun
successor options current = record {
  schema_version = 1;
  generation = next_generation current;
  run_id = options.run_id;
  plan_sha256 = options.plan_sha256;
  previous_plan_sha256 = options_digest current;
  activated_at = options.activated_at;
}

module _ ⦃d : DateTimes⦄ (sha : PlanDigest) (platform : Platform) (store : ObjectStore) where
  open store use {Store, read, list, write_immutable, write_pointer_hint}

  -- The read-back of a claim and the resolution of what is active then.
  unfoldable pub resolve_written :
      ActiveRun → Store → Unit {0} → Store × Result ActiveError ActiveRun
  resolve_written run s _ =
      then_in (s, required_object sha platform store s (activation_key run.generation))
        (λ s₁ stored.
          then_in (s₁, guard (stored == platform.canonical_bytes run) read_back_mismatch)
            (λ s₂ _. resolve_active sha platform store s₂))

  unfoldable pub write_pointer : ActiveRun → Store → Unit {0} → Store × Result ActiveError ActiveRun
  write_pointer run s _ =
      let (s₁, hinted) = write_pointer_hint s active_pointer_key (platform.canonical_bytes run) in
      then_in (s₁, from_store hinted) (resolve_written run)

  -- The writes of an activation, and what follows them.
  unfoldable pub write_claim : Store → ActiveRun → Store × Result ActiveError ActiveRun
  write_claim s run =
      let (s₁, written) =
        write_immutable s (activation_key run.generation) (platform.canonical_bytes run) in
      then_in (s₁, from_store written) (write_pointer run)

  -- The checks of the successor, before anything is written.
  abbrev pub check_claim : Store → ActiveRun → Result ActiveError (Unit {0})
  check_claim s run = do
    guard (active_run_ok run) schema_mismatch
    verify_plan sha platform store s run

  unfoldable pub activate_over :
      Activation → Store → Option ActiveRun → Store × Result ActiveError ActiveRun
  activate_over options s current =
      if not (is_expected_current options.expected_current_plan_sha256 current)
      then (s, err changed)
      else elim (if is_same_run options current then current else none) [
        | some active ↦ (s, ok active)
        | none ↦
            then_in (s, check_claim s (successor options current))
              (λ s₁ _. write_claim s₁ (successor options current))
      ]

  -- `activateEnrichmentRun`.
  unfoldable pub activate : Activation → Store → Store × Result ActiveError ActiveRun
  activate options s = then_in (resolve_optional sha platform store s) (activate_over options)
