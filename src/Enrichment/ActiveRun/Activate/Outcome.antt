-- ===== src/Enrichment/ActiveRun/Activate/Outcome.antt =====
-- What a successful activation has done.
use xtap_pool.Base.{
  >>=-eq-ok, Bool, Bool-cases, DateTimes, Option, Result, Text, ap, eq_of_==, err, err_not_ok,
  false, guard, guard-eq-ok, guard-true, if◌then◌else◌, inl, inr, lit, nat_eq, none, ok,
  ok-injective, or_throw, or_throw-eq-ok, refl, some, sym, text_eq, then_in, then_in-ok, true, ◌++◌,
  ◌==◌, ◌∙◌, ◌≡◌,
}
use xtap_pool.Enrichment.ActiveRun.{
  ActiveError, ActiveRun, Platform, activation_key, active_pointer_key, active_run_ok, changed,
  missing, plan_id_mismatch, read_back_mismatch, run_prefix, schema_mismatch, unparsed,
}
use xtap_pool.Enrichment.ActiveRun.Resolve.{
  from_plan, from_store, required_object, resolve_active, resolve_optional, verify_plan,
}
use xtap_pool.Enrichment.ActiveRun.Activate.{
  Activation, activate, activate_over, check_claim, is_expected_current, is_same_run,
  next_generation, resolve_written, successor, write_claim, write_pointer,
}
use xtap_pool.Enrichment.ActiveRun.Activate.Next.{
  IsExpected, IsNext, IsOther, is_expected_current-IsExpected, is_same_run-IsOther, same_run_of,
  successor-IsNext,
}
use xtap_pool.Enrichment.Checkpoint.{ObjectStore, StoreError}
use xtap_pool.Enrichment.RunPlan.{PlanDigest, PlanError, RunPlan, parse_plan}

false_not_true : Path Bool false true → ⊥
false_not_true q = cc

from_plan-ok : {A : Type 0} (r : Result PlanError A) (a : A) → from_plan r ≡ ok a → r ≡ ok a
from_plan-ok (ok x) a h = ap ok (ok-injective h)
from_plan-ok (err e) a h = cc

from_store-ok : {A : Type 0} (r : Result StoreError A) (a : A) → from_store r ≡ ok a → r ≡ ok a
from_store-ok (ok x) a h = ap ok (ok-injective h)
from_store-ok (err e) a h = cc

module _ ⦃d : DateTimes⦄ (sha : PlanDigest) (platform : Platform) (store : ObjectStore) where
  open store use {Store, read, write_immutable, write_pointer_hint}

  -- The branch that an activation takes, in the words of its definition.
  data IsTaken (options : Activation) (before : Store) (current : Option ActiveRun) (after : Store)
      (run : ActiveRun) : Type 0 where
    kept :
        current ≡ some run
        → is_same_run options current ≡ true
        → after ≡ before
        → IsTaken options before current after run
    written :
        (s : Store)
        → is_same_run options current ≡ false
        → check_claim sha platform store before (successor options current) ≡ ok tt
        → read s (activation_key (next_generation current))
          ≡ ok (some (platform.canonical_bytes (successor options current)))
        → resolve_active sha platform store s ≡ (after, ok run)
        → IsTaken options before current after run

  required_object_ok :
      (s : Store) (key bytes : Text)
      → required_object sha platform store s key ≡ ok bytes
      → read s key ≡ ok (some bytes)
  unfolding required_object
  required_object_ok s key bytes h =
      let (found, e, h₁) = >>=-eq-ok (from_store (read s key)) _ h in
      from_store-ok (read s key) found e ∙ ap ok (or_throw-eq-ok found (missing key) h₁)

  -- A store that holds a claim, from which the activation resolves the active run.
  Holds : ActiveRun → Store → ActiveRun → Type 0
  Holds claim after run =
      (s : Store) × (read s (activation_key claim.generation)
        ≡ ok (some (platform.canonical_bytes claim)))
      × (resolve_active sha platform store s ≡ (after, ok run))

  resolve_written-Holds :
      (s t : Store) (claim run : ActiveRun)
      → resolve_written sha platform store claim s tt ≡ (t, ok run)
      → Holds claim t run
  unfolding resolve_written Holds
  resolve_written-Holds s t claim run h =
      let bytes = platform.canonical_bytes claim in
      let (stored, e, h₁) =
        then_in-ok (s, required_object sha platform store s (activation_key claim.generation))
          (λ s₁ stored.
            then_in (s₁, guard (stored == bytes) read_back_mismatch)
              (λ s₂ _. resolve_active sha platform store s₂))
          t run h in
      let (u, same, h₂) =
        then_in-ok (s, guard (stored == bytes) read_back_mismatch)
          (λ s₂ (_ : Unit {0}). resolve_active sha platform store s₂) t run h₁ in
      let equal = eq_of_== stored bytes (guard-true (stored == bytes) read_back_mismatch same) in
      (
        s,
        required_object_ok s (activation_key claim.generation) stored e
            ∙ ap (λ b. ok (some b)) equal,
        h₂,
      )

  write_claim-Holds :
      (s t : Store) (claim run : ActiveRun)
      → write_claim sha platform store s claim ≡ (t, ok run)
      → Holds claim t run
  unfolding write_claim write_pointer
  write_claim-Holds s t claim run h =
      let bytes = platform.canonical_bytes claim in
      let w = write_immutable s (activation_key claim.generation) bytes in
      let (_, _, h₁) =
        then_in-ok (w.0, from_store w.1) (write_pointer sha platform store claim) t run h in
      let p = write_pointer_hint w.0 active_pointer_key bytes in
      let (_, _, h₂) =
        then_in-ok (p.0, from_store p.1) (resolve_written sha platform store claim) t run h₁ in
      resolve_written-Holds p.0 t claim run h₂

  module _ (options : Activation) (before after : Store) (run : ActiveRun) where
    -- The branch of `activate_over` that is taken where the current run is the expected one.
    over : Option ActiveRun → Option ActiveRun → Store × Result ActiveError ActiveRun
    over current (some active) = (before, ok active)
    over current none =
        then_in (before, check_claim sha platform store before (successor options current))
          (λ s₁ _. write_claim sha platform store s₁ (successor options current))

    over-IsTaken :
        (current : Option ActiveRun) (same : Bool)
        → is_same_run options current ≡ same
        → over current (if same then current else none) ≡ (after, ok run)
        → IsTaken options before current after run
    unfolding over Holds
    over-IsTaken none true e h = absurd (false_not_true e)
    over-IsTaken (some active) true e h =
        kept (ap some (ok-injective (ap (λ r. r.1) h))) e (sym (ap (λ r. r.0) h))
    over-IsTaken current false e h =
        let (u, checked, h₁) =
          then_in-ok (before, check_claim sha platform store before (successor options current))
            (λ s₁ _. write_claim sha platform store s₁ (successor options current)) after run h in
        let (s, stored, active) =
          write_claim-Holds before after (successor options current) run h₁ in
        written s e checked stored active

    over_expected :
        (current : Option ActiveRun)
        → activate_over sha platform store options before current ≡ (after, ok run)
        → (is_expected_current options.expected_current_plan_sha256 current ≡ true)
          × (over current (if is_same_run options current then current else none) ≡ (after, ok run))
    unfolding activate_over over
    over_expected current h =
        elim (Bool-cases (is_expected_current options.expected_current_plan_sha256 current)) [
          | inl found ↦ (found, rw found at h)
          | inr other ↦ absurd (err_not_ok changed run (ap (λ r. r.1) (refused other h)))
        ]
      where
        refused :
            is_expected_current options.expected_current_plan_sha256 current ≡ false
            → activate_over sha platform store options before current ≡ (after, ok run)
            → Path (Store × Result ActiveError ActiveRun) (before, err changed) (after, ok run)
        refused other k = rw (other, activate_over) at k

  activate-IsTaken :
      (options : Activation) (s after : Store) (run : ActiveRun)
      → activate sha platform store options s ≡ (after, ok run)
      → (before : Store) × (current : Option ActiveRun) × (resolve_optional sha platform store s
          ≡ (before, ok current))
        × (is_expected_current options.expected_current_plan_sha256 current ≡ true)
        × IsTaken options before current after run
  unfolding activate
  activate-IsTaken options s after run h =
      let found = resolve_optional sha platform store s in
      let (current, e, h₁) =
        then_in-ok found (activate_over sha platform store options) after run h in
      let (expected, taken) = over_expected options found.0 after run current h₁ in
      (
        found.0,
        current,
        ap (λ r. (found.0, r)) e,
        expected,
        over-IsTaken options found.0 after run current (is_same_run options current) refl taken,
      )

  -- The plan of the claim is stored with its run, passes its checks with the digest of the claim, and
  -- is that run's.
  pub record IsPlanned (s : Store) (claim : ActiveRun) : Type 0 where
    pub value : Text
    pub plan : RunPlan
    pub parsed : RunPlan
    pub digest : Text
    pub stored :
        read s (run_prefix ++ (lit "/" ++ (claim.run_id ++ lit "/plan.json"))) ≡ ok (some value)
    pub read_as : platform.parse_plan_json value ≡ some plan
    pub checked : parse_plan sha plan (some claim.plan_sha256) ≡ ok (parsed, digest)
    pub same_run : parsed.run_id ≡ claim.run_id

  -- Either the run of the options was active before and nothing changed; or another one or none was,
  -- and the claim that follows it has passed the schema, has its plan in the store, is itself stored
  -- under its generation when the active run is resolved, and the run is what is active then.
  pub data IsActivated (options : Activation) (before : Store) (current : Option ActiveRun)
      (after : Store) (run : ActiveRun) : Type 0 where
    kept_active :
        current ≡ some run
        → run.plan_sha256 ≡ options.plan_sha256
        → run.run_id ≡ options.run_id
        → after ≡ before
        → IsActivated options before current after run
    claimed :
        (claim : ActiveRun) (s : Store)
        → IsOther options current
        → IsNext options current claim
        → active_run_ok claim ≡ true
        → IsPlanned before claim
        → read s (activation_key claim.generation) ≡ ok (some (platform.canonical_bytes claim))
        → resolve_active sha platform store s ≡ (after, ok run)
        → IsActivated options before current after run

  verify_plan-IsPlanned :
      (s : Store) (claim : ActiveRun)
      → verify_plan sha platform store s claim ≡ ok tt
      → IsPlanned s claim
  unfolding verify_plan
  verify_plan-IsPlanned s claim h =
      let key = run_prefix ++ (lit "/" ++ (claim.run_id ++ lit "/plan.json")) in
      let (value, found, h₁) = >>=-eq-ok (required_object sha platform store s key) _ h in
      let (plan, json, h₂) = >>=-eq-ok (or_throw (platform.parse_plan_json value) unparsed) _ h₁ in
      let ((parsed, digest), accepted, h₃) =
        >>=-eq-ok (from_plan (parse_plan sha plan (some claim.plan_sha256))) _ h₂ in
      record {
        value = value;
        plan = plan;
        parsed = parsed;
        digest = digest;
        stored = required_object_ok s key value found;
        read_as = or_throw-eq-ok (platform.parse_plan_json value) unparsed json;
        checked =
            from_plan-ok (parse_plan sha plan (some claim.plan_sha256)) (parsed, digest) accepted;
        same_run =
            eq_of_== parsed.run_id claim.run_id
              (guard-true (parsed.run_id == claim.run_id) plan_id_mismatch h₃);
      }

  check_claim-IsPlanned :
      (s : Store) (claim : ActiveRun)
      → check_claim sha platform store s claim ≡ ok tt
      → (active_run_ok claim ≡ true) × IsPlanned s claim
  check_claim-IsPlanned s claim h =
      let (fine, h₁) = guard-eq-ok (active_run_ok claim) schema_mismatch _ h in
      (fine, verify_plan-IsPlanned s claim h₁)

  IsTaken-IsActivated :
      (options : Activation) (before after : Store) (current : Option ActiveRun) (run : ActiveRun)
      → IsTaken options before current after run
      → IsActivated options before current after run
  IsTaken-IsActivated options before after current run (kept found same stays) =
      let (plan, id) = same_run_of options current run found same in kept_active found plan id stays
  IsTaken-IsActivated options before after current run (written s other checked stored active) =
      let (fine, planned) = check_claim-IsPlanned before (successor options current) checked in
      claimed (successor options current) s (is_same_run-IsOther options current other)
        (successor-IsNext options current) fine planned stored active

  -- An activation that succeeds has resolved what was active before; if it was told which plan to
  -- expect, a run of this plan was. Either the run of the options was active and the store stays. Or it
  -- was not, and the claim has the options' run, plan and time, is the first with no predecessor if
  -- nothing was active, else has the next generation and names the plan of the run before; it has
  -- passed the schema, its plan was stored and has passed its checks, the claim is stored under its
  -- generation when the active run is resolved, and the result is what is active then.
  pub activate-IsActivated :
      (options : Activation) (s after : Store) (run : ActiveRun)
      → activate sha platform store options s ≡ (after, ok run)
      → (before : Store) × (current : Option ActiveRun) × (resolve_optional sha platform store s
          ≡ (before, ok current))
        × IsExpected options current
        × IsActivated options before current after run
  activate-IsActivated options s after run h =
      let (before, current, found, expected, taken) = activate-IsTaken options s after run h in
      (
        before,
        current,
        found,
        is_expected_current-IsExpected options current expected,
        IsTaken-IsActivated options before after current run taken,
      )
