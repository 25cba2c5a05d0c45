-- ===== src/Enrichment/ActiveRun.antt =====
-- space/src/enrich-active-run.ts: the history of activations, one object per generation, and the
-- run that is active. The claims are read in batches; which of several failures of a batch is thrown
-- depends on their times, so `unverified` stands for each of them.
pub mod Resolve
pub mod Activate
pub mod Chain
mod Examples
use xtap_pool.Base.{
  Bool, DateTimes, List, Option, Result, Text, [], all, decimal, drop, eqb, false, guard, is_digit,
  is_positive, is_sha256, is_some, keys, lit, nat_eq, none, not, ok, pad_start, some, strip, take,
  text_beq, text_eq, true, ℕ, ◌&&◌, ◌++◌, ◌+◌, ◌==◌, ◌>>=◌, ◌>>◌, ◌∷◌,
}
use xtap_pool.Concurrency.{BatchError}
use xtap_pool.Enrichment.Checkpoint.{Bytes, StoreError}
use xtap_pool.Enrichment.RunPlan.{PlanError, RunPlan, is_safe_id}

pub record ActiveRun : Type 0 where
  pub schema_version : ℕ
  pub generation : ℕ
  pub run_id : Text
  pub plan_sha256 : Text
  pub previous_plan_sha256 : Option Text
  pub activated_at : Text

-- A claim as it was read.
pub record Claim : Type 0 where
  pub key : Text
  pub value : Bytes
  pub run : ActiveRun

pub record Evidence : Type 0 where
  pub active_run : ActiveRun
  pub key : Text
  pub bytes : Bytes
  pub sha256 : Text

pub data ActiveError : Type 0 where
  store_failed : StoreError → ActiveError
  missing : Text → ActiveError
  unparsed : ActiveError
  plan_failed : PlanError → ActiveError
  schema_mismatch not_contiguous generation_mismatch plan_id_mismatch : ActiveError
  unverified : BatchError → ActiveError
  empty predecessor_mismatch first_has_predecessor changed read_back_mismatch : ActiveError

-- The platform: JSON, and SHA-256 of bytes.
pub record Platform : Type 0 where
  pub parse_run : Bytes → Option ActiveRun
  pub canonical_bytes : ActiveRun → Bytes
  pub parse_plan_json : Bytes → Option RunPlan
  pub sha256 : Bytes → Text

abbrev pub run_prefix : Text
run_prefix = lit "operations/enrichment/runs"

abbrev pub activation_prefix : Text
activation_prefix = run_prefix ++ lit "/activations"

abbrev pub active_pointer_key : Text
active_pointer_key = run_prefix ++ lit "/active.json"

-- `activationKey`; a safe integer has 16 digits at most.
unfoldable pub activation_key : ℕ → Text
unfolding decimal pad_start
activation_key generation =
    activation_prefix ++ (lit "/" ++ (pad_start 12 (decimal 16 generation) ++ lit ".json"))

-- `CLAIM_KEY`, of what follows the prefix.
abbrev pub is_claim_name : Option Text → Bool
unfolding text_beq
is_claim_name none = false
is_claim_name (some name) = all is_digit (take 12 name) && text_beq (drop 12 name) (lit ".json")

unfoldable pub is_claim_key : Text → Bool
unfolding strip
is_claim_key key = is_claim_name (strip (activation_prefix ++ lit "/") key)

abbrev is_sha_or_null : Option Text → Bool
unfolding is_sha256
is_sha_or_null none = true
is_sha_or_null (some s) = is_sha256 s

-- `activeRunSchema`.
unfoldable pub active_run_ok : ⦃d : DateTimes⦄ → ActiveRun → Bool
unfolding is_sha256
active_run_ok ⦃d = d⦄ r =
    eqb r.schema_version 1
    && is_positive r.generation
    && is_safe_id r.run_id
    && is_sha256 r.plan_sha256
    && is_sha_or_null r.previous_plan_sha256
    && d.is_datetime r.activated_at

-- `keys.map((key, index) => ({ key, generation: index + 1 }))`.
abbrev pub numbered : ℕ → List Text → List (Text × ℕ)
numbered n [] = []
numbered n (key ∷ keys) = (key, n) ∷ numbered (n + 1) keys

-- `value === sha256`, where the value may be missing.
abbrev pub is_digest : Text → Option Text → Bool
is_digest sha256 none = false
is_digest sha256 (some value) = value == sha256

-- The check of one edge; `none` before the first claim.
unfoldable pub follows : Option Claim → ActiveRun → Result ActiveError (Unit {0})
follows none run = guard (not (is_some run.previous_plan_sha256)) first_has_predecessor
follows (some previous) run =
    guard (is_digest previous.run.plan_sha256 run.previous_plan_sha256) predecessor_mismatch

-- The loop over the claims: the last one.
unfoldable pub last_claim : Option Claim → List Claim → Result ActiveError (Option Claim)
unfolding follows
last_claim previous [] = ok previous
last_claim previous (claim ∷ claims) = do follows previous claim.run; last_claim (some claim) claims
