-- ===== src/Enrichment/ActiveRun/Activate/Next.antt =====
-- The claim that an activation writes, against what was active before.
use mathlib.Core.Option
use xtap_pool.Base.{
  Bool, Option, Text, ap, arith, false, none, refl, some, sym, text_beq_iff, true, ◌+◌, ◌∙◌, ◌≡◌,
  ◌≢◌,
}
use xtap_pool.Enrichment.ActiveRun.{ActiveRun}
use xtap_pool.Enrichment.ActiveRun.Activate.{
  Activation, is_expected_current, is_same_run, successor,
}

false_not_true : Path Bool false true → ⊥
false_not_true q = cc

-- If a plan is expected, a run of this plan is active.
abbrev pub IsExpected : Activation → Option ActiveRun → Type 0
IsExpected options current =
    (expected : Text)
    → options.expected_current_plan_sha256 ≡ some expected
    → (c : ActiveRun) × (current ≡ some c) × (c.plan_sha256 ≡ expected)

-- What is active is not the run of the options with its plan.
abbrev pub IsOther : Activation → Option ActiveRun → Type 0
IsOther options current =
    (c : ActiveRun)
    → current ≡ some c
    → c.plan_sha256 ≡ options.plan_sha256
    → c.run_id ≢ options.run_id

-- The claim of the options that follows what is active.
pub record IsNext (options : Activation) (current : Option ActiveRun) (claim : ActiveRun)
    : Type 0 where
  pub schema : claim.schema_version ≡ 1
  pub run : claim.run_id ≡ options.run_id
  pub plan : claim.plan_sha256 ≡ options.plan_sha256
  pub time : claim.activated_at ≡ options.activated_at
  pub first : current ≡ none → (claim.generation ≡ 1) × (claim.previous_plan_sha256 ≡ none)
  pub next :
      (c : ActiveRun)
      → current ≡ some c
      → (claim.generation ≡ c.generation + 1) × (claim.previous_plan_sha256 ≡ some c.plan_sha256)

none_not_some : {A : Type 0} (a : A) → Path (Option A) none (some a) → ⊥
none_not_some a q = cc

pub successor-IsNext :
    (options : Activation) (current : Option ActiveRun)
    → IsNext options current (successor options current)
successor-IsNext options none = record {
  schema = refl;
  run = refl;
  plan = refl;
  time = refl;
  first = λ h. (refl, refl);
  next = λ c h. absurd (none_not_some c h);
}
successor-IsNext options (some active) = record {
  schema = refl;
  run = refl;
  plan = refl;
  time = refl;
  first = λ h. absurd (none_not_some active (sym h));
  next = λ c h.
      let e = Option.some-injective active c h in
      (ap (λ (r : ActiveRun). r.generation + 1) e, ap (λ (r : ActiveRun). some r.plan_sha256) e);
}

pub is_expected_current-IsExpected :
    (options : Activation) (current : Option ActiveRun)
    → is_expected_current options.expected_current_plan_sha256 current ≡ true
    → IsExpected options current
is_expected_current-IsExpected options none h expected e = absurd (false_not_true (rw e at h))
is_expected_current-IsExpected options (some active) h expected e =
    (active, refl, (text_beq_iff active.plan_sha256 expected).0 (rw e at h))

pub same_run_of :
    (options : Activation) (current : Option ActiveRun) (run : ActiveRun)
    → current ≡ some run
    → is_same_run options current ≡ true
    → (run.plan_sha256 ≡ options.plan_sha256) × (run.run_id ≡ options.run_id)
same_run_of options none run e h = absurd (none_not_some run e)
same_run_of options (some active) run e h =
    let r = Option.some-injective active run e in
    (
      ap (λ (x : ActiveRun). x.plan_sha256) (sym r)
          ∙ (text_beq_iff active.plan_sha256 options.plan_sha256).0 (ground arith),
      ap (λ (x : ActiveRun). x.run_id) (sym r)
          ∙ (text_beq_iff active.run_id options.run_id).0 (ground arith),
    )

pub is_same_run-IsOther :
    (options : Activation) (current : Option ActiveRun)
    → is_same_run options current ≡ false
    → IsOther options current
is_same_run-IsOther options none h c e plan id = none_not_some c e
is_same_run-IsOther options (some active) h c e plan id =
    let r = Option.some-injective active c e in
    let same_plan = ap (λ (x : ActiveRun). x.plan_sha256) r ∙ plan in
    let same_id = ap (λ (x : ActiveRun). x.run_id) r ∙ id in
    let equal_plan = (text_beq_iff active.plan_sha256 options.plan_sha256).1 same_plan in
    let equal_id = (text_beq_iff active.run_id options.run_id).1 same_id in
    false_not_true (sym h ∙ rw (equal_plan, equal_id))
