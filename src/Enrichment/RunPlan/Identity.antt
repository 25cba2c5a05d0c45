-- ===== src/Enrichment/RunPlan/Identity.antt =====
-- A plan and its digest identify each other.
use xtap_pool.Base.{
  ==_refl, DateTimes, Text, ap, eq_of_==, guard-eq-ok, lit, nat_eq, none, ok, ok-injective, refl,
  some, sym, take, text_eq, ◌++◌, ◌==◌, ◌∙◌, ◌≡◌,
}
use xtap_pool.Enrichment.RunPlan.{
  PlanDigest, PlanInput, RunPlan, create_plan, input_ok, parse_plan, plan_ok, run_id_of,
}

module _ ⦃d : DateTimes⦄ (sha : PlanDigest) where
  -- A created plan is parsed as it is, against its own digest and without one.
  pub parse_plan-create_plan :
      (input : PlanInput) (plan : RunPlan) (sha256 : Text)
      → create_plan sha input ≡ ok (plan, sha256)
      → (parse_plan sha plan (some sha256) ≡ ok (plan, sha256))
        × (parse_plan sha plan none ≡ ok (plan, sha256))
  unfolding create_plan parse_plan
  parse_plan-create_plan input plan sha256 made =
      let (_, e) = guard-eq-ok (input_ok input) _ _ made in
      let (fits, e₁) =
        guard-eq-ok (plan_ok (record { input = input; run_id = run_id_of sha input })) _ _ e in
      let same = ok-injective e₁ in
      let p = ap (λ r. r.0) same in
      let q = ap (λ r. r.1) same in
      rw (← p, ← q, fits, ==_refl (run_id_of sha input), ==_refl (sha.digest input)) (refl, refl)

  -- Of all plans that parse against a digest, the input has that digest and the id is made from it.
  pub parse_plan-identity :
      (plan : RunPlan) (expected : Text) (r : RunPlan × Text)
      → parse_plan sha plan (some expected) ≡ ok r
      → (r.0 ≡ plan)
        × (sha.digest plan.input ≡ expected)
        × (plan.run_id ≡ lit "xtap-" ++ take 32 expected)
  unfolding parse_plan
  parse_plan-identity plan expected r parsed =
      let (_, e) = guard-eq-ok (plan_ok plan) _ _ parsed in
      let (id, e₁) = guard-eq-ok (plan.run_id == run_id_of sha plan.input) _ _ e in
      let (known, e₂) = guard-eq-ok (sha.digest plan.input == expected) _ _ e₁ in
      let same = eq_of_== (sha.digest plan.input) expected known in
      (
        sym (ap (λ r. r.0) (ok-injective e₂)),
        same,
        eq_of_== plan.run_id (run_id_of sha plan.input) id
            ∙ ap (λ s. lit "xtap-" ++ take 32 s) same,
      )
