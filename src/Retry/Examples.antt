-- ===== src/Retry/Examples.antt =====
-- Runs of the retry.
use xtap_pool.Base.{Result, [], eqb, err, if◌then◌else◌, lit, none, ok, refl, true, ℕ, ◌∷◌, ◌≡◌}
use xtap_pool.Retry.{Failure, failure, hub_api, retry_transient_hub_read}
use xtap_pool.Retry.Bound.{EndsAt, retry_ends}

abbrev busy : Failure
busy = record { kind = hub_api 503; chain = [] }

abbrev timed_out : Failure
timed_out = record {
  kind = hub_api 503;
  chain =
      record { is_error = true; name = lit "HubApiError"; code = none }
      ∷ record { is_error = true; name = lit "TimeoutError"; code = none }
      ∷ [];
}

-- The second attempt succeeds.
abbrev second : ℕ → Result Failure ℕ
second n = if eqb n 2 then ok 42 else err busy

abbrev cancelled : ℕ → Result Failure ℕ
cancelled n = err timed_out

retry_ends_example : (last : ℕ) × EndsAt second (retry_transient_hub_read second) last
retry_ends_example = retry_ends second

second_succeeds : retry_transient_hub_read second ≡ (1 ∷ [], ok 42)
unfolding retry_transient_hub_read
second_succeeds = refl

busy_throws : retry_transient_hub_read {A = ℕ} (λ n. err busy) ≡ (1 ∷ 2 ∷ [], err (failure busy))
unfolding retry_transient_hub_read
busy_throws = refl
