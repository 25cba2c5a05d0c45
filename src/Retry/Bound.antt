-- ===== src/Retry/Bound.antt =====
-- How often the operation is called, and what comes of it.
use xtap_pool.Base.{
  Bool, Bool-cases, List, Result, Result-cases, [], ap, arith, eqb, err, false, inl, inr, leb, not,
  ok, refl, suc, true, zero, ℕ, ◌++◌, ◌+◌, ◌-◌, ◌<◌, ◌||◌, ◌∙◌, ◌∷◌, ◌≡◌, ◌≢◌, ◌≤◌, ◌⊎◌,
}
use xtap_pool.Retry.{
  Failure, Thrown, failure, hub_read_attempts, is_cancelled_read, is_retryable, retry_from,
  retry_transient_hub_read,
}

module _ {A : Type 0} where
  -- Whether the loop repeats after this outcome of an attempt.
  abbrev pub is_repeated : Result Failure A → Bool
  is_repeated (ok value) = false
  is_repeated (err e) = is_retryable e

  abbrev pub thrown_of : Result Failure A → Result Thrown A
  thrown_of (ok value) = ok value
  thrown_of (err e) = err (failure e)

-- The numbers from 1 to `n`, in order.
abbrev pub count_up : ℕ → List ℕ
count_up zero = []
count_up (suc n) = count_up n ++ (n + 1) ∷ []

≤-cases : (j n : ℕ) → j ≤ n + 1 → (j ≤ n) ⊎ (j ≡ n + 1)
≤-cases j n h = elim (Bool-cases (leb j n)) [
  | inl below ↦ inl (ground arith)
  | inr above ↦ inr (ground arith)
]

module _ {A : Type 0} (operation : ℕ → Result Failure A) where
  -- The call ends with the attempt `last`, the third at the latest: its outcome is returned or
  -- thrown, each attempt before it failed with a retryable error and was followed by one wait.
  pub record EndsAt (outcome : List ℕ × Result Thrown A) (last : ℕ) : Type 0 where
    pub first : 1 ≤ last
    pub bound : last ≤ hub_read_attempts
    pub waits : outcome.0 ≡ count_up (last - 1)
    pub repeated :
        (j : ℕ) → 1 ≤ j → j < last → (e : Failure) × (operation j ≡ err e) × (is_retryable e ≡ true)
    pub result : outcome.1 ≡ thrown_of (operation last)
    pub settled : (eqb last hub_read_attempts || not (is_repeated (operation last))) ≡ true

  step_stops :
      (left attempt : ℕ) (waits : List ℕ)
      → (eqb attempt hub_read_attempts || not (is_repeated (operation attempt))) ≡ true
      → retry_from operation (suc left) attempt waits ≡ (waits, thrown_of (operation attempt))
  unfolding retry_from
  step_stops left attempt waits h = elim (Result-cases (operation attempt)) [
    | inl (value, e) ↦ rw (e, retry_from)
    | inr (x, e) ↦ let h' = rw e at h in rw (e, retry_from, h')
  ]

  step_repeats :
      (left attempt : ℕ) (waits : List ℕ)
      → (eqb attempt hub_read_attempts || not (is_repeated (operation attempt))) ≡ false
      → retry_from operation (suc left) attempt waits
        ≡ retry_from operation left (attempt + 1) (waits ++ attempt ∷ [])
  unfolding retry_from
  step_repeats left attempt waits h = elim (Result-cases (operation attempt)) [
    | inl (value, e) ↦ let h' = rw e at h in absurd (ground arith)
    | inr (x, e) ↦ let h' = rw e at h in rw (e, retry_from, h')
  ]

  -- The attempt failed with a retryable error.
  abbrev Failed : ℕ → Type 0
  Failed j = (e : Failure) × (operation j ≡ err e) × (is_retryable e ≡ true)

  is_repeated-Failed : (j : ℕ) → is_repeated (operation j) ≡ true → Failed j
  is_repeated-Failed j h = elim (Result-cases (operation j)) [
    | inl (value, e) ↦ let h' = rw e at h in absurd (ground arith)
    | inr (x, e) ↦ let h' = rw e at h in (x, e, h')
  ]

  loop-EndsAt :
      (left done : ℕ)
      → done + left ≡ hub_read_attempts
      → 0 < left
      → ((j : ℕ) → 1 ≤ j → j ≤ done → Failed j)
      → (last : ℕ) × EndsAt (retry_from operation left (done + 1) (count_up done)) last
  loop-EndsAt zero done sum some_left repeated = absurd (omega arith)
  loop-EndsAt (suc left) done sum some_left repeated =
      let less_one : done ≡ done + 1 - 1 = omega arith in
      let stops = eqb (done + 1) hub_read_attempts || not (is_repeated (operation (done + 1))) in
      elim (Bool-cases stops) [
        | inl stop ↦ rw (step_stops left (done + 1) (count_up done) stop) (
          done + 1,
          record {
            first = omega arith;
            bound = omega arith;
            waits = ap count_up less_one;
            repeated = λ j low below. repeated j low (omega arith);
            result = refl;
            settled = stop;
          },
        )
        | inr more ↦
            let again : is_repeated (operation (done + 1)) ≡ true = ground arith in
            let early : done + 1 ≢ hub_read_attempts = ground arith in
            let one : done + 1 ≡ suc done = omega arith in
            let next : count_up (done + 1) ≡ count_up done ++ (done + 1) ∷ [] = ap count_up one in
            rw (step_repeats left (done + 1) (count_up done) more, ← next)
              (loop-EndsAt left (done + 1) (omega arith) (omega arith) (λ j low below.
                elim (≤-cases j done below) [
                  | inl old ↦ repeated j low old
                  | inr new ↦ rw new (is_repeated-Failed (done + 1) again)
                ]))
      ]

  -- The retry ends with one of the attempts 1 to 3: its outcome is returned or thrown, every attempt
  -- before it failed with a retryable error, the waits are one after each of these attempts, in
  -- their order, and it succeeded, failed with another error or was the third.
  pub retry_ends : (last : ℕ) × EndsAt (retry_transient_hub_read operation) last
  unfolding retry_transient_hub_read
  retry_ends =
      loop-EndsAt hub_read_attempts 0 refl (omega arith) (λ j low below. absurd (omega arith))

  -- A first attempt that was cancelled is not repeated, whatever its status is.
  pub cancelled_ends :
      (e : Failure)
      → operation 1 ≡ err e
      → is_cancelled_read e ≡ true
      → retry_transient_hub_read operation ≡ ([], err (failure e))
  unfolding retry_transient_hub_read retry_from is_retryable
  cancelled_ends e h cancelled = step_stops 2 1 [] (rw (h, is_retryable, cancelled)) ∙ rw h
