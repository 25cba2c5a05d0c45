-- ===== src/Concurrency/Consume.antt =====
-- `consumeBatchesInOrder` in space/src/bounded-concurrency.ts. The loads of a batch run together, as
-- those of `mapBatchesInOrder`; their outputs are consumed one after the other, on a state.
pub mod Sequence
use xtap_pool.Base.{
  List, Option, Result, [], and_then, drop, eqb, err, if◌then◌else◌, length, none, ok, some, suc,
  take, zero, ℕ, ◌++◌, ◌+◌, ◌∷◌,
}
use xtap_pool.Concurrency.{BatchError, load, rejected, require_concurrency}

pub data ConsumeError (E : Type 0) : Type 0 where
  batch : BatchError → ConsumeError E
  consumer : E → ConsumeError E

module _ {A B S E : Type 0} (load_input : A → Option B)
    (consume : S → B → A → S × Result E (Unit {0})) where
  -- `{ input, output }` of one input.
  unfoldable pub load_pair : A → Option (A × B)
  load_pair input = and_then (load_input input) (λ output. some (input, output))

  -- The loop over a loaded batch, with what is completed so far.
  unfoldable pub consume_each : S → ℕ → List (A × B) → S × Result E ℕ
  consume_each s completed [] = (s, ok completed)
  consume_each s completed ((input, output) ∷ loaded) = elim (consume s output input).1 [
    | err e ↦ ((consume s output input).0, err e)
    | ok _ ↦ consume_each (consume s output input).0 (completed + 1) loaded
  ]

  -- The loop over the batches, with the rounds that are left, the state, what is completed and the
  -- calls of `progress` so far. Each round takes an input at least.
  unfoldable pub consume_from :
      ℕ
      → ℕ
      → ℕ
      → List A
      → S
      → ℕ
      → List (ℕ × ℕ)
      → (S × List (ℕ × ℕ)) × Result (ConsumeError E) (Unit {0})
  unfolding load load_pair consume_each
  consume_from concurrency total left [] s completed calls = ((s, calls), ok tt)
  consume_from concurrency total zero (x ∷ xs) s completed calls =
      ((s, calls), err (batch rejected))
  consume_from concurrency total (suc left) (x ∷ xs) s completed calls =
      elim (load load_pair (take concurrency (x ∷ xs))) [
        | none ↦ ((s, calls), err (batch rejected))
        | some loaded ↦ elim (consume_each s completed loaded).1 [
          | err e ↦ (((consume_each s completed loaded).0, calls), err (consumer e))
          | ok n ↦
              consume_from concurrency total left (drop concurrency (x ∷ xs))
                (consume_each s completed loaded).0 n (calls ++ (n, total) ∷ [])
        ]
      ]

  unfoldable pub consume_batches_in_order :
      ℕ → List A → S → (S × List (ℕ × ℕ)) × Result (ConsumeError E) (Unit {0})
  unfolding consume_from require_concurrency
  consume_batches_in_order concurrency inputs s = elim (require_concurrency concurrency) [
    | err e ↦ ((s, []), err (batch e))
    | ok _ ↦
        if eqb (length inputs) 0
        then ((s, (0, 0) ∷ []), ok tt)
        else consume_from concurrency (length inputs) (length inputs) inputs s 0 []
  ]
