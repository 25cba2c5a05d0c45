-- ===== src/Concurrency.antt =====
-- `mapBatchesInOrder` in space/src/bounded-concurrency.ts. A call of the operation gives its result
-- or rejects; which of several rejections `Promise.all` passes on depends on their times, so the
-- model says only that the batch rejects. The calls of `progress` are listed, and taken to return.
pub mod Order
pub mod Consume
mod Examples
use xtap_pool.Base.{
  List, Option, Result, [], and_then, drop, eqb, err, guard, if◌then◌else◌, is_safe, leb, length,
  none, ok, some, suc, take, zero, ℕ, ◌&&◌, ◌++◌, ◌∷◌,
}

pub data BatchError : Type 0 where
  invalid_concurrency rejected : BatchError

-- `requireConcurrency`.
unfoldable pub require_concurrency : ℕ → Result BatchError (Unit {0})
require_concurrency value = guard (is_safe value && leb 1 value) invalid_concurrency

module _ {A B : Type 0} (operation : A → Option B) where
  -- `Promise.all` over a batch.
  unfoldable pub load : List A → Option (List B)
  load [] = some []
  load (x ∷ xs) = and_then (operation x) (λ y. and_then (load xs) (λ ys. some (y ∷ ys)))

  -- The loop over the inputs from an offset on, with the rounds that are left, the results and the
  -- calls of `progress` so far. Each round takes an input at least.
  unfoldable pub map_from :
      ℕ → ℕ → ℕ → List A → List B → List (ℕ × ℕ) → List (ℕ × ℕ) × Option (List B)
  unfolding load
  map_from concurrency total left [] results calls = (calls, some results)
  map_from concurrency total zero (x ∷ xs) results calls = (calls, none)
  map_from concurrency total (suc left) (x ∷ xs) results calls =
      elim (load (take concurrency (x ∷ xs))) [
        | none ↦ (calls, none)
        | some loaded ↦
            map_from concurrency total left (drop concurrency (x ∷ xs)) (results ++ loaded)
              (calls ++ (length (results ++ loaded), total) ∷ [])
      ]

  abbrev pub settle : List (ℕ × ℕ) × Option (List B) → List (ℕ × ℕ) × Result BatchError (List B)
  settle (calls, none) = (calls, err rejected)
  settle (calls, some results) = (calls, ok results)

  unfoldable pub map_batches_in_order : ℕ → List A → List (ℕ × ℕ) × Result BatchError (List B)
  unfolding map_from require_concurrency
  map_batches_in_order concurrency inputs = elim (require_concurrency concurrency) [
    | err e ↦ ([], err e)
    | ok _ ↦
        if eqb (length inputs) 0
        then ((0, 0) ∷ [], ok [])
        else settle (map_from concurrency (length inputs) (length inputs) inputs [] [])
  ]
