-- ===== src/Concurrency/Examples.antt =====
-- Runs with batches of two.
use xtap_pool.Base.{
  List, Option, Result, [], arith, eqb, err, if◌then◌else◌, ltb, none, ok, refl, some, ℕ, ◌*◌, ◌++◌,
  ◌∷◌, ◌≡◌,
}
use xtap_pool.Concurrency.{load, map_batches_in_order, rejected}
use xtap_pool.Concurrency.Consume.{consume_batches_in_order, consumer, load_pair}
use xtap_pool.Concurrency.Consume.Sequence.{IsInOrder, consume_batches_in_order_lem, outcome}

abbrev below_ten : ℕ → Option ℕ
below_ten n = if ltb n 10 then some (n * 2) else none

three_inputs :
    map_batches_in_order below_ten 2 (3 ∷ 1 ∷ 2 ∷ []) ≡ ((2, 3) ∷ (3, 3) ∷ [], ok (6 ∷ 2 ∷ 4 ∷ []))
unfolding map_batches_in_order
three_inputs = refl

late_rejection : map_batches_in_order below_ten 2 (3 ∷ 1 ∷ 12 ∷ []) ≡ ((2, 3) ∷ [], err rejected)
unfolding map_batches_in_order
late_rejection = refl

-- Outputs are collected, and 8 is refused.
abbrev collect : List ℕ → ℕ → ℕ → List ℕ × Result ℕ (Unit {0})
collect s output input = if eqb output 8 then (s, err input) else (s ++ output ∷ [], ok tt)

consume_batches_in_order_lem_example :
    IsInOrder below_ten collect []
      ((3, 6) ∷ (4, 8) ∷ (2, 4) ∷ [])
      (outcome below_ten collect (consume_batches_in_order below_ten collect 2 (3 ∷ 4 ∷ 2 ∷ []) []))
unfolding load load_pair
consume_batches_in_order_lem_example =
    consume_batches_in_order_lem below_ten collect 2 (3 ∷ 4 ∷ 2 ∷ [])
      ((3, 6) ∷ (4, 8) ∷ (2, 4) ∷ []) [] refl (omega arith) refl

throwing_consumer :
    consume_batches_in_order below_ten collect 2 (3 ∷ 2 ∷ 4 ∷ []) []
    ≡ ((6 ∷ 4 ∷ [], (2, 3) ∷ []), err (consumer 4))
unfolding consume_batches_in_order
throwing_consumer = refl
