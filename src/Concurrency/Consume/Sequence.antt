-- ===== src/Concurrency/Consume/Sequence.antt =====
-- Consumption in batches is consumption in order.
use mathlib.Core.Option
use xtap_pool.Base.{
  List, Option, Result, Result-cases, [], ap, arith, drop, eqb, err, false, inl, inr, is_safe,
  length, none, ok, ok-injective, refl, some, suc, sym, take, true, zero, ℕ, ◌++◌, ◌+◌, ◌∙◌, ◌∷◌,
  ◌≡◌, ◌≤◌,
}
use xtap_pool.Concurrency.{load}
use xtap_pool.Concurrency.Order.{both, length-drop-lt, load-append, require_lem, take-append-drop}
use xtap_pool.Concurrency.Consume.{
  ConsumeError, consume_batches_in_order, consume_each, consume_from, consumer, load_pair,
}

module _ {A B S E : Type 0} (load_input : A → Option B)
    (consume : S → B → A → S × Result E (Unit {0})) where
  abbrev pub one_pass : S × Result E ℕ → S × Result (ConsumeError E) (Unit {0})
  one_pass (s, ok n) = (s, ok tt)
  one_pass (s, err e) = (s, err (consumer e))

  -- The state and the result, without the calls of `progress`.
  abbrev pub outcome :
      (S × List (ℕ × ℕ)) × Result (ConsumeError E) (Unit {0})
      → S × Result (ConsumeError E) (Unit {0})
  outcome r = (r.0.0, r.1)

  abbrev then_each : S × Result E ℕ → List (A × B) → S × Result E ℕ
  then_each (s, ok n) later = consume_each load_input consume s n later
  then_each (s, err e) later = (s, err e)

  consume_each-append :
      (s : S) (n : ℕ) (now later : List (A × B))
      → consume_each load_input consume s n (now ++ later)
        ≡ then_each (consume_each load_input consume s n now) later
  unfolding consume_each
  consume_each-append s n [] later = refl
  consume_each-append s n ((x, y) ∷ now) later = elim (Result-cases (consume s y x).1) [
    | inr (e, h) ↦ rw (h, consume_each)
    | inl (u, h) ↦ rw (h, consume_each) (consume_each-append (consume s y x).0 (n + 1) now later)
  ]

  both-some :
      (first later : Option (List (A × B))) (pairs : List (A × B))
      → both (load_pair load_input consume) first later ≡ some pairs
      → (now : List (A × B)) × (rest : List (A × B)) × (first ≡ some now)
        × (later ≡ some rest)
        × (now ++ rest ≡ pairs)
  both-some none later pairs h = cc
  both-some (some now) none pairs h = cc
  both-some (some now) (some rest) pairs h = (now, rest, refl, refl, Option.some-injective _ _ h)

  then_each-err :
      (r : S × Result E ℕ) (later : List (A × B)) (e : E)
      → r.1 ≡ err e
      → one_pass (then_each r later) ≡ (r.0, err (consumer e))
  then_each-err (s, ok n) later e h = cc
  then_each-err (s, err d) later e h = ap (λ r. one_pass (s, r)) h

  then_each-ok :
      (r : S × Result E ℕ) (later : List (A × B)) (n : ℕ)
      → r.1 ≡ ok n
      → then_each r later ≡ consume_each load_input consume r.0 n later
  then_each-ok (s, ok m) later n h =
      ap (λ k. consume_each load_input consume s k later) (ok-injective h)
  then_each-ok (s, err d) later n h = cc

  loop_lem :
      (c total left : ℕ) (inputs : List A) (pairs : List (A × B)) (s : S) (n : ℕ)
      → (calls : List (ℕ × ℕ)) → 1 ≤ c
      → length inputs ≤ left
      → load (load_pair load_input consume) inputs ≡ some pairs
      → outcome (consume_from load_input consume c total left inputs s n calls)
        ≡ one_pass (consume_each load_input consume s n pairs)
  unfolding consume_from load consume_each
  loop_lem c total left [] pairs s n calls h le loads = rw (← Option.some-injective _ _ loads) refl
  loop_lem c total zero (x ∷ xs) pairs s n calls h le loads = absurd (omega arith)
  loop_lem c total (suc left) (x ∷ xs) pairs s n calls h le loads =
      let pair = load_pair load_input consume in
      let parts =
        sym (load-append pair (take c (x ∷ xs)) (drop c (x ∷ xs)))
        ∙ ap (load pair) (take-append-drop c (x ∷ xs))
        ∙ loads in
      let (now, rest, e₁, e₂, e₃) = both-some _ _ pairs parts in
      let r = consume_each load_input consume s n now in
      let whole =
        sym (consume_each-append s n now rest) ∙ ap (consume_each load_input consume s n) e₃ in
      elim (Result-cases r.1) [
        | inr (e, bad) ↦
            rw (e₁, bad, consume_from) (sym (then_each-err r rest e bad)) ∙ ap one_pass whole
        | inl (m, done) ↦
            let room : length (drop c (x ∷ xs)) ≤ left = omega (arith, length-drop-lt c x xs h) in
            rw (e₁, done, consume_from)
              (loop_lem c total left (drop c (x ∷ xs)) rest r.0 m (calls ++ (m, total) ∷ []) h room
                e₂)
            ∙ ap one_pass (sym (then_each-ok r rest m done) ∙ whole)
      ]

  one_pass_lem :
      (concurrency : ℕ) (inputs : List A) (pairs : List (A × B)) (s : S)
      → is_safe concurrency ≡ true
      → 1 ≤ concurrency
      → load (load_pair load_input consume) inputs ≡ some pairs
      → outcome (consume_batches_in_order load_input consume concurrency inputs s)
        ≡ one_pass (consume_each load_input consume s 0 pairs)
  unfolding consume_batches_in_order load consume_each
  one_pass_lem c [] pairs s safe h loads =
      rw (
        ← Option.some-injective _ _ loads,
        require_lem load_input c safe h,
        consume_batches_in_order,
      )
  one_pass_lem c (x ∷ xs) pairs s safe h loads =
      let total = length (x ∷ xs) in
      let nonempty : eqb total 0 ≡ false = ground arith in
      rw (require_lem load_input c safe h, consume_batches_in_order, nonempty)
        (loop_lem c total total (x ∷ xs) pairs s 0 [] h (omega arith) loads)

  -- The outputs are consumed one after the other, from the first state to the last, and none throws.
  abbrev pub Consumes : S → List (A × B) → S → Type 0
  Consumes s [] t = s ≡ t
  Consumes s ((x, y) ∷ pairs) t = ((consume s y x).1 ≡ ok tt) × Consumes (consume s y x).0 pairs t

  -- Either all the outputs are consumed in the order of the inputs, or those before the first that
  -- throws, whose error is the result.
  pub data IsInOrder (s : S) (pairs : List (A × B))
      (result : S × Result (ConsumeError E) (Unit {0})) : Type 0 where
    finished : Consumes s pairs result.0 → result.1 ≡ ok tt → IsInOrder s pairs result
    threw :
        (before after : List (A × B)) (x : A) (y : B) (t : S) (e : E)
        → pairs ≡ before ++ (x, y) ∷ after
        → Consumes s before t
        → consume t y x ≡ (result.0, err e)
        → result.1 ≡ err (consumer e)
        → IsInOrder s pairs result

  consume_each-IsInOrder :
      (s : S) (n : ℕ) (pairs : List (A × B))
      → IsInOrder s pairs (one_pass (consume_each load_input consume s n pairs))
  unfolding consume_each
  consume_each-IsInOrder s n [] = finished refl refl
  consume_each-IsInOrder s n ((x, y) ∷ pairs) = elim (Result-cases (consume s y x).1) [
    | inr (e, h) ↦
        rw (h, consume_each)
          (threw [] pairs x y s e refl refl (ap (λ r. ((consume s y x).0, r)) h) refl)
    | inl (u, h) ↦
        rw (h, consume_each)
          (after_one s x y pairs _ h (consume_each-IsInOrder (consume s y x).0 (n + 1) pairs))
  ]
    where
      after_one :
          (s : S) (x : A) (y : B) (pairs : List (A × B))
          → (result : S × Result (ConsumeError E) (Unit {0})) → (consume s y x).1 ≡ ok tt
          → IsInOrder (consume s y x).0 pairs result
          → IsInOrder s ((x, y) ∷ pairs) result
      after_one s x y pairs result h (finished all_ fine) = finished (h, all_) fine
      after_one s x y pairs result h (threw before after x' y' t e split all_ last bad) =
          threw ((x, y) ∷ before) after x' y' t e (ap (◌∷◌ (x, y)) split) (h, all_) last bad

  -- With a concurrency that is a positive safe integer, and if every input loads, the outputs are
  -- consumed one after the other in the order of the inputs. Either none throws, and the result is
  -- `ok` with the last state; or the first that throws ends it, with its state and its error, and
  -- none after it is consumed.
  pub consume_batches_in_order_lem :
      (concurrency : ℕ) (inputs : List A) (pairs : List (A × B)) (s : S)
      → is_safe concurrency ≡ true
      → 1 ≤ concurrency
      → load (load_pair load_input consume) inputs ≡ some pairs
      → IsInOrder s pairs
          (outcome (consume_batches_in_order load_input consume concurrency inputs s))
  consume_batches_in_order_lem c inputs pairs s safe h loads =
      rw (one_pass_lem c inputs pairs s safe h loads) (consume_each-IsInOrder s 0 pairs)
