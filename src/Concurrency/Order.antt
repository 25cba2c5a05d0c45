-- ===== src/Concurrency/Order.antt =====
-- The batches give what one pass over the inputs gives.
use mathlib.Core.List.{append_assoc}
use xtap_pool.Base.{
  List, Option, Option-cases, Result, [], and_then, ap, arith, drop, eqb, err, false, inl, inr,
  is_safe, length, none, ok, refl, some, suc, sym, take, true, zero, ℕ, ◌++◌, ◌∙◌, ◌∷◌, ◌≡◌, ◌≤◌,
}
use xtap_pool.Concurrency.{
  BatchError, load, map_batches_in_order, map_from, rejected, require_concurrency, settle,
}

pub take-append-drop : {A : Type 0} (n : ℕ) (xs : List A) → take n xs ++ drop n xs ≡ xs
take-append-drop zero xs = refl
take-append-drop (suc n) [] = refl
take-append-drop (suc n) (x ∷ xs) = ap (λ r. x ∷ r) (take-append-drop n xs)

pub length-drop-lt :
    {A : Type 0} (n : ℕ) (x : A) (xs : List A) → 1 ≤ n → length (drop n (x ∷ xs)) ≤ length xs
length-drop-lt zero x xs h = absurd (omega arith)
length-drop-lt (suc n) x xs h = length-drop-le n xs
  where
    length-drop-le : {A : Type 0} (n : ℕ) (xs : List A) → length (drop n xs) ≤ length xs
    length-drop-le zero xs = omega arith
    length-drop-le (suc n) [] = omega arith
    length-drop-le (suc n) (x ∷ xs) = omega (arith, length-drop-le n xs)

append_nil : {A : Type 0} (xs : List A) → xs ++ [] ≡ xs
append_nil [] = refl
append_nil (x ∷ xs) = ap (λ r. x ∷ r) (append_nil xs)

module _ {A B : Type 0} (operation : A → Option B) where
  -- What loading two lists one after the other gives.
  abbrev pub both : Option (List B) → Option (List B) → Option (List B)
  both none later = none
  both (some ys) none = none
  both (some ys) (some zs) = some (ys ++ zs)

  pub load-append :
      (xs ys : List A) → load operation (xs ++ ys) ≡ both (load operation xs) (load operation ys)
  unfolding load
  load-append [] ys = elim (Option-cases (load operation ys)) [ inl e ↦ rw e | inr (zs, e) ↦ rw e ]
  load-append (x ∷ xs) ys = elim (Option-cases (operation x)) [
    | inl e ↦ rw e
    | inr (y, e) ↦ rw (e, load-append xs ys) (rest y (load operation xs) (load operation ys))
  ]
    where
      rest :
          (y : B) (first later : Option (List B))
          → and_then (both first later) (λ zs. some (y ∷ zs))
            ≡ both (and_then first (λ zs. some (y ∷ zs))) later
      rest y none later = refl
      rest y (some zs) none = refl
      rest y (some zs) (some us) = refl

  both_assoc :
      (results loaded : List B) (later : Option (List B))
      → both (some (results ++ loaded)) later ≡ both (some results) (both (some loaded) later)
  both_assoc results loaded none = refl
  both_assoc results loaded (some ys) = ap some (append_assoc results loaded ys)

  loop_lem :
      (concurrency total left : ℕ) (xs : List A) (results : List B) (calls : List (ℕ × ℕ))
      → 1 ≤ concurrency
      → length xs ≤ left
      → (map_from operation concurrency total left xs results calls).1
        ≡ both (some results) (load operation xs)
  unfolding map_from load
  loop_lem c total left [] results calls h le = rw (append_nil results)
  loop_lem c total zero (x ∷ xs) results calls h le = absurd (omega arith)
  loop_lem c total (suc left) (x ∷ xs) results calls h le =
      let split = ap (load operation) (take-append-drop c (x ∷ xs)) in
      let parts = sym split ∙ load-append (take c (x ∷ xs)) (drop c (x ∷ xs)) in
      elim (Option-cases (load operation (take c (x ∷ xs)))) [
        | inl e ↦
            let step : (map_from operation c total (suc left) (x ∷ xs) results calls).1 ≡ none =
              rw (e, map_from) in
            step ∙ sym (ap (both (some results)) parts ∙ rw e)
        | inr (loaded, e) ↦
            let later = drop c (x ∷ xs) in
            let calls' = calls ++ (length (results ++ loaded), total) ∷ [] in
            let step : (map_from operation c total (suc left) (x ∷ xs) results calls).1
                ≡ (map_from operation c total left later (results ++ loaded) calls').1 =
              rw (e, map_from) in
            let room : length later ≤ left = omega (arith, length-drop-lt c x xs h) in
            step
            ∙ loop_lem c total left later (results ++ loaded) calls' h room
            ∙ both_assoc results loaded (load operation later)
            ∙ sym (ap (both (some results)) parts ∙ rw e)
      ]

  abbrev pub or_rejected : Option (List B) → Result BatchError (List B)
  or_rejected none = err rejected
  or_rejected (some ys) = ok ys

  settle_lem : (r : List (ℕ × ℕ) × Option (List B)) → (settle operation r).1 ≡ or_rejected r.1
  settle_lem (calls, none) = refl
  settle_lem (calls, some ys) = refl

  both_nil : (o : Option (List B)) → both (some []) o ≡ o
  both_nil none = refl
  both_nil (some ys) = refl

  pub require_lem :
      (value : ℕ) → is_safe value ≡ true → 1 ≤ value → require_concurrency value ≡ ok tt
  unfolding require_concurrency
  require_lem value s h = ground arith

  -- With a concurrency that is a positive safe integer, the batches give what one pass over all
  -- inputs gives: the results in the order of the inputs if every call succeeds, else a rejection.
  pub map_batches_in_order_lem :
      (concurrency : ℕ) (inputs : List A)
      → is_safe concurrency ≡ true
      → 1 ≤ concurrency
      → (map_batches_in_order operation concurrency inputs).1 ≡ or_rejected (load operation inputs)
  unfolding map_batches_in_order load
  map_batches_in_order_lem c [] s h = rw (require_lem c s h, map_batches_in_order)
  map_batches_in_order_lem c (x ∷ xs) s h =
      let n = length (x ∷ xs) in
      let loop = loop_lem c n n (x ∷ xs) [] [] h (omega arith) in
      let nonempty : eqb n 0 ≡ false = ground arith in
      rw (require_lem c s h, map_batches_in_order, nonempty)
        (settle_lem (map_from operation c n n (x ∷ xs) [] [])
          ∙ ap or_rejected (loop ∙ both_nil (load operation (x ∷ xs))))
