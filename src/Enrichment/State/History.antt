-- ===== src/Enrichment/State/History.antt =====
-- Sequences of operations on a checkpoint state, each kept only if it succeeds.
use xtap_pool.Base.{
  Bool-cases, DateTimes, List, Result, Result-cases, Text, [], all, ap, arith, err, guard-eq-ok,
  inl, inr, is_safe, is_sha256, leb, length, not, ok, refl, true, ℕ, ◌+◌, ◌∙◌, ◌∷◌, ◌≡◌, ◌≤◌,
}
use xtap_pool.Enrichment.Bitmap.{is_completed}
use xtap_pool.Enrichment.Bitmap.Laws.{completed_below_mono}
use xtap_pool.Enrichment.State.Operations.Cursors.{advanced_facts, advanced_outputs-grow}
use xtap_pool.Enrichment.State.{
  Decision, OutputKind, Publication, Queue, Registry, State, StateError, in_plan,
}
use xtap_pool.Enrichment.State.Operations.{
  Attempt, advance_output_frontier, advance_registry_cursor, advanced_outputs, advanced_registry,
  attempt_ordinal, attempted_queue, frontier, mark_queue_completed, record_queue_attempt,
  set_publication_state, with_checkpoint_sequence, with_outputs, with_queue, with_registry,
}
use xtap_pool.Enrichment.State.Operations.Marking.{
  InPlan, mark_queue_completed_outside, mark_queue_completed_total,
}
use xtap_pool.Enrichment.State.Operations.Attempts.{attempted_counts}
use xtap_pool.Enrichment.State.Validation.{validate}
use xtap_pool.Enrichment.State.Validation.Exact.{IsWellFormed, validate_iff}

pub data Operation : Type 0 where
  mark : List ℕ → Operation
  attempted : Attempt → Operation
  decide_next : List Decision → Operation
  publish : Publication → Operation
  output : OutputKind → Text → Operation
  renumber : ℕ → Operation

-- What later states never lose: the plan's totals, completions, and the progress of each cursor.
pub record Extends (s t : State) : Type 0 where
  pub queue_total : t.queue.total ≡ s.queue.total
  pub registry_total : t.registry.total ≡ s.registry.total
  pub completions :
      (p : ℕ) → is_completed s.completed_bitmap p ≡ true → is_completed t.completed_bitmap p ≡ true
  pub cursor : s.registry.next_ordinal ≤ t.registry.next_ordinal
  pub frontiers :
      (k : OutputKind) → (frontier k s.outputs).sequence ≤ (frontier k t.outputs).sequence

Extends-refl : (s : State) → Extends s s
Extends-refl s = record {
  queue_total = refl;
  registry_total = refl;
  completions = λ p h. h;
  cursor = omega arith;
  frontiers = λ k. omega arith;
}

Extends-trans : {s t u : State} → Extends s t → Extends t u → Extends s u
Extends-trans a b = record {
  queue_total = b.queue_total ∙ a.queue_total;
  registry_total = b.registry_total ∙ a.registry_total;
  completions = λ p h. b.completions p (a.completions p h);
  cursor = omega arith;
  frontiers = λ k. omega (arith, a.frontiers k, b.frontiers k);
}

module _ ⦃d : DateTimes⦄ where
  pub apply : State → Operation → Result StateError State
  apply s (mark os) = mark_queue_completed s os
  apply s (attempted a) = record_queue_attempt s a
  apply s (decide_next ds) = advance_registry_cursor s ds
  apply s (publish p) = set_publication_state s p
  apply s (output k chain) = advance_output_frontier s k chain
  apply s (renumber n) = with_checkpoint_sequence s n

  -- What an operation that succeeds gives.
  abbrev Keeps : State → State → Type 0
  Keeps s t = IsWellFormed t × Extends s t

  module _ (s t : State) (w : IsWellFormed s) where
    mark-Keeps : (os : List ℕ) → mark_queue_completed s os ≡ ok t → Keeps s t
    mark-Keeps os h = elim (Bool-cases (all (λ o. in_plan o s.queue.total) os)) [
      | inr out ↦ absurd (ground (arith, mark_queue_completed_outside s os w out))
      | inl within ↦
          let (u, run, w', bits, total, _, _, besides) =
            mark_queue_completed_total s os w (InPlan_of os within) in
          let e : t ≡ u = ground arith in
          rw e (
            w',
            record {
              queue_total = total;
              registry_total = ap (λ (r : Registry). r.total) besides.registry;
              completions = λ p k. ground (arith, bits p);
              cursor = rw besides.registry (omega arith);
              frontiers = λ k. rw besides.outputs (omega arith);
            },
          )
    ]
      where
        InPlan_of :
            (xs : List ℕ) → all (λ o. in_plan o s.queue.total) xs ≡ true → InPlan s.queue.total xs
        InPlan_of [] k = tt
        InPlan_of (x ∷ xs) k = (ground arith, InPlan_of xs (ground arith))

    attempt-Keeps : (a : Attempt) → record_queue_attempt s a ≡ ok t → Keeps s t
    unfolding record_queue_attempt
    attempt-Keeps a h =
        let q = with_queue s (attempted_queue s.queue a) in
        let (_, h₁) = guard-eq-ok (in_plan (attempt_ordinal a) s.queue.total) _ _ h in
        let (_, h₂) =
          guard-eq-ok (not (is_completed s.completed_bitmap (attempt_ordinal a))) _ (validate q)
            h₁ in
        let (w', e) = (validate_iff q t w.bytes).0 h₂ in
        rw e (
          w',
          record {
            queue_total = (attempted_counts s.queue a).0;
            registry_total = refl;
            completions = λ p k. k;
            cursor = omega arith;
            frontiers = λ k. omega arith;
          },
        )

    decide-Keeps : (ds : List Decision) → advance_registry_cursor s ds ≡ ok t → Keeps s t
    unfolding advance_registry_cursor
    decide-Keeps ds h =
        let r = with_registry s (advanced_registry s.registry ds) in
        let (total, next, _) = advanced_facts s.registry ds in
        let (_, h₁) =
          guard-eq-ok (leb (s.registry.next_ordinal + length ds) s.registry.total) _ (validate r)
            h in
        let (w', e) = (validate_iff r t w.bytes).0 h₁ in
        rw e (
          w',
          record {
            queue_total = refl;
            registry_total = total;
            completions = λ p k. k;
            cursor = omega (arith, next);
            frontiers = λ k. omega arith;
          },
        )

    output-Keeps :
        (k : OutputKind) (chain : Text) → advance_output_frontier s k chain ≡ ok t → Keeps s t
    unfolding advance_output_frontier
    output-Keeps k chain h =
        let o = with_outputs s (advanced_outputs s.outputs k chain) in
        let (_, h₁) = guard-eq-ok (is_sha256 chain) _ (validate o) h in
        let (w', e) = (validate_iff o t w.bytes).0 h₁ in
        rw e (
          w',
          record {
            queue_total = refl;
            registry_total = refl;
            completions = λ p c. c;
            cursor = omega arith;
            frontiers = advanced_outputs-grow s.outputs k chain;
          },
        )

    -- The publication and the sequence are no part of what states keep.
    metadata-Keeps :
        (u : State)
        → u.completed_bitmap ≡ s.completed_bitmap
        → u.queue ≡ s.queue
        → u.registry ≡ s.registry
        → u.outputs ≡ s.outputs
        → validate u ≡ ok t
        → Keeps s t
    metadata-Keeps u bits q r o h =
        let (w', e) = (validate_iff u t (rw bits w.bytes)).0 h in
        rw e (
          w',
          record {
            queue_total = ap (λ (q : Queue). q.total) q;
            registry_total = ap (λ (r : Registry). r.total) r;
            completions = λ p c. rw bits c;
            cursor = rw r (omega arith);
            frontiers = λ k. rw o (omega arith);
          },
        )

    publish-Keeps : (p : Publication) → set_publication_state s p ≡ ok t → Keeps s t
    unfolding set_publication_state
    publish-Keeps p h =
        metadata-Keeps (record s { metadata = record s.metadata { publication = p } }) refl refl
          refl refl h

    renumber-Keeps : (n : ℕ) → with_checkpoint_sequence s n ≡ ok t → Keeps s t
    unfolding with_checkpoint_sequence
    renumber-Keeps n h =
        let u : State = record s { metadata = record s.metadata { sequence = n } } in
        let (_, h₁) = guard-eq-ok (is_safe n) _ (validate u) h in
        metadata-Keeps u refl refl refl refl h₁

  -- An operation that succeeds on a well-formed state gives a well-formed state that extends it.
  pub apply-Keeps :
      (s t : State) (o : Operation)
      → IsWellFormed s
      → apply s o ≡ ok t
      → IsWellFormed t × Extends s t
  unfolding apply
  apply-Keeps s t (mark os) w h = mark-Keeps s t w os h
  apply-Keeps s t (attempted a) w h = attempt-Keeps s t w a h
  apply-Keeps s t (decide_next ds) w h = decide-Keeps s t w ds h
  apply-Keeps s t (publish p) w h = publish-Keeps s t w p h
  apply-Keeps s t (output k chain) w h = output-Keeps s t w k chain h
  apply-Keeps s t (renumber n) w h = renumber-Keeps s t w n h

  -- A caller keeps the old state where an operation throws.
  abbrev after : State → Result StateError State → State
  after s (ok t) = t
  after s (err e) = s

  unfoldable pub run : State → List Operation → State
  run s [] = s
  run s (o ∷ os) = run (after s (apply s o)) os

  after-Keeps : (s : State) (o : Operation) → IsWellFormed s → Keeps s (after s (apply s o))
  after-Keeps s o w = elim (Result-cases (apply s o)) [
    | inl (t, e) ↦ rw e (apply-Keeps s t o w e)
    | inr (x, e) ↦ rw e (w, Extends-refl s)
  ]

  -- Every sequence of operations, failed ones included, leads from a well-formed state to a
  -- well-formed state, and loses no completion and no progress on the way.
  pub run-Keeps :
      (s : State) (os : List Operation)
      → IsWellFormed s
      → IsWellFormed (run s os) × Extends s (run s os)
  unfolding run
  run-Keeps s [] w = (w, Extends-refl s)
  run-Keeps s (o ∷ os) w =
      let (w', first) = after-Keeps s o w in
      let (w'', later) = run-Keeps (after s (apply s o)) os w' in (w'', Extends-trans first later)

  -- From a well-formed state no sequence of operations lets the number of completed ordinals fall.
  pub run-done :
      (s : State) (os : List Operation) → IsWellFormed s → s.queue.done ≤ (run s os).queue.done
  run-done s os w =
      let (w', x) = run-Keeps s os w in
      let more =
        completed_below_mono s.completed_bitmap (run s os).completed_bitmap s.queue.total
          x.completions in
      let e = rw x.queue_total at w'.counted in omega (arith, more, w.counted, e)
