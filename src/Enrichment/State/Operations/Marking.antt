-- ===== src/Enrichment/State/Operations/Marking.antt =====
-- `markQueueCompleted`: which inputs it takes, and what it changes.
use xtap_pool.Base.{
  All, Bool-cases, DateTimes, List, [], all, all-filter, arith, contains, eqb_iff, err, false,
  filter, filter-append, inl, inr, is_safe, length, map-filter, nat_eq, not, ok, refl, text_eq,
  true, unique-filter, ℕ, ◌++◌, ◌+◌, ◌/◌, ◌<◌, ◌||◌, ◌∙◌, ◌∷◌, ◌≡◌, ◌≤◌,
}
use xtap_pool.Enrichment.Bitmap.{IsBytes, bitmap_bytes, is_completed, set_completed}
use xtap_pool.Enrichment.Bitmap.Laws.{
  bitmap_bytes-room, completed_below, completed_below-le, completed_below-set_completed,
  is_completed-set_completed, length-set_completed, set_completed-IsBytes,
}
use xtap_pool.Enrichment.State.{
  BlockedRecord, Metadata, Queue, RetryRecord, State, blocked_ok, blocked_ordinals, in_plan,
  metadata_ok, ordinal_outside, queue_ok, retry_ok, retry_ordinals,
}
use xtap_pool.Enrichment.State.Operations.{
  mark_from, mark_queue_completed, marked_queue, marked_state,
}
use xtap_pool.Enrichment.State.Operations.Kept.{SameBesidesQueue, marked-SameBesidesQueue}
use xtap_pool.Enrichment.State.Validation.Unresolved.{AreOpen}
use xtap_pool.Enrichment.State.Validation.Exact.{
  IsWellFormed, metadata_ok-total, validate_of_IsWellFormed,
}

-- A bitmap of the plan whose count is `done`.
pub record IsCounted (total : ℕ) (bm : List ℕ) (done : ℕ) : Type 0 where
  pub bytes : IsBytes bm
  pub bitmap_length : length bm ≡ bitmap_bytes total
  pub counted : completed_below bm total ≡ done

-- The bitmap `bm'` completes the listed ordinals besides those that `bm` completes.
abbrev pub Completes : List ℕ → List ℕ → List ℕ → Type 0
Completes os bm bm' = (p : ℕ) → is_completed bm' p ≡ (is_completed bm p || contains os p)

abbrev pub InPlan : ℕ → List ℕ → Type 0
InPlan total = All (λ o. o < total)

pub set-IsCounted :
    (total : ℕ) (bm : List ℕ) (done o : ℕ)
    → IsCounted total bm done
    → o < total
    → is_completed bm o ≡ false
    → IsCounted total (set_completed bm o) (done + 1)
set-IsCounted total bm done o c lt new =
    let room : o / 8 < length bm = rw c.bitmap_length (bitmap_bytes-room o total lt) in
    record {
      bytes = set_completed-IsBytes bm o c.bytes;
      bitmap_length = length-set_completed bm o ∙ c.bitmap_length;
      counted =
          omega (arith, completed_below-set_completed bm o total c.bytes room lt new, c.counted);
    }

mark_from_total :
    (total : ℕ) (os bm : List ℕ) (done : ℕ)
    → is_safe total ≡ true
    → IsCounted total bm done
    → InPlan total os
    → (bm' : List ℕ) × (done' : ℕ) × (mark_from total os bm done ≡ ok (bm', done'))
      × IsCounted total bm' done'
      × Completes os bm bm'
unfolding mark_from
mark_from_total total [] bm done small c h = (bm, done, refl, c, λ p. ground arith)
mark_from_total total (o ∷ os) bm done small c h = elim (Bool-cases (is_completed bm o)) [
  | inl old ↦
      let (bm', done', run, c', all_) = mark_from_total total os bm done small c h.1 in
      (bm', done', ground arith, c', λ p. ground (arith, all_ p, eqb_iff o p))
  | inr new ↦
      let room : o / 8 < length bm = rw c.bitmap_length (bitmap_bytes-room o total h.0) in
      let (bm', done', run, c', all_) =
        mark_from_total total os (set_completed bm o) (done + 1) small
          (set-IsCounted total bm done o c h.0 new) h.1 in
      (
        bm',
        done',
        ground arith,
        c',
        λ p. ground (arith, all_ p, is_completed-set_completed bm o p c.bytes room),
      )
]

-- One ordinal outside the plan stops the loop.
mark_from_outside :
    (total : ℕ) (os bm : List ℕ) (done : ℕ)
    → is_safe total ≡ true
    → all (λ o. in_plan o total) os ≡ false
    → mark_from total os bm done ≡ err ordinal_outside
unfolding mark_from
mark_from_outside total [] bm done small h = cc
mark_from_outside total (o ∷ os) bm done small h = ground (
  arith,
  mark_from_outside total os bm done small,
  mark_from_outside total os (set_completed bm o) (done + 1) small,
)

-- Records whose ordinal is not completed now stay open.
filter-AreOpen :
    (bm bm' os : List ℕ) (total : ℕ) (xs : List ℕ)
    → Completes os bm bm'
    → AreOpen bm total xs
    → AreOpen bm' total (filter (λ o. not (contains os o)) xs)
filter-AreOpen bm bm' os total [] c h = tt
filter-AreOpen bm bm' os total (x ∷ xs) c h =
    ground (arith, filter-AreOpen bm bm' os total xs c h.1, c x)

marked_retry_ordinals :
    (q : Queue) (os : List ℕ) (done : ℕ)
    → retry_ordinals (marked_queue q os done) ≡ filter (λ o. not (contains os o)) (retry_ordinals q)
unfolding marked_queue
marked_retry_ordinals q os done = map-filter (λ (r : RetryRecord). r.ordinal) _ q.retrying

marked_blocked_ordinals :
    (q : Queue) (os : List ℕ) (done : ℕ)
    → blocked_ordinals (marked_queue q os done)
      ≡ filter (λ o. not (contains os o)) (blocked_ordinals q)
unfolding marked_queue
marked_blocked_ordinals q os done = map-filter (λ (r : BlockedRecord). r.ordinal) _ q.blocked

marked_total : (q : Queue) (os : List ℕ) (done : ℕ) → (marked_queue q os done).total ≡ q.total
unfolding marked_queue
marked_total q os done = refl

marked_done : (q : Queue) (os : List ℕ) (done : ℕ) → (marked_queue q os done).done ≡ done
unfolding marked_queue
marked_done q os done = refl

marked_records :
    (q : Queue) (os : List ℕ) (done : ℕ)
    → ((marked_queue q os done).retrying ≡ filter (λ r. not (contains os r.ordinal)) q.retrying)
      × ((marked_queue q os done).blocked ≡ filter (λ r. not (contains os r.ordinal)) q.blocked)
unfolding marked_queue
marked_records q os done = (refl, refl)

module _ ⦃d : DateTimes⦄ where
  marked_schema :
      (m : Metadata) (os : List ℕ) (done : ℕ)
      → metadata_ok m ≡ true
      → done ≤ m.queue.total
      → metadata_ok (record m { queue = marked_queue m.queue os done }) ≡ true
  unfolding metadata_ok queue_ok marked_queue
  marked_schema m os done h le = ground (
    arith,
    all-filter retry_ok (λ (r : RetryRecord). not (contains os r.ordinal)) m.queue.retrying,
    all-filter blocked_ok (λ (r : BlockedRecord). not (contains os r.ordinal)) m.queue.blocked,
  )

  marked_state-IsWellFormed :
      (s : State) (os bm' : List ℕ) (done' : ℕ)
      → IsWellFormed s
      → IsCounted s.queue.total bm' done'
      → Completes os s.completed_bitmap bm'
      → IsWellFormed (marked_state s os bm' done')
  unfolding marked_queue
  marked_state-IsWellFormed s os bm' done' w c all_ = record {
    schema =
        marked_schema s.metadata os done' w.schema
          (omega (arith, completed_below-le bm' s.queue.total, c.counted));
    bytes = c.bytes;
    bitmap_length = c.bitmap_length;
    counted = c.counted;
    retrying_open =
        rw (marked_retry_ordinals s.queue os done')
          (filter-AreOpen s.completed_bitmap bm' os s.queue.total _ all_ w.retrying_open);
    blocked_open =
        rw (marked_blocked_ordinals s.queue os done')
          (filter-AreOpen s.completed_bitmap bm' os s.queue.total _ all_ w.blocked_open);
    unresolved_once =
        rw
          (
            marked_retry_ordinals s.queue os done',
            marked_blocked_ordinals s.queue os done',
            ← filter-append (λ o. not (contains os o)) (retry_ordinals s.queue)
                (blocked_ordinals s.queue),
          )
          (unique-filter _ (retry_ordinals s.queue ++ blocked_ordinals s.queue) w.unresolved_once);
    cursor = w.cursor;
    published = w.published;
  }

  -- From a well-formed state the operation takes every list of ordinals of the plan: it succeeds,
  -- the result is well formed, completes the listed ordinals besides the old ones and no other, and
  -- keeps the retrying and the blocked records of the other ordinals as they are, in their order. The
  -- identity of the run, the sequence, the total, the registry, the outputs and the publication stay.
  pub mark_queue_completed_total :
      (s : State) (os : List ℕ)
      → IsWellFormed s
      → InPlan s.queue.total os
      → (t : State) × (mark_queue_completed s os ≡ ok t)
        × IsWellFormed t
        × Completes os s.completed_bitmap t.completed_bitmap
        × (t.queue.total ≡ s.queue.total)
        × (t.queue.retrying ≡ filter (λ r. not (contains os r.ordinal)) s.queue.retrying)
        × (t.queue.blocked ≡ filter (λ r. not (contains os r.ordinal)) s.queue.blocked)
        × SameBesidesQueue s t
  unfolding mark_queue_completed
  mark_queue_completed_total s os w h =
      let c : IsCounted s.queue.total s.completed_bitmap s.queue.done = record {
        bytes = w.bytes;
        bitmap_length = w.bitmap_length;
        counted = w.counted;
      } in
      let (bm', done', run, c', all_) =
        mark_from_total s.queue.total os s.completed_bitmap s.queue.done
          (metadata_ok-total s.metadata w.schema) c h in
      let w' = marked_state-IsWellFormed s os bm' done' w c' all_ in
      let (retries, blocks) = marked_records s.queue os done' in
      (
        marked_state s os bm' done',
        rw run (validate_of_IsWellFormed _ w'),
        w',
        all_,
        marked_total s.queue os done',
        retries,
        blocks,
        marked-SameBesidesQueue s os bm' done',
      )

  -- From a well-formed state an ordinal outside the plan is refused, whatever else the list holds.
  pub mark_queue_completed_outside :
      (s : State) (os : List ℕ)
      → IsWellFormed s
      → all (λ o. in_plan o s.queue.total) os ≡ false
      → mark_queue_completed s os ≡ err ordinal_outside
  unfolding mark_queue_completed
  mark_queue_completed_outside s os w h = rw (
      mark_from_outside s.queue.total os s.completed_bitmap s.queue.done
        (metadata_ok-total s.metadata w.schema) h)
