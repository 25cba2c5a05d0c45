-- ===== src/Enrichment/State/Operations/Attempts.antt =====
-- `recordQueueAttempt`: an attempt that did not complete its ordinal.
use mathlib.Core.List.{map-append}
use xtap_pool.Base.{
  All-append, All-filter, All-sort, Bool, DateTimes, List, [], all, all-append, all-filter,
  all-sort, arith, contains, contains-append, contains-filter, contains-sort, disjoint, disjoint_of,
  eqb, err, false, filter, leb, map, map-filter, map-sort, nat_eq, not, not_contains_of_disjoint,
  ok, refl, sort, text_eq, true, unique, unique-append, unique-filter, unique-sort, unique-swap, ℕ,
  ◌&&◌, ◌++◌, ◌<◌, ◌||◌, ◌∙◌, ◌∷◌, ◌≡◌,
}
use xtap_pool.Enrichment.Bitmap.{is_completed}
use xtap_pool.Enrichment.State.{
  BlockedRecord, Metadata, Queue, RetryRecord, State, blocked_ok, blocked_ordinals,
  completed_attempt, in_plan, metadata_ok, ordinal_outside, queue_ok, retry_ok, retry_ordinals,
}
use xtap_pool.Enrichment.State.Operations.{
  Attempt, attempt_ordinal, attempted_queue, block, record_queue_attempt, replace_ordinal, retry,
  with_queue,
}
use xtap_pool.Enrichment.State.Operations.Kept.{
  IsRecorded, SameBesidesQueue, attempted-SameBesidesQueue, attempted_queue-IsRecorded,
}
use xtap_pool.Enrichment.State.Validation.Unresolved.{AreOpen}
use xtap_pool.Enrichment.State.Validation.Exact.{IsWellFormed, validate_of_IsWellFormed}

abbrev others : ℕ → List ℕ → List ℕ
others o = filter (λ x. not (eqb x o))

-- The ordinals of the list that receives the attempt.
abbrev received : ℕ → List ℕ → List ℕ
received o xs = sort leb (others o xs ++ o ∷ [])

contains-others :
    (o : ℕ) (xs : List ℕ) (a : ℕ) → contains (others o xs) a ≡ (not (eqb a o) && contains xs a)
contains-others o xs a = contains-filter (λ x. not (eqb x o)) xs a

contains-received :
    (o : ℕ) (xs : List ℕ) (a : ℕ) → contains (received o xs) a ≡ (eqb a o || contains xs a)
contains-received o xs a =
    contains-sort leb (others o xs ++ o ∷ []) a
    ∙ ground (arith, contains-append (others o xs) (o ∷ []) a, contains-others o xs a)

unique-received : (o : ℕ) (xs : List ℕ) → unique xs ≡ true → unique (received o xs) ≡ true
unique-received o xs h = unique-sort leb (others o xs ++ o ∷ []) (
    ground (
      arith,
      unique-append (others o xs) (o ∷ []),
      unique-filter (λ x. not (eqb x o)) xs,
      contains-others o xs o,
    ))

unique-moved :
    (o : ℕ) (xs ys : List ℕ)
    → unique (xs ++ ys) ≡ true
    → unique (received o xs ++ others o ys) ≡ true
unique-moved o xs ys h =
    let parts = unique-append xs ys in
    let apart : disjoint (received o xs) (others o ys) ≡ true =
      disjoint_of (received o xs) (others o ys) (λ y k. ground (
        arith,
        contains-received o xs y,
        contains-others o ys y,
        not_contains_of_disjoint xs ys y,
      )) in
    ground (
      arith,
      unique-append (received o xs) (others o ys),
      unique-received o xs,
      unique-filter (λ x. not (eqb x o)) ys,
    )

AreOpen-received :
    (bm : List ℕ) (total o : ℕ) (xs : List ℕ)
    → AreOpen bm total xs
    → o < total
    → is_completed bm o ≡ false
    → AreOpen bm total (received o xs)
AreOpen-received bm total o xs h lt new =
    All-sort leb _ (others o xs ++ o ∷ [])
      (All-append _ (others o xs) (o ∷ []) (All-filter _ (λ x. not (eqb x o)) xs h) ((lt, new), tt))

received_ordinals {ℓ} :
    {A : Type ℓ} (f : A → ℕ) (xs : List A) (v : A)
    → map f (replace_ordinal f xs v) ≡ received (f v) (map f xs)
unfolding replace_ordinal
received_ordinals f xs v =
    map-sort leb f (filter (λ r. not (eqb (f r) (f v))) xs ++ v ∷ [])
    ∙ rw (map-append f, map-filter f (λ x. not (eqb x (f v))) xs)

-- Where the ordinals of the two lists go.
abbrev pub moved_retries : Attempt → List ℕ → List ℕ
moved_retries (retry v) = received v.ordinal
moved_retries (block v) = others v.ordinal

abbrev pub moved_blocks : Attempt → List ℕ → List ℕ
moved_blocks (retry v) = others v.ordinal
moved_blocks (block v) = received v.ordinal

attempted_retry_ordinals :
    (q : Queue) (a : Attempt)
    → retry_ordinals (attempted_queue q a) ≡ moved_retries a (retry_ordinals q)
unfolding attempted_queue
attempted_retry_ordinals q (retry v) =
    received_ordinals (λ (r : RetryRecord). r.ordinal) q.retrying v
attempted_retry_ordinals q (block v) = map-filter (λ (r : RetryRecord). r.ordinal) _ q.retrying

attempted_blocked_ordinals :
    (q : Queue) (a : Attempt)
    → blocked_ordinals (attempted_queue q a) ≡ moved_blocks a (blocked_ordinals q)
unfolding attempted_queue
attempted_blocked_ordinals q (retry v) = map-filter (λ (r : BlockedRecord). r.ordinal) _ q.blocked
attempted_blocked_ordinals q (block v) =
    received_ordinals (λ (r : BlockedRecord). r.ordinal) q.blocked v

pub attempted_counts :
    (q : Queue) (a : Attempt)
    → ((attempted_queue q a).total ≡ q.total) × ((attempted_queue q a).done ≡ q.done)
unfolding attempted_queue
attempted_counts q (retry v) = (refl, refl)
attempted_counts q (block v) = (refl, refl)

unique-attempted :
    (a : Attempt) (xs ys : List ℕ)
    → unique (xs ++ ys) ≡ true
    → unique (moved_retries a xs ++ moved_blocks a ys) ≡ true
unique-attempted (retry v) xs ys h = unique-moved v.ordinal xs ys h
unique-attempted (block v) xs ys h =
    unique-swap (received v.ordinal ys) (others v.ordinal xs)
      (unique-moved v.ordinal ys xs (unique-swap xs ys h))

module _ (bm : List ℕ) (total : ℕ) where
  AreOpen-retries :
      (a : Attempt) (xs : List ℕ)
      → AreOpen bm total xs
      → attempt_ordinal a < total
      → is_completed bm (attempt_ordinal a) ≡ false
      → AreOpen bm total (moved_retries a xs)
  AreOpen-retries (retry v) xs h lt new = AreOpen-received bm total v.ordinal xs h lt new
  AreOpen-retries (block v) xs h lt new = All-filter _ _ xs h

  AreOpen-blocks :
      (a : Attempt) (xs : List ℕ)
      → AreOpen bm total xs
      → attempt_ordinal a < total
      → is_completed bm (attempt_ordinal a) ≡ false
      → AreOpen bm total (moved_blocks a xs)
  AreOpen-blocks (retry v) xs h lt new = All-filter _ _ xs h
  AreOpen-blocks (block v) xs h lt new = AreOpen-received bm total v.ordinal xs h lt new

module _ ⦃d : DateTimes⦄ where
  -- The attempt's record has the shape that the schema asks of its list.
  abbrev pub attempt_ok : Attempt → Bool
  attempt_ok (retry r) = retry_ok r
  attempt_ok (block r) = blocked_ok r

  all-replaced {ℓ} :
      {A : Type ℓ} (f : A → ℕ) (q : A → Bool) (xs : List A) (v : A)
      → all q xs ≡ true
      → q v ≡ true
      → all q (replace_ordinal f xs v) ≡ true
  unfolding replace_ordinal
  all-replaced f q xs v h k =
      let kept = filter (λ r. not (eqb (f r) (f v))) xs in
      all-sort _ q (kept ++ v ∷ [])
      ∙ ground (arith, all-append q kept (v ∷ []), all-filter q (λ r. not (eqb (f r) (f v))) xs h)

  attempted_schema :
      (m : Metadata) (a : Attempt)
      → metadata_ok m ≡ true
      → attempt_ok a ≡ true
      → metadata_ok (record m { queue = attempted_queue m.queue a }) ≡ true
  unfolding metadata_ok queue_ok attempted_queue
  attempted_schema m (retry v) h k = ground (
    arith,
    all-replaced (λ (r : RetryRecord). r.ordinal) retry_ok m.queue.retrying v,
    all-filter blocked_ok (λ (r : BlockedRecord). not (eqb r.ordinal v.ordinal)) m.queue.blocked,
  )
  attempted_schema m (block v) h k = ground (
    arith,
    all-replaced (λ (r : BlockedRecord). r.ordinal) blocked_ok m.queue.blocked v,
    all-filter retry_ok (λ (r : RetryRecord). not (eqb r.ordinal v.ordinal)) m.queue.retrying,
  )

  attempted-IsWellFormed :
      (s : State) (a : Attempt)
      → IsWellFormed s
      → attempt_ok a ≡ true
      → attempt_ordinal a < s.queue.total
      → is_completed s.completed_bitmap (attempt_ordinal a) ≡ false
      → IsWellFormed (with_queue s (attempted_queue s.queue a))
  attempted-IsWellFormed s a w k lt new =
      let (total, done) = attempted_counts s.queue a in
      record {
        schema = attempted_schema s.metadata a w.schema k;
        bytes = w.bytes;
        bitmap_length = rw total w.bitmap_length;
        counted = rw (total, done) w.counted;
        retrying_open =
            rw (total, attempted_retry_ordinals s.queue a)
              (AreOpen-retries s.completed_bitmap s.queue.total a _ w.retrying_open lt new);
        blocked_open =
            rw (total, attempted_blocked_ordinals s.queue a)
              (AreOpen-blocks s.completed_bitmap s.queue.total a _ w.blocked_open lt new);
        unresolved_once =
            rw (attempted_retry_ordinals s.queue a, attempted_blocked_ordinals s.queue a)
              (unique-attempted a (retry_ordinals s.queue) (blocked_ordinals s.queue)
                w.unresolved_once);
        cursor = w.cursor;
        published = w.published;
      }

  -- From a well-formed state an attempt whose record passes the schema, at an ordinal of the plan
  -- that is not completed, is recorded: the result is well formed, the record itself is in the list
  -- of its kind, no other record of its ordinal is in either list, the records of the other ordinals
  -- stay as they are, the list that receives it is in the order of the ordinals, and all but the two
  -- lists stays.
  pub record_queue_attempt_total :
      (s : State) (a : Attempt)
      → IsWellFormed s
      → attempt_ok a ≡ true
      → in_plan (attempt_ordinal a) s.queue.total ≡ true
      → is_completed s.completed_bitmap (attempt_ordinal a) ≡ false
      → (t : State) × (record_queue_attempt s a ≡ ok t)
        × IsWellFormed t
        × IsRecorded a s.queue t.queue
        × (retry_ordinals t.queue ≡ moved_retries a (retry_ordinals s.queue))
        × (blocked_ordinals t.queue ≡ moved_blocks a (blocked_ordinals s.queue))
        × (t.completed_bitmap ≡ s.completed_bitmap)
        × (t.queue.total ≡ s.queue.total)
        × (t.queue.done ≡ s.queue.done)
        × SameBesidesQueue s t
  unfolding record_queue_attempt
  record_queue_attempt_total s a w k within new =
      let w' = attempted-IsWellFormed s a w k (ground arith) new in
      let (total, done) = attempted_counts s.queue a in
      (
        with_queue s (attempted_queue s.queue a),
        rw (within, new) (validate_of_IsWellFormed _ w'),
        w',
        attempted_queue-IsRecorded s.queue a,
        attempted_retry_ordinals s.queue a,
        attempted_blocked_ordinals s.queue a,
        refl,
        total,
        done,
        attempted-SameBesidesQueue s (attempted_queue s.queue a),
      )

  -- An attempt at an ordinal outside the plan, or at a completed one, is refused.
  pub record_queue_attempt_refused :
      (s : State) (a : Attempt)
      → (in_plan (attempt_ordinal a) s.queue.total ≡ false
          → record_queue_attempt s a ≡ err ordinal_outside)
        × (in_plan (attempt_ordinal a) s.queue.total ≡ true
            → is_completed s.completed_bitmap (attempt_ordinal a) ≡ true
            → record_queue_attempt s a ≡ err completed_attempt)
  unfolding record_queue_attempt
  record_queue_attempt_refused s a = (λ h. rw h, λ h k. rw (h, k))
