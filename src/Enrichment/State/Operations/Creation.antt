-- ===== src/Enrichment/State/Operations/Creation.antt =====
-- `createEmptyEnrichmentState`: the state that a new run starts from.
use xtap_pool.Base.{
  All-replicate, Bool, DateTimes, List, arith, false, get_or-replicate, is_filled, is_safe,
  is_sha256, leb, length, length-replicate, ltb, ok, refl, replicate, suc, true, zero, ℕ, ◌&&◌, ◌+◌,
  ◌/◌, ◌<◌, ◌∙◌, ◌≡◌, ◌≢◌, ◌≤◌,
}
use xtap_pool.Enrichment.Bitmap.{bitmap_bytes, is_completed, set_completed}
use xtap_pool.Enrichment.Bitmap.Laws.{
  bitmap_bytes-room, completed_below, completed_below-none, is_completed-set_completed,
  is_completed_of_zero,
}
use xtap_pool.Enrichment.State.{
  State, frontier_ok, has_database, metadata_ok, outputs_ok, publication_ok, queue_ok, registry_ok,
}
use xtap_pool.Enrichment.State.Operations.{
  EmptyOptions, baseline_from, create_empty, empty_state, unpublished,
}
use xtap_pool.Enrichment.State.Operations.Marking.{IsCounted, set-IsCounted}
use xtap_pool.Enrichment.State.Validation.Exact.{IsWellFormed, validate_of_IsWellFormed}

is_completed-replicate : (n p : ℕ) → is_completed (replicate n 0) p ≡ false
is_completed-replicate n p = is_completed_of_zero (replicate n 0) p (get_or-replicate n (p / 8) 0)

completed_below-replicate : (n k : ℕ) → completed_below (replicate n 0) k ≡ 0
completed_below-replicate n k =
    completed_below-none (replicate n 0) k (λ p. is_completed-replicate n p)

baseline_from_lem :
    (total left ordinal : ℕ) (bm : List ℕ) (done : ℕ)
    → IsCounted total bm done
    → ordinal + left ≤ total
    → ((p : ℕ) → is_completed bm p ≡ ltb p ordinal)
    → IsCounted total (baseline_from left ordinal bm) (done + left)
      × ((p : ℕ) → is_completed (baseline_from left ordinal bm) p ≡ ltb p (ordinal + left))
unfolding baseline_from
baseline_from_lem total zero ordinal bm done c le h =
    let e : done + 0 ≡ done = omega arith in
    let f : ordinal + 0 ≡ ordinal = omega arith in (rw e c, λ p. rw f (h p))
baseline_from_lem total (suc left) ordinal bm done c le h =
    let lt : ordinal < total = omega arith in
    let new : is_completed bm ordinal ≡ false = h ordinal ∙ ground arith in
    let room : ordinal / 8 < length bm = rw c.bitmap_length (bitmap_bytes-room ordinal total lt) in
    let e : done + suc left ≡ (done + 1) + left = omega arith in
    let f : ordinal + suc left ≡ (ordinal + 1) + left = omega arith in
    rw (e, f)
      (baseline_from_lem total left (ordinal + 1) (set_completed bm ordinal) (done + 1)
        (set-IsCounted total bm done ordinal c lt new) (omega arith)
        (λ p. ground (arith, is_completed-set_completed bm ordinal p c.bytes room, h p)))

module _ ⦃d : DateTimes⦄ where
  -- The options that the operation takes, one test for each of its throws.
  abbrev pub options_ok : EmptyOptions → Bool
  options_ok o =
      is_safe o.queue_total
      && is_safe o.queue_baseline_done
      && is_safe o.registry_total
      && is_safe o.registry_baseline_scanned
      && leb o.queue_baseline_done o.queue_total
      && leb o.registry_baseline_scanned o.registry_total

  empty_schema :
      (o : EmptyOptions)
      → options_ok o ≡ true
      → is_filled o.run_id ≡ true
      → is_sha256 o.plan_sha256 ≡ true
      → metadata_ok (empty_state o).metadata ≡ true
  unfolding metadata_ok queue_ok registry_ok outputs_ok frontier_ok publication_ok empty_state
  empty_schema o h r p = ground arith

  empty_state-IsWellFormed :
      (o : EmptyOptions)
      → metadata_ok (empty_state o).metadata ≡ true
      → IsCounted o.queue_total (empty_state o).completed_bitmap o.queue_baseline_done
      → o.registry_baseline_scanned ≤ o.registry_total
      → IsWellFormed (empty_state o)
  unfolding empty_state has_database
  empty_state-IsWellFormed o schema c le = record {
    schema = schema;
    bytes = c.bytes;
    bitmap_length = c.bitmap_length;
    counted = c.counted;
    retrying_open = tt;
    blocked_open = tt;
    unresolved_once = refl;
    cursor = le;
    published = refl;
  }

  empty_bitmap :
      (o : EmptyOptions)
      → o.queue_baseline_done ≤ o.queue_total
      → IsCounted o.queue_total (empty_state o).completed_bitmap o.queue_baseline_done
        × ((p : ℕ) → is_completed (empty_state o).completed_bitmap p ≡ ltb p o.queue_baseline_done)
  unfolding empty_state
  empty_bitmap o le =
      let zeros : List ℕ = replicate (bitmap_bytes o.queue_total) 0 in
      let start : IsCounted o.queue_total zeros 0 = record {
        bytes = All-replicate _ (bitmap_bytes o.queue_total) 0 (omega arith);
        bitmap_length = length-replicate (bitmap_bytes o.queue_total) 0;
        counted = completed_below-replicate (bitmap_bytes o.queue_total) o.queue_total;
      } in
      let e : 0 + o.queue_baseline_done ≡ o.queue_baseline_done = omega arith in
      rw e at (
        baseline_from_lem o.queue_total o.queue_baseline_done 0 zeros 0 start (omega arith)
          (λ p. is_completed-replicate (bitmap_bytes o.queue_total) p ∙ ground arith))

  -- Counts that pass the tests, a run ID and a plan digest of the right shape give a well-formed
  -- state in which exactly the ordinals below the baseline are completed.
  pub create_empty_total :
      (o : EmptyOptions)
      → options_ok o ≡ true
      → is_filled o.run_id ≡ true
      → is_sha256 o.plan_sha256 ≡ true
      → (t : State) × (create_empty o ≡ ok t)
        × IsWellFormed t
        × ((p : ℕ) → is_completed t.completed_bitmap p ≡ ltb p o.queue_baseline_done)
        × (t.queue.done ≡ o.queue_baseline_done)
        × (t.registry.next_ordinal ≡ o.registry_baseline_scanned)
        × (t.publication ≡ unpublished)
  unfolding create_empty empty_state
  create_empty_total o h r p =
      let (c, bits) = empty_bitmap o (ground arith) in
      let w = empty_state-IsWellFormed o (empty_schema o h r p) c (ground arith) in
      (
        empty_state o,
        ground (arith, validate_of_IsWellFormed (empty_state o) w),
        w,
        bits,
        refl,
        refl,
        refl,
      )

  -- Counts that fail a test give an error, and no state.
  pub create_empty_refused :
      (o : EmptyOptions) (t : State) → options_ok o ≡ false → create_empty o ≢ ok t
  unfolding create_empty
  create_empty_refused o t h = ground arith
