-- ===== src/Enrichment/State/Operations/Cursors.antt =====
-- The registry cursor, the output frontiers, the publication and the checkpoint sequence.
use xtap_pool.Base.{
  DateTimes, List, Text, [], arith, eq_bool, filter, is_sha256, length, max_safe, ok, refl, some,
  sym, true, ◌+◌, ◌<◌, ◌↔◌, ◌∙◌, ◌∷◌, ◌≡◌, ◌≢◌, ◌≤◌,
}
use xtap_pool.Enrichment.State.{
  Decision, Metadata, OutputFrontier, OutputKind, Outputs, Publication, Registry, State, approved,
  attempt, candidate, enrichment, frontier_ok, has_database, holds_database, metadata_ok,
  outputs_ok, publication_ok, receipt, registry, registry_ok, rejected,
}
use xtap_pool.Enrichment.State.Operations.{
  advance_output_frontier, advance_registry_cursor, advanced_outputs, advanced_registry, frontier,
  is_approved, is_rejected, set_frontier, set_publication_state, with_outputs, with_registry,
}
use xtap_pool.Enrichment.State.Validation.Exact.{
  IsWellFormed, validate_iff, validate_of_IsWellFormed,
}

-- No more decisions are counted than ordinals are passed.
abbrev pub IsAccounted : Registry → Type 0
IsAccounted r = r.approved + r.rejected ≤ r.next_ordinal

decisions_counted :
    (ds : List Decision)
    → length (filter is_approved ds) + length (filter is_rejected ds) ≤ length ds
unfolding is_approved is_rejected
decisions_counted [] = omega arith
decisions_counted (candidate ∷ ds) = omega (arith, decisions_counted ds)
decisions_counted (approved ∷ ds) = omega (arith, decisions_counted ds)
decisions_counted (rejected ∷ ds) = omega (arith, decisions_counted ds)

pub advanced_facts :
    (r : Registry) (ds : List Decision)
    → ((advanced_registry r ds).total ≡ r.total)
      × ((advanced_registry r ds).next_ordinal ≡ r.next_ordinal + length ds)
      × (IsAccounted r → IsAccounted (advanced_registry r ds))
unfolding advanced_registry
advanced_facts r ds = (refl, refl, λ h. omega (arith, decisions_counted ds))

pub frontier-set_self :
    (k : OutputKind) (f : OutputFrontier) (o : Outputs) → frontier k (set_frontier k f o) ≡ f
frontier-set_self enrichment f o = refl
frontier-set_self _ f o = refl

pub frontier-set_ne :
    (j k : OutputKind) (f : OutputFrontier) (o : Outputs)
    → j ≢ k
    → frontier j (set_frontier k f o) ≡ frontier j o
frontier-set_ne enrichment enrichment f o h = absurd (h refl)
frontier-set_ne attempt attempt f o h = absurd (h refl)
frontier-set_ne registry registry f o h = absurd (h refl)
frontier-set_ne receipt receipt f o h = absurd (h refl)
frontier-set_ne _ _ f o h = refl

-- No frontier moves back.
pub advanced_outputs-grow :
    (o : Outputs) (k : OutputKind) (chain : Text) (j : OutputKind)
    → (frontier j o).sequence ≤ (frontier j (advanced_outputs o k chain)).sequence
unfolding advanced_outputs
advanced_outputs-grow o enrichment chain enrichment = omega arith
advanced_outputs-grow o enrichment chain _ = omega arith
advanced_outputs-grow o attempt chain attempt = omega arith
advanced_outputs-grow o attempt chain _ = omega arith
advanced_outputs-grow o registry chain registry = omega arith
advanced_outputs-grow o registry chain _ = omega arith
advanced_outputs-grow o receipt chain receipt = omega arith
advanced_outputs-grow o receipt chain _ = omega arith

outputs_ok-set :
    (k : OutputKind) (f : OutputFrontier) (o : Outputs)
    → outputs_ok o ≡ true
    → frontier_ok f ≡ true
    → outputs_ok (set_frontier k f o) ≡ true
unfolding outputs_ok
outputs_ok-set enrichment f o h p = ground arith
outputs_ok-set _ f o h p = ground arith

frontier_ok-next :
    (f : OutputFrontier) (chain : Text)
    → f.sequence < max_safe
    → is_sha256 chain ≡ true
    → frontier_ok (record { sequence = f.sequence + 1; chain_sha256 = some chain }) ≡ true
unfolding frontier_ok
frontier_ok-next f chain h k = ground arith

module _ ⦃d : DateTimes⦄ where
  advanced_schema :
      (m : Metadata) (ds : List Decision)
      → metadata_ok m ≡ true
      → IsAccounted m.registry
      → m.registry.next_ordinal + length ds ≤ m.registry.total
      → metadata_ok (record m { registry = advanced_registry m.registry ds }) ≡ true
  unfolding metadata_ok registry_ok advanced_registry
  advanced_schema m ds h a le = ground (arith, decisions_counted ds)

  -- From a well-formed state whose decision counts the cursor covers, decisions that fit the frozen
  -- plan are taken: the cursor moves by their number, the result is well formed, its counts are
  -- covered again, and the queue and the bitmap stay.
  pub advance_registry_cursor_total :
      (s : State) (ds : List Decision)
      → IsWellFormed s
      → IsAccounted s.registry
      → s.registry.next_ordinal + length ds ≤ s.registry.total
      → (t : State) × (advance_registry_cursor s ds ≡ ok t)
        × IsWellFormed t
        × (t.registry.next_ordinal ≡ s.registry.next_ordinal + length ds)
        × IsAccounted t.registry
        × (t.queue ≡ s.queue)
        × (t.completed_bitmap ≡ s.completed_bitmap)
  unfolding advance_registry_cursor
  advance_registry_cursor_total s ds w a le =
      let (total, next, counted) = advanced_facts s.registry ds in
      let w' : IsWellFormed (with_registry s (advanced_registry s.registry ds)) = record {
        schema = advanced_schema s.metadata ds w.schema a le;
        bytes = w.bytes;
        bitmap_length = w.bitmap_length;
        counted = w.counted;
        retrying_open = w.retrying_open;
        blocked_open = w.blocked_open;
        unresolved_once = w.unresolved_once;
        cursor = rw (total, next) le;
        published = w.published;
      } in
      (
        with_registry s (advanced_registry s.registry ds),
        ground (arith, validate_of_IsWellFormed _ w'),
        w',
        next,
        counted a,
        refl,
        refl,
      )

  advanced_outputs_schema :
      (m : Metadata) (k : OutputKind) (chain : Text)
      → metadata_ok m ≡ true
      → (frontier k m.outputs).sequence < max_safe
      → is_sha256 chain ≡ true
      → metadata_ok (record m { outputs = advanced_outputs m.outputs k chain }) ≡ true
  unfolding metadata_ok advanced_outputs
  advanced_outputs_schema m k chain h lt p = ground (
    arith,
    outputs_ok-set k
        (record { sequence = (frontier k m.outputs).sequence + 1; chain_sha256 = some chain })
        m.outputs,
    frontier_ok-next (frontier k m.outputs) chain lt p,
  )

  -- On a well-formed state whose frontier of the kind is below the largest safe integer, a digest
  -- moves the frontier of its kind by one and becomes its chain hash; the other kinds, the queue and
  -- the bitmap stay.
  pub advance_output_frontier_total :
      (s : State) (k : OutputKind) (chain : Text)
      → IsWellFormed s
      → (frontier k s.outputs).sequence < max_safe
      → is_sha256 chain ≡ true
      → (t : State) × (advance_output_frontier s k chain ≡ ok t)
        × IsWellFormed t
        × (t.outputs
            ≡ set_frontier k
                (record {
                  sequence = (frontier k s.outputs).sequence + 1;
                  chain_sha256 = some chain;
                })
                s.outputs)
        × (t.queue ≡ s.queue)
        × (t.completed_bitmap ≡ s.completed_bitmap)
  unfolding advance_output_frontier advanced_outputs
  advance_output_frontier_total s k chain w lt p =
      let w' : IsWellFormed (with_outputs s (advanced_outputs s.outputs k chain)) = record {
        schema = advanced_outputs_schema s.metadata k chain w.schema lt p;
        bytes = w.bytes;
        bitmap_length = w.bitmap_length;
        counted = w.counted;
        retrying_open = w.retrying_open;
        blocked_open = w.blocked_open;
        unresolved_once = w.unresolved_once;
        cursor = w.cursor;
        published = w.published;
      } in
      (
        with_outputs s (advanced_outputs s.outputs k chain),
        rw p (validate_of_IsWellFormed _ w'),
        w',
        refl,
        refl,
        refl,
      )

  published_schema :
      (m : Metadata) (p : Publication)
      → metadata_ok m ≡ true
      → metadata_ok (record m { publication = p }) ≡ publication_ok p
  unfolding metadata_ok
  published_schema m p h = ground arith

  -- From a well-formed state a publication is taken exactly if its fields have the schema's shape
  -- and a database is named in the states that have one, and in no other; then nothing else changes.
  pub set_publication_state_iff :
      (s t : State) (p : Publication)
      → IsWellFormed s
      → (set_publication_state s p ≡ ok t) ↔ (
          (publication_ok p ≡ true)
          × (eq_bool (holds_database p.state) (has_database p) ≡ true)
          × (t ≡ record s { metadata = record s.metadata { publication = p } }))
  unfolding set_publication_state
  set_publication_state_iff s t p w =
      let s' : State = record s { metadata = record s.metadata { publication = p } } in
      let (to, from) = validate_iff s' t w.bytes in
      (
        λ h.
            let (w', e) = to h in
            (sym (published_schema s.metadata p w.schema) ∙ w'.schema, w'.published, e),
        λ h. from (
          record {
            schema = published_schema s.metadata p w.schema ∙ h.0;
            bytes = w.bytes;
            bitmap_length = w.bitmap_length;
            counted = w.counted;
            retrying_open = w.retrying_open;
            blocked_open = w.blocked_open;
            unresolved_once = w.unresolved_once;
            cursor = w.cursor;
            published = h.1;
          },
          h.2,
        ),
      )
