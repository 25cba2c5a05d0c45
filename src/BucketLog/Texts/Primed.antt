-- ===== src/BucketLog/Texts/Primed.antt =====
-- What a log answers whose text cache was filled from a snapshot.
use mathlib.Core.Path.{subst}
use xtap_pool.Base.{
  All, All-sort, AllPairs, Bool, Bool-cases, DateTimes, List, Option, Text, [], all, ap, arith,
  contains, eq_of_==, eqb, false, filter, get, get-put, get_of_absent, inl, inr, keys, leb, length,
  map, map-sort, nat_eq, none, ok, ok-injective, put, refl, returned, some, sort, sort_congr,
  sorted-sort, sym, text_eq, text_le, text_le_total, then_in, then_in-keeps, then_in-ok,
  traverse_in-AllPairs, true, unique, unique-map-sort, values, with_state, ◌&&◌, ◌==◌, ◌∙◌, ◌∷◌,
  ◌≡◌,
}
use xtap_pool.BucketLog.{BucketLog, Client, Platform, Segment, Snapshot, SnapshotFile, path}
use xtap_pool.BucketLog.Writes.{remember_text}
use xtap_pool.BucketLog.Texts.{
  Entry, entry_le, holds_texts, latest_text_write, load_entries, load_entry, order_of,
  prime_text_cache, put_entries, read_text, remember_text_entries, remember_texts, value_of,
}
use xtap_pool.BucketLog.Texts.Latest.{latest_from-sort}
use xtap_pool.BucketLog.Texts.Last.{
  HasKeys, IsAfter, get-put_entries, latest_from-sorted, put_entries-keys,
}
use xtap_pool.BucketLog.Keys.{assert_config_path, is_uuid}
use xtap_pool.BucketLog.Schemas.{operation_ok, segment_ok}
use xtap_pool.BucketLog.Reads.{check_hash, load_over, load_segment}
use xtap_pool.BucketLog.Reads.Authentic.{
  KeepsVerified, load_segment-IsAuthentic, load_segment-keeps,
}

abbrev or_before : Option Text → Option Text → Option Text
or_before none value = value
or_before (some v) value = some v

abbrev SingleWrites : Entry → Type 0
SingleWrites e = unique (map path e.1.operations) ≡ true

one_remembered :
    (m : List (Text × Text)) (v : Text × Text) (values : List (Text × Text)) (p : Text)
    → HasKeys (v ∷ values)
    → or_before (get values p) (get (put m v.0 v.1) p) ≡ or_before (get (v ∷ values) p) (get m p)
unfolding get keys
one_remembered m v values p u = elim (Bool-cases (v.0 == p)) [
  | inl same ↦
      let e = eq_of_== v.0 p same in
      let absent : contains (keys values) v.0 ≡ false = ground (arith, u) in
      rw
        (
          get-put m v.0 v.1 p,
          same,
          get_of_absent values p (subst (λ k. contains (keys values) k ≡ false) e absent),
        )
        refl
  | inr other ↦ rw (get-put m v.0 v.1 p, other) refl
]

and_right : (a : Bool) {b : Bool} → (a && b) ≡ true → b ≡ true
and_right true h = h
and_right false h = cc

segment_ok-unique :
    ⦃d : DateTimes⦄ (s : Segment) → segment_ok s ≡ true → unique (map path s.operations) ≡ true
unfolding segment_ok
segment_ok-unique ⦃d⦄ s h = and_right (all operation_ok s.operations) (
    and_right (leb 1 (length s.operations)) (
      and_right (d.is_datetime s.created_at)
        (and_right (is_uuid s.transaction_id) (and_right (eqb s.schema_version 1) h))))

none_before : (entries : List Entry) → All (IsAfter none) entries
none_before [] = tt
none_before (e ∷ entries) = (refl, none_before entries)

or_none : (v : Option Text) → or_before v none ≡ v
or_none none = refl
or_none (some v) = refl

module _ ⦃d : DateTimes⦄ (platform : Platform) (client : Client) where
  open client use {Store}

  remember_texts_lem :
      (values : List (Text × Text)) (l l' : BucketLog Store) (p : Text)
      → HasKeys values
      → remember_texts platform client l values ≡ (l', ok tt)
      → get l'.text_values p ≡ or_before (get values p) (get l.text_values p)
  unfolding remember_texts remember_text keys get
  remember_texts_lem [] l l' p u h =
      ap (λ (m : BucketLog Store). get m.text_values p) (sym (returned h).0)
  remember_texts_lem (v ∷ values) l l' p u h =
      let (_, _, h₁) = then_in-ok _ _ l' tt h in
      let next = (remember_text platform client l v.0 v.1).0 in
      let rest = remember_texts_lem values next l' p (ground (arith, u)) h₁ in
      rest ∙ one_remembered l.text_values v values p u

  -- Whether the order in which the cache is filled is that of `latestTextWrite` on these segments:
  -- the collation of the platform agrees with the order of code units on them.
  abbrev pub Agrees : List Entry → Type 0
  Agrees entries =
      All (λ e. All (λ x. entry_le platform client e x ≡ text_le (order_of e) (order_of x)) entries)
        entries

  sorted_lem :
      (entries : List Entry) (p : Text)
      → Agrees entries
      → unique (map order_of entries) ≡ true
      → All SingleWrites entries
      → get (put_entries [] (sort (entry_le platform client) entries)) p
        ≡ value_of (latest_text_write entries p)
  unfolding latest_text_write get
  sorted_lem entries p agrees u single =
      let by_order : Entry → Entry → Bool = λ e x. text_le (order_of e) (order_of x) in
      let ordered = sort by_order entries in
      ap (λ es. get (put_entries [] es) p)
        (sort_congr (entry_le platform client) by_order entries agrees)
      ∙ get-put_entries [] ordered p
      ∙ sym (
          latest_from-sorted p none ordered
            (rw (map-sort text_le order_of entries)
              (sorted-sort text_le text_le_total (map order_of entries)))
            (unique-map-sort by_order order_of entries u)
            (All-sort by_order SingleWrites entries single) (none_before ordered))
      ∙ ap value_of (latest_from-sort by_order p none entries u)

  -- What loading keeps: verified segments stay authentic, and the texts stay as they are.
  abbrev Keeps : List (Text × Text) → BucketLog Store → Type 0
  Keeps texts l = KeepsVerified platform client l × (l.text_values ≡ texts)

  load_over-texts :
      (texts : List (Text × Text)) (l : BucketLog Store) (file : SnapshotFile)
      (known : Option Segment)
      → l.text_values ≡ texts
      → (load_over platform client l file known).0.text_values ≡ texts
  unfolding load_over
  load_over-texts texts l file none h = h
  load_over-texts texts l file (some s) h = h

  load_segment-Keeps :
      (texts : List (Text × Text)) (l : BucketLog Store) (file : SnapshotFile)
      → Keeps texts l
      → Keeps texts (load_segment platform client l file).0
  unfolding load_segment
  load_segment-Keeps texts l file h = (
    load_segment-keeps platform client l file h.0,
    then_in-keeps {E = Text} (λ (m : BucketLog Store). m.text_values ≡ texts)
        (l, check_hash platform client file) _ h.1
        (λ m u k. load_over-texts texts m file (get m.newly_verified file.key) k),
  )

  load_entry-single :
      (texts : List (Text × Text)) (l l' : BucketLog Store) (file : SnapshotFile) (e : Entry)
      → Keeps texts l
      → load_entry platform client l file ≡ (l', ok e)
      → Keeps texts l' × SingleWrites e
  unfolding load_entry
  load_entry-single texts l l' file e kept h =
      let r = load_segment platform client l file in
      let (s, loaded, h₁) = then_in-ok _ _ l' e h in
      let (state, same) = returned h₁ in
      let (authentic, _) =
        load_segment-IsAuthentic platform client l r.0 file s kept.0 (with_state r (ok s) loaded) in
      (
        subst (Keeps texts) state (load_segment-Keeps texts l file kept),
        subst SingleWrites same (segment_ok-unique s authentic.schema),
      )

  pairs_all :
      (files : List SnapshotFile) (entries : List Entry)
      → AllPairs (λ file e. SingleWrites e) files entries
      → All SingleWrites entries
  pairs_all [] [] h = tt
  pairs_all [] (e ∷ entries) h = absurd h
  pairs_all (f ∷ files) [] h = absurd h
  pairs_all (f ∷ files) (e ∷ entries) h = (h.0, pairs_all files entries h.1)

  remember_text_entries_lem :
      (l l' : BucketLog Store) (entries : List Entry) (p : Text)
      → Agrees entries
      → unique (map order_of entries) ≡ true
      → All SingleWrites entries
      → l.text_values ≡ []
      → remember_text_entries platform client l entries ≡ (l', ok tt)
      → (l'.text_cache_complete ≡ true)
        × (get l'.text_values p ≡ value_of (latest_text_write entries p))
  unfolding remember_text_entries keys get
  remember_text_entries_lem l l' entries p agrees u single empty h =
      let values = put_entries [] (sort (entry_le platform client) entries) in
      let r = remember_texts platform client l values in
      let (_, remembered, h₁) = then_in-ok _ _ l' tt h in
      let (state, _) = returned h₁ in
      let found =
        remember_texts_lem values l r.0 p
          (put_entries-keys [] (sort (entry_le platform client) entries) refl)
          (with_state r (ok tt) remembered) in
      (
        sym (ap (λ (m : BucketLog Store). m.text_cache_complete) state),
        sym (ap (λ (m : BucketLog Store). get m.text_values p) state)
            ∙ found
            ∙ ap (λ m. or_before (get values p) (get m p)) empty
            ∙ or_none (get values p)
            ∙ sorted_lem entries p agrees u single,
      )

  read_cached :
      (l : BucketLog Store) (p : Text)
      → assert_config_path p ≡ ok tt
      → l.text_cache_complete ≡ true
      → read_text platform client l p none ≡ (l, ok (get l.text_values p))
  unfolding read_text then_in
  read_cached l p config complete = rw (config, complete) refl

  -- A log that keeps authentic segments only and no text, and whose cache is filled from the
  -- segments of a snapshot, answers a read of a configuration path with the latest write of the path
  -- among these segments, where their orders differ and the collation of the platform agrees with
  -- the code units on them.
  pub read_text-prime_text_cache :
      (l l' : BucketLog Store) (snapshot : Snapshot) (entries : List Entry) (p : Text)
      → KeepsVerified platform client l
      → l.text_values ≡ []
      → (load_entries platform client l (filter holds_texts snapshot.files)).1 ≡ ok entries
      → unique (map order_of entries) ≡ true
      → Agrees entries
      → prime_text_cache platform client l snapshot ≡ (l', ok tt)
      → assert_config_path p ≡ ok tt
      → read_text platform client l' p none ≡ (l', ok (value_of (latest_text_write entries p)))
  unfolding prime_text_cache load_entries
  read_text-prime_text_cache l l' snapshot entries p kept empty loaded u agrees h config =
      let files = filter holds_texts snapshot.files in
      let r = load_entries platform client l files in
      let (kept', pairs) =
        traverse_in-AllPairs (Keeps l.text_values) (λ file e. SingleWrites e)
          (load_entry platform client) (load_entry-single l.text_values) l r.0 files entries
          (kept, refl) (with_state r (ok entries) loaded) in
      let (found, same, h₁) = then_in-ok r (remember_text_entries platform client) l' tt h in
      let (complete, value) =
        remember_text_entries_lem r.0 l' entries p agrees u (pairs_all files entries pairs)
          (kept'.1 ∙ empty)
          (subst (λ es. remember_text_entries platform client r.0 es ≡ (l', ok tt))
            (ok-injective (sym same ∙ loaded)) h₁) in
      read_cached l' p config complete ∙ ap (λ v. (l', ok v)) value
