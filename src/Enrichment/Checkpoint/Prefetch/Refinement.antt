-- ===== src/Enrichment/Checkpoint/Prefetch/Refinement.antt =====
-- The store with the prefetch against the store that it wraps.
use mathlib.Core.Option
use mathlib.Core.Path.{subst}
use xtap_pool.Base.{
  All, All-map, Bool, Bool-cases, List, Option, Option-cases, Result, Result-cases, Text, [], ap,
  err, false, inl, inr, none, ok, ok-injective, refl, some, starts_with, sym, text_beq,
  text_beq_iff, true, ℕ, ◌∙◌, ◌∷◌, ◌≡◌, ◌≢◌, ◌⊎◌,
}
use xtap_pool.Concurrency.{BatchError, require_concurrency}
use xtap_pool.Enrichment.Checkpoint.{Bytes, ObjectStore, StoreError, concurrency_invalid}
use xtap_pool.Enrichment.Checkpoint.Prefetch.{
  Cache, cached_list, cached_read, cached_write, fetched, filled, filled_if, hint_through, listed,
  lookup, prefetch, with_prefetch, written,
}
use xtap_pool.Enrichment.Checkpoint.Prefetch.Contract.{
  AllAnswer, Answers, AnyUnread, IsClaim, IsClaimSafe, IsCoherent, IsImmutable, MayFailOn, Op, done,
  found_keys, hinting, listing, object, perform, reading, run, writing,
}

module _ (store : ObjectStore) (claims_prefix : Text) (concurrency : ℕ) where
  open store use {Store, read, list, write_immutable, write_pointer_hint}

  lookup_lem :
      (s : Store) (c : Cache) (path : Text) (bytes : Bytes)
      → IsCoherent store claims_prefix concurrency s c
      → lookup c path ≡ some bytes
      → read s path ≡ ok (some bytes)
  unfolding lookup
  lookup_lem s [] path bytes k h = cc
  lookup_lem s (entry ∷ c) path bytes k h = elim (Bool-cases (text_beq entry.0 path)) [
    | inl here ↦
        let same = (text_beq_iff entry.0 path).0 here in
        let value = Option.some-injective _ _ (rw here at h) in rw (← same, ← value) k.0.0
    | inr there ↦ lookup_lem s c path bytes k.1 (rw there at h)
  ]

  cached_read_lem :
      (s : Store) (c : Cache) (path : Text)
      → IsCoherent store claims_prefix concurrency s c
      → cached_read store claims_prefix concurrency (s, c) path ≡ read s path
  unfolding cached_read
  cached_read_lem s c path k = elim (Option-cases (lookup c path)) [
    | inl e ↦ rw (e, cached_read)
    | inr (bytes, e) ↦ rw (e, cached_read) (sym (lookup_lem s c path bytes k e))
  ]

  fetched-IsCoherent :
      (s : Store) (c : Cache) (key : Text) (o : Option Bytes) (r : Result StoreError (Option Bytes))
      → IsCoherent store claims_prefix concurrency s c
      → read s key ≡ r
      → IsClaim store claims_prefix concurrency key
      → (c' : Cache) → fetched store claims_prefix concurrency c key o r ≡ ok c'
      → IsCoherent store claims_prefix concurrency s c'
  unfolding fetched
  fetched-IsCoherent s c key (some cached) r k there claim c' h = rw (← ok-injective h) k
  fetched-IsCoherent s c key none (err e) k there claim c' h = cc
  fetched-IsCoherent s c key none (ok none) k there claim c' h = cc
  fetched-IsCoherent s c key none (ok (some value)) k there claim c' h =
      rw (← ok-injective h) ((there, claim), k)

  prefetch-IsCoherent :
      (s : Store) (c : Cache) (ks : List Text)
      → All (IsClaim store claims_prefix concurrency) ks
      → IsCoherent store claims_prefix concurrency s c
      → IsCoherent store claims_prefix concurrency s
          (prefetch store claims_prefix concurrency s c ks).0
  unfolding prefetch
  prefetch-IsCoherent s c [] claims k = k
  prefetch-IsCoherent s c (key ∷ ks) claims k =
      elim (Result-cases
        (fetched store claims_prefix concurrency c key (lookup c key) (read s key))) [
          | inr (e, failed_) ↦ rw (failed_, prefetch) k
          | inl (c', got) ↦
              rw (got, prefetch)
                (prefetch-IsCoherent s c' ks claims.1
                  (fetched-IsCoherent s c key (lookup c key) (read s key) k refl claims.0 c' got))
        ]

  fetched-unread :
      (s : Store) (c : Cache) (key : Text) (o : Option Bytes) (r : Result StoreError (Option Bytes))
      → (e : StoreError) → read s key ≡ r
      → fetched store claims_prefix concurrency c key o r ≡ err e
      → (bytes : Bytes) → read s key ≢ ok (some bytes)
  unfolding fetched
  fetched-unread s c key (some cached) r e there h bytes q = cc
  fetched-unread s c key none (err x) e there h bytes q = cc
  fetched-unread s c key none (ok none) e there h bytes q = cc
  fetched-unread s c key none (ok (some value)) e there h bytes q = cc

  prefetch-AnyUnread :
      (s : Store) (c : Cache) (ks : List Text) (e : StoreError)
      → (prefetch store claims_prefix concurrency s c ks).1 ≡ err e
      → AnyUnread store claims_prefix concurrency s ks
  unfolding prefetch
  prefetch-AnyUnread s c [] e h = cc
  prefetch-AnyUnread s c (key ∷ ks) e h =
      elim (Result-cases
        (fetched store claims_prefix concurrency c key (lookup c key) (read s key))) [
          | inr (x, failed_) ↦
              inl (fetched-unread s c key (lookup c key) (read s key) x refl failed_)
          | inl (c', got) ↦ inr (prefetch-AnyUnread s c' ks e (rw (got, prefetch) at h))
        ]

  -- What a listing of the cached store gives from the plain one, where it fails only if `F` holds.
  record Follows (F : Type 0) (plain : Store × Result StoreError (List Text))
      (cached : (Store × Cache) × Result StoreError (List Text)) : Type 0 where
    same : cached.0.0 ≡ plain.0
    coherent : IsCoherent store claims_prefix concurrency plain.0 cached.0.1
    reply :
        (found_keys cached.1 ≡ found_keys plain.1)
        ⊎ (F × ((e : StoreError) × (found_keys cached.1 ≡ found_keys (err e))))

  filled-Follows :
      (F : Type 0) (s : Store) (ks : List Text) (r : Cache × Result StoreError (Unit {0}))
      → IsCoherent store claims_prefix concurrency s r.0
      → ((e : StoreError) → r.1 ≡ err e → F)
      → Follows F (s, ok ks) (filled store claims_prefix concurrency s ks r)
  unfolding filled
  filled-Follows F s ks (c, err e) k fails = record {
    same = refl;
    coherent = k;
    reply = inr (fails e refl, (e, refl));
  }
  filled-Follows F s ks (c, ok _) k fails = record { same = refl; coherent = k; reply = inl refl }

  filled_if-Follows :
      (F : Type 0) (s : Store) (c : Cache) (ks : List Text) (r : Result BatchError (Unit {0}))
      → All (IsClaim store claims_prefix concurrency) ks
      → IsCoherent store claims_prefix concurrency s c
      → (r ≢ ok tt → F)
      → (AnyUnread store claims_prefix concurrency s ks → F)
      → Follows F (s, ok ks) (filled_if store claims_prefix concurrency s c ks r)
  unfolding filled_if
  filled_if-Follows F s c ks (err e) claims k refused missed = record {
    same = refl;
    coherent = k;
    reply = inr (refused (λ q. cc), (concurrency_invalid, refl));
  }
  filled_if-Follows F s c ks (ok _) claims k refused missed =
      filled-Follows F s ks (prefetch store claims_prefix concurrency s c ks)
        (prefetch-IsCoherent s c ks claims k) (λ e h. missed (prefetch-AnyUnread s c ks e h))

  listed-Follows :
      (c : Cache) (prefix : Text) (r : Store × Result StoreError (List Text))
      → IsCoherent store claims_prefix concurrency r.0 c
      → ((found : List Text) → r.1 ≡ ok found → All (λ path. starts_with path prefix ≡ true) found)
      → Follows
          (MayFailOn store claims_prefix concurrency prefix r)
          r
          (listed store claims_prefix concurrency c prefix r)
  unfolding listed
  listed-Follows c prefix (s, err e) k under = record {
    same = refl;
    coherent = k;
    reply = inl refl;
  }
  listed-Follows c prefix (s, ok ks) k under = elim (Bool-cases (text_beq prefix claims_prefix)) [
    | inl claims ↦
        let same = (text_beq_iff prefix claims_prefix).0 claims in
        rw (claims, listed)
          (filled_if-Follows (MayFailOn store claims_prefix concurrency prefix (s, ok ks)) s c ks
            (require_concurrency concurrency)
            (subst (λ t. All (λ path. starts_with path t ≡ true) ks) same (under ks refl)) k
            (λ refused. (same, inl refused)) (λ missed. (same, inr (ks, refl, missed))))
    | inr other ↦ rw (other, listed) (record { same = refl; coherent = k; reply = inl refl })
  ]

  written_lem :
      (c : Cache) (path : Text) (bytes : Bytes) (r : Store × Result StoreError (Unit {0}))
      → IsCoherent store claims_prefix concurrency r.0 c
      → (r.1 ≡ ok tt → read r.0 path ≡ ok (some bytes))
      → let w = written store claims_prefix concurrency c path bytes r in
        (w.0.0 ≡ r.0) × IsCoherent store claims_prefix concurrency r.0 w.0.1 × (w.1 ≡ r.1)
  unfolding written
  written_lem c path bytes (s, err e) k there = (refl, k, refl)
  written_lem c path bytes (s, ok _) k there = elim (Bool-cases (starts_with path claims_prefix)) [
    | inl claim ↦ rw (claim, written) (refl, ((there refl, claim), k), refl)
    | inr other ↦ rw (other, written) (refl, k, refl)
  ]

  module _ (fixed : IsImmutable store) where
    -- One operation keeps the cache coherent and the replies together.
    step_refines :
        (s : Store) (c : Cache) (op : Op)
        → IsClaimSafe store claims_prefix concurrency op
        → IsCoherent store claims_prefix concurrency s c
        → let plain = perform store s op in
          let cached = perform (with_prefetch store claims_prefix concurrency) (s, c) op in
          (cached.0.0 ≡ plain.0)
          × IsCoherent store claims_prefix concurrency plain.0 cached.0.1
          × Answers store claims_prefix concurrency s op cached.1
    unfolding cached_list cached_write hint_through
    step_refines s c (reading path) safe k = (refl, k, inl (ap object (cached_read_lem s c path k)))
    step_refines s c (listing prefix) safe k =
        let kept =
          All-map
            (λ (entry : Text × Bytes) held.
              (fixed.kept_by_list s entry.0 entry.1 prefix held.0, held.1))
            c k in
        let f = listed-Follows c prefix (list s prefix) kept (fixed.listed_under s prefix) in
        (f.same, f.coherent, f.reply)
    step_refines s c (writing path bytes) safe k =
        let kept =
          All-map
            (λ (entry : Text × Bytes) held.
              (fixed.kept_by_write s entry.0 entry.1 path bytes held.0, held.1))
            c k in
        let (same, coherent, reply) =
          written_lem c path bytes (write_immutable s path bytes) kept
            (fixed.stored s path bytes) in
        (same, coherent, inl (ap done reply))
    step_refines s c (hinting path bytes) safe k = (
      refl,
      All-map
          (λ (entry : Text × Bytes) held. (
            fixed.kept_by_hint s entry.0 entry.1 path bytes held.0
                (λ e. apart (sym safe ∙ ap (λ t. starts_with t claims_prefix) (sym e) ∙ held.1)),
            held.1,
          ))
          c k,
      inl refl,
    )
      where
        apart : Path Bool false true → ⊥
        apart q = cc

    -- Over a store of immutable objects whose listings give paths under their prefix, and from a
    -- cache of claims that the store reads, the prefetch is a refinement: after any reads, listings,
    -- immutable writes and pointer hints, where no hint is at a path under the prefix of the claims,
    -- it stands on the same store, its cache is again of claims that the store reads, and every reply
    -- is the plain store's, except that the listing of the claims may fail where the concurrency
    -- is refused or a listed claim is not read.
    pub prefetch_refines :
        (s : Store) (c : Cache) (ops : List Op)
        → All (IsClaimSafe store claims_prefix concurrency) ops
        → IsCoherent store claims_prefix concurrency s c
        → let plain = run store s ops in
          let cached = run (with_prefetch store claims_prefix concurrency) (s, c) ops in
          (cached.0.0 ≡ plain.0)
          × IsCoherent store claims_prefix concurrency plain.0 cached.0.1
          × AllAnswer store claims_prefix concurrency s ops cached.1
    prefetch_refines s c [] safe k = (refl, k, tt)
    prefetch_refines s c (op ∷ ops) safe k =
        let (same, coherent, reply) = step_refines s c op safe.0 k in
        let after = (perform (with_prefetch store claims_prefix concurrency) (s, c) op).0 in
        let rest = prefetch_refines after.0 after.1 ops safe.1 (rw same coherent) in
        let cached = run (with_prefetch store claims_prefix concurrency) after ops in
        let (same', coherent', replies) =
          subst
            (λ t.
              (cached.0.0 ≡ (run store t ops).0)
              × IsCoherent store claims_prefix concurrency (run store t ops).0 cached.0.1
              × AllAnswer store claims_prefix concurrency t ops cached.1)
            same rest in
        (same', coherent', (reply, replies))
