-- ===== src/Enrichment/Checkpoint/Examples.antt =====
-- Checkpoint stores on a bucket of two objects, in memory.
use mathlib.Core.Path.{subst}
use xtap_pool.Base.{
  All, Bool, Bool-cases, List, Option, Result, Text, [], ap, err, filter, if◌then◌else◌, inl, inr,
  lit, map, none, ok, ok-injective, refl, some, starts_with, sym, text_beq, text_beq_iff, true, ◌∙◌,
  ◌∷◌, ◌≡◌, ◌≢◌,
}
use xtap_pool.Retry.{retry_transient_hub_read}
use xtap_pool.Enrichment.Checkpoint.{
  Bytes, Hub, ObjectStore, StoreError, confirm, differs, read_back, read_object, write_object,
  write_over,
}
use xtap_pool.Enrichment.Checkpoint.Writes.{write_object_stored}
use xtap_pool.Enrichment.Checkpoint.Prefetch.{Cache, lookup, with_prefetch}
use xtap_pool.Enrichment.Checkpoint.Prefetch.Contract.{
  AllAnswer, IsClaimSafe, IsCoherent, IsImmutable, Op, hinting, listing, reading, run, writing,
}
use xtap_pool.Enrichment.Checkpoint.Prefetch.Refinement.{prefetch_refines}

abbrev claims_path : Text
claims_path = lit "runs/claims"

abbrev first_claim : Text
first_claim = lit "runs/claims/1.json"

abbrev bucket : Cache
bucket = (first_claim, lit "one") ∷ (lit "runs/plan.json", lit "plan") ∷ []

paths_under : Text → Cache → List Text
unfolding starts_with
paths_under prefix s = filter (λ path. starts_with path prefix) (map (λ (e : Text × Bytes). e.0) s)

abbrev memory : Hub
memory = record {
  Bucket = Cache;
  download = λ b path attempt. ok (lookup b path);
  upload = λ b path bytes. ((path, bytes) ∷ b, ok tt);
  list_files = λ b prefix attempt. ok (paths_under prefix b);
}

write_object_stored_example :
    read_object memory (write_object memory bucket (lit "runs/new") (lit "two")).0 (lit "runs/new")
    ≡ ok (some (lit "two"))
unfolding write_object write_over confirm read_object read_back retry_transient_hub_read lookup
    text_beq
write_object_stored_example = write_object_stored memory bucket (lit "runs/new") (lit "two") refl

-- A store that never replaces an object.
write_new : Cache → Text → Bytes → Option Bytes → Cache × Result StoreError (Unit {0})
write_new s path bytes none = ((path, bytes) ∷ s, ok tt)
write_new s path bytes (some existing) =
    (s, if text_beq existing bytes then ok tt else err (differs path))

abbrev in_memory : ObjectStore
in_memory = record {
  Store = Cache;
  read = λ s path. ok (lookup s path);
  list = λ s prefix. (s, ok (paths_under prefix s));
  write_immutable = λ s path bytes. write_new s path bytes (lookup s path);
  write_pointer_hint = λ s path bytes. ((path, bytes) ∷ s, ok tt);
}

none_not_some : (o : Option Bytes) (x : Bytes) → o ≡ none → o ≡ some x → ⊥
none_not_some (some y) x h k = cc
none_not_some none x h k = cc

kept_by :
    (s : Cache) (path bytes also content : Text) (o : Option Bytes)
    → lookup s also ≡ o
    → lookup s path ≡ some bytes
    → lookup (write_new s also content o).0 path ≡ some bytes
unfolding write_new lookup
kept_by s path bytes also content (some existing) e h = h
kept_by s path bytes also content none e h = elim (Bool-cases (text_beq also path)) [
  | inl same ↦
      let p = (text_beq_iff also path).0 same in
      absurd (none_not_some (lookup s path) bytes (ap (lookup s) (sym p) ∙ e) h)
  | inr differ ↦ rw (differ, lookup) h
]

stored_by :
    (s : Cache) (path bytes : Text) (o : Option Bytes)
    → lookup s path ≡ o
    → (write_new s path bytes o).1 ≡ ok tt
    → lookup (write_new s path bytes o).0 path ≡ some bytes
unfolding write_new lookup
stored_by s path bytes none e h = rw ((text_beq_iff path path).1 refl, lookup)
stored_by s path bytes (some existing) e h = elim (Bool-cases (text_beq existing bytes)) [
  | inl same ↦ e ∙ ap some ((text_beq_iff existing bytes).0 same)
  | inr differ ↦ absurd (refused (rw differ at h))
]
  where
    refused : Path (Result StoreError (Unit {0})) (err (differs path)) (ok tt) → ⊥
    refused q = cc

kept_by_pointer :
    (s : Cache) (path bytes also content : Text)
    → lookup s path ≡ some bytes
    → path ≢ also
    → lookup ((also, content) ∷ s) path ≡ some bytes
unfolding lookup
kept_by_pointer s path bytes also content h differ = elim (Bool-cases (text_beq also path)) [
  | inl same ↦ absurd (differ (sym ((text_beq_iff also path).0 same)))
  | inr apart ↦ rw (apart, lookup) h
]

filter-All : (p : Text → Bool) (xs : List Text) → All (λ x. p x ≡ true) (filter p xs)
filter-All p [] = tt
filter-All p (x ∷ xs) = elim (Bool-cases (p x)) [
  | inl kept ↦ rw kept (kept, filter-All p xs)
  | inr dropped ↦ rw dropped (filter-All p xs)
]

listed_under :
    (s : Cache) (prefix : Text) (found : List Text)
    → Path (Result StoreError (List Text)) (ok (paths_under prefix s)) (ok found)
    → All (λ path. starts_with path prefix ≡ true) found
unfolding paths_under
listed_under s prefix found h =
    subst (All (λ path. starts_with path prefix ≡ true)) (ok-injective h)
      (filter-All (λ path. starts_with path prefix) (map (λ (e : Text × Bytes). e.0) s))

in_memory-IsImmutable : IsImmutable in_memory
in_memory-IsImmutable = record {
  kept_by_list = λ s path bytes prefix h. h;
  kept_by_write = λ s path bytes also content h.
      ap ok (kept_by s path bytes also content (lookup s also) refl (ok-injective h));
  kept_by_hint = λ s path bytes also content h differ.
      ap ok (kept_by_pointer s path bytes also content (ok-injective h) differ);
  listed_under = listed_under;
  stored = λ s path bytes h. ap ok (stored_by s path bytes (lookup s path) refl h);
}

-- A listing that fills the cache, a read from it, a write of a claim, a hint and a read of a plan.
abbrev session : List Op
session =
    listing claims_path
    ∷ reading first_claim
    ∷ writing (lit "runs/claims/2.json") (lit "two")
    ∷ hinting (lit "runs/active.json") (lit "two")
    ∷ reading (lit "runs/plan.json")
    ∷ []

session-IsClaimSafe : All (IsClaimSafe in_memory claims_path 4) session
unfolding starts_with
session-IsClaimSafe = (tt, (tt, (tt, (refl, (tt, tt)))))

prefetch_refines_example :
    let plain = run in_memory bucket session in
    let cached = run (with_prefetch in_memory claims_path 4) (bucket, []) session in
    (cached.0.0 ≡ plain.0)
    × IsCoherent in_memory claims_path 4 plain.0 cached.0.1
    × AllAnswer in_memory claims_path 4 bucket session cached.1
prefetch_refines_example =
    prefetch_refines in_memory claims_path 4 in_memory-IsImmutable bucket [] session
      session-IsClaimSafe tt
