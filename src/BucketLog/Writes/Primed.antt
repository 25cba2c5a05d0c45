-- ===== src/BucketLog/Writes/Primed.antt =====
-- A `BucketLog` whose text cache is complete is a `StorageLog`, the log that the registries of
-- space/src/membership.ts and space/src/service-accounts.ts read and write.
use mathlib.Core.Path.{subst}
use xtap_pool.Base.{
  >>=-eq-ok, DateTimes, Option, Result, Text, [], ap, get, get-put_self, none, ok, refl, some, sym,
  then_in, then_in-keeps, then_in-ok, true, with_state, ℕ, ◌+◌, ◌∙◌, ◌∷◌, ◌≡◌,
}
use xtap_pool.BucketLog.{BucketLog, Client, Platform, Segment, write}
use xtap_pool.BucketLog.Keys.{assert_config_path}
use xtap_pool.BucketLog.Names.{validate_operations}
use xtap_pool.BucketLog.Schemas.{require_segment}
use xtap_pool.BucketLog.Writes.{
  batch_of, commit_batch, prepare, put_segment, remember_text, write_text,
}
use xtap_pool.BucketLog.Writes.Stored.{IsStored, IsStored-remote, put_segment-IsStored}
use xtap_pool.BucketLog.Writes.Kept.{commit_batch-Keeps}
use xtap_pool.BucketLog.Texts.{read_text}
use xtap_pool.Storage.{StorageLog}

module _ ⦃d : DateTimes⦄ (platform : Platform) (client : Client) where
  open client use {Store}

  abbrev pub IsPrimed : BucketLog Store → Type 0
  IsPrimed l = l.text_cache_complete ≡ true

  pub write_text_keeps :
      (l : BucketLog Store) (now : ℕ) (uuid p content : Text)
      → IsPrimed l
      → IsPrimed (write_text platform client l now uuid p content).0
  unfolding write_text remember_text
  write_text_keeps l now uuid p content h =
      then_in-keeps {E = Text} IsPrimed
        (commit_batch platform client l now uuid [] ((p, content) ∷ [])) _
        (commit_batch-Keeps platform client (λ verified complete. complete ≡ true) l now uuid []
          ((p, content) ∷ []) h)
        (λ l₁ key h₁. h₁)

  prepare-is_config :
      (s : Segment) (p content key : Text)
      → s.operations ≡ write p content ∷ []
      → prepare platform client s ≡ ok key
      → assert_config_path p ≡ ok tt
  unfolding prepare validate_operations
  prepare-is_config s p content key e h =
      let (_, _, h₁) = >>=-eq-ok (require_segment platform s) _ h in
      let (_, valid, _) = >>=-eq-ok (validate_operations platform s.operations) _ h₁ in
      let (_, config, _) = >>=-eq-ok (assert_config_path p) _ (rw e at valid) in config

  -- A segment in the Bucket whose one operation writes a text.
  abbrev pub HoldsWrite : BucketLog Store → Text → Text → Type 0
  HoldsWrite l p content =
      (key : Text) × (s : Segment) × IsStored platform client l key s
      × (s.operations ≡ write p content ∷ [])

  pub write_text_stored :
      (l l' : BucketLog Store) (now : ℕ) (uuid p content : Text)
      → write_text platform client l now uuid p content ≡ (l', ok tt)
      → (assert_config_path p ≡ ok tt)
        × (get l'.text_values p ≡ some content)
        × HoldsWrite l' p content
  unfolding write_text remember_text commit_batch put_segment
  write_text_stored l l' now uuid p content h =
      let (key, committed, rest) = then_in-ok _ _ l' tt h in
      let (created_at, _, put_ok) = then_in-ok _ _ _ key (with_state _ _ committed) in
      let (_, prepared, _) = then_in-ok _ _ _ key put_ok in
      let batch = batch_of uuid created_at [] ((p, content) ∷ []) in
      let (stored, _) = put_segment-IsStored platform client _ _ batch key put_ok in
      (
        prepare-is_config batch p content _ refl prepared,
        sym (ap (λ (r : BucketLog Store × Result Text (Unit {0})). get r.0.text_values p) rest)
            ∙ get-put_self _ p content,
        (
          key,
          batch,
          IsStored-remote platform client _ l' key batch
              (ap (λ (r : BucketLog Store × Result Text (Unit {0})). r.0.remote) rest) stored,
          refl,
        ),
      )

  -- A log whose cache is complete, with the number of its commits: each takes the next reading of
  -- the clock and the next identifier.
  pub record Primed : Type 0 where
    pub log : BucketLog Store
    pub primed : IsPrimed log
    pub commits : ℕ

  module _ (draw : ℕ → ℕ × Text) where
    unfoldable pub written : Primed → Text → Text → Primed × Result Text (Unit {0})
    unfolding write_text
    written l p content =
        let now = draw l.commits in
        let r = write_text platform client l.log now.0 now.1 p content in
        (
          record {
            log = r.0;
            primed = write_text_keeps l.log now.0 now.1 p content l.primed;
            commits = l.commits + 1;
          },
          r.1,
        )

    unfoldable pub read_primed : Primed → Text → Result Text (Option Text)
    unfolding read_text
    read_primed l p = (read_text platform client l.log p none).1

    read_primed_lem :
        (l : Primed) (p : Text)
        → assert_config_path p ≡ ok tt
        → read_primed l p ≡ ok (get l.log.text_values p)
    unfolding read_primed read_text then_in
    read_primed_lem l p config = rw (config, l.primed) refl

    -- Where the cache is complete, a write that reports success is what the next read of its path
    -- returns, whatever the clock and the identifiers, and the Bucket holds a segment that writes it.
    pub read_primed-written :
        (l l' : Primed) (p content : Text)
        → written l p content ≡ (l', ok tt)
        → (read_primed l' p ≡ ok (some content)) × HoldsWrite l'.log p content
    unfolding written
    read_primed-written l l' p content h =
        let now = draw l.commits in
        let r = write_text platform client l.log now.0 now.1 p content in
        let returned : r.1 ≡ ok tt = ap (λ (x : Primed × Result Text (Unit {0})). x.1) h in
        let (config, stored, held) =
          write_text_stored l.log r.0 now.0 now.1 p content (with_state r (ok tt) returned) in
        let after = ap (λ (x : Primed × Result Text (Unit {0})). x.0) h in
        (
          sym (ap (λ (x : Primed). read_primed x p) after)
              ∙ read_primed_lem (written l p content).0 p config
              ∙ ap ok stored,
          subst (λ (x : Primed). HoldsWrite x.log p content) after held,
        )

    pub read_after_write :
        (l l' : Primed) (p content : Text)
        → written l p content ≡ (l', ok tt)
        → read_primed l' p ≡ ok (some content)
    read_after_write l l' p content h = (read_primed-written l l' p content h).0

    abbrev pub primed_log : StorageLog
    primed_log = record {
      Log = Primed;
      read_text = read_primed;
      write_text = written;
      read_after_write = read_after_write;
    }
