-- ===== src/Membership/World.antt =====
-- The mutations of `PoolMembership` in space/src/membership.ts, and its loading. A method takes the
-- world, that is the pool's fields and the log, and gives the new world with what it returns or
-- throws. Methods run one after the other, as `enqueueMutation` arranges. The time and the
-- caller's options are arguments.
pub mod Invariant
pub mod Effects
use xtap_pool.Base.{
  Bool, List, Option, Result, Text, [], err, false, if◌then◌else◌, lit, none, ok, some, true, ◌>>=◌,
  ◌>>◌,
}
use xtap_pool.Storage.{StorageLog}
use xtap_pool.Membership.Normal.{
  Error, PoolConfig, message, normalize_config, normalize_username, normalize_users, pool_config_ok,
  thrown, union_sorted,
}
use xtap_pool.Membership.Pool.{
  PoolMembership, PoolSnapshot, Request, Source, bootstrap, bucket, or_first, plan, snapshot,
}

-- JSON with the schema library: `JSON.stringify` of a configuration, and the shape that is read
-- back, its defaults filled in, or a message.
pub record Codec : Type 0 where
  pub encode : PoolConfig → Text
  pub decode : Text → Result Text PoolConfig
  pub schema_message : Text

pub record Loaded : Type 0 where
  pub config : PoolConfig
  pub source : Source
  pub config_error : Option Text
  pub retryable : Bool

abbrev pub pool_config_path : Text
pool_config_path = lit "config/pool.json"

-- The configuration that `commit` writes.
pub committed : PoolConfig → Text → Text → Result Error PoolConfig
committed next actor now = do
  updater ← normalize_username actor
  normalize_config (record next { updated_at = now; updated_by = some updater })

-- `bootstrapConfig`.
pub bootstrap_config : List Text → List Text → Text → Result Error PoolConfig
bootstrap_config bootstrap_members bootstrap_admins now = do
  members ← normalize_users bootstrap_members
  admins ← normalize_users (or_first bootstrap_admins bootstrap_members)
  ok (record {
    version = 1;
    admins = admins;
    members = union_sorted members admins;
    member_orgs = [];
    updated_at = now;
    updated_by = none;
  })

module _ (store : StorageLog) (codec : Codec) where
  open store use {Log, read_text, write_text}

  pub record World : Type 0 where
    pub pool : PoolMembership
    pub log : Log

  -- The end of `commit`: the fields change only if the write succeeds.
  finish : World → PoolConfig → Log × Result Text (Unit {0}) → World × Result Error (Unit {0})
  finish w next (l, err m) = (record w { log = l }, err (thrown m))
  finish w next (l, ok _) = (
    record {
      pool = record w.pool {
        config = next;
        source = bucket;
        config_error = none;
        config_error_retryable = false;
      };
      log = l;
    },
    ok tt,
  )

  commit : World → PoolConfig → Text → Text → World × Result Error (Unit {0})
  unfolding finish committed
  commit w next actor now = elim (committed next actor now) [
    | err e ↦ (w, err e)
    | ok c ↦ finish w c (write_text w.log pool_config_path (codec.encode c))
  ]

  -- `return this.snapshot()` after a commit.
  then_snapshot : World × Result Error (Unit {0}) → World × Result Error PoolSnapshot
  then_snapshot (w, err e) = (w, err e)
  then_snapshot (w, ok _) = (w, snapshot w.pool)

  -- One mutating method, from its guards to the snapshot that it returns.
  unfoldable pub mutate : World → Request → Text → Text → World × Result Error PoolSnapshot
  unfolding then_snapshot commit plan snapshot
  mutate w req actor now = elim (plan w.pool req) [
    | err e ↦ (w, err e)
    | ok none ↦ (w, snapshot w.pool)
    | ok (some next) ↦ then_snapshot (commit w next actor now)
  ]

  parse_config : Text → Result Error PoolConfig
  parse_config raw = elim (codec.decode raw) [
    | err m ↦ err (thrown m)
    | ok c ↦ if pool_config_ok c then normalize_config c else err (thrown codec.schema_message)
  ]

  loaded_text : PoolConfig → Text → Loaded
  unfolding parse_config
  loaded_text fallback raw = elim (parse_config raw) [
    | ok c ↦ record { config = c; source = bucket; config_error = none; retryable = false }
    | err e ↦ record {
      config = fallback;
      source = bootstrap;
      config_error = some (message e);
      retryable = false;
    }
  ]

  -- `loadConfigFromMirror`.
  load_config : List Text → List Text → Text → Log → Result Error Loaded
  unfolding loaded_text bootstrap_config
  load_config bootstrap_members bootstrap_admins now l = do
    fallback ← bootstrap_config bootstrap_members bootstrap_admins now
    ok (elim (read_text l pool_config_path) [
      | err m ↦ record {
        config = fallback;
        source = bootstrap;
        config_error = some m;
        retryable = true;
      }
      | ok none ↦ record {
        config = fallback;
        source = bootstrap;
        config_error = none;
        retryable = false;
      }
      | ok (some raw) ↦ loaded_text fallback raw
    ])

  -- `PoolMembership.load`: the loading and the constructor.
  unfoldable pub load : List Text → List Text → Text → Log → Result Error PoolMembership
  unfolding load_config
  load bootstrap_members bootstrap_admins now l = do
    loaded ← load_config bootstrap_members bootstrap_admins now l
    admins ← normalize_users (or_first bootstrap_admins bootstrap_members)
    config ← normalize_config loaded.config
    ok (record {
      config = config;
      bootstrap_admins = admins;
      source = loaded.source;
      config_error = loaded.config_error;
      config_error_retryable = loaded.retryable;
    })

  -- `reload` keeps the bootstrap administrators.
  unfoldable pub reload :
      PoolMembership → List Text → List Text → Text → Log → Result Error PoolMembership
  unfolding load_config
  reload p bootstrap_members bootstrap_admins now l = do
    loaded ← load_config bootstrap_members bootstrap_admins now l
    config ← normalize_config loaded.config
    ok (record p {
      config = config;
      source = loaded.source;
      config_error = loaded.config_error;
      config_error_retryable = loaded.retryable;
    })
