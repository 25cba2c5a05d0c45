-- ===== src/Enrichment/Manifest.antt =====
-- The schema of a published index manifest (space/src/durable-index.ts).
use xtap_pool.Base.{
  Bool, List, Text, all, drop, eqb, is_safe, is_sha256, leb, length, lit, nat_eq, take, text_eq,
  unique, ℕ, ◌&&◌, ◌++◌, ◌==◌, ◌∷◌,
}

pub record IndexCounts : Type 0 where
  pub tweets : ℕ
  pub units : ℕ
  pub enrichments : ℕ
  pub attempt_events : ℕ
  pub registry_events : ℕ
  pub receipts : ℕ

pub record ManifestSource : Type 0 where
  pub bucket : Text
  pub revision : Text

pub record ManifestDatabase : Type 0 where
  pub key : Text
  pub sha256 : Text
  pub predecessors : List Text

pub record DurableIndexManifest : Type 0 where
  pub schema_version : ℕ
  pub source : ManifestSource
  pub contract_hash : Text
  pub database : ManifestDatabase
  pub counts : IndexCounts

abbrev pub index_schema_version : ℕ
index_schema_version = 1

abbrev pub retained_predecessors : ℕ
retained_predecessors = 3

abbrev pub database_prefix : Text
database_prefix = lit "index/databases"

unfoldable pub index_counts_ok : IndexCounts → Bool
index_counts_ok c =
    is_safe c.tweets
    && is_safe c.units
    && is_safe c.enrichments
    && is_safe c.attempt_events
    && is_safe c.registry_events
    && is_safe c.receipts

-- `/^index\/databases\/([a-f0-9]{64})\.sqlite$/`: 16 characters, 64 digits and 7 characters.
unfoldable pub is_database_key : Text → Bool
is_database_key key =
    take 16 key == lit "index/databases/"
    && is_sha256 (take 64 (drop 16 key))
    && drop 80 key == lit ".sqlite"

-- `durableIndexManifestSchema`: the shape of each field, then the two refinements.
unfoldable pub manifest_ok : DurableIndexManifest → Bool
unfolding index_counts_ok is_database_key
manifest_ok m =
    eqb m.schema_version index_schema_version
    && leb 3 (length m.source.bucket)
    && is_sha256 m.source.revision
    && is_sha256 m.contract_hash
    && is_database_key m.database.key
    && is_sha256 m.database.sha256
    && all is_database_key m.database.predecessors
    && leb (length m.database.predecessors) retained_predecessors
    && index_counts_ok m.counts
    && m.database.key == (database_prefix ++ lit "/" ++ m.database.sha256 ++ lit ".sqlite")
    && unique (m.database.key ∷ m.database.predecessors)
