-- ===== src/Lib.antt =====
-- A verification library for xtap-pool: models of the parts of the Space server (space/src) that
-- decide what is stored and who is admitted, with theorems about them.
--
-- The parts, and how they interact:
-- - Base: what the components share. Tests on numbers, lists, results of calls that may throw, sets
--   and sorting as `Set` and `Array.prototype.sort` do them, texts as lists of UTF-16 code units,
--   and the string tests of the schema library that several schemas use.
-- - Enrichment: the checkpoint of an enrichment run, space/src/enrich-state.ts.
--   Enrichment/Bitmap.antt is the completion bitmap, a list of bytes. Enrichment/State.antt holds
--   the metadata and its schema, State/Validation.antt `validateEnrichmentState`,
--   State/Operations.antt every operation, State/History.antt sequences of them. A publication in
--   the state holds a manifest, whose schema in space/src/durable-index.ts is
--   Enrichment/Manifest.antt.
-- - BucketLog: space/src/bucket-log.ts, the log in a private Bucket, an object per segment.
--   BucketLog/Keys.antt holds its patterns, BucketLog/Names.antt the keys of segments and the
--   validation of their operations, BucketLog/Schemas.antt the schemas. Of the class `BucketLog`,
--   BucketLog/Reads.antt verifies and loads a segment, BucketLog/Writes.antt puts one,
--   BucketLog/Snapshots.antt discovers, stores and loads snapshots, and BucketLog/Texts.antt reads
--   the texts of the configuration from segments or from the cache. BucketLog/Receipts.antt selects
--   the latest receipts, BucketLog/Tweets.antt groups the tweets of an append, and BucketLog/Run.antt
--   is the calls in sequence.
-- - Storage: reading and writing one text of that log (`StorageLog` in space/src/bucket-log.ts), a
--   parameter of the two registries below. Storage/Memory.antt is an instance, and so is a
--   `BucketLog` with a complete cache, BucketLog/Writes/Primed.antt.
-- - Membership: space/src/membership.ts. Membership/Normal.antt is the configuration and its normal
--   form, Membership/Pool.antt the class's fields, its readers and what each method would commit,
--   Membership/World.antt the methods on the fields with the log, and the loading.
-- - ServiceAccounts: space/src/service-accounts.ts in the same shape. ServiceAccounts/Registry.antt
--   is the file and its normal form, ServiceAccounts/Token.antt the credential format,
--   ServiceAccounts/Store.antt the class.
-- - Retry: space/src/hub-read-retry.ts. Concurrency: `mapBatchesInOrder` and, in
--   Concurrency/Consume.antt, `consumeBatchesInOrder` of space/src/bounded-concurrency.ts.
-- - Enrichment/Checkpoint.antt: the object store of space/src/enrich-checkpoint.ts, whose reads go
--   through Retry, and the interface `ObjectStore` that the other parts read and write through.
--   Checkpoint/Prefetch.antt is the store that caches claims, Checkpoint/Adapter.antt what a
--   checkpoint saves of the state and restores from it.
-- - Enrichment/RunPlan.antt: space/src/enrich-run-plan.ts, the plan of a run and its identity.
-- - Enrichment/ActiveRun.antt: space/src/enrich-active-run.ts over an `ObjectStore`, with the plan of
--   each claim checked by RunPlan and the claims read in batches by Concurrency.
--   ActiveRun/Resolve.antt finds the active run, ActiveRun/Activate.antt activates another.
-- - Labels: space/src/free-label-rules.ts, which free labels and quotes are accepted.
-- - Admission: space/src/enrich-job-admission.ts, the election of the one job that writes.
-- - Consumer: the reads by other programs. Consumer/Errors.antt is space/src/consumer-errors.ts,
--   Consumer/Workers.antt the process pool of space/src/consumer-workers.ts as steps on events,
--   Consumer/Page.antt the page builder of space/src/consumer-page.ts and Consumer/Cursor.antt the
--   signed cursor of space/src/consumer-cursor.ts.
--
-- Conventions. A method that changes an object takes the fields and gives the new fields with what
-- it returns or throws. `enqueueMutation` runs the methods of one registry one after the other, so
-- each is one step. The time, the random bytes and the log are arguments. JSON with the schema
-- library, gzip, SHA-256, dates and the collation of strings are parameters, without laws where none is
-- used, as are the Hub client and the object store of an active run; their state is passed on by
-- each call that may change it. Numbers are natural numbers: where the source tests for safe
-- nonnegative integers, the models keep the bound 2^53 - 1, and negative numbers and fractions are
-- outside. `toLowerCase` is exact where its result is ASCII, which is what the tests that follow it
-- accept.
--
-- Every loop is structural recursion on a list or on a count that the source also computes, except
-- the loop over batches: its rounds are bounded by the number of inputs, which is enough since each
-- round takes at least one. The decimal digits of a generation are bounded by 16, the digits of
-- 2^53 - 1; those of a time are, too.
--
-- Not modelled: the commit titles, which the log does not store, and its progress reports; of the
-- Bucket log also the conversion of lines to rows, the tail behind a snapshot and the priming from
-- the latest writes, which reads the segments backwards; SQLite, what the child processes
-- compute, HTTP and the Hub API; the setup command, the explorer and the browser extension.

pub mod Admission
pub mod Base
pub mod BucketLog
pub mod Concurrency
pub mod Consumer
pub mod Enrichment
pub mod Labels
pub mod Membership
pub mod Retry
pub mod ServiceAccounts
pub mod Storage
