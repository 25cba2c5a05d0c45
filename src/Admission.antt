-- ===== src/Admission.antt =====
-- space/src/enrich-job-admission.ts: at most one enrichment job writes. A job uploads its claim,
-- waits, and reads the claims twice; what each listing finds depends on the other jobs, so the two
-- listings are arguments. The content of a claim object is never read and is left out.
pub mod Election
mod Examples
use xtap_pool.Base.{
  Bool, List, Option, Result, Text, [], and_then, contains, dedup, drop, eqb, err, false, filter,
  guard, if◌then◌else◌, is_digit, is_filled, is_hex_of, keys, leb, lit, nat_eq, none, ok, some,
  sort, strip, take, text_beq, text_eq, text_le, ℕ, ◌&&◌, ◌*◌, ◌++◌, ◌+◌, ◌-◌, ◌==◌, ◌>>=◌, ◌>>◌,
  ◌∷◌,
}

pub data AdmissionError : Type 0 where
  required : Text → AdmissionError
  invalid_job invalid_revision invalid_bucket : AdmissionError
  invalid_delay : Text → AdmissionError
  unverified elected_other : List Text → AdmissionError

abbrev pub contender_window_ms : ℕ
contender_window_ms = 5 * 60000

-- A digit of `/[a-f0-9]/`.
abbrev hex_value : ℕ → ℕ
hex_value c = if is_digit c then c - 48 else c - 87

hex_number : ℕ → Text → ℕ
hex_number acc [] = acc
hex_number acc (c ∷ s) = hex_number (acc * 16 + hex_value c) s

-- `physicalJobCreatedAt`, in milliseconds.
unfoldable pub created_at : Text → ℕ
unfolding hex_number
created_at job_id = hex_number 0 (take 8 job_id) * 1000

-- `Math.abs(created_at(a) - created_at(b)) <= CONTENDER_WINDOW_MS`.
unfoldable pub is_close : Text → Text → Bool
is_close a b =
    leb ((created_at a - created_at b) + (created_at b - created_at a)) contender_window_ms

unfoldable pub claim_prefix : Text → Text
claim_prefix source_revision =
    lit "operations/enrichment/admission/" ++ source_revision ++ lit "/claims"

unfoldable pub claim_key : Text → Text → Text
claim_key prefix job_id = prefix ++ (lit "/" ++ (job_id ++ lit ".json"))

-- `/^([a-f0-9]{24})\.json$/`.
job_file : Text → Option Text
unfolding strip text_beq
job_file relative =
    if is_hex_of 24 (take 24 relative) && text_beq (drop 24 relative) (lit ".json")
    then some (take 24 relative)
    else none

unfoldable pub job_id_from_claim_key : Text → Text → Option Text
unfolding strip job_file
job_id_from_claim_key prefix key = and_then (strip (prefix ++ lit "/") key) job_file

-- The jobs that the listed keys claim for.
unfoldable pub claimed : Text → List Text → List Text
unfolding job_id_from_claim_key
claimed prefix [] = []
claimed prefix (key ∷ keys) = elim (job_id_from_claim_key prefix key) [
  | none ↦ claimed prefix keys
  | some job_id ↦ job_id ∷ claimed prefix keys
]

unfoldable pub contenders : Text → Text → List Text → List Text
unfolding claimed is_close text_beq text_le
contenders prefix job_id keys =
    sort text_le (dedup (filter (λ candidate. is_close candidate job_id) (claimed prefix keys)))

-- The second check of `requireElectedWriter`: the first contender in the order of texts.
require_first : Text → List Text → Result AdmissionError (Unit {0})
unfolding text_beq
require_first job_id [] = err (elected_other [])
require_first job_id (elected ∷ others) =
    guard (elected == job_id) (elected_other (elected ∷ others))

unfoldable pub require_elected_writer : List Text → Text → Text → Result AdmissionError (Unit {0})
unfolding contenders require_first
require_elected_writer keys prefix job_id = do
  guard (contains (contenders prefix job_id keys) job_id)
      (unverified (contenders prefix job_id keys))
  require_first job_id (contenders prefix job_id keys)

-- `process.env`.
abbrev pub Env : Type 0
Env = Text → Option Text

unfoldable pub required_value : Env → Text → Result AdmissionError Text
required_value env name = elim (env name) [
  | none ↦ err (required name)
  | some value ↦ if is_filled value then ok value else err (required name)
]

-- `value.split("/")`.
unfoldable pub split_slash : Text → List Text
split_slash [] = [] ∷ []
split_slash (c ∷ s) = elim (split_slash s) [
  | [] ↦ []
  | first ∷ parts ↦ if eqb c b'/' then [] ∷ first ∷ parts else (c ∷ first) ∷ parts
]

abbrev is_owner_name : List Text → Bool
is_owner_name (namespace ∷ name ∷ []) = is_filled namespace && is_filled name
is_owner_name _ = false

pub record Delays : Type 0 where
  pub settle_ms : ℕ
  pub confirmation_ms : ℕ

pub record Ticket : Type 0 where
  pub prefix : Text
  pub job_id : Text

-- `admitSingleEnrichmentJob` up to the upload of the claim, whose key is `claim_key`; `none` for a
-- process that is no job.
unfoldable pub prepare_claim : Env → Delays → Result AdmissionError (Option Ticket)
unfolding required_value split_slash claim_prefix
prepare_claim env delays = elim (env (lit "JOB_ID")) [
  | none ↦ ok none
  | some job_id ↦ do
    _ ← required_value env (lit "HF_TOKEN")
    source_revision ← required_value env (lit "XTAP_SOURCE_REVISION")
    guard (is_hex_of 40 source_revision) invalid_revision
    index_bucket ← required_value env (lit "INDEX_BUCKET")
    guard (is_owner_name (split_slash index_bucket)) invalid_bucket
    guard (is_hex_of 24 job_id) invalid_job
    guard (leb delays.settle_ms 60000) (invalid_delay (lit "settleMs"))
    guard (leb delays.confirmation_ms 60000) (invalid_delay (lit "confirmationMs"))
    ok (some (record { prefix = claim_prefix source_revision; job_id = job_id }))
]

-- `admitSingleEnrichmentJob` from the claim on: the listing after the settling time, and the one
-- after the confirmation time.
unfoldable pub confirm_claim : Ticket → List Text → List Text → Result AdmissionError Text
unfolding require_elected_writer
confirm_claim ticket settled confirmed = do
  require_elected_writer settled ticket.prefix ticket.job_id
  require_elected_writer confirmed ticket.prefix ticket.job_id
  ok ticket.job_id
