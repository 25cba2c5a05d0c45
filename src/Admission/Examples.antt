-- ===== src/Admission/Examples.antt =====
-- Two jobs that were created a minute apart, both with a claim.
use xtap_pool.Base.{
  Bool, List, Text, [], ap, false, lit, ok, refl, strip, text_beq, text_le, true, ◌++◌, ◌∷◌, ◌≡◌,
  ◌≢◌,
}
use xtap_pool.Admission.{
  Ticket, claimed, confirm_claim, contenders, created_at, hex_number, is_close, job_file,
  job_id_from_claim_key, require_elected_writer, require_first,
}
use xtap_pool.Admission.Election.{least_admitted, single_writer}

abbrev prefix : Text
prefix = lit "operations/enrichment/admission/r1/claims"

abbrev early : Text
early = lit "6830a4c0aaaaaaaaaaaaaaaa"

abbrev late : Text
late = lit "6830a4fcbbbbbbbbbbbbbbbb"

abbrev both_claims : List Text
both_claims =
    (prefix ++ lit "/6830a4fcbbbbbbbbbbbbbbbb.json")
    ∷ (prefix ++ lit "/6830a4c0aaaaaaaaaaaaaaaa.json")
    ∷ (prefix ++ lit "/README.md")
    ∷ []

abbrev ticket : Text → Ticket
ticket job_id = record { prefix = prefix; job_id = job_id }

false_not_true : Path Bool false true → ⊥
false_not_true p = cc

two_jobs : early ≢ late
unfolding text_beq
two_jobs p = false_not_true (ap (λ s. text_beq s late) p)

single_writer_example : confirm_claim (ticket late) both_claims both_claims ≢ ok late
unfolding is_close created_at hex_number claimed job_id_from_claim_key job_file strip text_beq
    contenders require_elected_writer require_first confirm_claim text_le
single_writer_example =
    single_writer prefix early late early both_claims both_claims both_claims both_claims two_jobs
      refl refl refl refl late

least_admitted_example : confirm_claim (ticket early) both_claims both_claims ≡ ok early
unfolding claimed job_id_from_claim_key job_file strip text_beq text_le
least_admitted_example = least_admitted (ticket early) both_claims both_claims refl refl refl refl
