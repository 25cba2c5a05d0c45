-- ===== src/Labels.antt =====
-- space/src/free-label-rules.ts: which free labels and quotes are accepted. The normalization of a
-- name and the count of the runs of letters and digits are arguments, as the second needs the
-- Unicode tables.
pub mod Quotes
pub mod Accepted
mod Examples
use xtap_pool.Base.{
  Bool, List, Option, Result, Text, [], all, any, contains, err, get, guard, if◌then◌else◌,
  includes, leb, length, lit, ltb, nat_eq, none, not, ok, some, text_beq, text_eq, to_lower, trim,
  ℕ, ◌+◌, ◌>>=◌, ◌>>◌, ◌∷◌,
}

-- `evidenceSchema` and the part of `LabelAssignment` that is read, in shared/src/enrichment.ts.
pub record Evidence : Type 0 where
  pub tweet_id : Text
  pub quote : Text

pub data Reason : Type 0 where
  empty_slug too_short too_long no_evidence unsubstantive_evidence : Reason
  hard_rejected abstract_name_without_literal unknown_tweet quote_not_in_tweet : Text → Reason

abbrev pub hard_rejected_names : List Text
hard_rejected_names =
    lit "deixis"
    ∷ lit "pronoun-category"
    ∷ lit "grammatical-feature"
    ∷ lit "discourse-form"
    ∷ lit "quality-philosophy"
    ∷ lit "quality-discourse"
    ∷ lit "opinion"
    ∷ lit "sentiment"
    ∷ []

abbrev pub abstract_names_requiring_literal : List (Text × List Text)
abstract_names_requiring_literal =
    (lit "manufacturing", lit "manufactur" ∷ [])
    ∷ (lit "industry", lit "industry" ∷ lit "industri" ∷ [])
    ∷ (lit "philosophy", lit "philosoph" ∷ [])
    ∷ (lit "technology", lit "technolog" ∷ [])
    ∷ (lit "quality", lit "quality" ∷ [])
    ∷ (lit "discourse", lit "discourse" ∷ [])
    ∷ (lit "business", lit "business" ∷ [])
    ∷ (lit "policy", lit "policy" ∷ lit "polic" ∷ [])
    ∷ []

-- `checkName`.
unfoldable pub check_name : Text → Result Reason (Unit {0})
unfolding text_beq
check_name name = do
  guard (ltb 0 (length name)) empty_slug
  guard (leb 2 (length name)) too_short
  guard (leb (length name) 60) too_long
  guard (not (contains hard_rejected_names name)) (hard_rejected name)

-- `allQuotesContain`.
unfoldable pub all_quotes_contain : List Evidence → List Text → Bool
unfolding includes to_lower
all_quotes_contain evidence substrings =
    all (λ (e : Evidence). any (includes (to_lower e.quote)) substrings) evidence

-- The end of `validateFreeLabelName`.
unfoldable pub check_literal : Text → List Evidence → Option (List Text) → Result Reason (Unit {0})
unfolding all_quotes_contain
check_literal name evidence none = ok tt
check_literal name evidence (some required) =
    guard (all_quotes_contain evidence required) (abstract_name_without_literal name)

-- The matches of `/[\p{L}\p{N}]{3,}/gu` in a text.
module _ (tokens : Text → ℕ) where
  -- The loop of `evidenceHasSubstantiveText`.
  unfoldable pub substantive_tokens : List Evidence → ℕ
  unfolding trim
  substantive_tokens [] = 0
  substantive_tokens (e ∷ evidence) =
      let rest = substantive_tokens evidence in
      if ltb (length (trim e.quote)) 3 then rest else tokens (trim e.quote) + rest

  -- `checkEvidence`.
  unfoldable pub check_evidence : List Evidence → Result Reason (Unit {0})
  unfolding substantive_tokens
  check_evidence evidence = do
    guard (ltb 0 (length evidence)) no_evidence
    guard (leb 1 (substantive_tokens evidence)) unsubstantive_evidence

  -- `validateFreeLabelName`.
  unfoldable pub validate_free_label_name : Text → List Evidence → Result Reason (Unit {0})
  unfolding check_name check_evidence get check_literal
  validate_free_label_name name evidence = do
    check_name name
    check_evidence evidence
    check_literal name evidence (get abstract_names_requiring_literal name)

  -- `unitHasSubstantiveText`.
  abbrev pub unit_has_substantive_text : Text → Bool
  unit_has_substantive_text text = leb 1 (tokens text)

-- One quote, and the text of its tweet.
unfoldable pub check_quote : Evidence → Option Text → Result Reason (Unit {0})
unfolding includes
check_quote e none = err (unknown_tweet e.tweet_id)
check_quote e (some source) = guard (includes source e.quote) (quote_not_in_tweet e.tweet_id)

-- `validateEvidenceQuotes`.
unfoldable pub validate_evidence_quotes :
    List Evidence → List (Text × Text) → Result Reason (Unit {0})
unfolding get check_quote
validate_evidence_quotes [] member_texts = ok tt
validate_evidence_quotes (e ∷ evidence) member_texts = do
  check_quote e (get member_texts e.tweet_id)
  validate_evidence_quotes evidence member_texts
