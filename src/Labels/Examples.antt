-- ===== src/Labels/Examples.antt =====
-- Labels with the evidence of one quote; every text counts as one token.
use xtap_pool.Base.{All, List, Text, [], err, lit, ok, refl, ℕ, ◌↔◌, ◌∷◌, ◌≡◌}
use xtap_pool.Labels.{
  Evidence, abstract_name_without_literal, hard_rejected, validate_evidence_quotes,
  validate_free_label_name,
}
use xtap_pool.Labels.Accepted.{
  IsAcceptable, IsQuoted, validate_evidence_quotes-IsQuoted, validate_free_label_name_iff,
}

abbrev one_token : Text → ℕ
one_token s = 1

abbrev quotes : List Evidence
quotes = record { tweet_id = lit "1"; quote = lit "We manufacture GPUs" } ∷ []

validate_free_label_name_iff_example :
    (validate_free_label_name one_token (lit "manufacturing") quotes ≡ ok tt)
    ↔ IsAcceptable one_token (lit "manufacturing") quotes
validate_free_label_name_iff_example =
    validate_free_label_name_iff one_token (lit "manufacturing") quotes

literal_word : validate_free_label_name one_token (lit "manufacturing") quotes ≡ ok tt
unfolding validate_free_label_name
literal_word = refl

no_literal_word :
    validate_free_label_name one_token (lit "policy") quotes
    ≡ err (abstract_name_without_literal (lit "policy"))
unfolding validate_free_label_name
no_literal_word = refl

opinion_rejected :
    validate_free_label_name one_token (lit "opinion") quotes ≡ err (hard_rejected (lit "opinion"))
unfolding validate_free_label_name
opinion_rejected = refl

quoted : validate_evidence_quotes quotes ((lit "1", lit "Yes! We manufacture GPUs.") ∷ []) ≡ ok tt
unfolding validate_evidence_quotes
quoted = refl

validate_evidence_quotes-IsQuoted_example :
    All (IsQuoted ((lit "1", lit "Yes! We manufacture GPUs.") ∷ [])) quotes
validate_evidence_quotes-IsQuoted_example =
    validate_evidence_quotes-IsQuoted quotes ((lit "1", lit "Yes! We manufacture GPUs.") ∷ [])
      quoted
