-- ===== src/Labels/Accepted.antt =====
-- What is accepted.
use mathlib.Core.Option
use xtap_pool.Base.{
  >>=-eq-ok, All, Bool, List, Option, Result, Text, [], arith, contains, err, false, get, guard,
  guard-eq-ok, guard-true, includes, leb, leb→le, length, le→leb, ltb, ltb→lt, lt→ltb, nat_eq, none,
  not, ok, refl, some, text_eq, true, ℕ, ◌↔◌, ◌∷◌, ◌≡◌, ◌≤◌,
}
use xtap_pool.Labels.{
  Evidence, Reason, abstract_names_requiring_literal, all_quotes_contain, check_evidence,
  check_literal, check_name, check_quote, hard_rejected, hard_rejected_names, substantive_tokens,
  unknown_tweet, unsubstantive_evidence, validate_evidence_quotes, validate_free_label_name,
}
use xtap_pool.Labels.Quotes.{
  HasWord, IsSubstantive, IsWithin, Some, all_quotes_contain_iff, includes-IsWithin,
  substantive_tokens_iff,
}

-- A name that the rules allow with its evidence.
pub record IsAcceptable (tokens : Text → ℕ) (name : Text) (evidence : List Evidence) : Type 0 where
  pub long_enough : 2 ≤ length name
  pub short_enough : length name ≤ 60
  pub allowed : contains hard_rejected_names name ≡ false
  pub evidenced : 1 ≤ length evidence
  pub substantive : Some (IsSubstantive tokens) evidence
  pub literal :
      (required : List Text)
      → get abstract_names_requiring_literal name ≡ some required
      → All (HasWord required) evidence

guard_of_true : (b : Bool) (e : Reason) → b ≡ true → guard b e ≡ ok tt
guard_of_true b e h = rw h refl

false_of_not : (b : Bool) → not b ≡ true → b ≡ false
false_of_not true h = cc
false_of_not false h = refl

check_literal_iff :
    (name : Text) (evidence : List Evidence) (o : Option (List Text))
    → (check_literal name evidence o ≡ ok tt)
      ↔ ((required : List Text) → o ≡ some required → All (HasWord required) evidence)
unfolding check_literal
check_literal_iff name evidence none =
    (λ h required e. absurd (none_not_some required e), λ h. refl)
  where
    none_not_some : (r : List Text) → Path (Option (List Text)) none (some r) → ⊥
    none_not_some r e = cc
check_literal_iff name evidence (some x) = (
  λ h required e.
      (all_quotes_contain_iff evidence required).0
        (rw (← Option.some-injective _ _ e) (guard-true (all_quotes_contain evidence x) _ h)),
  λ h. guard_of_true _ _ ((all_quotes_contain_iff evidence x).1 (h x refl)),
)

validate_sound :
    (tokens : Text → ℕ) (name : Text) (evidence : List Evidence)
    → validate_free_label_name tokens name evidence ≡ ok tt
    → IsAcceptable tokens name evidence
unfolding validate_free_label_name check_name check_evidence
validate_sound tokens name evidence h =
    let (u, named, h₁) = >>=-eq-ok (check_name name) _ h in
    let (u₁, evident, h₂) = >>=-eq-ok (check_evidence tokens evidence) _ h₁ in
    let (_, n₁) = guard-eq-ok (ltb 0 (length name)) _ _ named in
    let (long, n₂) = guard-eq-ok (leb 2 (length name)) _ _ n₁ in
    let (short, n₃) = guard-eq-ok (leb (length name) 60) _ _ n₂ in
    let free = guard-true (not (contains hard_rejected_names name)) (hard_rejected name) n₃ in
    let (some_evidence, m) = guard-eq-ok (ltb 0 (length evidence)) _ _ evident in
    let weighty =
      guard-true (leb 1 (substantive_tokens tokens evidence)) unsubstantive_evidence m in
    record {
      long_enough = leb→le _ _ long;
      short_enough = leb→le _ _ short;
      allowed = false_of_not (contains hard_rejected_names name) free;
      evidenced = ltb→lt _ _ some_evidence;
      substantive = (substantive_tokens_iff tokens evidence).0 (leb→le _ _ weighty);
      literal = (check_literal_iff name evidence (get abstract_names_requiring_literal name)).0 h₂;
    }

validate_complete :
    (tokens : Text → ℕ) (name : Text) (evidence : List Evidence)
    → IsAcceptable tokens name evidence
    → validate_free_label_name tokens name evidence ≡ ok tt
unfolding validate_free_label_name check_name check_evidence
validate_complete tokens name evidence a =
    let filled : ltb 0 (length name) ≡ true = ground (arith, a.long_enough) in
    rw
      (
        filled,
        le→leb _ _ a.long_enough,
        le→leb _ _ a.short_enough,
        a.allowed,
        lt→ltb _ _ a.evidenced,
        le→leb _ _ ((substantive_tokens_iff tokens evidence).1 a.substantive),
      )
      ((check_literal_iff name evidence (get abstract_names_requiring_literal name)).1 a.literal)

-- A label name is accepted with its evidence exactly when it has 2 to 60 characters, is not one of the
-- rejected names, one of the quotes has, without the space around it, at least three characters and a
-- token, and, for an abstract name, every quote in lower case has one of the words in it that the name
-- requires.
pub validate_free_label_name_iff :
    (tokens : Text → ℕ) (name : Text) (evidence : List Evidence)
    → (validate_free_label_name tokens name evidence ≡ ok tt) ↔ IsAcceptable tokens name evidence
validate_free_label_name_iff tokens name evidence =
    (validate_sound tokens name evidence, validate_complete tokens name evidence)

-- Each quote stands verbatim in the text of the tweet that it names.
abbrev pub IsQuoted : List (Text × Text) → Evidence → Type 0
IsQuoted member_texts e =
    (source : Text) × (get member_texts e.tweet_id ≡ some source) × IsWithin e.quote source

check_quote-IsWithin :
    (e : Evidence) (o : Option Text)
    → check_quote e o ≡ ok tt
    → (source : Text) × (o ≡ some source) × IsWithin e.quote source
unfolding check_quote
check_quote-IsWithin e none h = absurd (unknown h)
  where
    unknown : Path (Result Reason (Unit {0})) (err (unknown_tweet e.tweet_id)) (ok tt) → ⊥
    unknown k = cc
check_quote-IsWithin e (some source) h =
    (source, refl, includes-IsWithin source e.quote (guard-true (includes source e.quote) _ h))

-- Where the quotes of an assignment are accepted, each stands verbatim in the text of the tweet that
-- it names.
pub validate_evidence_quotes-IsQuoted :
    (evidence : List Evidence) (member_texts : List (Text × Text))
    → validate_evidence_quotes evidence member_texts ≡ ok tt
    → All (IsQuoted member_texts) evidence
unfolding validate_evidence_quotes
validate_evidence_quotes-IsQuoted [] member_texts h = tt
validate_evidence_quotes-IsQuoted (e ∷ evidence) member_texts h =
    let (u, here, rest) = >>=-eq-ok (check_quote e (get member_texts e.tweet_id)) _ h in
    (
      check_quote-IsWithin e (get member_texts e.tweet_id) here,
      validate_evidence_quotes-IsQuoted evidence member_texts rest,
    )
