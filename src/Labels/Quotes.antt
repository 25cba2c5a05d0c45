-- ===== src/Labels/Quotes.antt =====
-- What stands in a quote: words, verbatim texts and substantive tokens.
use xtap_pool.Base.{
  All, Bool, Bool-cases, List, Text, [], any, ap, arith, eqb, eqb_iff, false, includes, inl, inr,
  leb, leb→le, length, ltb, refl, starts_with, sym, to_lower, trim, true, ℕ, ◌++◌, ◌↔◌, ◌∙◌, ◌∷◌,
  ◌≡◌, ◌≤◌, ◌⊎◌,
}
use xtap_pool.Labels.{Evidence, all_quotes_contain, substantive_tokens}

-- A text that another has in itself, verbatim.
abbrev pub IsWithin : Text → Text → Type 0
IsWithin needle s = (before : Text) × (after : Text) × (s ≡ before ++ (needle ++ after))

abbrev pub Some {ℓ} : {A : Type ℓ} → (A → Type 0) → List A → Type 0
Some P [] = ⊥
Some P (x ∷ xs) = P x ⊎ Some P xs

false_not_true : Path Bool false true → ⊥
false_not_true e = cc

starts : (s needle : Text) → starts_with s needle ≡ true → (after : Text) × (s ≡ needle ++ after)
unfolding starts_with
starts s [] h = (s, refl)
starts [] (p ∷ needle) h = absurd (false_not_true h)
starts (c ∷ s) (p ∷ needle) h =
    let same : eqb c p ≡ true = ground arith in
    let (after, e) = starts s needle (ground arith) in
    (after, rw ((eqb_iff c p).0 same) (ap (◌∷◌ p) e))

starts_with-append : (needle after : Text) → starts_with (needle ++ after) needle ≡ true
unfolding starts_with
starts_with-append [] after = refl
starts_with-append (c ∷ needle) after = rw ((eqb_iff c c).1 refl) (starts_with-append needle after)

pub includes-IsWithin : (s needle : Text) → includes s needle ≡ true → IsWithin needle s
unfolding includes
includes-IsWithin [] needle h = let (after, e) = starts [] needle h in ([], after, e)
includes-IsWithin (c ∷ s) needle h = elim (Bool-cases (starts_with (c ∷ s) needle)) [
  | inl here ↦ let (after, e) = starts (c ∷ s) needle here in ([], after, e)
  | inr other ↦
      let (before, after, e) = includes-IsWithin s needle (rw other at h) in
      (c ∷ before, after, ap (◌∷◌ c) e)
]

includes_of_starts : (s needle : Text) → starts_with s needle ≡ true → includes s needle ≡ true
unfolding includes
includes_of_starts [] needle h = h
includes_of_starts (c ∷ s) needle h = rw h

includes_at : (before needle after : Text) → includes (before ++ (needle ++ after)) needle ≡ true
unfolding includes
includes_at [] needle after =
    includes_of_starts (needle ++ after) needle (starts_with-append needle after)
includes_at (c ∷ before) needle after = ground (arith, includes_at before needle after)

includes_iff : (s needle : Text) → (includes s needle ≡ true) ↔ IsWithin needle s
includes_iff s needle = (
  includes-IsWithin s needle,
  λ (before, after, e). ap (λ t. includes t needle) e ∙ includes_at before needle after,
)

-- The quote has one of the words in it, apart from the case of its letters.
abbrev pub HasWord : List Text → Evidence → Type 0
HasWord required e = Some (λ word. IsWithin word (to_lower e.quote)) required

any_iff :
    (s : Text) (words : List Text)
    → (any (includes s) words ≡ true) ↔ Some (λ word. IsWithin word s) words
any_iff s [] = (λ h. absurd (false_not_true h), λ h. absurd h)
any_iff s (w ∷ words) = elim (Bool-cases (includes s w)) [
  | inl found ↦ (λ h. inl (includes-IsWithin s w found), λ h. rw found)
  | inr missing ↦ (
    λ h. inr ((any_iff s words).0 (rw missing at h)),
    λ h. elim h [
      | inl within ↦ absurd (false_not_true (sym missing ∙ (includes_iff s w).1 within))
      | inr later ↦ rw missing ((any_iff s words).1 later)
    ],
  )
]

pub all_quotes_contain_iff :
    (evidence : List Evidence) (required : List Text)
    → (all_quotes_contain evidence required ≡ true) ↔ All (HasWord required) evidence
unfolding all_quotes_contain
all_quotes_contain_iff [] required = (λ h. tt, λ h. refl)
all_quotes_contain_iff (e ∷ evidence) required =
    let first = any_iff (to_lower e.quote) required in
    let later = all_quotes_contain_iff evidence required in
    elim (Bool-cases (any (includes (to_lower e.quote)) required)) [
      | inl found ↦ (λ h. (first.0 found, later.0 (rw found at h)), λ h. rw found (later.1 h.1))
      | inr missing ↦ (
        λ h. absurd (false_not_true (rw missing at h)),
        λ h. absurd (false_not_true (sym missing ∙ first.1 h.0)),
      )
    ]

module _ (tokens : Text → ℕ) where
  -- A quote of at least three characters, apart from the space around it, with a token.
  abbrev pub IsSubstantive : Evidence → Type 0
  IsSubstantive e = (3 ≤ length (trim e.quote)) × (1 ≤ tokens (trim e.quote))

  pub substantive_tokens_iff :
      (evidence : List Evidence)
      → (1 ≤ substantive_tokens tokens evidence) ↔ Some IsSubstantive evidence
  unfolding substantive_tokens
  substantive_tokens_iff [] = (λ h. absurd (omega (arith, h)), λ h. absurd h)
  substantive_tokens_iff (e ∷ evidence) =
      let rest = substantive_tokens_iff evidence in
      elim (Bool-cases (ltb (length (trim e.quote)) 3)) [
        | inl short ↦ rw short (
          λ h. inr (rest.0 h),
          λ h. elim h [ inl here ↦ absurd (ground (arith, here)) | inr later ↦ rest.1 later ],
        )
        | inr long ↦ rw long (
          λ h. elim (Bool-cases (leb 1 (tokens (trim e.quote)))) [
            | inl some_token ↦ inl (ground arith, leb→le _ _ some_token)
            | inr no_token ↦ inr (rest.0 (ground arith))
          ],
          λ h. elim h [
            | inl here ↦ omega (arith, here.1)
            | inr later ↦ let more = rest.1 later in omega arith
          ],
        )
      ]
