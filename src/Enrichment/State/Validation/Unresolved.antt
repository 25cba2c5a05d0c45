-- ===== src/Enrichment/State/Validation/Unresolved.antt =====
-- The loops over retrying and blocked records, against what they are to check.
use mathlib.Core.List.{reverse_aux}
use xtap_pool.Base.{
  All, Bool, List, [], arith, contains, disjoint, disjoint-cons, disjoint-nil, false, guard-eq-ok,
  is_safe, nat_eq, not, ok, refl, text_eq, true, unique, ℕ, ◌&&◌, ◌++◌, ◌<◌, ◌∷◌, ◌≡◌,
}
use xtap_pool.Enrichment.Bitmap.{is_completed}
use xtap_pool.Enrichment.State.{StateError, in_plan}
use xtap_pool.Enrichment.State.Validation.{check_unresolved}

-- Every ordinal is one of the plan's and is not completed.
abbrev pub AreOpen : List ℕ → ℕ → List ℕ → Type 0
AreOpen bm total = All (λ o. (o < total) × (is_completed bm o ≡ false))

abbrev pub fresh : List ℕ → List ℕ → Bool
fresh seen [] = true
fresh seen (o ∷ os) = not (contains seen o) && fresh (o ∷ seen) os

pub fresh-append :
    (seen os ps : List ℕ)
    → fresh seen (os ++ ps) ≡ (fresh seen os && fresh (reverse_aux os seen) ps)
fresh-append seen [] ps = refl
fresh-append seen (o ∷ os) ps = ground (arith, fresh-append (o ∷ seen) os ps)

fresh-disjoint : (seen os : List ℕ) → fresh seen os ≡ (unique os && disjoint seen os)
fresh-disjoint seen [] = refl
fresh-disjoint seen (o ∷ os) = ground (arith, fresh-disjoint (o ∷ seen) os, disjoint-cons o seen os)

pub fresh-unique : (os : List ℕ) → fresh [] os ≡ unique os
fresh-unique os = ground (arith, fresh-disjoint [] os, disjoint-nil os)

-- The two loops together leave no ordinal twice.
pub unique_of_fresh :
    (rs bs seen : List ℕ)
    → fresh [] rs ≡ true
    → seen ≡ reverse_aux rs []
    → fresh seen bs ≡ true
    → unique (rs ++ bs) ≡ true
unique_of_fresh rs bs seen h e k =
    let k' : fresh (reverse_aux rs []) bs ≡ true = rw e at k in
    ground (arith, fresh-unique (rs ++ bs), fresh-append [] rs bs)

module _ (outside completed repeated : StateError) (bm : List ℕ) (total : ℕ) where
  pub check_ok :
      (seen os : List ℕ)
      → is_safe total ≡ true
      → AreOpen bm total os
      → fresh seen os ≡ true
      → check_unresolved outside completed repeated bm total seen os ≡ ok (reverse_aux os seen)
  unfolding check_unresolved
  check_ok seen [] small open_ new = refl
  check_ok seen (o ∷ os) small open_ new = ground (arith, check_ok (o ∷ seen) os small open_.1)

  pub check_sound :
      (seen os : List ℕ) {t : List ℕ}
      → check_unresolved outside completed repeated bm total seen os ≡ ok t
      → AreOpen bm total os × (fresh seen os ≡ true) × (t ≡ reverse_aux os seen)
  unfolding check_unresolved
  check_sound seen [] h = (tt, refl, ground arith)
  check_sound seen (o ∷ os) {t} h =
      let (within, h₁) = guard-eq-ok (in_plan o total) outside _ h in
      let (miss, h₂) = guard-eq-ok (not (is_completed bm o)) completed _ h₁ in
      let (new, h₃) = guard-eq-ok (not (contains seen o)) repeated _ h₂ in
      let (open_, rest, same) = check_sound (o ∷ seen) os {t = t} h₃ in
      (((ground arith, ground arith), open_), ground arith, same)
