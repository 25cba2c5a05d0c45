-- ===== src/Base/Sets.antt =====
-- Lists used as sets: `includes`, `[...new Set(xs)]`, and sorting.
use mathlib.Core.Path.{◌≡◌, refl, sym, ap, ◌∙◌}
use mathlib.Core.Bool.{Bool, true, false, ◌&&◌, ◌||◌, not}
use mathlib.Core.Logic.{inl, inr}
use mathlib.Core.List.{List, [], ◌∷◌, ◌++◌, append-nil}
use native.Mathlib.Omega.{arith}
use xtap_pool.Base.Tests.{eqb, Eq, ◌==◌, eq_of_==, ==_refl, Bool-cases}
use xtap_pool.Base.Lists.{
  length, length-filter-le, filter, filter-append, All, All-filter, all, all-filter,
}

module _ {ℓ} {A : Type ℓ} ⦃e : Eq A⦄ where
  -- `xs.includes(a)`, `new Set(xs).has(a)`.
  abbrev pub contains : List A → A → Bool
  contains [] a = false
  contains (x ∷ xs) a = x == a || contains xs a

  -- `[...new Set(xs)]`: the first of equal items stays, in order of insertion.
  abbrev pub dedup : List A → List A
  dedup [] = []
  dedup (x ∷ xs) = x ∷ filter (λ y. not (x == y)) (dedup xs)

  -- Whether no item occurs twice: `new Set(xs).size === xs.length`.
  abbrev pub unique : List A → Bool
  unique [] = true
  unique (x ∷ xs) = not (contains xs x) && unique xs

  pub contains-append :
      (xs ys : List A) (a : A) → contains (xs ++ ys) a ≡ (contains xs a || contains ys a)
  contains-append [] ys a = refl
  contains-append (x ∷ xs) ys a = ground (arith, contains-append xs ys a)

  pub contains-filter_ne :
      (x : A) (xs : List A) (a : A)
      → contains (filter (λ y. not (x == y)) xs) a ≡ (not (x == a) && contains xs a)
  contains-filter_ne x [] a = ground arith
  contains-filter_ne x (y ∷ ys) a =
      ground (arith, contains-filter_ne x ys a, e.beq_iff x y, e.beq_iff y a, e.beq_iff x a)

  pub contains-dedup : (xs : List A) (a : A) → contains (dedup xs) a ≡ contains xs a
  contains-dedup [] a = refl
  contains-dedup (x ∷ xs) a = ground (arith, contains-filter_ne x (dedup xs) a, contains-dedup xs a)

  -- A filter whose test does not tell equal items apart.
  pub contains-filter :
      (p : A → Bool) (xs : List A) (a : A) → contains (filter p xs) a ≡ (p a && contains xs a)
  contains-filter p [] a = ground arith
  contains-filter p (x ∷ xs) a = elim (Bool-cases (x == a)) [
    | inl same ↦ let q = eq_of_== x a same in ground (arith, contains-filter p xs a, ap p q)
    | inr other ↦ ground (arith, contains-filter p xs a)
  ]

  filter-unique : (p : A → Bool) (xs : List A) → unique xs ≡ true → unique (filter p xs) ≡ true
  filter-unique p [] h = refl
  filter-unique p (x ∷ xs) h = ground (arith, filter-unique p xs, contains-filter p xs x)

  pub unique-filter : (p : A → Bool) (xs : List A) → unique xs ≡ true → unique (filter p xs) ≡ true
  unique-filter p xs h = filter-unique p xs h

  pub unique-dedup : (xs : List A) → unique (dedup xs) ≡ true
  unique-dedup [] = refl
  unique-dedup (x ∷ xs) = ground (
    arith,
    unique-filter (λ y. not (x == y)) (dedup xs) (unique-dedup xs),
    contains-filter_ne x (dedup xs) x,
    ==_refl x,
  )

  filter-ne_of_absent :
      (x : A) (xs : List A) → contains xs x ≡ false → filter (λ y. not (x == y)) xs ≡ xs
  filter-ne_of_absent x [] h = refl
  filter-ne_of_absent x (y ∷ ys) h =
      ground (arith, filter-ne_of_absent x ys, e.beq_iff x y, e.beq_iff y x)

  -- A list without repetition is its own set.
  pub dedup_of_unique : (xs : List A) → unique xs ≡ true → dedup xs ≡ xs
  dedup_of_unique [] h = refl
  dedup_of_unique (x ∷ xs) h = ground (arith, dedup_of_unique xs, filter-ne_of_absent x xs)

  pub All_of_contains {κ} :
      (P : A → Type κ) (xs : List A) → ((a : A) → contains xs a ≡ true → P a) → All P xs
  All_of_contains P [] h = tt
  All_of_contains P (x ∷ xs) h =
      (h x (ground (arith, ==_refl x)), All_of_contains P xs (λ a k. h a (ground arith)))

  pub contains-All {κ} :
      (P : A → Type κ) (xs : List A) (a : A) → All P xs → contains xs a ≡ true → P a
  contains-All P [] a h k = cc
  contains-All P (x ∷ xs) a h k = elim (Bool-cases (x == a)) [
    | inl same ↦ let q = eq_of_== x a same in rw q at h.0
    | inr other ↦ contains-All P xs a h.1 (ground arith)
  ]

  -- No item of the second list is in the first.
  abbrev pub disjoint : List A → List A → Bool
  disjoint seen [] = true
  disjoint seen (x ∷ xs) = not (contains seen x) && disjoint seen xs

  pub disjoint-nil : (xs : List A) → disjoint [] xs ≡ true
  disjoint-nil [] = refl
  disjoint-nil (x ∷ xs) = disjoint-nil xs

  pub disjoint-cons :
      (s : A) (seen xs : List A)
      → disjoint (s ∷ seen) xs ≡ (not (contains xs s) && disjoint seen xs)
  disjoint-cons s seen [] = ground arith
  disjoint-cons s seen (x ∷ xs) =
      ground (arith, disjoint-cons s seen xs, e.beq_iff s x, e.beq_iff x s)

  pub unique-append :
      (xs ys : List A) → unique (xs ++ ys) ≡ (unique xs && unique ys && disjoint xs ys)
  unique-append [] ys = ground (arith, disjoint-nil ys)
  unique-append (x ∷ xs) ys =
      ground (arith, unique-append xs ys, contains-append xs ys x, disjoint-cons x xs ys)

  pub disjoint_of :
      (xs ys : List A)
      → ((y : A) → contains ys y ≡ true → contains xs y ≡ false)
      → disjoint xs ys ≡ true
  disjoint_of xs [] h = refl
  disjoint_of xs (y ∷ ys) h =
      let here = h y (ground (arith, ==_refl y)) in
      let later = disjoint_of xs ys (λ z k. h z (ground arith)) in ground arith

  pub not_contains_of_disjoint :
      (xs ys : List A) (y : A)
      → disjoint xs ys ≡ true
      → contains ys y ≡ true
      → contains xs y ≡ false
  not_contains_of_disjoint xs [] y h k = cc
  not_contains_of_disjoint xs (z ∷ ys) y h k =
      ground (arith, not_contains_of_disjoint xs ys y, e.beq_iff z y)

  disjoint-swap : (xs ys : List A) → disjoint xs ys ≡ true → disjoint ys xs ≡ true
  disjoint-swap xs ys h = disjoint_of ys xs (λ x k. elim (Bool-cases (contains ys x)) [
    | inl both ↦ absurd (ground (arith, not_contains_of_disjoint xs ys x h both))
    | inr only ↦ only
  ])

  pub unique-swap : (xs ys : List A) → unique (xs ++ ys) ≡ true → unique (ys ++ xs) ≡ true
  unique-swap xs ys h =
      ground (arith, unique-append xs ys, unique-append ys xs, disjoint-swap xs ys)

  not_seen-cons :
      (x : A) (xs zs : List A)
      → filter (λ z. not (x == z)) (filter (λ z. not (contains xs z)) zs)
        ≡ filter (λ z. not (contains (x ∷ xs) z)) zs
  not_seen-cons x xs [] = refl
  not_seen-cons x xs (z ∷ zs) = ground (arith, not_seen-cons x xs zs)

  dedup-append :
      (xs ys : List A)
      → unique xs ≡ true
      → dedup (xs ++ ys) ≡ xs ++ filter (λ z. not (contains xs z)) (dedup ys)
  dedup-append [] ys h = sym (filter_true (dedup ys))
    where
      filter_true : (zs : List A) → filter (λ z. true) zs ≡ zs
      filter_true [] = refl
      filter_true (z ∷ zs) = ap (◌∷◌ z) (filter_true zs)
  dedup-append (x ∷ xs) ys h =
      let rest = dedup-append xs ys (ground arith) in
      let new = filter (λ z. not (contains xs z)) (dedup ys) in
      ap (◌∷◌ x) (
        rw (rest, filter-append (λ z. not (x == z)) xs new, filter-ne_of_absent x xs (ground arith))
          (ap (◌++◌ xs) (not_seen-cons x xs (dedup ys))))

  none_new :
      (xs zs : List A)
      → ((z : A) → contains zs z ≡ true → contains xs z ≡ true)
      → filter (λ z. not (contains xs z)) zs ≡ []
  none_new xs [] h = refl
  none_new xs (z ∷ zs) h =
      let here = h z (ground (arith, ==_refl z)) in
      let later = none_new xs zs (λ y k. h y (ground arith)) in ground arith

  -- Items that are all there add nothing.
  pub dedup-append_covered :
      (xs ys : List A)
      → unique xs ≡ true
      → ((z : A) → contains ys z ≡ true → contains xs z ≡ true)
      → dedup (xs ++ ys) ≡ xs
  dedup-append_covered xs ys u h =
      dedup-append xs ys u
      ∙ rw (none_new xs (dedup ys) (λ z k. h z (sym (contains-dedup ys z) ∙ k))) (append-nil xs)

  pub All-dedup {κ} : (P : A → Type κ) (xs : List A) → All P xs → All P (dedup xs)
  All-dedup P [] h = tt
  All-dedup P (x ∷ xs) h = (h.0, All-filter P (λ y. not (x == y)) (dedup xs) (All-dedup P xs h.1))

  -- Where leaving an item out changes no length, it was not there.
  pub absent_of_length :
      (u : A) (xs : List A)
      → eqb (length (filter (λ m. not (m == u)) xs)) (length xs) ≡ true
      → contains xs u ≡ false
  absent_of_length u [] h = refl
  absent_of_length u (x ∷ xs) h =
      ground (arith, absent_of_length u xs, length-filter-le (λ m. not (m == u)) xs)

pub all-dedup {ℓ} :
    {A : Type ℓ} ⦃e : Eq A⦄ (q : A → Bool) (xs : List A) → all q xs ≡ true → all q (dedup xs) ≡ true
all-dedup q [] h = refl
all-dedup q (x ∷ xs) h =
    let rest = all-filter q (λ y. not (x == y)) (dedup xs) (all-dedup q xs (ground arith)) in
    ground arith
