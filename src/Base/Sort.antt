-- ===== src/Base/Sort.antt =====
-- `Array.prototype.sort` by a total preorder: stable, so it is insertion sort.
use mathlib.Core.Path.{◌≡◌, refl, ◌∙◌}
use mathlib.Core.Bool.{Bool, true, false, ◌&&◌, ◌||◌}
use mathlib.Core.List.{List, [], ◌∷◌, map}
use native.Mathlib.Omega.{arith}
use mathlib.Core.Logic.{inl, inr}
use xtap_pool.Base.Tests.{Bool-cases, Eq, eq_of_==, if◌then◌else◌, nat_eq, ◌==◌}
use xtap_pool.Base.Lists.{All, All-map, all, filter}
use xtap_pool.Base.Sets.{contains, unique}

module _ {ℓ} {A : Type ℓ} (le : A → A → Bool) where
  -- After every item that is not above it, so that equal items keep their order.
  abbrev pub insert : A → List A → List A
  insert a [] = a ∷ []
  insert a (x ∷ xs) = if le a x then a ∷ x ∷ xs else x ∷ insert a xs

  abbrev pub sort : List A → List A
  sort [] = []
  sort (x ∷ xs) = insert x (sort xs)

  abbrev le_head : A → List A → Bool
  le_head a [] = true
  le_head a (x ∷ xs) = le a x

  -- Each item is not above the next.
  abbrev pub sorted : List A → Bool
  sorted [] = true
  sorted (x ∷ xs) = le_head x xs && sorted xs

  sorted-insert :
      (total : (a b : A) → le a b ≡ false → le b a ≡ true) (a : A) (xs : List A)
      → sorted xs ≡ true
      → sorted (insert a xs) ≡ true
  sorted-insert total a [] h = refl
  sorted-insert total a (x ∷ []) h = ground (arith, total a x)
  sorted-insert total a (x ∷ y ∷ ys) h = ground (arith, total a x, sorted-insert total a (y ∷ ys))

  pub sorted-sort :
      (total : (a b : A) → le a b ≡ false → le b a ≡ true) (xs : List A) → sorted (sort xs) ≡ true
  sorted-sort total [] = refl
  sorted-sort total (x ∷ xs) = sorted-insert total x (sort xs) (sorted-sort total xs)

  insert_of_sorted : (x : A) (xs : List A) → sorted (x ∷ xs) ≡ true → insert x xs ≡ x ∷ xs
  insert_of_sorted x [] h = refl
  insert_of_sorted x (y ∷ ys) h = ground arith

  -- A sorted list is left as it is.
  pub sort_of_sorted : (xs : List A) → sorted xs ≡ true → sort xs ≡ xs
  sort_of_sorted [] h = refl
  sort_of_sorted (x ∷ xs) h = rw (sort_of_sorted xs (ground arith)) (insert_of_sorted x xs h)

  module _ ⦃e : Eq A⦄ where
    contains-insert :
        (a : A) (xs : List A) (b : A) → contains (insert a xs) b ≡ (a == b || contains xs b)
    contains-insert a [] b = refl
    contains-insert a (x ∷ xs) b = ground (arith, contains-insert a xs b)

    -- Sorting keeps the items.
    pub contains-sort : (xs : List A) (b : A) → contains (sort xs) b ≡ contains xs b
    contains-sort [] b = refl
    contains-sort (x ∷ xs) b = contains-insert x (sort xs) b ∙ ground (arith, contains-sort xs b)

    unique-insert :
        (a : A) (xs : List A)
        → contains xs a ≡ false
        → unique xs ≡ true
        → unique (insert a xs) ≡ true
    unique-insert a [] h k = refl
    unique-insert a (x ∷ xs) h k =
        ground (arith, unique-insert a xs, contains-insert a xs x, e.beq_iff a x, e.beq_iff x a)

    pub unique-sort : (xs : List A) → unique xs ≡ true → unique (sort xs) ≡ true
    unique-sort [] h = refl
    unique-sort (x ∷ xs) h =
        unique-insert x (sort xs) (contains-sort xs x ∙ ground arith)
          (unique-sort xs (ground arith))

  module _ (trans : (a b c : A) → le a b ≡ true → le b c ≡ true → le a c ≡ true) where
    le_head-filter :
        (p : A → Bool) (a : A) (xs : List A)
        → sorted (a ∷ xs) ≡ true
        → le_head a (filter p xs) ≡ true
    le_head-filter p a [] h = refl
    le_head-filter p a (x ∷ []) h = ground arith
    le_head-filter p a (x ∷ y ∷ ys) h = ground (arith, trans a x y, le_head-filter p a (y ∷ ys))

    -- The first item of a sorted list is below every other.
    pub sorted-head_le :
        ⦃e : Eq A⦄ (x : A) (xs : List A) (a : A)
        → sorted (x ∷ xs) ≡ true
        → contains xs a ≡ true
        → le x a ≡ true
    sorted-head_le x [] a h k = cc
    sorted-head_le ⦃e⦄ x (y ∷ ys) a h k = elim (Bool-cases (y == a)) [
      | inl here ↦ let same = eq_of_== y a here in rw (← same) (ground arith)
      | inr there ↦
          let next : contains ys a ≡ true = ground arith in
          trans x y a (ground arith) (sorted-head_le y ys a (ground arith) next)
    ]

    pub sorted-filter :
        (p : A → Bool) (xs : List A) → sorted xs ≡ true → sorted (filter p xs) ≡ true
    sorted-filter p [] h = refl
    sorted-filter p (x ∷ xs) h = ground (arith, le_head-filter p x xs, sorted-filter p xs)

module _ {ℓ} {A : Type ℓ} where
  all-insert :
      (le : A → A → Bool) (q : A → Bool) (a : A) (xs : List A)
      → all q (insert le a xs) ≡ (q a && all q xs)
  all-insert le q a [] = refl
  all-insert le q a (x ∷ xs) = ground (arith, all-insert le q a xs)

  pub all-sort : (le : A → A → Bool) (q : A → Bool) (xs : List A) → all q (sort le xs) ≡ all q xs
  all-sort le q [] = refl
  all-sort le q (x ∷ xs) = all-insert le q x (sort le xs) ∙ ground (arith, all-sort le q xs)

  map-insert {κ} :
      {B : Type κ} (le : B → B → Bool) (f : A → B) (a : A) (xs : List A)
      → map f (insert (λ x y. le (f x) (f y)) a xs) ≡ insert le (f a) (map f xs)
  map-insert le f a [] = refl
  map-insert le f a (x ∷ xs) = ground (arith, map-insert le f a xs)

  -- Sorting by a key sorts the keys.
  pub map-sort {κ} :
      {B : Type κ} (le : B → B → Bool) (f : A → B) (xs : List A)
      → map f (sort (λ x y. le (f x) (f y)) xs) ≡ sort le (map f xs)
  map-sort le f [] = refl
  map-sort le f (x ∷ xs) =
      map-insert le f x (sort (λ x y. le (f x) (f y)) xs) ∙ rw (map-sort le f xs)

  All-insert {κ} :
      (le : A → A → Bool) (P : A → Type κ) (a : A) (xs : List A)
      → P a
      → All P xs
      → All P (insert le a xs)
  All-insert le P a [] p h = (p, tt)
  All-insert le P a (x ∷ xs) p h = ground (arith, All-insert le P a xs p h.1)

  pub All-sort {κ} :
      (le : A → A → Bool) (P : A → Type κ) (xs : List A) → All P xs → All P (sort le xs)
  All-sort le P [] h = tt
  All-sort le P (x ∷ xs) h = All-insert le P x (sort le xs) h.0 (All-sort le P xs h.1)

-- Sorting does not change which images of the items occur, nor that they differ.
module _ {ℓ κ} {A : Type ℓ} {B : Type κ} ⦃e : Eq B⦄ (le : A → A → Bool) (f : A → B) where
  contains-map-insert :
      (a : A) (xs : List A) (b : B)
      → contains (map f (insert le a xs)) b ≡ (f a == b || contains (map f xs) b)
  contains-map-insert a [] b = refl
  contains-map-insert a (x ∷ xs) b = ground (arith, contains-map-insert a xs b)

  pub contains-map-sort :
      (xs : List A) (b : B) → contains (map f (sort le xs)) b ≡ contains (map f xs) b
  contains-map-sort [] b = refl
  contains-map-sort (x ∷ xs) b =
      contains-map-insert x (sort le xs) b ∙ ground (arith, contains-map-sort xs b)

  unique-map-insert :
      (a : A) (xs : List A)
      → contains (map f xs) (f a) ≡ false
      → unique (map f xs) ≡ true
      → unique (map f (insert le a xs)) ≡ true
  unique-map-insert a [] h k = refl
  unique-map-insert a (x ∷ xs) h k = ground (
    arith,
    unique-map-insert a xs,
    contains-map-insert a xs (f x),
    e.beq_iff (f a) (f x),
    e.beq_iff (f x) (f a),
  )

  pub unique-map-sort :
      (xs : List A) → unique (map f xs) ≡ true → unique (map f (sort le xs)) ≡ true
  unique-map-sort [] h = refl
  unique-map-sort (x ∷ xs) h =
      unique-map-insert x (sort le xs) (contains-map-sort xs (f x) ∙ ground arith)
        (unique-map-sort xs (ground arith))

-- Sorting by tests that agree on the items is the same.
module _ {ℓ} {A : Type ℓ} (le le' : A → A → Bool) where
  insert_congr :
      (a : A) (xs : List A) → All (λ x. le a x ≡ le' a x) xs → insert le a xs ≡ insert le' a xs
  insert_congr a [] h = refl
  insert_congr a (x ∷ xs) h = rw (h.0, insert_congr a xs h.1) refl

  pub sort_congr :
      (xs : List A) → All (λ a. All (λ x. le a x ≡ le' a x) xs) xs → sort le xs ≡ sort le' xs
  sort_congr [] h = refl
  sort_congr (x ∷ xs) h =
      let rest = sort_congr xs (All-map (λ a k. k.1) xs h.1) in
      rw rest (insert_congr x (sort le' xs) (All-sort le' _ xs h.0.1))
