-- ===== src/Base/Maps.antt =====
-- A `Map` with texts as keys: its entries, in order of insertion.
use mathlib.Core.Path.{◌≡◌, refl}
use mathlib.Core.Bool.{true, false, not, ◌||◌}
use mathlib.Core.List.{List, [], ◌∷◌}
use mathlib.Core.Option.{Option, none, some}
use native.Mathlib.Omega.{arith}
use mathlib.Core.Logic.{inl, inr}
use mathlib.Core.Option
use xtap_pool.Base.Tests.{Bool-cases, if◌then◌else◌, nat_eq}
use xtap_pool.Base.Lists.{All, All-filter, filter}
use xtap_pool.Base.Texts.{Text, text_beq, text_beq_iff, text_eq}
use xtap_pool.Base.Sets.{contains, unique}

-- `Map.get`.
unfoldable pub get : {A : Type 0} → List (Text × A) → Text → Option A
unfolding text_beq
get [] key = none
get (entry ∷ entries) key =
    let rest = get entries key in if text_beq entry.0 key then some entry.1 else rest

-- `Map.set`: a key that is there keeps its place.
unfoldable pub put : {A : Type 0} → List (Text × A) → Text → A → List (Text × A)
unfolding text_beq
put [] key a = (key, a) ∷ []
put (entry ∷ entries) key a =
    let rest = put entries key a in
    if text_beq entry.0 key then (entry.0, a) ∷ entries else entry ∷ rest

-- `Map.delete`.
unfoldable pub delete : {A : Type 0} → List (Text × A) → Text → List (Text × A)
unfolding text_beq
delete {A} entries key = filter (λ (entry : Text × A). not (text_beq entry.0 key)) entries

-- `[...map.values()]`.
unfoldable pub values : {A : Type 0} → List (Text × A) → List A
values [] = []
values (entry ∷ entries) = entry.1 ∷ values entries

-- `[...map.keys()]`.
unfoldable pub keys : {A : Type 0} → List (Text × A) → List Text
keys [] = []
keys (entry ∷ entries) = entry.0 ∷ keys entries

-- `new Map(items.map((item) => [key(item), item]))` on top of a map.
unfoldable pub put_all : {A : Type 0} → (A → Text) → List (Text × A) → List A → List (Text × A)
unfolding put
put_all key entries [] = entries
put_all key entries (a ∷ items) = put_all key (put entries (key a) a) items

module _ {A : Type 0} where
  pub get-put :
      (m : List (Text × A)) (k : Text) (a : A) (j : Text)
      → get (put m k a) j ≡ (if text_beq k j then some a else get m j)
  unfolding get put
  get-put [] k a j = refl
  get-put (e ∷ m) k a j =
      ground (arith, get-put m k a j, text_beq_iff e.0 k, text_beq_iff e.0 j, text_beq_iff k j)

  pub get-put_self : (m : List (Text × A)) (k : Text) (a : A) → get (put m k a) k ≡ some a
  get-put_self m k a = ground (arith, get-put m k a k, text_beq_iff k k)

  pub All-put {κ} :
      (P : Text × A → Type κ) (m : List (Text × A)) (k : Text) (a : A)
      → All P m
      → P (k, a)
      → All P (put m k a)
  unfolding put
  All-put P [] k a h p = (p, tt)
  All-put P (e ∷ m) k a h p = elim (Bool-cases (text_beq e.0 k)) [
    | inl same ↦ rw same (rw (← (text_beq_iff e.0 k).0 same) at p, h.1)
    | inr other ↦ rw other (h.0, All-put P m k a h.1 p)
  ]

  pub get-All {κ} :
      (P : Text × A → Type κ) (m : List (Text × A)) (k : Text) (a : A)
      → All P m
      → get m k ≡ some a
      → P (k, a)
  unfolding get
  get-All P [] k a h e = cc
  get-All P (x ∷ m) k a h e = elim (Bool-cases (text_beq x.0 k)) [
    | inl same ↦
        let here : some x.1 ≡ some a = rw same at e in
        let value = Option.some-injective _ _ here in
        rw (← (text_beq_iff x.0 k).0 same, ← value) h.0
    | inr other ↦ get-All P m k a h.1 (rw other at e)
  ]

  pub All-delete {κ} :
      (P : Text × A → Type κ) (m : List (Text × A)) (k : Text) → All P m → All P (delete m k)
  unfolding delete
  All-delete P m k h = All-filter P _ m h

  pub All-put_all {κ} :
      (P : Text × A → Type κ) (key : A → Text) (m : List (Text × A)) (items : List A)
      → ((a : A) → P (key a, a))
      → All P m
      → All P (put_all key m items)
  unfolding put_all
  All-put_all P key m [] f h = h
  All-put_all P key m (a ∷ items) f h =
      All-put_all P key (put m (key a) a) items f (All-put P m (key a) a h (f a))

  contains-keys-put :
      (m : List (Text × A)) (k : Text) (a : A) (j : Text)
      → contains (keys (put m k a)) j ≡ (text_beq k j || contains (keys m) j)
  unfolding keys put
  contains-keys-put [] k a j = refl
  contains-keys-put (e ∷ m) k a j =
      ground (arith, contains-keys-put m k a j, text_beq_iff e.0 k, text_beq_iff k e.0)

  -- The keys of a map stay distinct.
  pub unique-keys-put :
      (m : List (Text × A)) (k : Text) (a : A)
      → unique (keys m) ≡ true
      → unique (keys (put m k a)) ≡ true
  unfolding keys put
  unique-keys-put [] k a h = refl
  unique-keys-put (e ∷ m) k a h = ground (
    arith,
    unique-keys-put m k a,
    contains-keys-put m k a e.0,
    text_beq_iff e.0 k,
    text_beq_iff k e.0,
  )

  pub get_of_absent :
      (m : List (Text × A)) (k : Text) → contains (keys m) k ≡ false → get m k ≡ none
  unfolding keys get
  get_of_absent [] k h = refl
  get_of_absent (e ∷ m) k h = ground (arith, get_of_absent m k)
