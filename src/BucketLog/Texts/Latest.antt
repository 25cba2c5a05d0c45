-- ===== src/BucketLog/Texts/Latest.antt =====
-- The latest write of a path does not depend on the order in which the segments are read, and in
-- the order of their writes it is the last one.
use mathlib.Core.Option
use xtap_pool.Base.{
  ==_of_eq, Bool, Bool-cases, List, Option, Text, [], ap, arith, contains, contains-map-sort, false,
  if◌then◌else◌, inl, inr, insert, map, nat_eq, none, not, refl, some, sort, sym, text_eq,
  text_le_antisym, text_le_refl, text_le_total, text_le_trans, true, unique, ◌==◌, ◌∙◌, ◌∷◌, ◌≡◌,
  ◌≢◌,
}
use xtap_pool.BucketLog.{Operation, append, write}
use xtap_pool.BucketLog.Texts.{
  Entry, is_later, later_of, latest_from, latest_in_operations, order_of,
}

-- The write of a path in a segment, with its order: the first, as its paths differ.
unfoldable pub first_write : Text → Text → List Operation → Option (Text × Text)
first_write p order [] = none
first_write p order (append q lines ∷ operations) = first_write p order operations
first_write p order (write q content ∷ operations) =
    let rest = first_write p order operations in if q == p then some (order, content) else rest

abbrev pub write_in : Text → Entry → Option (Text × Text)
write_in p e = first_write p (order_of e) e.1.operations

-- The last write of a path, or what was there before.
unfoldable pub last_in : Text → Option Text → List Operation → Option Text
last_in p value [] = value
last_in p value (append q lines ∷ operations) = last_in p value operations
last_in p value (write q content ∷ operations) =
    last_in p (if q == p then some content else value) operations

unfoldable pub last_value : Text → Option Text → List Entry → Option Text
unfolding last_in
last_value p value [] = value
last_value p value (e ∷ entries) = last_value p (last_in p value e.1.operations) entries

earlier_lem :
    (p order : Text) (latest : Option (Text × Text)) (operations : List Operation)
    → is_later order latest ≡ false
    → latest_in_operations p order latest operations ≡ latest
unfolding latest_in_operations
earlier_lem p order latest [] h = refl
earlier_lem p order latest (append q lines ∷ operations) h = earlier_lem p order latest operations h
earlier_lem p order latest (write q content ∷ operations) h = elim (Bool-cases (q == p)) [
  | inl same ↦ rw (same, h) (earlier_lem p order latest operations h)
  | inr other ↦ rw other (earlier_lem p order latest operations h)
]

-- The loop over the operations of a segment takes its write, if that is later.
latest_in_lem :
    (p order : Text) (latest : Option (Text × Text)) (operations : List Operation)
    → latest_in_operations p order latest operations
      ≡ later_of latest (first_write p order operations)
unfolding latest_in_operations first_write
latest_in_lem p order latest [] = refl
latest_in_lem p order latest (append q lines ∷ operations) = latest_in_lem p order latest operations
latest_in_lem p order latest (write q content ∷ operations) = elim (Bool-cases (q == p)) [
  | inr other ↦ rw other (latest_in_lem p order latest operations)
  | inl same ↦ elim (Bool-cases (is_later order latest)) [
    | inl later ↦
        rw (same, later)
          (earlier_lem p order (some (order, content)) operations (ap not (text_le_refl order)))
    | inr earlier ↦ rw (same, earlier) (earlier_lem p order latest operations earlier)
  ]
]

-- Two writes of different orders may be taken in either order.
abbrev Differ : Option (Text × Text) → Option (Text × Text) → Type 0
Differ (some a) (some b) = a.0 ≢ b.0
Differ _ _ = Unit

later_of_comm :
    (latest a b : Option (Text × Text))
    → Differ a b
    → later_of (later_of latest a) b ≡ later_of (later_of latest b) a
later_of_comm latest none none h = refl
later_of_comm latest none (some b) h = refl
later_of_comm latest (some a) none h = refl
later_of_comm none (some a) (some b) h =
    ground (arith, text_le_total a.0 b.0, text_le_total b.0 a.0, text_le_antisym a.0 b.0)
later_of_comm (some c) (some a) (some b) h = ground (
  arith,
  text_le_total a.0 b.0,
  text_le_total b.0 a.0,
  text_le_antisym a.0 b.0,
  text_le_trans a.0 b.0 c.0,
  text_le_trans b.0 a.0 c.0,
)

pub first_write-order :
    (p order : Text) (operations : List Operation) (w : Text × Text)
    → first_write p order operations ≡ some w
    → w.0 ≡ order
unfolding first_write
first_write-order p order [] w h = cc
first_write-order p order (append q lines ∷ operations) w h =
    first_write-order p order operations w h
first_write-order p order (write q content ∷ operations) w h = elim (Bool-cases (q == p)) [
  | inl same ↦
      let here : some (order, content) ≡ some w = rw same at h in
      ap (λ (x : Text × Text). x.0) (sym (Option.some-injective _ _ here))
  | inr other ↦ first_write-order p order operations w (rw other at h)
]

Differ-orders :
    (a b : Option (Text × Text)) (o u : Text)
    → ((w : Text × Text) → a ≡ some w → w.0 ≡ o)
    → ((w : Text × Text) → b ≡ some w → w.0 ≡ u)
    → o ≢ u
    → Differ a b
Differ-orders none b o u f g h = tt
Differ-orders (some a) none o u f g h = tt
Differ-orders (some a) (some b) o u f g h = λ e. h (sym (f a refl) ∙ e ∙ g b refl)

-- The segments of two orders may be read in either order.
entries_swap :
    (p : Text) (latest : Option (Text × Text)) (e x : Entry)
    → order_of e ≢ order_of x
    → later_of (later_of latest (write_in p e)) (write_in p x)
      ≡ later_of (later_of latest (write_in p x)) (write_in p e)
entries_swap p latest e x h = later_of_comm latest (write_in p e) (write_in p x) (
    Differ-orders (write_in p e) (write_in p x) (order_of e) (order_of x)
      (first_write-order p (order_of e) e.1.operations)
      (first_write-order p (order_of x) x.1.operations) h)

pub latest_from-cons :
    (p : Text) (latest : Option (Text × Text)) (e : Entry) (entries : List Entry)
    → latest_from p latest (e ∷ entries) ≡ latest_from p (later_of latest (write_in p e)) entries
unfolding latest_from
latest_from-cons p latest e entries =
    ap (λ a. latest_from p a entries) (latest_in_lem p (order_of e) latest e.1.operations)

module _ (le : Entry → Entry → Bool) (p : Text) where
  latest_from-insert :
      (latest : Option (Text × Text)) (e : Entry) (entries : List Entry)
      → contains (map order_of entries) (order_of e) ≡ false
      → latest_from p latest (insert le e entries) ≡ latest_from p latest (e ∷ entries)
  latest_from-insert latest e [] h = refl
  latest_from-insert latest e (x ∷ entries) h = elim (Bool-cases (le e x)) [
    | inl below ↦ rw below refl
    | inr above ↦
        let apart : order_of e ≢ order_of x =
          λ same. ground (arith, h, ==_of_eq (order_of x) (order_of e) (sym same)) in
        let rest =
          latest_from-insert (later_of latest (write_in p x)) e entries (ground (arith, h)) in
        rw above (
          latest_from-cons p latest x (insert le e entries)
          ∙ rest
          ∙ latest_from-cons p (later_of latest (write_in p x)) e entries
          ∙ ap (λ a. latest_from p a entries) (sym (entries_swap p latest e x apart))
          ∙ sym (latest_from-cons p (later_of latest (write_in p e)) x entries)
          ∙ sym (latest_from-cons p latest e (x ∷ entries)))
  ]

  -- The latest write is the same, however the segments are sorted.
  pub latest_from-sort :
      (latest : Option (Text × Text)) (entries : List Entry)
      → unique (map order_of entries) ≡ true
      → latest_from p latest (sort le entries) ≡ latest_from p latest entries
  latest_from-sort latest [] h = refl
  latest_from-sort latest (e ∷ entries) h =
      let absent : contains (map order_of entries) (order_of e) ≡ false = ground (arith, h) in
      latest_from-insert latest e (sort le entries)
        (contains-map-sort le order_of entries (order_of e) ∙ absent)
      ∙ latest_from-cons p latest e (sort le entries)
      ∙ latest_from-sort (later_of latest (write_in p e)) entries (ground (arith, h))
      ∙ sym (latest_from-cons p latest e entries)
