-- ===== src/BucketLog/Texts/Last.antt =====
-- In the order of the writes the latest write is the last one, which is what the cache keeps.
use mathlib.Core.Path.{subst}
use xtap_pool.Base.{
  All, Bool-cases, List, Option, Text, [], ap, arith, contains, eq_of_==, false, get, get-put, inl,
  inr, keys, map, nat_eq, none, put, refl, some, sorted, sym, text_beq_iff, text_eq, text_le,
  text_le_antisym, text_le_trans, true, unique, unique-keys-put, ◌==◌, ◌∙◌, ◌∷◌, ◌≡◌,
}
use xtap_pool.BucketLog.{Operation, append, path, write}
use xtap_pool.BucketLog.Texts.{
  Entry, is_later, later_of, latest_from, order_of, put_entries, put_writes, value_of,
}
use xtap_pool.BucketLog.Texts.Latest.{
  first_write, first_write-order, last_in, last_value, latest_from-cons, write_in,
}

no_write :
    (p order : Text) (operations : List Operation)
    → contains (map path operations) p ≡ false
    → first_write p order operations ≡ none
unfolding first_write
no_write p order [] h = refl
no_write p order (append q lines ∷ operations) h = no_write p order operations (ground (arith, h))
no_write p order (write q content ∷ operations) h =
    let other : (q == p) ≡ false = ground (arith, h) in
    rw other (no_write p order operations (ground (arith, h)))

abbrev or_value : Option (Text × Text) → Option Text → Option Text
or_value none value = value
or_value (some w) value = some w.1

last_in_none :
    (p : Text) (value : Option Text) (operations : List Operation)
    → contains (map path operations) p ≡ false
    → last_in p value operations ≡ value
unfolding last_in
last_in_none p value [] h = refl
last_in_none p value (append q lines ∷ operations) h =
    last_in_none p value operations (ground (arith, h))
last_in_none p value (write q content ∷ operations) h =
    let other : (q == p) ≡ false = ground (arith, h) in
    rw other (last_in_none p value operations (ground (arith, h)))

-- Where the paths differ, the last write of a segment is its first.
last_in_lem :
    (p order : Text) (value : Option Text) (operations : List Operation)
    → unique (map path operations) ≡ true
    → last_in p value operations ≡ or_value (first_write p order operations) value
unfolding last_in first_write
last_in_lem p order value [] h = refl
last_in_lem p order value (append q lines ∷ operations) h =
    last_in_lem p order value operations (ground (arith, h))
last_in_lem p order value (write q content ∷ operations) h = elim (Bool-cases (q == p)) [
  | inr other ↦ rw other (last_in_lem p order value operations (ground (arith, h)))
  | inl same ↦
      let absent : contains (map path operations) q ≡ false = ground (arith, h) in
      rw same (last_in_none p (some content) operations (rw (eq_of_== q p same) at absent))
]

abbrev pub IsAfter : Option (Text × Text) → Entry → Type 0
IsAfter latest e = is_later (order_of e) latest ≡ true

sorted_skip :
    (o x : Text) (xs : List Text)
    → sorted text_le (o ∷ x ∷ xs) ≡ true
    → sorted text_le (o ∷ xs) ≡ true
sorted_skip o x [] h = refl
sorted_skip o x (y ∷ xs) h = ground (arith, h, text_le_trans o x y)

-- The orders behind the first of a sorted list are above it.
all-IsAfter :
    (o content : Text) (entries : List Entry)
    → sorted text_le (o ∷ map order_of entries) ≡ true
    → contains (map order_of entries) o ≡ false
    → All (IsAfter (some (o, content))) entries
all-IsAfter o content [] h u = tt
all-IsAfter o content (e ∷ entries) h u =
    let below : text_le o (order_of e) ≡ true = ground (arith, h) in
    let apart : (order_of e == o) ≡ false = ground (arith, u) in
    (
      ground (arith, text_le_antisym (order_of e) o, text_beq_iff (order_of e) o),
      all-IsAfter o content entries (sorted_skip o (order_of e) (map order_of entries) h)
          (ground (arith, u)),
    )

value_later :
    (latest w : Option (Text × Text)) (o : Text)
    → is_later o latest ≡ true
    → ((x : Text × Text) → w ≡ some x → x.0 ≡ o)
    → value_of (later_of latest w) ≡ or_value w (value_of latest)
value_later latest none o h own = refl
value_later latest (some x) o h own = rw (own x refl, h) refl

IsAfter-step :
    (latest w : Option (Text × Text)) (o : Text) (entries : List Entry)
    → is_later o latest ≡ true
    → ((x : Text × Text) → w ≡ some x → x.0 ≡ o)
    → sorted text_le (o ∷ map order_of entries) ≡ true
    → contains (map order_of entries) o ≡ false
    → All (IsAfter latest) entries
    → All (IsAfter (later_of latest w)) entries
IsAfter-step latest none o entries h own s u after_all = after_all
IsAfter-step latest (some x) o entries h own s u after_all =
    let e = own x refl in
    let later : is_later x.0 latest ≡ true = rw e h in
    rw later
      (subst (λ k. All (IsAfter (some (k, x.1))) entries) (sym e) (all-IsAfter o x.1 entries s u))

-- Where each segment is behind the one before it, the latest write is the last.
pub latest_from-sorted :
    (p : Text) (latest : Option (Text × Text)) (entries : List Entry)
    → sorted text_le (map order_of entries) ≡ true
    → unique (map order_of entries) ≡ true
    → All (λ (e : Entry). unique (map path e.1.operations) ≡ true) entries
    → All (IsAfter latest) entries
    → value_of (latest_from p latest entries) ≡ last_value p (value_of latest) entries
unfolding last_value latest_from
latest_from-sorted p latest [] h u single after_all = refl
latest_from-sorted p latest (e ∷ entries) h u single after_all =
    let own = first_write-order p (order_of e) e.1.operations in
    let w = write_in p e in
    let absent : contains (map order_of entries) (order_of e) ≡ false = ground (arith, u) in
    ap value_of (latest_from-cons p latest e entries)
    ∙ latest_from-sorted p (later_of latest w) entries (ground (arith, h)) (ground (arith, u))
        single.1 (IsAfter-step latest w (order_of e) entries after_all.0 own h absent after_all.1)
    ∙ ap (λ v. last_value p v entries)
        (value_later latest w (order_of e) after_all.0 own
          ∙ sym (last_in_lem p (order_of e) (value_of latest) e.1.operations single.0))

-- The writes that the cache is given.
get-put_writes :
    (m : List (Text × Text)) (operations : List Operation) (p : Text)
    → get (put_writes m operations) p ≡ last_in p (get m p) operations
unfolding put_writes last_in
get-put_writes m [] p = refl
get-put_writes m (append q lines ∷ operations) p = get-put_writes m operations p
get-put_writes m (write q content ∷ operations) p =
    get-put_writes (put m q content) operations p
    ∙ ap (λ v. last_in p v operations) (get-put m q content p)

pub get-put_entries :
    (m : List (Text × Text)) (entries : List Entry) (p : Text)
    → get (put_entries m entries) p ≡ last_value p (get m p) entries
unfolding put_entries last_value
get-put_entries m [] p = refl
get-put_entries m (e ∷ entries) p =
    get-put_entries (put_writes m e.1.operations) entries p
    ∙ ap (λ v. last_value p v entries) (get-put_writes m e.1.operations p)

abbrev pub HasKeys : List (Text × Text) → Type 0
HasKeys m = unique (keys m) ≡ true

put_writes-keys :
    (m : List (Text × Text)) (operations : List Operation)
    → HasKeys m
    → HasKeys (put_writes m operations)
unfolding put_writes
put_writes-keys m [] h = h
put_writes-keys m (append q lines ∷ operations) h = put_writes-keys m operations h
put_writes-keys m (write q content ∷ operations) h =
    put_writes-keys (put m q content) operations (unique-keys-put m q content h)

pub put_entries-keys :
    (m : List (Text × Text)) (entries : List Entry) → HasKeys m → HasKeys (put_entries m entries)
unfolding put_entries
put_entries-keys m [] h = h
put_entries-keys m (e ∷ entries) h =
    put_entries-keys (put_writes m e.1.operations) entries (put_writes-keys m e.1.operations h)
