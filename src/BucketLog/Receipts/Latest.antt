-- ===== src/BucketLog/Receipts/Latest.antt =====
-- The selected receipts are the latest of those that were observed.
use mathlib.Core.Option
use mathlib.Core.Path.{subst}
use xtap_pool.Base.{
  All, Bool, Bool-cases, DateTimes, List, Option, [], ap, false, filter, if◌then◌else◌, inl, inr,
  none, ok, refl, returned, some, sym, text_le, text_le_refl, text_le_total, text_le_trans,
  then_in-ok, traverse_in, true, ◌∙◌, ◌∷◌, ◌≡◌, ◌⊎◌,
}
use xtap_pool.BucketLog.{BucketLog, Client, Platform, SnapshotFile}
use xtap_pool.BucketLog.Receipts.{
  ReceiptMetadata, Selection, concat, finished, has_registry_cursor, latest_receipt_in_files,
  newer_receipt, newer_than, no_selection, observe, select_from,
}

-- Whether a receipt is not later than the one that was selected.
abbrev pub IsCovered : Option ReceiptMetadata → ReceiptMetadata → Type 0
IsCovered none m = ⊥
IsCovered (some latest) m = text_le (finished m) (finished latest) ≡ true

pub data IsIn : ReceiptMetadata → List ReceiptMetadata → Type 0 where
  here : (m : ReceiptMetadata) (items : List ReceiptMetadata) → IsIn m (m ∷ items)
  there : (m i : ReceiptMetadata) (items : List ReceiptMetadata) → IsIn m items → IsIn m (i ∷ items)

-- The latest of some receipts: one of them than which none is later, or nothing where there are
-- none.
pub record IsLatest (items : List ReceiptMetadata) (latest : Option ReceiptMetadata) : Type 0 where
  pub covers : All (IsCovered latest) items
  pub found : (m : ReceiptMetadata) → latest ≡ some m → IsIn m items

-- Selecting one more covers what was covered, and that one.
covers_more :
    (latest : Option ReceiptMetadata) (m i : ReceiptMetadata)
    → IsCovered latest i
    → IsCovered (newer_receipt latest (some m)) i
unfolding newer_receipt newer_than
covers_more none m i h = absurd h
covers_more (some l) m i h = elim (Bool-cases (text_le (finished m) (finished l))) [
  | inl older ↦ rw older h
  | inr newer ↦ rw newer (
      text_le_trans (finished i) (finished l) (finished m) h
        (text_le_total (finished m) (finished l) newer))
]

covers_new :
    (latest : Option ReceiptMetadata) (m : ReceiptMetadata)
    → IsCovered (newer_receipt latest (some m)) m
unfolding newer_receipt newer_than
covers_new none m = text_le_refl (finished m)
covers_new (some l) m = elim (Bool-cases (text_le (finished m) (finished l))) [
  | inl older ↦ rw older older
  | inr newer ↦ rw newer (text_le_refl (finished m))
]

-- The fold that one of the two selections is.
abbrev latest_of : Option ReceiptMetadata → List ReceiptMetadata → Option ReceiptMetadata
latest_of latest [] = latest
latest_of latest (m ∷ items) = latest_of (newer_receipt latest (some m)) items

-- The two selections of one fold are two folds.
abbrev Splits : Selection → List ReceiptMetadata → List ReceiptMetadata → Type 0
Splits s items cursors =
    ((select_from s items).latest ≡ latest_of s.latest items)
    × ((select_from s items).latest_registry ≡ latest_of s.latest_registry cursors)

Splits-newer_receipt :
    (b : Bool) (s : Selection) (m : ReceiptMetadata) (items cursors : List ReceiptMetadata)
    → ((t : Selection) → Splits t items cursors)
    → let next : Selection = record {
      latest = newer_receipt s.latest (some m);
      latest_registry = if b then newer_receipt s.latest_registry (some m) else s.latest_registry;
    } in
      ((select_from next items).latest ≡ latest_of s.latest (m ∷ items))
      × ((select_from next items).latest_registry
          ≡ latest_of s.latest_registry (if b then m ∷ cursors else cursors))
Splits-newer_receipt true s m items cursors h = h _
Splits-newer_receipt false s m items cursors h = h _

select_from-latest :
    (s : Selection) (items : List ReceiptMetadata)
    → Splits s items (filter has_registry_cursor items)
unfolding select_from
select_from-latest s [] = (refl, refl)
select_from-latest s (m ∷ items) =
    Splits-newer_receipt (has_registry_cursor m) s m items (filter has_registry_cursor items)
      (λ t. select_from-latest t items)

covers_all :
    (latest : Option ReceiptMetadata) (items : List ReceiptMetadata)
    → All (IsCovered (latest_of latest items)) items
      × ((i : ReceiptMetadata) → IsCovered latest i → IsCovered (latest_of latest items) i)
covers_all latest [] = (tt, λ i h. h)
covers_all latest (m ∷ items) =
    let next = newer_receipt latest (some m) in
    let (rest, kept) = covers_all next items in
    ((kept m (covers_new latest m), rest), λ i h. kept i (covers_more latest m i h))

newer_receipt-cases :
    (latest : Option ReceiptMetadata) (m : ReceiptMetadata)
    → (newer_receipt latest (some m) ≡ some m) ⊎ (newer_receipt latest (some m) ≡ latest)
unfolding newer_receipt newer_than
newer_receipt-cases none m = inl refl
newer_receipt-cases (some l) m = elim (Bool-cases (text_le (finished m) (finished l))) [
  | inl older ↦ inr (rw older refl)
  | inr newer ↦ inl (rw newer refl)
]

found-IsIn :
    (latest : Option ReceiptMetadata) (items : List ReceiptMetadata) (m : ReceiptMetadata)
    → latest_of latest items ≡ some m
    → IsIn m items ⊎ (latest ≡ some m)
found-IsIn latest [] m h = inr h
found-IsIn latest (i ∷ items) m h = elim (found-IsIn (newer_receipt latest (some i)) items m h) [
  | inl later ↦ inl (there m i items later)
  | inr now ↦ elim (newer_receipt-cases latest i) [
    | inr old ↦ inr (sym old ∙ now)
    | inl new ↦
        let same = Option.some-injective _ _ (sym new ∙ now) in
        inl (subst (λ x. IsIn x (i ∷ items)) same (here i items))
  ]
]

latest_of-IsLatest : (items : List ReceiptMetadata) → IsLatest items (latest_of none items)
latest_of-IsLatest items = record {
  covers = (covers_all none items).0;
  found = λ m h. elim (found-IsIn none items m h) [ inl is_in ↦ is_in | inr e ↦ absurd (cc) ];
}

module _ ⦃d : DateTimes⦄ (platform : Platform) (client : Client) where
  open client use {Store}

  -- Where the receipts of some files are read, the first of the two that are selected is the latest
  -- of all that the files hold, and the second the latest of those with a cursor of the registry:
  -- one of them that none of them has finished after, and nothing only where there are none.
  pub latest_receipt_in_files-IsLatest :
      (l l' : BucketLog Store) (files : List SnapshotFile) (s : Selection)
      → latest_receipt_in_files platform client l files ≡ (l', ok s)
      → (observed : List (List ReceiptMetadata)) × ((traverse_in
            (observe platform client)
            l
            files).1
          ≡ ok observed)
        × IsLatest (concat observed) s.latest
        × IsLatest (filter has_registry_cursor (concat observed)) s.latest_registry
  unfolding latest_receipt_in_files
  latest_receipt_in_files-IsLatest l l' files s h =
      let (observed, found, last) = then_in-ok _ _ l' s h in
      let items = concat observed in
      let (latest, cursor) = select_from-latest no_selection items in
      let same = (returned last).1 in
      (
        observed,
        found,
        subst (IsLatest items) (sym latest ∙ ap (λ (x : Selection). x.latest) same)
            (latest_of-IsLatest items),
        subst (IsLatest (filter has_registry_cursor items))
            (sym cursor ∙ ap (λ (x : Selection). x.latest_registry) same)
            (latest_of-IsLatest (filter has_registry_cursor items)),
      )
