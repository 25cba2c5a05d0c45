-- ===== src/ServiceAccounts/Registry/Laws.antt =====
-- What the normal form of the registry file guarantees.
use xtap_pool.Base.{
  >>=-eq-ok, Bool, Bool-cases, List, Text, [], all, all-sort, ap, arith, contains, dedup, false,
  filter, guard-eq-ok, inl, inr, insert, leb, length, map, nat_eq, not, ok, ok-injective, refl,
  sort, sym, text_beq_iff, text_eq, to_lower, trim, true, unique, unique-map-sort, ◌==◌, ◌∙◌, ◌∷◌,
  ◌≡◌,
}
use xtap_pool.ServiceAccounts.Registry.{
  ServiceAccount, ServiceAccountKey, ServiceAccountScope, Status, is_account_name,
  normalize_accounts, normalize_file, normalize_keys, normalize_name, normalize_scopes, scope_eq,
  scope_le,
}

abbrev pub ids : List ServiceAccount → List Text
ids = map (λ (a : ServiceAccount). a.id)

abbrev pub names : List ServiceAccount → List Text
names = map (λ (a : ServiceAccount). a.name)

abbrev pub key_ids : ServiceAccount → List Text
key_ids a = map (λ (k : ServiceAccountKey). k.id) a.keys

-- No two accounts have an id or a name in common, no two keys of an account have an id in common,
-- and every account has a well-formed name and a scope.
pub record IsNormal (accounts : List ServiceAccount) : Type 0 where
  pub ids_lem : unique (ids accounts) ≡ true
  pub names_lem : unique (names accounts) ≡ true
  pub keys_lem : all (λ a. unique (key_ids a)) accounts ≡ true
  pub names_ok : all (λ (a : ServiceAccount). is_account_name a.name) accounts ≡ true
  pub scopes_ok : all (λ (a : ServiceAccount). leb 1 (length a.scopes)) accounts ≡ true

module _ {A : Type 0} (f : A → Text) where
  -- Nothing of `xs` has its image in `seen`.
  abbrev pub avoids : List Text → List A → Bool
  avoids seen = all (λ x. not (contains seen (f x)))

  avoids-tail :
      (t : Text) (seen : List Text) (xs : List A)
      → avoids (t ∷ seen) xs ≡ true
      → (contains (map f xs) t ≡ false) × (avoids seen xs ≡ true)
  avoids-tail t seen [] h = (refl, refl)
  avoids-tail t seen (x ∷ xs) h =
      let (absent, rest) = avoids-tail t seen xs (ground arith) in
      (ground (arith, text_beq_iff t (f x), text_beq_iff (f x) t), ground arith)

-- The keys are only checked.
normalize_keys_lem :
    (seen : List Text) (ks ks' : List ServiceAccountKey)
    → normalize_keys seen ks ≡ ok ks'
    → (ks' ≡ ks)
      × (unique (map (λ (k : ServiceAccountKey). k.id) ks) ≡ true)
      × (avoids (λ (k : ServiceAccountKey). k.id) seen ks ≡ true)
unfolding normalize_keys
normalize_keys_lem seen [] ks' h = (sym (ok-injective h), refl, refl)
normalize_keys_lem seen (k ∷ ks) ks' h =
    let (fresh, h₁) = guard-eq-ok (not (contains seen k.id)) _ _ h in
    let (rest, run, h₂) = >>=-eq-ok (normalize_keys (k.id ∷ seen) ks) _ h₁ in
    let (same, different, avoided) = normalize_keys_lem (k.id ∷ seen) ks rest run in
    let (absent, others) = avoids-tail (λ (k : ServiceAccountKey). k.id) k.id seen ks avoided in
    (sym (ok-injective h₂) ∙ ap (λ r. k ∷ r) same, ground arith, ground arith)

filled-insert :
    {A : Type 0} (le : A → A → Bool) (a : A) (xs : List A) → leb 1 (length (insert le a xs)) ≡ true
filled-insert le a [] = refl
filled-insert le a (x ∷ xs) = ground arith

normalize_scopes_lem :
    (scopes normal : List ServiceAccountScope)
    → normalize_scopes scopes ≡ ok normal
    → leb 1 (length normal) ≡ true
unfolding normalize_scopes
normalize_scopes_lem [] normal h = cc
normalize_scopes_lem (s ∷ scopes) normal h = rw (← ok-injective h) (
    filled-insert scope_le s (
      sort scope_le (filter (λ t. not (◌==◌ ⦃test = scope_eq⦄ s t)) (dedup ⦃e = scope_eq⦄ scopes))))

normalize_name_lem : (name n : Text) → normalize_name name ≡ ok n → is_account_name n ≡ true
unfolding normalize_name
normalize_name_lem name n h = elim (Bool-cases (is_account_name (to_lower (trim name)))) [
  | inl good ↦ let same = ok-injective (rw good at h) in rw (← same) good
  | inr bad ↦ let h' = rw bad at h in cc
]

-- What a normalized list of accounts has of the list that it was made from, and of the names and
-- ids that went before.
record Facts (ns is : List Text) (given accounts : List ServiceAccount) : Type 0 where
  normal : IsNormal accounts
  other_ids : avoids (λ (a : ServiceAccount). a.id) is accounts ≡ true
  other_names : avoids (λ (a : ServiceAccount). a.name) ns accounts ≡ true
  same :
      (q : Text → Status → List ServiceAccountKey → Bool)
      → all (λ (a : ServiceAccount). q a.id a.status a.keys) accounts
        ≡ all (λ (a : ServiceAccount). q a.id a.status a.keys) given

normalize_accounts-Facts :
    (ns is : List Text) (given accounts : List ServiceAccount)
    → normalize_accounts ns is given ≡ ok accounts
    → Facts ns is given accounts
unfolding normalize_accounts
normalize_accounts-Facts ns is [] accounts h = rw (← ok-injective h) (record {
  normal = record {
    ids_lem = refl;
    names_lem = refl;
    keys_lem = refl;
    names_ok = refl;
    scopes_ok = refl;
  };
  other_ids = refl;
  other_names = refl;
  same = λ q. refl;
})
normalize_accounts-Facts ns is (a ∷ rest) accounts h =
    let (name, run_n, h₁) = >>=-eq-ok (normalize_name a.name) _ h in
    let (new_name, h₂) = guard-eq-ok (not (contains ns name)) _ _ h₁ in
    let (new_id, h₃) = guard-eq-ok (not (contains is a.id)) _ _ h₂ in
    let (keys, run_k, h₄) = >>=-eq-ok (normalize_keys [] a.keys) _ h₃ in
    let (scopes, run_s, h₅) = >>=-eq-ok (normalize_scopes a.scopes) _ h₄ in
    let (others, run_o, h₆) = >>=-eq-ok (normalize_accounts (name ∷ ns) (a.id ∷ is) rest) _ h₅ in
    let f = normalize_accounts-Facts (name ∷ ns) (a.id ∷ is) rest others run_o in
    let (same_keys, unique_keys, _) = normalize_keys_lem [] a.keys keys run_k in
    let (id_absent, ids_left) =
      avoids-tail (λ (a : ServiceAccount). a.id) a.id is others f.other_ids in
    let (name_absent, names_left) =
      avoids-tail (λ (a : ServiceAccount). a.name) name ns others f.other_names in
    rw (← ok-injective h₆) (record {
      normal = record {
        ids_lem = ground (arith, f.normal.ids_lem);
        names_lem = ground (arith, f.normal.names_lem);
        keys_lem = rw same_keys (ground (arith, f.normal.keys_lem));
        names_ok = ground (arith, f.normal.names_ok, normalize_name_lem a.name name run_n);
        scopes_ok = ground (arith, f.normal.scopes_ok, normalize_scopes_lem a.scopes scopes run_s);
      };
      other_ids = ground arith;
      other_names = ground arith;
      same = λ q. rw (same_keys, f.same q);
    })

module _ (collate : Text → Text → Bool) where
  abbrev by_name : ServiceAccount → ServiceAccount → Bool
  by_name a b = collate a.name b.name

  -- The normal form keeps the ids, the statuses and the keys, and has no duplicates.
  pub normalize_file_lem :
      (given accounts : List ServiceAccount)
      → normalize_file collate given ≡ ok accounts
      → IsNormal accounts
        × ((q : Text → Status → List ServiceAccountKey → Bool)
            → all (λ (a : ServiceAccount). q a.id a.status a.keys) accounts
              ≡ all (λ (a : ServiceAccount). q a.id a.status a.keys) given)
  unfolding normalize_file
  normalize_file_lem given accounts h =
      let (made, run, h₁) = >>=-eq-ok (normalize_accounts [] [] given) _ h in
      let f = normalize_accounts-Facts [] [] given made run in
      rw (← ok-injective h₁) (
        record {
          ids_lem = unique-map-sort by_name _ made f.normal.ids_lem;
          names_lem = unique-map-sort by_name _ made f.normal.names_lem;
          keys_lem = all-sort by_name _ made ∙ f.normal.keys_lem;
          names_ok = all-sort by_name _ made ∙ f.normal.names_ok;
          scopes_ok = all-sort by_name _ made ∙ f.normal.scopes_ok;
        },
        λ q. all-sort by_name _ made ∙ f.same q,
      )
