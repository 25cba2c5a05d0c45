-- ===== src/ServiceAccounts/Store/Access.antt =====
-- Whom a token admits.
use mathlib.Core.Option
use mathlib.Core.Path.{subst}
use mathlib.Core.List.{Mem, mem-cons_self, mem-cons_of_mem}
use xtap_pool.Base.{
  Bool, Bool-cases, List, Option-cases, Text, [], arith, false, find, if◌then◌else◌, inl, inr,
  nat_eq, none, some, sym, text_beq, text_beq_iff, text_eq, true, ℕ, ◌&&◌, ◌==◌, ◌∙◌, ◌∷◌, ◌≡◌,
}
use xtap_pool.ServiceAccounts.Registry.{ServiceAccount, ServiceAccountKey, is_active}
use xtap_pool.ServiceAccounts.Token.{parse_token}
use xtap_pool.ServiceAccounts.Store.{
  Identity, Platform, Registry, authenticate, identify, is_expired, token_hash_matches,
}

-- What `find` returns is an item that passes the test.
pub find-Mem {ℓ} :
    {A : Type ℓ} (p : A → Bool) (xs : List A) (a : A) → find p xs ≡ some a → (p a ≡ true) × Mem a xs
find-Mem p [] a h = cc
find-Mem p (x ∷ xs) a h = elim (Bool-cases (p x)) [
  | inl holds ↦
      let same : x ≡ a = Option.some-injective _ _ (rw holds at h) in
      subst (λ y. (p y ≡ true) × Mem y (x ∷ xs)) same (holds, mem-cons_self)
  | inr fails ↦
      let (holds, in_rest) = find-Mem p xs a (rw fails at h) in (holds, mem-cons_of_mem x in_rest)
]

module _ (platform : Platform) where
  open platform use {sha256_hex, from_hex}

  -- What entitles the bearer of a token: an active account of the registry, named by the token, one
  -- of its keys, named by the token, that has not expired and whose hash is the token's.
  pub record IsEntitled (r : Registry) (now : ℕ) (token : Text) (i : Identity) : Type 0 where
    pub holder : ServiceAccount
    pub key : ServiceAccountKey
    pub clean : r.config_error ≡ none
    pub named : parse_token token ≡ some (holder.id, key.id)
    pub in_registry : Mem holder r.accounts
    pub in_keys : Mem key holder.keys
    pub is_live : is_active holder.status ≡ true
    pub in_time : is_expired platform key now ≡ false
    pub hash : from_hex (sha256_hex token) ≡ from_hex key.token_hash
    pub identity :
        i ≡ record { id = holder.id; name = holder.name; key_id = key.id; scopes = holder.scopes }

  identify_lem :
      (token key_id : Text) (now : ℕ) (a : ServiceAccount) (i : Identity)
      → identify platform token key_id now a ≡ some i
      → (k : ServiceAccountKey) × (k.id ≡ key_id)
        × Mem k a.keys
        × (is_expired platform k now ≡ false)
        × (from_hex (sha256_hex token) ≡ from_hex k.token_hash)
        × (i ≡ record { id = a.id; name = a.name; key_id = k.id; scopes = a.scopes })
  unfolding identify token_hash_matches
  identify_lem token key_id now a i h =
      let p : ServiceAccountKey → Bool = λ k. k.id == key_id in
      elim (Option-cases (find p a.keys)) [
        | inl missing ↦ cc
        | inr (k, found) ↦
            let (holds, there) = find-Mem p a.keys k found in
            let h' = rw (found, identify) at h in
            let (live, matches, same) = taken k h' in
            (k, (text_beq_iff k.id key_id).0 holds, there, live, matches, same)
      ]
    where
      taken :
          (k : ServiceAccountKey)
          → (if is_expired platform k now
              then none
              else if text_beq (from_hex (sha256_hex token)) (from_hex k.token_hash)
              then some (record { id = a.id; name = a.name; key_id = k.id; scopes = a.scopes })
              else none)
            ≡ some i
          → (is_expired platform k now ≡ false)
            × (from_hex (sha256_hex token) ≡ from_hex k.token_hash)
            × (i ≡ record { id = a.id; name = a.name; key_id = k.id; scopes = a.scopes })
      taken k h =
          let flags : (is_expired platform k now ≡ false)
              × (text_beq (from_hex (sha256_hex token)) (from_hex k.token_hash) ≡ true) =
            ground arith in
          (
            flags.0,
            (text_beq_iff _ _).0 flags.1,
            sym (Option.some-injective _ _ (rw (flags.0, flags.1) at h)),
          )

  -- A token that is accepted entitles its bearer to the identity that is returned.
  pub authenticate_sound :
      (r : Registry) (now : ℕ) (token : Text) (i : Identity)
      → authenticate platform r now token ≡ some i
      → IsEntitled r now token i
  unfolding authenticate
  authenticate_sound r now token i h = elim (Option-cases (parse_token token)) [
    | inl bad ↦ absurd (Option.some-ne-none i (sym h ∙ rw (bad, authenticate)))
    | inr (ids, parsed) ↦ elim (Option-cases r.config_error) [
      | inr (m, failed) ↦ absurd (Option.some-ne-none i (sym h ∙ rw (parsed, failed, authenticate)))
      | inl clean ↦ held ids parsed clean (rw (parsed, clean, authenticate) at h)
    ]
  ]
    where
      held :
          (ids : Text × Text)
          → parse_token token ≡ some ids
          → r.config_error ≡ none
          → elim (find (λ (a : ServiceAccount). a.id == ids.0 && is_active a.status) r.accounts) [
            | none ↦ none
            | some a ↦ identify platform token ids.1 now a
          ]
            ≡ some i
          → IsEntitled r now token i
      held ids parsed clean h =
          elim (Option-cases
            (find (λ (a : ServiceAccount). a.id == ids.0 && is_active a.status) r.accounts)) [
              | inl missing ↦ absurd (Option.some-ne-none i (sym h ∙ rw missing))
              | inr (a, found) ↦
                  let (passed, there) =
                    find-Mem (λ (a : ServiceAccount). a.id == ids.0 && is_active a.status)
                      r.accounts a found in
                  let (k, named, in_keys, live, matches, same) =
                    identify_lem token ids.1 now a i (rw found at h) in
                  let flags : (a.id == ids.0 ≡ true) × (is_active a.status ≡ true) = ground arith in
                  record {
                    holder = a;
                    key = k;
                    clean = clean;
                    named = parsed ∙ rw ((text_beq_iff a.id ids.0).0 flags.0, named);
                    in_registry = there;
                    in_keys = in_keys;
                    is_live = flags.1;
                    in_time = live;
                    hash = matches;
                    identity = same;
                  }
            ]
