-- ===== src/ServiceAccounts/Store/Lifecycle.antt =====
-- What revoking takes away, and what issuing gives.
use mathlib.Core.List.{Mem, not-mem-nil, mem-cons}
use mathlib.Core.Option
use mathlib.Core.Logic.Or
use mathlib.Core.Bool.{Bool-set}
use xtap_pool.Base.{
  >>=-eq-ok, Bool, Bool-cases, List, Option, Option-cases, Text, [], all, any, ap, arith, contains,
  eqb, false, filter, find, guard-eq-ok, if◌then◌else◌, inl, inr, length, map, nat_eq, none, not,
  ok, ok-injective, or_throw, refl, some, sym, text_beq_iff, text_eq, true, unique, ℕ, ◌==◌, ◌||◌,
  ◌∙◌, ◌∷◌, ◌≡◌, ◌≢◌,
}
use xtap_pool.ServiceAccounts.Registry.{
  Error, ServiceAccount, ServiceAccountKey, Status, is_active, normalize_file, revoked,
  unknown_account,
}
use xtap_pool.ServiceAccounts.Registry.Laws.{IsNormal, ids, normalize_file_lem}
use xtap_pool.Storage.{StorageLog}
use xtap_pool.ServiceAccounts.Store.{
  Change, Codec, Draw, Identity, Platform, Registry, Reply, World, active_account, assert_writable,
  authenticate, mutate, plan, replaced, revoke, revoke_key,
}
use xtap_pool.ServiceAccounts.Store.Access.{authenticate_sound, find-Mem}
use xtap_pool.ServiceAccounts.Store.Invariant.{mutate_ok}

all-Mem :
    {A : Type 0} (p : A → Bool) (xs : List A) (a : A) → all p xs ≡ true → Mem a xs → p a ≡ true
all-Mem p [] a h m = absurd (not-mem-nil m)
all-Mem p (x ∷ xs) a h m =
    Or.elim (Bool-set (p a) true) (mem-cons.0 m) (λ same. rw same (ground arith))
      (λ rest. all-Mem p xs a (ground arith) rest)

-- No account with the id is active.
abbrev no_active : Text → List ServiceAccount → Bool
no_active id = all (λ (a : ServiceAccount). not (a.id == id) || not (is_active a.status))

-- No account with the id has a key with the key id.
abbrev no_key : Text → Text → List ServiceAccount → Bool
no_key id key_id = all (λ (a : ServiceAccount).
    not (a.id == id) || not (any (λ (k : ServiceAccountKey). k.id == key_id) a.keys))

any-Mem :
    {A : Type 0} (p : A → Bool) (xs : List A) (a : A) → Mem a xs → p a ≡ true → any p xs ≡ true
any-Mem p [] a m h = absurd (not-mem-nil m)
any-Mem p (x ∷ xs) a m h =
    Or.elim (Bool-set (any p (x ∷ xs)) true) (mem-cons.0 m)
      (λ same. let h' = rw same at h in ground arith)
      (λ rest. let found = any-Mem p xs a rest h in ground arith)

any-filter_out :
    (id : Text) (ks : List ServiceAccountKey)
    → any
        (λ (k : ServiceAccountKey). k.id == id)
        (filter (λ (k : ServiceAccountKey). not (k.id == id)) ks)
      ≡ false
any-filter_out id [] = refl
any-filter_out id (k ∷ ks) = ground (arith, any-filter_out id ks)

-- A replacement that satisfies the test makes every account with its id satisfy it.
all-replaced :
    (q : ServiceAccount → Bool) (b : ServiceAccount) (as_ : List ServiceAccount)
    → q b ≡ true
    → all
        (λ a. not (a.id == b.id) || q a)
        (map (λ (c : ServiceAccount). if c.id == b.id then b else c) as_)
      ≡ true
all-replaced q b [] h = refl
all-replaced q b (a ∷ as_) h = ground (arith, all-replaced q b as_ h)

-- If the first account with the id is not active and ids differ, none with the id is.
no_active_of_find :
    (id : Text) (as_ : List ServiceAccount) (a : ServiceAccount)
    → find (λ (c : ServiceAccount). c.id == id) as_ ≡ some a
    → is_active a.status ≡ false
    → unique (ids as_) ≡ true
    → no_active id as_ ≡ true
no_active_of_find id [] a h k u = cc
no_active_of_find id (c ∷ as_) a h k u = elim (Bool-cases (c.id == id)) [
  | inl here ↦
      let same = Option.some-injective _ _ (rw here at h) in
      let off : is_active c.status ≡ false = rw same k in
      let at_id = text_beq_iff c.id id in
      let rest = no_active_absent id as_ (rw (← at_id.0 here) (ground arith)) in ground arith
  | inr there ↦
      let rest = no_active_of_find id as_ a (rw there at h) k (ground arith) in ground arith
]
  where
    no_active_absent :
        (id : Text) (as_ : List ServiceAccount)
        → contains (ids as_) id ≡ false
        → no_active id as_ ≡ true
    no_active_absent id [] h = refl
    no_active_absent id (a ∷ as_) h =
        let rest = no_active_absent id as_ (ground arith) in ground arith

or_throw-eq-ok : {A : Type 0} (o : Option A) (e : Error) (a : A) → or_throw o e ≡ ok a → o ≡ some a
or_throw-eq-ok none e a h = cc
or_throw-eq-ok (some b) e a h = ap some (ok-injective h)

-- `activeAccount` returns the first account with the id.
active_account_lem :
    (r : Registry) (id : Text) (a : ServiceAccount) → active_account r id ≡ ok a → a.id ≡ id
unfolding active_account
active_account_lem r id a h =
    elim (Option-cases (find (λ (a : ServiceAccount). a.id == id) r.accounts)) [
      | inl missing ↦ let h' = rw (missing, active_account) at h in cc
      | inr (b, found) ↦
          let (at_id, _) = find-Mem (λ (a : ServiceAccount). a.id == id) r.accounts b found in
          elim (Bool-cases (is_active b.status)) [
            | inl live ↦
                let same = ok-injective (rw (found, active_account, live) at h) in
                ap (λ (a : ServiceAccount). a.id) (sym same) ∙ (text_beq_iff b.id id).0 at_id
            | inr dead ↦ let h' = rw (found, active_account, dead) at h in cc
          ]
    ]

module _ (platform : Platform) (store : StorageLog) (codec : Codec) (w : World platform store codec)
    (draw : Draw) (now : ℕ) where
  open platform use {collate}

  -- The registry after a commit of `replaced` satisfies what the replacement does.
  after_replaced :
      (q : Status → List ServiceAccountKey → Bool) (b : ServiceAccount) (id : Text)
      (accounts : List ServiceAccount)
      → b.id ≡ id
      → normalize_file collate (replaced w.registry b) ≡ ok accounts
      → q b.status b.keys ≡ true
      → all (λ (a : ServiceAccount). not (a.id == id) || q a.status a.keys) accounts ≡ true
  after_replaced q b id accounts same run h = rw (← same) (
      (normalize_file_lem collate (replaced w.registry b) accounts run).1
        (λ id status keys. not (id == b.id) || q status keys)
      ∙ all-replaced (λ a. q a.status a.keys) b w.registry.accounts h)

  after_revoke :
      (id : Text) (reply : Reply)
      → IsNormal w.registry.accounts
      → (mutate platform store codec w (revoke id) draw now).1 ≡ ok reply
      → no_active id (mutate platform store codec w (revoke id) draw now).0.registry.accounts ≡ true
  unfolding plan
  after_revoke id reply v h =
      let (change, planned, outcome) =
        mutate_ok platform store codec w (revoke id) draw now reply h in
      let (_, _, h₁) = >>=-eq-ok (assert_writable w.registry) _ planned in
      let (a, found, h₂) =
        >>=-eq-ok
          (or_throw (find (λ (a : ServiceAccount). a.id == id) w.registry.accounts)
            (unknown_account id))
          _ h₁ in
      let found' = or_throw-eq-ok _ _ a found in
      let (at_id, _) = find-Mem (λ (a : ServiceAccount). a.id == id) w.registry.accounts a found' in
      let a_id = (text_beq_iff a.id id).0 at_id in
      let file_is = ap (λ (c : Change). c.file) (ok-injective h₂) in
      elim (Bool-cases (is_active a.status)) [
        | inl live ↦ elim outcome [
          | inl (nothing, _) ↦ let f = rw live at file_is in cc
          | inr (file, written, run) ↦
              let f = Option.some-injective _ _ (rw live at file_is ∙ written) in
              after_replaced (λ status _. not (is_active status))
                (record a { status = revoked; updated_at = platform.to_iso now; keys = [] }) id _
                a_id (rw f run) refl
        ]
        | inr dead ↦ elim outcome [
          | inl (nothing, kept) ↦
              rw kept (no_active_of_find id w.registry.accounts a found' dead v.ids_lem)
          | inr (file, written, run) ↦ let f = rw dead at file_is in cc
        ]
      ]

  after_revoke_key :
      (id key_id : Text) (reply : Reply)
      → (mutate platform store codec w (revoke_key id key_id) draw now).1 ≡ ok reply
      → no_key id key_id
          (mutate platform store codec w (revoke_key id key_id) draw now).0.registry.accounts
        ≡ true
  unfolding plan
  after_revoke_key id key_id reply h =
      let (change, planned, outcome) =
        mutate_ok platform store codec w (revoke_key id key_id) draw now reply h in
      let (_, _, h₁) = >>=-eq-ok (assert_writable w.registry) _ planned in
      let (a, found, h₂) = >>=-eq-ok (active_account w.registry id) _ h₁ in
      let kept = filter (λ (k : ServiceAccountKey). not (k.id == key_id)) a.keys in
      let (_, h₃) = guard-eq-ok (not (eqb (length kept) (length a.keys))) _ _ h₂ in
      let a_id = active_account_lem w.registry id a found in
      let file_is = ap (λ (c : Change). c.file) (ok-injective h₃) in
      elim outcome [
        | inl (nothing, _) ↦ cc
        | inr (file, written, run) ↦
            let f = Option.some-injective _ _ (file_is ∙ written) in
            after_replaced (λ _ keys. not (any (λ (k : ServiceAccountKey). k.id == key_id) keys))
              (record a { updated_at = platform.to_iso now; keys = kept }) id _ a_id (rw f run)
              (rw (any-filter_out key_id a.keys))
      ]

  -- After an account of a registry in normal form has been revoked, no token is accepted for it, at
  -- any time.
  pub revoke_locks_out :
      (id : Text) (reply : Reply)
      → IsNormal w.registry.accounts
      → (mutate platform store codec w (revoke id) draw now).1 ≡ ok reply
      → (later : ℕ) (token : Text) (i : Identity)
      → authenticate platform
          (mutate platform store codec w (revoke id) draw now).0.registry
          later
          token
        ≡ some i
      → i.id ≢ id
  revoke_locks_out id reply v h later token i accepted same =
      let e =
        authenticate_sound platform (mutate platform store codec w (revoke id) draw now).0.registry
          later token i accepted in
      let off = all-Mem _ _ e.holder (after_revoke id reply v h) e.in_registry in
      let at_id : e.holder.id == id ≡ true =
        (text_beq_iff e.holder.id id).1 (sym (ap (λ (i : Identity). i.id) e.identity) ∙ same) in
      let live = e.is_live in ground arith

  -- After a key of an account has been revoked, no token of that key is accepted for the account,
  -- at any time.
  pub revoke_key_locks_out :
      (id key_id : Text) (reply : Reply)
      → (mutate platform store codec w (revoke_key id key_id) draw now).1 ≡ ok reply
      → (later : ℕ) (token : Text) (i : Identity)
      → authenticate platform
          (mutate platform store codec w (revoke_key id key_id) draw now).0.registry
          later
          token
        ≡ some i
      → i.id ≡ id
      → i.key_id ≢ key_id
  revoke_key_locks_out id key_id reply h later token i accepted same same_key =
      let e =
        authenticate_sound platform
          (mutate platform store codec w (revoke_key id key_id) draw now).0.registry later token i
          accepted in
      let off = all-Mem _ _ e.holder (after_revoke_key id key_id reply h) e.in_registry in
      let at_id : e.holder.id == id ≡ true =
        (text_beq_iff e.holder.id id).1 (sym (ap (λ (i : Identity). i.id) e.identity) ∙ same) in
      let at_key : e.key.id == key_id ≡ true =
        (text_beq_iff e.key.id key_id).1
          (sym (ap (λ (i : Identity). i.key_id) e.identity) ∙ same_key) in
      let there =
        any-Mem (λ (k : ServiceAccountKey). k.id == key_id) e.holder.keys e.key e.in_keys at_key in
      ground arith
