-- ===== src/ServiceAccounts/Store/Invariant.antt =====
-- The registry stays in normal form, and a mutation that throws leaves it as it was.
use xtap_pool.Base.{
  List, Option-cases, Result, Result-cases, Text, err, inl, inr, none, ok, refl, some, ℕ, ◌≡◌, ◌⊎◌,
}
use xtap_pool.Storage.{StorageLog}
use xtap_pool.ServiceAccounts.Registry.{Error, ServiceAccount, normalize_file}
use xtap_pool.ServiceAccounts.Registry.Laws.{IsNormal, normalize_file_lem}
use xtap_pool.ServiceAccounts.Store.{
  Change, Codec, Draw, Platform, Registry, Reply, Request, World, carry_out, commit, finish, mutate,
  plan, service_accounts_path, then_answer,
}

module _ (platform : Platform) (store : StorageLog) (codec : Codec) where
  open store use {Log, read_text, write_text}
  open platform use {collate}

  pub then_answer_world :
      (answer : Registry → Reply) (r : World platform store codec × Result Error (Unit {0}))
      → (then_answer platform store codec answer r).0 ≡ r.0
  unfolding then_answer
  then_answer_world answer (w, ok _) = refl
  then_answer_world answer (w, err e) = refl

  -- An answer comes only from a commit that succeeded.
  pub then_answer_ok :
      (answer : Registry → Reply) (r : World platform store codec × Result Error (Unit {0}))
      (reply : Reply)
      → (then_answer platform store codec answer r).1 ≡ ok reply
      → r.1 ≡ ok tt
  unfolding then_answer
  then_answer_ok answer (w, ok _) reply h = refl
  then_answer_ok answer (w, err e) reply h = cc

  then_answer_err :
      (answer : Registry → Reply) (r : World platform store codec × Result Error (Unit {0}))
      (e : Error)
      → (then_answer platform store codec answer r).1 ≡ err e
      → r.1 ≡ err e
  unfolding then_answer
  then_answer_err answer (w, ok _) e h = cc
  then_answer_err answer (w, err x) e h = cc

  module _ (w : World platform store codec) where
    finish-IsNormal :
        (accounts : List ServiceAccount) (r : Log × Result Text (Unit {0}))
        → IsNormal accounts
        → IsNormal w.registry.accounts
        → IsNormal (finish platform store codec w accounts r).0.registry.accounts
    unfolding finish
    finish-IsNormal accounts (l, ok _) n v = n
    finish-IsNormal accounts (l, err m) n v = v

    finish_err :
        (accounts : List ServiceAccount) (r : Log × Result Text (Unit {0})) (e : Error)
        → (finish platform store codec w accounts r).1 ≡ err e
        → (finish platform store codec w accounts r).0.registry ≡ w.registry
    unfolding finish
    finish_err accounts (l, ok _) e h = cc
    finish_err accounts (l, err m) e h = refl

    finish_ok :
        (accounts : List ServiceAccount) (r : Log × Result Text (Unit {0}))
        → (finish platform store codec w accounts r).1 ≡ ok tt
        → (finish platform store codec w accounts r).0.registry.accounts ≡ accounts
    unfolding finish
    finish_ok accounts (l, ok _) h = refl
    finish_ok accounts (l, err m) h = cc

    commit-IsNormal :
        (file : List ServiceAccount)
        → IsNormal w.registry.accounts
        → IsNormal (commit platform store codec w file).0.registry.accounts
    unfolding commit
    commit-IsNormal file v = elim (Result-cases (normalize_file collate file)) [
      | inl (accounts, run) ↦
          rw (run, commit)
            (finish-IsNormal accounts
              (write_text w.log service_accounts_path (codec.encode accounts))
              (normalize_file_lem collate file accounts run).0 v)
      | inr (e, run) ↦ rw (run, commit) v
    ]

    commit_err :
        (file : List ServiceAccount) (e : Error)
        → (commit platform store codec w file).1 ≡ err e
        → (commit platform store codec w file).0.registry ≡ w.registry
    unfolding commit
    commit_err file e h = elim (Result-cases (normalize_file collate file)) [
      | inl (accounts, run) ↦
          rw (run, commit)
            (finish_err accounts (write_text w.log service_accounts_path (codec.encode accounts)) e
              (rw (run, commit) at h))
      | inr (x, run) ↦ rw (run, commit)
    ]

    -- A commit that succeeds leaves the normal form of the file in the registry.
    pub commit_ok :
        (file : List ServiceAccount)
        → (commit platform store codec w file).1 ≡ ok tt
        → normalize_file collate file ≡ ok (commit platform store codec w file).0.registry.accounts
    unfolding commit
    commit_ok file h = elim (Result-cases (normalize_file collate file)) [
      | inl (accounts, run) ↦
          let kept =
            finish_ok accounts (write_text w.log service_accounts_path (codec.encode accounts))
              (rw (run, commit) at h) in
          rw (run, commit) (rw kept)
      | inr (x, run) ↦ let h' = rw (run, commit) at h in cc
    ]

    carry_out-IsNormal :
        (change : Change)
        → IsNormal w.registry.accounts
        → IsNormal (carry_out platform store codec w change).0.registry.accounts
    unfolding carry_out
    carry_out-IsNormal change v = elim (Option-cases change.file) [
      | inl nothing ↦ rw (nothing, carry_out) v
      | inr (file, written) ↦
          rw
            (
              written,
              carry_out,
              then_answer_world change.answer (commit platform store codec w file),
            )
            (commit-IsNormal file v)
    ]

    carry_out_err :
        (change : Change) (e : Error)
        → (carry_out platform store codec w change).1 ≡ err e
        → (carry_out platform store codec w change).0.registry ≡ w.registry
    unfolding carry_out
    carry_out_err change e h = elim (Option-cases change.file) [
      | inl nothing ↦ rw (nothing, carry_out)
      | inr (file, written) ↦
          let r = commit platform store codec w file in
          let failed = then_answer_err change.answer r e (rw (written, carry_out) at h) in
          rw (written, carry_out, then_answer_world change.answer r) (commit_err file e failed)
    ]

    -- Every mutation keeps a registry in normal form, whether it answers or throws: ids, names and
    -- the key ids of an account stay distinct, names well formed and scopes nonempty.
    pub mutate-IsNormal :
        (req : Request) (draw : Draw) (now : ℕ)
        → IsNormal w.registry.accounts
        → IsNormal (mutate platform store codec w req draw now).0.registry.accounts
    unfolding mutate
    mutate-IsNormal req draw now v = elim (Result-cases (plan platform w.registry req draw now)) [
      | inr (e, run) ↦ rw (run, mutate) v
      | inl (change, run) ↦ rw (run, mutate) (carry_out-IsNormal change v)
    ]

    -- A mutation that throws, at any point, leaves the registry as it was.
    pub failed_mutation_keeps :
        (req : Request) (draw : Draw) (now : ℕ) (e : Error)
        → (mutate platform store codec w req draw now).1 ≡ err e
        → (mutate platform store codec w req draw now).0.registry ≡ w.registry
    unfolding mutate
    failed_mutation_keeps req draw now e h =
        elim (Result-cases (plan platform w.registry req draw now)) [
          | inr (x, run) ↦ rw (run, mutate)
          | inl (change, run) ↦ rw (run, mutate) (carry_out_err change e (rw (run, mutate) at h))
        ]

    -- A mutation that answers was planned; if the plan commits a file, its normal form is the
    -- registry now, else the registry is as it was.
    pub mutate_ok :
        (req : Request) (draw : Draw) (now : ℕ) (reply : Reply)
        → (mutate platform store codec w req draw now).1 ≡ ok reply
        → (change : Change) × (plan platform w.registry req draw now ≡ ok change)
          × (((change.file ≡ none)
                × ((mutate platform store codec w req draw now).0.registry ≡ w.registry))
              ⊎ ((file : List ServiceAccount) × (change.file ≡ some file)
                  × (normalize_file collate file
                      ≡ ok (mutate platform store codec w req draw now).0.registry.accounts)))
    unfolding mutate carry_out
    mutate_ok req draw now reply h = elim (Result-cases (plan platform w.registry req draw now)) [
      | inr (x, run) ↦ let h' = rw (run, mutate) at h in cc
      | inl (change, run) ↦ (
        change,
        run,
        elim (Option-cases change.file) [
          | inl nothing ↦ inl (nothing, rw (run, mutate, nothing, carry_out))
          | inr (file, written) ↦
              let r = commit platform store codec w file in
              let done =
                then_answer_ok change.answer r reply (rw (run, mutate, written, carry_out) at h) in
              inr (
                file,
                written,
                rw (run, mutate, written, carry_out, then_answer_world change.answer r)
                    (commit_ok file done),
              )
        ],
      )
    ]
