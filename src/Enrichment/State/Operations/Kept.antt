-- ===== src/Enrichment/State/Operations/Kept.antt =====
-- What an operation on the queue leaves as it is, and which records the lists have after it.
use xtap_pool.Base.{
  Bool, Bool-cases, List, [], ap, arith, eqb, false, filter, inl, inr, insert, leb, not, refl, sort,
  sym, true, ℕ, ◌++◌, ◌↔◌, ◌∙◌, ◌∷◌, ◌≡◌, ◌≢◌, ◌⊎◌,
}
use xtap_pool.Enrichment.State.{BlockedRecord, Queue, RetryRecord, State}
use xtap_pool.Enrichment.State.Operations.{
  Attempt, attempted_queue, block, marked_state, replace_ordinal, retry, with_queue,
}

-- All but the queue and the bitmap is the same.
pub record SameBesidesQueue (s t : State) : Type 0 where
  pub schema : t.schema_version ≡ s.schema_version
  pub run : t.run_id ≡ s.run_id
  pub plan : t.plan_sha256 ≡ s.plan_sha256
  pub sequence : t.sequence ≡ s.sequence
  pub registry : t.registry ≡ s.registry
  pub outputs : t.outputs ≡ s.outputs
  pub publication : t.publication ≡ s.publication

module _ {A : Type 0} where
  abbrev pub IsIn : A → List A → Type 0
  IsIn a [] = ⊥
  IsIn a (x ∷ xs) = (a ≡ x) ⊎ IsIn a xs

  insert-IsIn :
      (le : A → A → Bool) (b a : A) (xs : List A) → IsIn b (insert le a xs) ↔ ((b ≡ a) ⊎ IsIn b xs)
  insert-IsIn le b a [] = (λ h. h, λ h. h)
  insert-IsIn le b a (x ∷ xs) = elim (Bool-cases (le a x)) [
    | inl below ↦ rw below (λ h. h, λ h. h)
    | inr above ↦ rw above (
      λ h. elim h [
        | inl e ↦ inr (inl e)
        | inr later ↦ elim ((insert-IsIn le b a xs).0 later) [
          | inl e ↦ inl e
          | inr old ↦ inr (inr old)
        ]
      ],
      λ h. elim h [
        | inl e ↦ inr ((insert-IsIn le b a xs).1 (inl e))
        | inr old ↦ elim old [
          | inl e ↦ inl e
          | inr later ↦ inr ((insert-IsIn le b a xs).1 (inr later))
        ]
      ],
    )
  ]

  sort-IsIn : (le : A → A → Bool) (b : A) (xs : List A) → IsIn b (sort le xs) ↔ IsIn b xs
  sort-IsIn le b [] = (λ h. h, λ h. h)
  sort-IsIn le b (x ∷ xs) = (
    λ h. elim ((insert-IsIn le b x (sort le xs)).0 h) [
      | inl e ↦ inl e
      | inr later ↦ inr ((sort-IsIn le b xs).0 later)
    ],
    λ h. elim h [
      | inl e ↦ (insert-IsIn le b x (sort le xs)).1 (inl e)
      | inr later ↦ (insert-IsIn le b x (sort le xs)).1 (inr ((sort-IsIn le b xs).1 later))
    ],
  )

  snoc-IsIn : (b v : A) (xs : List A) → IsIn b (xs ++ v ∷ []) ↔ ((b ≡ v) ⊎ IsIn b xs)
  snoc-IsIn b v [] = (λ h. h, λ h. h)
  snoc-IsIn b v (x ∷ xs) = (
    λ h. elim h [
      | inl e ↦ inr (inl e)
      | inr later ↦ elim ((snoc-IsIn b v xs).0 later) [ inl e ↦ inl e | inr old ↦ inr (inr old) ]
    ],
    λ h. elim h [
      | inl e ↦ inr ((snoc-IsIn b v xs).1 (inl e))
      | inr old ↦ elim old [ inl e ↦ inl e | inr later ↦ inr ((snoc-IsIn b v xs).1 (inr later)) ]
    ],
  )

  filter-IsIn :
      (p : A → Bool) (b : A) (xs : List A) → IsIn b (filter p xs) ↔ (IsIn b xs × (p b ≡ true))
  filter-IsIn p b [] = (λ h. absurd h, λ h. h.0)
  filter-IsIn p b (x ∷ xs) = elim (Bool-cases (p x)) [
    | inl kept ↦ rw kept (
      λ h. elim h [
        | inl e ↦ (inl e, ap p e ∙ kept)
        | inr later ↦ let (old, holds) = (filter-IsIn p b xs).0 later in (inr old, holds)
      ],
      λ (h, holds). elim h [
        | inl e ↦ inl e
        | inr later ↦ inr ((filter-IsIn p b xs).1 (later, holds))
      ],
    )
    | inr dropped ↦ rw dropped (
      λ h. let (old, holds) = (filter-IsIn p b xs).0 h in (inr old, holds),
      λ (h, holds). elim h [
        | inl e ↦ absurd (apart (sym (ap p e ∙ dropped) ∙ holds))
        | inr later ↦ (filter-IsIn p b xs).1 (later, holds)
      ],
    )
  ]
    where
      apart : Path Bool false true → ⊥
      apart q = cc

  module _ (ordinal : A → ℕ) where
    -- The records of the new list are those of the old one with another ordinal.
    abbrev pub Dropped : List A → ℕ → List A → Type 0
    Dropped old o new = (r : A) → IsIn r new ↔ (IsIn r old × (ordinal r ≢ o))

    -- The records of the new list are `v` and those of the old one with another ordinal.
    abbrev pub Received : List A → A → List A → Type 0
    Received old v new = (r : A) → IsIn r new ↔ ((r ≡ v) ⊎ (IsIn r old × (ordinal r ≢ ordinal v)))

    filter-Dropped :
        (old : List A) (o : ℕ) → Dropped old o (filter (λ r. not (eqb (ordinal r) o)) old)
    filter-Dropped old o r =
        let keeps = filter-IsIn (λ r. not (eqb (ordinal r) o)) r old in
        (
          λ h. let (kept, other) = keeps.0 h in (kept, ground arith),
          λ (kept, other). keeps.1 (kept, ground arith),
        )

    replace_ordinal-Received :
        (old : List A) (v : A) → Received old v (replace_ordinal ordinal old v)
    unfolding replace_ordinal
    replace_ordinal-Received old v r =
        let others = filter (λ r. not (eqb (ordinal r) (ordinal v))) old in
        let sorts = sort-IsIn (λ a b. leb (ordinal a) (ordinal b)) r (others ++ v ∷ []) in
        let appends = snoc-IsIn r v others in
        let drops = filter-Dropped old (ordinal v) r in
        (
          λ h. elim (appends.0 (sorts.0 h)) [ inl e ↦ inl e | inr kept ↦ inr (drops.0 kept) ],
          λ h. elim h [
            | inl e ↦ sorts.1 (appends.1 (inl e))
            | inr kept ↦ sorts.1 (appends.1 (inr (drops.1 kept)))
          ],
        )

-- The record of the attempt is in the list of its kind, the other records of its ordinal are in
-- neither list, and the records of the other ordinals stay in theirs.
abbrev pub IsRecorded : Attempt → Queue → Queue → Type 0
IsRecorded (retry v) q q' =
    Received (λ (r : RetryRecord). r.ordinal) q.retrying v q'.retrying
    × Dropped (λ (r : BlockedRecord). r.ordinal) q.blocked v.ordinal q'.blocked
IsRecorded (block v) q q' =
    Received (λ (r : BlockedRecord). r.ordinal) q.blocked v q'.blocked
    × Dropped (λ (r : RetryRecord). r.ordinal) q.retrying v.ordinal q'.retrying

pub attempted_queue-IsRecorded : (q : Queue) (a : Attempt) → IsRecorded a q (attempted_queue q a)
unfolding attempted_queue
attempted_queue-IsRecorded q (retry v) = (
  replace_ordinal-Received (λ (r : RetryRecord). r.ordinal) q.retrying v,
  filter-Dropped (λ (r : BlockedRecord). r.ordinal) q.blocked v.ordinal,
)
attempted_queue-IsRecorded q (block v) = (
  replace_ordinal-Received (λ (r : BlockedRecord). r.ordinal) q.blocked v,
  filter-Dropped (λ (r : RetryRecord). r.ordinal) q.retrying v.ordinal,
)

pub attempted-SameBesidesQueue : (s : State) (q : Queue) → SameBesidesQueue s (with_queue s q)
attempted-SameBesidesQueue s q = record {
  schema = refl;
  run = refl;
  plan = refl;
  sequence = refl;
  registry = refl;
  outputs = refl;
  publication = refl;
}

pub marked-SameBesidesQueue :
    (s : State) (os bm : List ℕ) (done : ℕ) → SameBesidesQueue s (marked_state s os bm done)
marked-SameBesidesQueue s os bm done = record {
  schema = refl;
  run = refl;
  plan = refl;
  sequence = refl;
  registry = refl;
  outputs = refl;
  publication = refl;
}
