-- ===== src/Admission/Election.antt =====
-- Who is elected.
use xtap_pool.Base.{
  ==_of_eq, >>=-eq-ok, Bool, Bool-cases, List, Text, [], all, all-dedup, all-filter, all-sort,
  arith, contains, contains-dedup, contains-filter, contains-sort, dedup, eq_of_==, false, filter,
  guard, guard-eq-ok, inl, inr, keys, nat_eq, ok, refl, sorted, sorted-head_le, sorted-sort,
  text_eq, text_le, text_le_antisym, text_le_refl, text_le_total, text_le_trans, true, ◌&&◌, ◌==◌,
  ◌∙◌, ◌∷◌, ◌≡◌, ◌≢◌,
}
use xtap_pool.Admission.{
  Ticket, claimed, confirm_claim, contenders, elected_other, is_close, require_elected_writer,
  require_first,
}

is_close_comm : (a b : Text) → is_close a b ≡ is_close b a
unfolding is_close
is_close_comm a b = ground arith

contains-contenders :
    (prefix job : Text) (keys : List Text) (c : Text)
    → contains (contenders prefix job keys) c ≡ (is_close c job && contains (claimed prefix keys) c)
unfolding contenders
contains-contenders prefix job keys c =
    let near = filter (λ candidate. is_close candidate job) (claimed prefix keys) in
    contains-sort text_le (dedup near) c
    ∙ contains-dedup near c
    ∙ contains-filter (λ candidate. is_close candidate job) (claimed prefix keys) c

sorted-contenders :
    (prefix job : Text) (keys : List Text) → sorted text_le (contenders prefix job keys) ≡ true
unfolding contenders
sorted-contenders prefix job keys =
    sorted-sort text_le text_le_total
      (dedup (filter (λ candidate. is_close candidate job) (claimed prefix keys)))

require_first_le :
    (job : Text) (cs : List Text) (c : Text)
    → sorted text_le cs ≡ true
    → require_first job cs ≡ ok tt
    → contains cs c ≡ true
    → text_le job c ≡ true
unfolding require_first
require_first_le job [] c s h k = cc
require_first_le job (first ∷ others) c s h k =
    let same : (first == job) ≡ true = passed (first == job) h in
    let e = eq_of_== first job same in
    elim (Bool-cases (first == c)) [
      | inl here ↦ rw (← e, eq_of_== first c here) (text_le_refl c)
      | inr there ↦ rw (← e) (sorted-head_le text_le text_le_trans first others c s (ground arith))
    ]
  where
    passed : (b : Bool) → guard b (elected_other (first ∷ others)) ≡ ok tt → b ≡ true
    passed true k = refl
    passed false k = cc

-- An elected job is not after any claimed contender.
elected_le :
    (keys : List Text) (prefix job c : Text)
    → require_elected_writer keys prefix job ≡ ok tt
    → is_close c job ≡ true
    → contains (claimed prefix keys) c ≡ true
    → text_le job c ≡ true
unfolding require_elected_writer
elected_le keys prefix job c h near there =
    let (_, h₁) = guard-eq-ok (contains (contenders prefix job keys) job) _ _ h in
    require_first_le job (contenders prefix job keys) c (sorted-contenders prefix job keys) h₁
      (contains-contenders prefix job keys c ∙ ground arith)

confirmed_elected :
    (t : Ticket) (settled confirmed : List Text) (j : Text)
    → confirm_claim t settled confirmed ≡ ok j
    → require_elected_writer confirmed t.prefix t.job_id ≡ ok tt
unfolding confirm_claim
confirmed_elected t settled confirmed j h =
    let (_, _, h₁) = >>=-eq-ok (require_elected_writer settled t.prefix t.job_id) _ h in
    let (u, e, _) = >>=-eq-ok (require_elected_writer confirmed t.prefix t.job_id) _ h₁ in e

same_writer :
    (prefix a b i j : Text) (settled_a confirmed_a settled_b confirmed_b : List Text)
    → is_close a b ≡ true
    → contains (claimed prefix confirmed_a) b ≡ true
    → contains (claimed prefix confirmed_b) a ≡ true
    → confirm_claim (record { prefix = prefix; job_id = a }) settled_a confirmed_a ≡ ok i
    → confirm_claim (record { prefix = prefix; job_id = b }) settled_b confirmed_b ≡ ok j
    → a ≡ b
same_writer prefix a b i j sa ca sb cb near saw_b saw_a won_a won_b =
    let ea = confirmed_elected (record { prefix = prefix; job_id = a }) sa ca i won_a in
    let eb = confirmed_elected (record { prefix = prefix; job_id = b }) sb cb j won_b in
    text_le_antisym a b (elected_le ca prefix a b ea (is_close_comm b a ∙ near) saw_b)
      (elected_le cb prefix b a eb near saw_a)

-- Two different jobs of one source revision that were created within the window and whose last
-- listings both had the other's claim are not both admitted: where one is, the other is not.
pub single_writer :
    (prefix a b i : Text) (settled_a confirmed_a settled_b confirmed_b : List Text)
    → a ≢ b
    → is_close a b ≡ true
    → contains (claimed prefix confirmed_a) b ≡ true
    → contains (claimed prefix confirmed_b) a ≡ true
    → confirm_claim (record { prefix = prefix; job_id = a }) settled_a confirmed_a ≡ ok i
    → (j : Text)
    → confirm_claim (record { prefix = prefix; job_id = b }) settled_b confirmed_b ≢ ok j
single_writer prefix a b i sa ca sb cb differ near saw_b saw_a won_a j won_b =
    differ (same_writer prefix a b i j sa ca sb cb near saw_b saw_a won_a won_b)

require_first_least :
    (job : Text) (cs : List Text)
    → contains cs job ≡ true
    → sorted text_le cs ≡ true
    → all (λ c. text_le job c) cs ≡ true
    → require_first job cs ≡ ok tt
unfolding require_first
require_first_least job [] there s least = cc
require_first_least job (first ∷ others) there s least =
    let up : text_le job first ≡ true = ground arith in
    let down : text_le first job ≡ true = elim (Bool-cases (first == job)) [
      | inl here ↦ rw (eq_of_== first job here) (text_le_refl job)
      | inr other ↦ sorted-head_le text_le text_le_trans first others job s (ground arith)
    ] in
    let same = ==_of_eq first job (text_le_antisym first job down up) in rw same

all-contenders :
    (q : Text → Bool) (prefix job : Text) (keys : List Text)
    → all q (claimed prefix keys) ≡ true
    → all q (contenders prefix job keys) ≡ true
unfolding contenders
all-contenders q prefix job keys h =
    all-sort text_le q (dedup (filter (λ c. is_close c job) (claimed prefix keys)))
    ∙ all-dedup q (filter (λ c. is_close c job) (claimed prefix keys))
        (all-filter q (λ c. is_close c job) (claimed prefix keys) h)

self_close_lem : (a : Text) → is_close a a ≡ true
unfolding is_close
self_close_lem a = ground arith

elected_of :
    (keys : List Text) (prefix job : Text)
    → contains (contenders prefix job keys) job ≡ true
    → require_first job (contenders prefix job keys) ≡ ok tt
    → require_elected_writer keys prefix job ≡ ok tt
unfolding require_elected_writer
elected_of keys prefix job listed first = rw (listed, first)

-- The job whose id is least among the claims of both listings is admitted.
pub least_admitted :
    (t : Ticket) (settled confirmed : List Text)
    → contains (claimed t.prefix settled) t.job_id ≡ true
    → contains (claimed t.prefix confirmed) t.job_id ≡ true
    → all (λ c. text_le t.job_id c) (claimed t.prefix settled) ≡ true
    → all (λ c. text_le t.job_id c) (claimed t.prefix confirmed) ≡ true
    → confirm_claim t settled confirmed ≡ ok t.job_id
unfolding confirm_claim
least_admitted t settled confirmed in_s in_c least_s least_c =
    rw (elected settled in_s least_s, elected confirmed in_c least_c)
  where
    elected :
        (keys : List Text)
        → contains (claimed t.prefix keys) t.job_id ≡ true
        → all (λ c. text_le t.job_id c) (claimed t.prefix keys) ≡ true
        → require_elected_writer keys t.prefix t.job_id ≡ ok tt
    elected keys there least =
        let listed =
          contains-contenders t.prefix t.job_id keys t.job_id
          ∙ ground (arith, self_close_lem t.job_id) in
        let first =
          require_first_least t.job_id (contenders t.prefix t.job_id keys) listed
            (sorted-contenders t.prefix t.job_id keys)
            (all-contenders (λ c. text_le t.job_id c) t.prefix t.job_id keys least) in
        elected_of keys t.prefix t.job_id listed first
