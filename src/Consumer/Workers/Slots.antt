-- ===== src/Consumer/Workers/Slots.antt =====
-- Which tasks and slots a change of the pool's lists leaves: the lemmas on the two lists.
use mathlib.Core.Option
use xtap_pool.Base.{
  Bool, Bool-cases, List, [], all, any, arith, eqb, eqb_iff, false, filter, find, inl, inr, ltb,
  map, not, refl, some, true, ℕ, ◌&&◌, ◌++◌, ◌+◌, ◌||◌, ◌∷◌, ◌≡◌,
}
use xtap_pool.Consumer.Workers.{Running, Slot, set_busy, without_child}

-- Whether a task listens to a child.
abbrev pub served : List Running → ℕ → Bool
served rs c = any (λ (r : Running). eqb r.worker c) rs

-- Whether no two tasks listen to one child.
abbrev pub distinct : List Running → Bool
distinct [] = true
distinct (r ∷ rs) = not (served rs r.worker) && distinct rs

-- An idle slot serves no task.
abbrev pub is_free_if_idle : List Running → Slot → Bool
is_free_if_idle rs s = s.is_busy || not (served rs s.child)

pub served-filter :
    (p : Running → Bool) (rs : List Running) (c : ℕ)
    → served rs c ≡ false
    → served (filter p rs) c ≡ false
served-filter p [] c h = refl
served-filter p (r ∷ rs) c h = ground (arith, served-filter p rs c)

pub distinct-filter :
    (p : Running → Bool) (rs : List Running) → distinct rs ≡ true → distinct (filter p rs) ≡ true
distinct-filter p [] h = refl
distinct-filter p (r ∷ rs) h = ground (arith, distinct-filter p rs, served-filter p rs r.worker)

pub served-without_child : (c : ℕ) (rs : List Running) → served (without_child c rs) c ≡ false
served-without_child c [] = refl
served-without_child c (r ∷ rs) = ground (arith, served-without_child c rs)

pub safe-filter :
    (p : Running → Bool) (rs : List Running) (ss : List Slot)
    → all (is_free_if_idle rs) ss ≡ true
    → all (is_free_if_idle (filter p rs)) ss ≡ true
safe-filter p rs [] h = refl
safe-filter p rs (s ∷ ss) h =
    ground (arith, safe-filter p rs ss, served-filter p rs s.child, Bool-cases (served rs s.child))

pub safe-set_busy :
    (b : Bool) (c : ℕ) (rs : List Running) (ss : List Slot)
    → (b || not (served rs c)) ≡ true
    → all (is_free_if_idle rs) ss ≡ true
    → all (is_free_if_idle rs) (set_busy b c ss) ≡ true
safe-set_busy b c rs [] free h = refl
safe-set_busy b c rs (s ∷ ss) free h =
    ground (arith, safe-set_busy b c rs ss free, eqb_iff s.child c)

pub old-set_busy :
    (b : Bool) (c n : ℕ) (ss : List Slot)
    → all (λ (s : Slot). ltb s.child n) ss ≡ true
    → all (λ (s : Slot). ltb s.child n) (set_busy b c ss) ≡ true
old-set_busy b c n [] h = refl
old-set_busy b c n (s ∷ ss) h = ground (arith, old-set_busy b c n ss)

-- A new task on a child whose slot it makes busy.
pub safe-take :
    (r : Running) (rs : List Running) (ss : List Slot)
    → all (is_free_if_idle rs) ss ≡ true
    → all (is_free_if_idle (r ∷ rs)) (set_busy true r.worker ss) ≡ true
safe-take r rs [] h = refl
safe-take r rs (s ∷ ss) h = ground (arith, safe-take r rs ss, eqb_iff s.child r.worker)

pub safe-fork :
    (r : Running) (rs : List Running) (ss : List Slot)
    → all (λ (s : Slot). ltb s.child r.worker) ss ≡ true
    → all (is_free_if_idle rs) ss ≡ true
    → all (is_free_if_idle (r ∷ rs)) (ss ++ record { child = r.worker; is_busy = true } ∷ []) ≡ true
safe-fork r rs [] old h = refl
safe-fork r rs (s ∷ ss) old h = ground (arith, safe-fork r rs ss)

find_first {ℓ} :
    {A : Type ℓ} (p : A → Bool) (x a : A) (xs : List A)
    → p x ≡ true
    → find p (x ∷ xs) ≡ some a
    → x ≡ a
find_first p x a xs here found = Option.some-injective _ _ (rw here at found)

pub idle_free :
    (rs : List Running) (ss : List Slot) (n : ℕ) (s : Slot)
    → find (λ (s : Slot). not s.is_busy) ss ≡ some s
    → all (λ (s : Slot). ltb s.child n) ss ≡ true
    → all (is_free_if_idle rs) ss ≡ true
    → (served rs s.child ≡ false) × (ltb s.child n ≡ true)
idle_free rs [] n s found old h = cc
idle_free rs (x ∷ ss) n s found old h = elim (Bool-cases x.is_busy) [
  | inl busy ↦ idle_free rs ss n s (ground arith) (ground arith) (ground arith)
  | inr idle ↦
      let e = find_first (λ (s : Slot). not s.is_busy) x s ss (rw idle) found in
      rw (← e) (ground arith, ground arith)
]

pub unserved_of_old :
    (n : ℕ) (rs : List Running)
    → all (λ (r : Running). ltb r.worker n) rs ≡ true
    → served rs n ≡ false
unserved_of_old n [] h = refl
unserved_of_old n (r ∷ rs) h = ground (arith, unserved_of_old n rs)

pub older_slots :
    (n : ℕ) (ss : List Slot)
    → all (λ (s : Slot). ltb s.child n) ss ≡ true
    → all (λ (s : Slot). ltb s.child (n + 1)) ss ≡ true
older_slots n [] h = refl
older_slots n (s ∷ ss) h = ground (arith, older_slots n ss)

pub older_running :
    (n : ℕ) (rs : List Running)
    → all (λ (r : Running). ltb r.worker n) rs ≡ true
    → all (λ (r : Running). ltb r.worker (n + 1)) rs ≡ true
older_running n [] h = refl
older_running n (r ∷ rs) h = ground (arith, older_running n rs)

pub all_busy_safe :
    (rs : List Running) (ss : List Slot)
    → all (is_free_if_idle rs) (map (λ (s : Slot). record s { is_busy = true }) ss) ≡ true
all_busy_safe rs [] = refl
all_busy_safe rs (s ∷ ss) = all_busy_safe rs ss

pub all_busy_old :
    (n : ℕ) (ss : List Slot)
    → all (λ (s : Slot). ltb s.child n) ss ≡ true
    → all (λ (s : Slot). ltb s.child n) (map (λ (s : Slot). record s { is_busy = true }) ss) ≡ true
all_busy_old n [] h = refl
all_busy_old n (s ∷ ss) h = ground (arith, all_busy_old n ss)
