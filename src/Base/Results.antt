-- ===== src/Base/Results.antt =====
-- What a call that may throw returns.
use mathlib.Core.Path.{◌≡◌, refl, ap}
use mathlib.Core.Bool.{Bool, true, false}
use mathlib.Core.Logic.{◌⊎◌, inl, inr}
use mathlib.Core.List.{List, [], ◌∷◌}
use mathlib.Core.Option.{Option, none, some}
use xtap_pool.Base.Lists.{All}

pub data Result {ℓ κ} (E : Type ℓ) (A : Type κ) : Type (ℓ ⊔ κ) where
  ok : A → Result E A
  err : E → Result E A

infixl 5 ◌>>=◌ ◌>>◌
abbrev pub ◌>>=◌ {ℓ κ μ} :
    {E : Type ℓ} {A : Type κ} {B : Type μ} → Result E A → (A → Result E B) → Result E B
ok a >>= f = f a
err e >>= f = err e

abbrev pub ◌>>◌ {ℓ κ} : {E : Type ℓ} {B : Type κ} → Result E (Unit {0}) → Result E B → Result E B
m >> k = m >>= λ _. k

-- `if (!test) throw`.
abbrev pub guard {ℓ} : {E : Type ℓ} → Bool → E → Result E (Unit {0})
guard true e = ok tt
guard false e = err e

module _ {ℓ κ} {E : Type ℓ} {A : Type κ} where
  abbrev pub or_throw : Option A → E → Result E A
  or_throw none e = err e
  or_throw (some a) e = ok a

  pub Result-cases : (r : Result E A) → ((a : A) × (r ≡ ok a)) ⊎ ((e : E) × (r ≡ err e))
  Result-cases (ok a) = inl (a, refl)
  Result-cases (err e) = inr (e, refl)

-- `Array.prototype.map` with a function that may throw: the first throw ends it.
abbrev pub traverse {ℓ κ μ} :
    {E : Type ℓ} {A : Type κ} {B : Type μ} → (A → Result E B) → List A → Result E (List B)
traverse f [] = ok []
traverse f (x ∷ xs) = do y ← f x; ys ← traverse f xs; ok (y ∷ ys)

-- A chain that succeeds: its first part gives a value from which the rest succeeds.
pub >>=-eq-ok {ℓ κ μ} :
    {E : Type ℓ} {A : Type κ} {B : Type μ} (first : Result E A) (rest : A → Result E B) {last : B}
    → (first >>= rest) ≡ ok last
    → (value : A) × (first ≡ ok value) × (rest value ≡ ok last)
>>=-eq-ok (err thrown) rest h = cc
>>=-eq-ok (ok value) rest h = (value, refl, h)

-- A chain that starts with a guard succeeds only where the guard holds.
pub guard-eq-ok {ℓ κ} :
    {E : Type ℓ} {A : Type κ} (b : Bool) (e : E) (k : Result E A) {a : A}
    → (guard b e >> k) ≡ ok a
    → (b ≡ true) × (k ≡ ok a)
guard-eq-ok true e k h = (refl, h)
guard-eq-ok false e k h = cc

-- A guard that succeeds holds.
pub guard-true {ℓ} : {E : Type ℓ} (b : Bool) (e : E) {u : Unit {0}} → guard b e ≡ ok u → b ≡ true
guard-true true e h = refl
guard-true false e h = cc

pub traverse_of_fixed {ℓ κ} :
    {E : Type ℓ} {A : Type κ} (f : A → Result E A) (xs : List A)
    → All (λ x. f x ≡ ok x) xs
    → traverse f xs ≡ ok xs
traverse_of_fixed f [] h = refl
traverse_of_fixed f (x ∷ xs) h = rw (h.0, traverse_of_fixed f xs h.1)

-- What every result of the function satisfies, all results of a traversal satisfy.
pub traverse-All {ℓ κ μ ν} :
    {E : Type ℓ} {A : Type κ} {B : Type μ} (P : B → Type ν) (f : A → Result E B)
    → ((a : A) (b : B) → f a ≡ ok b → P b)
    → (xs : List A) (ys : List B) → traverse f xs ≡ ok ys
    → All P ys
traverse-All P f g [] [] h = tt
traverse-All P f g [] (y ∷ ys) h = cc
traverse-All {E} {A} {B} P f g (x ∷ xs) ys h =
    let (z, fx, rest) = >>=-eq-ok (f x) _ h in
    let (zs, fxs, e) = >>=-eq-ok (traverse f xs) _ rest in
    let same : z ∷ zs ≡ ys = cc in rw (← same) (g x z fx, traverse-All P f g xs zs fxs)

module _ {ℓ κ} {E : Type ℓ} {A : Type κ} where
  abbrev ok_or : A → Result E A → A
  ok_or d (ok a) = a
  ok_or d (err _) = d

  pub ok-injective : {a b : A} → Path (Result E A) (ok a) (ok b) → a ≡ b
  ok-injective {a} p = ap (ok_or a) p

-- `or_throw` succeeds only with a value.
pub or_throw-eq-ok {ℓ κ} :
    {E : Type ℓ} {A : Type κ} (o : Option A) (e : E) {a : A} → or_throw o e ≡ ok a → o ≡ some a
or_throw-eq-ok none e h = cc
or_throw-eq-ok (some x) e h = ap some (ok-injective h)

-- The rest of a handler with the state that its first part left.
unfoldable pub then_in :
    {E S A B : Type 0} → S × Result E A → (S → A → S × Result E B) → S × Result E B
then_in (s, ok a) k = k s a
then_in (s, err e) k = (s, err e)

pub err_not_ok : {E B : Type 0} (e : E) (b : B) → Path (Result E B) (err e) (ok b) → ⊥
err_not_ok e b q = cc

-- A handler that succeeds: its first part gives a value from which the rest succeeds.
pub then_in-ok :
    {E S A B : Type 0} (r : S × Result E A) (k : S → A → S × Result E B) (t : S) (b : B)
    → then_in r k ≡ (t, ok b)
    → (a : A) × (r.1 ≡ ok a) × (k r.0 a ≡ (t, ok b))
unfolding then_in
then_in-ok (s, ok a) k t b h = (a, refl, h)
then_in-ok (s, err e) k t b h = absurd (err_not_ok e b (ap (λ r. r.1) h))

-- What both parts of a handler keep, the handler keeps.
pub then_in-keeps {ℓ} :
    {E S A B : Type 0} (P : S → Type ℓ) (r : S × Result E A) (k : S → A → S × Result E B)
    → P r.0
    → ((s : S) (a : A) → P s → P (k s a).0)
    → P (then_in r k).0
unfolding then_in
then_in-keeps P (s, ok a) k p f = f s a p
then_in-keeps P (s, err e) k p f = p

pub then_in-keeps_ok {ℓ} :
    {E S A B : Type 0} (P : S → Type ℓ) (r : S × Result E A) (k : S → A → S × Result E B)
    → P r.0
    → ((a : A) → r.1 ≡ ok a → P (k r.0 a).0)
    → P (then_in r k).0
unfolding then_in
then_in-keeps_ok P (s, ok a) k p f = f a refl
then_in-keeps_ok P (s, err e) k p f = p

-- The end of a handler that has succeeded.
pub returned :
    {E S B : Type 0} {s t : S} {b c : B}
    → Path (S × Result E B) (s, ok b) (t, ok c)
    → (s ≡ t) × (b ≡ c)
returned h = (ap (λ r. r.0) h, ok-injective (ap (λ r. r.1) h))

-- `try { ... } catch { throw new Error(message) }`.
abbrev pub or_else_throw {ℓ} : {A : Type ℓ} {E : Type 0} → Result E A → E → Result E A
or_else_throw (ok a) e = ok a
or_else_throw (err _) e = err e

-- The items one after the other, each with the state that the one before it left.
unfoldable pub traverse_in :
    {E S A B : Type 0} → (S → A → S × Result E B) → S → List A → S × Result E (List B)
unfolding then_in
traverse_in f s [] = (s, ok [])
traverse_in f s (x ∷ xs) =
    then_in (f s x) (λ s₁ y. then_in (traverse_in f s₁ xs) (λ s₂ ys. (s₂, ok (y ∷ ys))))

pub or_else_throw-eq-ok {ℓ} :
    {A : Type ℓ} {E : Type 0} (r : Result E A) (e : E) {a : A} → or_else_throw r e ≡ ok a → r ≡ ok a
or_else_throw-eq-ok (ok a) e h = ap ok (ok-injective h)
or_else_throw-eq-ok (err _) e h = cc

-- The result of a handler, apart from the state that it leaves.
pub with_state : {S A : Type 0} (r : S × A) (a : A) → r.1 ≡ a → r ≡ (r.0, a)
with_state r a h = ap (λ x. (r.0, x)) h

pub traverse_in-keeps {ℓ} :
    {E S A B : Type 0} (P : S → Type ℓ) (f : S → A → S × Result E B)
    → ((s : S) (x : A) → P s → P (f s x).0)
    → (s : S) (xs : List A) → P s
    → P (traverse_in f s xs).0
unfolding traverse_in
traverse_in-keeps P f step s [] p = p
traverse_in-keeps P f step s (x ∷ xs) p = then_in-keeps P (f s x) _ (step s x p) (λ s₁ y p₁.
    then_in-keeps P (traverse_in f s₁ xs) _ (traverse_in-keeps P f step s₁ xs p₁) (λ s₂ ys p₂. p₂))

-- The items of two lists, one by one.
abbrev pub AllPairs : {A B : Type 0} → (A → B → Type 0) → List A → List B → Type 0
AllPairs R [] [] = Unit
AllPairs R [] (y ∷ ys) = ⊥
AllPairs R (x ∷ xs) [] = ⊥
AllPairs R (x ∷ xs) (y ∷ ys) = R x y × AllPairs R xs ys

-- What each step keeps and finds, the whole traversal keeps and finds.
pub traverse_in-AllPairs {ℓ} :
    {E S A B : Type 0} (P : S → Type ℓ) (R : A → B → Type 0) (f : S → A → S × Result E B)
    → ((s t : S) (x : A) (y : B) → P s → f s x ≡ (t, ok y) → P t × R x y)
    → (s t : S) (xs : List A) (ys : List B) → P s
    → traverse_in f s xs ≡ (t, ok ys)
    → P t × AllPairs R xs ys
unfolding traverse_in
traverse_in-AllPairs P R f step s t [] [] p h = (rw (← (returned h).0) p, tt)
traverse_in-AllPairs P R f step s t [] (y ∷ ys) p h = let (_, e) = returned h in cc
traverse_in-AllPairs P R f step s t (x ∷ xs) zs p h =
    let (y, found, h₁) = then_in-ok (f s x) _ t zs h in
    let (ys, rest, h₂) = then_in-ok (traverse_in f (f s x).0 xs) _ t zs h₁ in
    let (state, same) = returned h₂ in
    let (p₁, related) = step s (f s x).0 x y p (with_state (f s x) (ok y) found) in
    let tail = traverse_in f (f s x).0 xs in
    let (p₂, all_related) =
      traverse_in-AllPairs P R f step (f s x).0 tail.0 xs ys p₁ (with_state tail (ok ys) rest) in
    rw (← state, ← same) (p₂, (related, all_related))
