-- ===== src/Enrichment/Bitmap/Laws.antt =====
-- What a bitmap holds after a bit is set, and what the count counts.
use xtap_pool.Base.{
  All-get_or, All-set, Bool, Bool-cases, List, arith, eqb, eqb_iff, false, get_or, get_or-set_ne,
  get_or-set_self, if◌then◌else◌, inl, inr, length, length-set, not, refl, suc, true, zero, ℕ, ◌%◌,
  ◌&&◌, ◌+◌, ◌/◌, ◌<◌, ◌||◌, ◌≡◌, ◌≢◌, ◌≤◌,
}
use xtap_pool.Enrichment.Bitmap.{
  IsBytes, bitmap_bytes, count_completed, count_from, is_completed, set_bit, set_completed,
  test_bit,
}

holds_upto : (ℕ → Bool) → ℕ → Bool
holds_upto test zero = true
holds_upto test (suc bound) = holds_upto test bound && test bound

holds_at :
    (test : ℕ → Bool) (bound i : ℕ) → i < bound → holds_upto test bound ≡ true → test i ≡ true
unfolding holds_upto
holds_at test zero i below h = absurd (omega arith)
holds_at test (suc bound) i below h = ground (arith, holds_at test bound i)

same_bool : Bool → Bool → Bool
same_bool true b = b
same_bool false b = not b

same_bool_sound : (a b : Bool) → same_bool a b ≡ true → a ≡ b
unfolding same_bool
same_bool_sound a b h = ground arith

-- Setting bit `i` of a byte sets that bit alone, for all bytes and bits.
bit_law : ℕ → ℕ → ℕ → Bool
bit_law j i b = same_bool (test_bit (set_bit b i) j) (eqb i j || test_bit b j)

bit_table : holds_upto (λ j. holds_upto (λ i. holds_upto (bit_law j i) 256) 8) 8 ≡ true
unfolding holds_upto bit_law same_bool test_bit set_bit
bit_table = refl

test_bit-set_bit :
    (b i j : ℕ) → b < 256 → i < 8 → j < 8 → test_bit (set_bit b i) j ≡ (eqb i j || test_bit b j)
unfolding bit_law
test_bit-set_bit b i j hb hi hj = same_bool_sound _ _ (
    holds_at (bit_law j i) 256 b hb (
      holds_at (λ i. holds_upto (bit_law j i) 256) 8 i hi
        (holds_at (λ j. holds_upto (λ i. holds_upto (bit_law j i) 256) 8) 8 j hj bit_table)))

set_bit-lt : (b i : ℕ) → set_bit b i < 256
unfolding set_bit
set_bit-lt b i = omega arith

pub set_completed-IsBytes : (bm : List ℕ) (o : ℕ) → IsBytes bm → IsBytes (set_completed bm o)
unfolding set_completed
set_completed-IsBytes bm o h = All-set (λ b. b < 256) bm (o / 8) _ h (set_bit-lt _ (o % 8))

pub length-set_completed : (bm : List ℕ) (o : ℕ) → length (set_completed bm o) ≡ length bm
unfolding set_completed
length-set_completed bm o = length-set bm (o / 8) _

eqb-quot-rem : (o p : ℕ) → o / 8 ≡ p / 8 → eqb (o % 8) (p % 8) ≡ eqb o p
eqb-quot-rem o p h = ground arith

-- Setting an ordinal that a bitmap of bytes has room for completes it, and no other.
pub is_completed-set_completed :
    (bm : List ℕ) (o p : ℕ)
    → IsBytes bm
    → o / 8 < length bm
    → is_completed (set_completed bm o) p ≡ (eqb o p || is_completed bm p)
unfolding is_completed set_completed
is_completed-set_completed bm o p h lt = elim (Bool-cases (eqb (o / 8) (p / 8))) [
  | inl same ↦
      let e = (eqb_iff (o / 8) (p / 8)).0 same in
      rw (
        ← e,
        get_or-set_self bm (o / 8) (set_bit (get_or bm (o / 8) 0) (o % 8)) 0 lt,
        test_bit-set_bit (get_or bm (o / 8) 0) (o % 8) (p % 8)
            (All-get_or (λ b. b < 256) bm (o / 8) 0 h (omega arith)) (omega arith) (omega arith),
        eqb-quot-rem o p e,
      )
  | inr other ↦
      let ne : o / 8 ≢ p / 8 = λ e. ground arith in
      let off : eqb o p ≡ false = ground arith in
      rw (get_or-set_ne bm (o / 8) (p / 8) (set_bit (get_or bm (o / 8) 0) (o % 8)) 0 ne, off)
]

-- How many of the ordinals below a bound are completed.
unfoldable pub completed_below : List ℕ → ℕ → ℕ
completed_below bm zero = 0
completed_below bm (suc n) = (if is_completed bm n then 1 else 0) + completed_below bm n

completed_from : List ℕ → ℕ → ℕ → ℕ
completed_from bm zero o = 0
completed_from bm (suc n) o = (if is_completed bm o then 1 else 0) + completed_from bm n (o + 1)

completed_from_last :
    (bm : List ℕ) (n o : ℕ)
    → completed_from bm (suc n) o
      ≡ completed_from bm n o + (if is_completed bm (o + n) then 1 else 0)
unfolding completed_from
completed_from_last bm zero o = let e : o + 0 ≡ o = omega arith in rw e (omega arith)
completed_from_last bm (suc n) o =
    let e : o + suc n ≡ (o + 1) + n = omega arith in
    rw e (omega (arith, completed_from_last bm n (o + 1)))

completed_from-below : (bm : List ℕ) (n : ℕ) → completed_from bm n 0 ≡ completed_below bm n
unfolding completed_from completed_below
completed_from-below bm zero = refl
completed_from-below bm (suc n) =
    let e : 0 + n ≡ n = omega arith in
    let last = rw e at (completed_from_last bm n 0) in
    omega (arith, last, completed_from-below bm n)

count_from-completed_from :
    (bm : List ℕ) (n o acc : ℕ) → count_from bm n o acc ≡ acc + completed_from bm n o
unfolding count_from completed_from
count_from-completed_from bm zero o acc = omega arith
count_from-completed_from bm (suc n) o acc =
    ground
      (arith, count_from-completed_from bm n (o + 1) (if is_completed bm o then acc + 1 else acc))

-- The counting loop counts the completed ordinals below the total.
pub count_completed-completed_below :
    (bm : List ℕ) (total : ℕ) → count_completed bm total ≡ completed_below bm total
unfolding count_completed
count_completed-completed_below bm total =
    omega (arith, count_from-completed_from bm total 0 0, completed_from-below bm total)

pub completed_below-le : (bm : List ℕ) (n : ℕ) → completed_below bm n ≤ n
unfolding completed_below
completed_below-le bm zero = omega arith
completed_below-le bm (suc n) = ground (arith, completed_below-le bm n)

completed_below_congr :
    (a b : List ℕ) (n : ℕ)
    → ((p : ℕ) → p < n → is_completed a p ≡ is_completed b p)
    → completed_below a n ≡ completed_below b n
unfolding completed_below
completed_below_congr a b zero h = refl
completed_below_congr a b (suc n) h =
    rw (h n (omega arith), completed_below_congr a b n (λ p lt. h p (omega arith)))

-- A new completion below the bound raises the count by one.
pub completed_below-set_completed :
    (bm : List ℕ) (o n : ℕ)
    → IsBytes bm
    → o / 8 < length bm
    → o < n
    → is_completed bm o ≡ false
    → completed_below (set_completed bm o) n ≡ suc (completed_below bm n)
unfolding completed_below
completed_below-set_completed bm o zero h r lt new = absurd (omega arith)
completed_below-set_completed bm o (suc n) h r lt new = elim (Bool-cases (eqb o n)) [
  | inl same ↦
      let e = (eqb_iff o n).0 same in
      let now : is_completed bm n ≡ false = rw e at new in
      let rest = completed_below_congr (set_completed bm o) bm n (λ p lt.
        let off : eqb o p ≡ false = ground arith in
        ground (arith, is_completed-set_completed bm o p h r)) in
      ground (arith, is_completed-set_completed bm o n h r)
  | inr other ↦ ground (
    arith,
    is_completed-set_completed bm o n h r,
    completed_below-set_completed bm o n h r (ground arith) new,
  )
]

-- An ordinal of the queue lies in its bitmap.
pub bitmap_bytes-room : (o total : ℕ) → o < total → o / 8 < bitmap_bytes total
unfolding bitmap_bytes
bitmap_bytes-room o total h = omega arith

zero_bits : holds_upto (λ i. not (test_bit 0 i)) 8 ≡ true
unfolding holds_upto test_bit
zero_bits = refl

-- A byte of zeros completes nothing.
pub is_completed_of_zero :
    (bm : List ℕ) (p : ℕ) → get_or bm (p / 8) 0 ≡ 0 → is_completed bm p ≡ false
unfolding is_completed
is_completed_of_zero bm p h =
    rw h (ground (arith, holds_at (λ i. not (test_bit 0 i)) 8 (p % 8) (omega arith) zero_bits))

pub completed_below-none :
    (bm : List ℕ) (n : ℕ) → ((p : ℕ) → is_completed bm p ≡ false) → completed_below bm n ≡ 0
unfolding completed_below
completed_below-none bm zero h = refl
completed_below-none bm (suc n) h = ground (arith, h n, completed_below-none bm n h)

pub completed_below_mono :
    (a b : List ℕ) (n : ℕ)
    → ((p : ℕ) → is_completed a p ≡ true → is_completed b p ≡ true)
    → completed_below a n ≤ completed_below b n
unfolding completed_below
completed_below_mono a b zero h = omega arith
completed_below_mono a b (suc n) h = ground (arith, h n, completed_below_mono a b n h)
