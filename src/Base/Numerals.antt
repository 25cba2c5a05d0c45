-- ===== src/Base/Numerals.antt =====
-- Numbers as texts: `String(value)`, `padStart`, and back.
use Prim.Native.Nat.{ℕ, zero, suc, ◌+◌, ◌-◌, ◌*◌, ◌/◌, ◌%◌, ◌^◌, ◌≤◌, ◌<◌}
use mathlib.Core.Path.{◌≡◌, refl}
use mathlib.Core.Bool.{true}
use mathlib.Core.List.{[], ◌∷◌, ◌++◌}
use native.Mathlib.Omega.{arith}
use xtap_pool.Base.Tests.{if◌then◌else◌, ltb}
use xtap_pool.Base.Lists.{length, replicate, all, all-append, length-append}
use xtap_pool.Base.Texts.{Text, is_digit}

-- `String(value)`, with a bound on the number of digits.
unfoldable pub decimal : ℕ → ℕ → Text
decimal zero n = []
decimal (suc digits) n =
    let high = decimal digits (n / 10) in
    if ltb n 10 then (n + 48) ∷ [] else high ++ (n % 10 + 48) ∷ []

-- `padStart(width, "0")`.
unfoldable pub pad_start : ℕ → Text → Text
pad_start width s = replicate (width - length s) b'0' ++ s

-- `Number(text)` of a text of digits, behind those that are read.
unfoldable pub number_from : ℕ → Text → ℕ
number_from n [] = n
number_from n (c ∷ s) = number_from (10 * n + (c - 48)) s

pub all-decimal : (digits n : ℕ) → all is_digit (decimal digits n) ≡ true
unfolding decimal
all-decimal zero n = refl
all-decimal (suc digits) n = ground (
  arith,
  all-decimal digits (n / 10),
  all-append is_digit (decimal digits (n / 10)) ((n % 10 + 48) ∷ []),
)

pub length-decimal-le : (digits n : ℕ) → length (decimal digits n) ≤ digits
unfolding decimal
length-decimal-le zero n = omega arith
length-decimal-le (suc digits) n = ground (
  arith,
  length-decimal-le digits (n / 10),
  length-append (decimal digits (n / 10)) ((n % 10 + 48) ∷ []),
)

number_from-append : (n : ℕ) (s t : Text) → number_from n (s ++ t) ≡ number_from (number_from n s) t
unfolding number_from
number_from-append n [] t = refl
number_from-append n (c ∷ s) t = number_from-append (10 * n + (c - 48)) s t

-- The digits of a number are read back as the number.
pub number-decimal : (digits n : ℕ) → n < 10 ^ digits → number_from 0 (decimal digits n) ≡ n
unfolding decimal number_from
number-decimal zero n h = omega arith
number-decimal (suc digits) n h =
    let grows : 10 ^ suc digits ≡ 10 * 10 ^ digits = omega arith in
    let high = number-decimal digits (n / 10) (omega (arith, grows)) in
    ground (arith, high, number_from-append 0 (decimal digits (n / 10)) ((n % 10 + 48) ∷ []))
