-- ===== src/Base/Texts.antt =====
-- A JavaScript string is its sequence of UTF-16 code units, a list of numbers.
use Prim.Native.Nat.{ℕ, ◌+◌}
use Prim.Native.Char.{code}
use Prim.Native.String.{String}
use mathlib.Core.Path.{◌≡◌, refl, sym}
use mathlib.Core.Logic.{◌↔◌}
use mathlib.Core.Option.{Option, none, some}
use mathlib.Core.Bool.{Bool, true, false, ◌&&◌, ◌||◌}
use mathlib.Core.List.{List, [], ◌∷◌, ◌++◌, reverse}
use native.Mathlib.Omega.{arith}
use xtap_pool.Base.Tests.{if◌then◌else◌, Eq, ltb, leb, eqb, eqb_iff}

abbrev pub Text : Type 0
Text = List ℕ

-- A literal, whose characters are ASCII.
abbrev pub lit : String → Text
lit String.[] = []
lit (String.◌∷◌ c s) = code c ∷ lit s

unfoldable pub text_beq : Text → Text → Bool
text_beq [] [] = true
text_beq [] (_ ∷ _) = false
text_beq (_ ∷ _) [] = false
text_beq (a ∷ s) (b ∷ t) = eqb a b && text_beq s t

text_beq_sound : (s t : Text) → text_beq s t ≡ true → s ≡ t
unfolding text_beq
text_beq_sound [] [] h = refl
text_beq_sound [] (_ ∷ _) h = cc
text_beq_sound (_ ∷ _) [] h = cc
text_beq_sound (a ∷ s) (b ∷ t) h = ground (arith, text_beq_sound s t)

text_beq_refl : (s : Text) → text_beq s s ≡ true
unfolding text_beq
text_beq_refl [] = refl
text_beq_refl (a ∷ s) = ground (arith, text_beq_refl s)

pub text_beq_iff : (s t : Text) → (text_beq s t ≡ true) ↔ (s ≡ t)
text_beq_iff s t = (text_beq_sound s t, λ p. rw p (text_beq_refl t))

instance abbrev pub text_eq : Eq Text
text_eq = record { beq = text_beq; beq_iff = text_beq_iff }

-- The default order of `sort`, and `<=` on strings: by code units.
unfoldable pub text_le : Text → Text → Bool
text_le [] t = true
text_le (_ ∷ _) [] = false
text_le (a ∷ s) (b ∷ t) = if eqb a b then text_le s t else ltb a b

pub text_le_total : (s t : Text) → text_le s t ≡ false → text_le t s ≡ true
unfolding text_le
text_le_total [] t h = cc
text_le_total (_ ∷ _) [] h = refl
text_le_total (a ∷ s) (b ∷ t) h = ground (arith, text_le_total s t)

pub text_le_trans : (s t u : Text) → text_le s t ≡ true → text_le t u ≡ true → text_le s u ≡ true
unfolding text_le
text_le_trans [] t u h k = refl
text_le_trans (_ ∷ _) [] u h k = cc
text_le_trans (_ ∷ _) (_ ∷ _) [] h k = cc
text_le_trans (a ∷ s) (b ∷ t) (c ∷ u) h k = ground (arith, text_le_trans s t u)

pub text_le_refl : (s : Text) → text_le s s ≡ true
unfolding text_le
text_le_refl [] = refl
text_le_refl (a ∷ s) = ground (arith, text_le_refl s)

abbrev pub in_range : ℕ → ℕ → ℕ → Bool
in_range lo hi c = leb lo c && leb c hi

-- The characters that `trim` removes.
unfoldable pub is_space : ℕ → Bool
is_space c =
    in_range 0x9 0xd c
    || eqb c 0x20
    || eqb c 0xa0
    || eqb c 0x1680
    || in_range 0x2000 0x200a c
    || in_range 0x2028 0x2029 c
    || eqb c 0x202f
    || eqb c 0x205f
    || eqb c 0x3000
    || eqb c 0xfeff

unfoldable pub trim_start : Text → Text
trim_start [] = []
trim_start (c ∷ s) = let rest = trim_start s in if is_space c then rest else c ∷ s

unfoldable pub trim : Text → Text
unfolding trim_start is_space
trim s = reverse (trim_start (reverse (trim_start s)))

-- `toLowerCase` on the characters whose lower case has an ASCII letter: A to Z, U+0130, which
-- becomes two characters, and the Kelvin sign. Every other character is left as it is; those that
-- the language does change stay outside ASCII, so a test that admits ASCII only cannot tell.
unfoldable pub lower_char : ℕ → Text
lower_char c =
    if in_range 0x41 0x5a c
    then (c + 32) ∷ []
    else if eqb c 0x130
    then 0x69 ∷ 0x307 ∷ []
    else if eqb c 0x212a
    then 0x6b ∷ []
    else c ∷ []

unfoldable pub to_lower : Text → Text
unfolding lower_char
to_lower [] = []
to_lower (c ∷ s) = lower_char c ++ to_lower s

abbrev pub is_digit : ℕ → Bool
is_digit = in_range b'0' b'9'

abbrev pub is_lower : ℕ → Bool
is_lower = in_range b'a' b'z'

abbrev pub is_upper : ℕ → Bool
is_upper = in_range b'A' b'Z'

-- What is left of a text behind a prefix, `none` where it does not start with it.
unfoldable pub strip : Text → Text → Option Text
strip [] s = some s
strip (_ ∷ _) [] = none
strip (p ∷ ps) (c ∷ s) = if eqb p c then strip ps s else none

pub strip-append : (p s : Text) → strip p (p ++ s) ≡ some s
unfolding strip
strip-append [] s = refl
strip-append (c ∷ p) s = rw ((eqb_iff c c).1 refl) (strip-append p s)

-- `text.startsWith(prefix)`.
unfoldable pub starts_with : Text → Text → Bool
starts_with text [] = true
starts_with [] (_ ∷ _) = false
starts_with (c ∷ text) (p ∷ prefix) = eqb c p && starts_with text prefix

-- `String.prototype.includes`.
unfoldable pub includes : Text → Text → Bool
unfolding starts_with
includes [] needle = starts_with [] needle
includes (c ∷ s) needle = let rest = includes s needle in starts_with (c ∷ s) needle || rest

pub text_le_antisym : (s t : Text) → text_le s t ≡ true → text_le t s ≡ true → s ≡ t
unfolding text_le
text_le_antisym [] [] h k = refl
text_le_antisym [] (_ ∷ _) h k = cc
text_le_antisym (_ ∷ _) [] h k = cc
text_le_antisym (a ∷ s) (b ∷ t) h k =
    let first : a ≡ b = ground arith in
    let same : eqb a b ≡ true = (eqb_iff a b).1 first in
    let back : eqb b a ≡ true = (eqb_iff b a).1 (sym first) in
    let rest = text_le_antisym s t (rw same at h) (rw back at k) in rw (first, rest)
