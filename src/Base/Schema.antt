-- ===== src/Base/Schema.antt =====
-- The field tests that the zod schemas of the program share.
use Prim.Native.Nat.{ℕ}
use mathlib.Core.Bool.{Bool, true, false, ◌&&◌, ◌||◌}
use mathlib.Core.List.{[], ◌∷◌}
use xtap_pool.Base.Tests.{leb, eqb}
use xtap_pool.Base.Lists.{length, all}
use xtap_pool.Base.Texts.{Text, in_range, is_digit, is_lower, is_upper}

-- `Number.MAX_SAFE_INTEGER`. A number of the model is a nonnegative integer, so `int()`,
-- `nonnegative()` and `Number.isSafeInteger` leave this bound.
abbrev pub max_safe : ℕ
max_safe = 9007199254740991

abbrev pub is_safe : ℕ → Bool
is_safe n = leb n max_safe

abbrev pub is_positive : ℕ → Bool
is_positive n = leb 1 n && leb n max_safe

-- `z.string().min(1)`.
abbrev pub is_filled : Text → Bool
is_filled [] = false
is_filled (_ ∷ _) = true

abbrev pub is_hex : ℕ → Bool
is_hex c = is_digit c || in_range b'a' b'f' c

-- `/^[0-9a-f]{n}$/`.
abbrev pub is_hex_of : ℕ → Text → Bool
is_hex_of n s = eqb (length s) n && all is_hex s

-- `/^[0-9a-f]{64}$/`.
unfoldable pub is_sha256 : Text → Bool
is_sha256 s = is_hex_of 64 s

-- `/^[A-Za-z0-9][A-Za-z0-9._-]*$/`, the shape of names and safe identifiers.
abbrev pub is_alnum : ℕ → Bool
is_alnum c = is_upper c || is_lower c || is_digit c

abbrev pub is_name_char : ℕ → Bool
is_name_char c = is_alnum c || eqb c b'.' || eqb c b'_' || eqb c b'-'

abbrev pub is_name : Text → Bool
is_name [] = false
is_name (c ∷ s) = is_alnum c && all is_name_char s

-- `z.iso.datetime({ offset: true })` is the test of the schema library.
pub record DateTimes : Type 0 where
  pub is_datetime : Text → Bool
