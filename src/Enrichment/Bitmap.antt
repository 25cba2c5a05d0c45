-- ===== src/Enrichment/Bitmap.antt =====
-- The completion bitmap of the queue: the bit helpers of space/src/enrich-state.ts.
-- A `Uint8Array` is the list of its bytes; a read past the end gives 0 (`?? 0`), a write past the
-- end is ignored.
pub mod Laws
use Prim.Native.Nat.{bit_and, bit_or}
use xtap_pool.Base.{
  All, Bool, List, eqb, get_or, if◌then◌else◌, not, set, suc, zero, ℕ, ◌%◌, ◌+◌, ◌/◌, ◌<◌, ◌^◌,
}

-- What the type `Uint8Array` promises.
abbrev pub IsBytes : List ℕ → Type 0
IsBytes = All (λ b. b < 256)

-- `(byte & (1 << i)) !== 0`.
unfoldable pub test_bit : ℕ → ℕ → Bool
test_bit byte i = not (eqb (bit_and byte (2 ^ i)) 0)

-- `value | (1 << i)`, stored in a byte.
unfoldable pub set_bit : ℕ → ℕ → ℕ
set_bit byte i = bit_or byte (2 ^ i) % 256

unfoldable pub is_completed : List ℕ → ℕ → Bool
unfolding test_bit
is_completed bitmap ordinal = test_bit (get_or bitmap (ordinal / 8) 0) (ordinal % 8)

unfoldable pub set_completed : List ℕ → ℕ → List ℕ
unfolding set_bit
set_completed bitmap ordinal =
    set bitmap (ordinal / 8) (set_bit (get_or bitmap (ordinal / 8) 0) (ordinal % 8))

-- `Math.ceil(total / 8)`.
unfoldable pub bitmap_bytes : ℕ → ℕ
bitmap_bytes total = (total + 7) / 8

-- The loop of `countCompleted`, with the rounds that are left.
unfoldable pub count_from : List ℕ → ℕ → ℕ → ℕ → ℕ
count_from bitmap zero ordinal completed = completed
count_from bitmap (suc left) ordinal completed =
    count_from bitmap left (ordinal + 1)
      (if is_completed bitmap ordinal then completed + 1 else completed)

unfoldable pub count_completed : List ℕ → ℕ → ℕ
unfolding count_from is_completed
count_completed bitmap total = count_from bitmap total 0 0
