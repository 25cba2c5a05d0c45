-- ===== src/Consumer/Page.antt =====
-- `ConsumerPageBuilder` in space/src/consumer-page.ts: how many changes a page takes.
pub mod Bounds
use xtap_pool.Base.{
  Bool, List, Result, [], err, false, guard, if◌then◌else◌, leb, length, ltb, ok, true, ℕ, ◌&&◌,
  ◌*◌, ◌++◌, ◌+◌, ◌>>=◌, ◌>>◌, ◌||◌, ◌∷◌,
}

-- `HARD_PAGE_BYTES` and `TARGET_PAGE_BYTES`.
abbrev pub hard_page_bytes : ℕ
hard_page_bytes = 8 * 1048576

abbrev pub target_page_bytes : ℕ
target_page_bytes = 2 * 1048576

-- The bytes of a change, `JSON.stringify` in UTF-8.
abbrev pub Change : Type 0
Change = List ℕ

pub record PageBuilder : Type 0 where
  pub limit : ℕ
  pub changes : List Change
  pub bytes : ℕ

pub data PageError : Type 0 where
  invalid_limit oversized_source : PageError

-- The constructor.
unfoldable pub page_builder : ℕ → Result PageError PageBuilder
page_builder limit = do
  guard (leb 1 limit && leb limit 500) invalid_limit
  ok (record { limit = limit; changes = []; bytes = 8192 })

-- The second test of `add`.
unfoldable pub is_full : PageBuilder → Change → Bool
is_full page change =
    leb page.limit (length page.changes)
    || (ltb 0 (length page.changes) && ltb target_page_bytes (page.bytes + (length change + 1)))

-- `add`; a change that does not fit stays out, and the answer says so.
unfoldable pub add : PageBuilder → Change → Result PageError (PageBuilder × Bool)
add page change =
    if ltb hard_page_bytes (length change + 1 + 8192)
    then err oversized_source
    else if is_full page change
    then ok (page, false)
    else ok (
      record page {
        changes = page.changes ++ change ∷ [];
        bytes = page.bytes + (length change + 1);
      },
      true,
    )
