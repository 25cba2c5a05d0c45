-- ===== src/Consumer/Page/Bounds.antt =====
-- How large a page becomes.
use mathlib.Core.Path.{subst}
use xtap_pool.Base.{
  Bool, Bool-cases, List, Result, [], arith, err, false, guard-eq-ok, inl, inr, leb, length,
  length-append, ltb, ok, ok-injective, refl, true, ℕ, ◌&&◌, ◌++◌, ◌+◌, ◌||◌, ◌∷◌, ◌≡◌, ◌≤◌,
}
use xtap_pool.Consumer.Page.{
  Change, PageBuilder, PageError, add, hard_page_bytes, is_full, page_builder, target_page_bytes,
}

-- The page after an attempt to add; a change that is refused or too large leaves it.
abbrev left : PageBuilder → Result PageError (PageBuilder × Bool) → PageBuilder
left page (ok (next, fits)) = next
left page (err e) = page

abbrev pub attempts : List Change → PageBuilder → PageBuilder
attempts [] page = page
attempts (c ∷ cs) page = attempts cs (left page (add page c))

-- The bytes that the changes take in a page, with the room for its cursor and its envelope.
abbrev pub page_bytes : List Change → ℕ
page_bytes [] = 8192
page_bytes (c ∷ cs) = (length c + 1) + page_bytes cs

page_bytes-append :
    (cs : List Change) (c : Change) → page_bytes (cs ++ c ∷ []) ≡ page_bytes cs + (length c + 1)
page_bytes-append [] c = omega arith
page_bytes-append (x ∷ cs) c = omega (arith, page_bytes-append cs c)

-- The page counts its bytes, is within its limit and the hard bound, and passes the target only
-- when it has one change.
pub record IsWithin (page : PageBuilder) : Type 0 where
  pub counted : page.bytes ≡ page_bytes page.changes
  pub few : length page.changes ≤ page.limit
  pub hard : page.bytes ≤ hard_page_bytes
  pub target : (leb page.bytes target_page_bytes || leb (length page.changes) 1) ≡ true

empty_bytes : (cs : List Change) → length cs ≡ 0 → page_bytes cs ≡ 8192
empty_bytes [] h = refl
empty_bytes (c ∷ cs) h = omega arith

taken :
    (page : PageBuilder) (c : Change)
    → ltb hard_page_bytes (length c + 1 + 8192) ≡ false
    → is_full page c ≡ false
    → IsWithin page
    → IsWithin
        (record page { changes = page.changes ++ c ∷ []; bytes = page.bytes + (length c + 1) })
unfolding is_full
taken page c small room h =
    let one_more = length-append page.changes (c ∷ []) in
    let empty = empty_bytes page.changes in
    record {
      counted = omega (arith, page_bytes-append page.changes c, h.counted);
      few = ground (arith, one_more);
      hard = ground (arith, h.counted, empty);
      target = ground (arith, one_more);
    }

add-IsWithin : (page : PageBuilder) (c : Change) → IsWithin page → IsWithin (left page (add page c))
unfolding add
add-IsWithin page c h = elim (Bool-cases (ltb hard_page_bytes (length c + 1 + 8192))) [
  | inl large ↦ rw (large, add) h
  | inr small ↦ elim (Bool-cases (is_full page c)) [
    | inl full ↦ rw (small, full, add) h
    | inr room ↦ rw (small, room, add) (taken page c small room h)
  ]
]

attempts-IsWithin :
    (cs : List Change) (page : PageBuilder) → IsWithin page → IsWithin (attempts cs page)
attempts-IsWithin [] page h = h
attempts-IsWithin (c ∷ cs) page h =
    attempts-IsWithin cs (left page (add page c)) (add-IsWithin page c h)

-- A page that is made with an accepted limit and that any changes are added to counts its bytes, has
-- at most the limit of changes and the hard bound of bytes, and more than the target only when it has
-- a single change.
pub page-IsWithin :
    (limit : ℕ) (page : PageBuilder) (cs : List Change)
    → page_builder limit ≡ ok page
    → IsWithin (attempts cs page)
unfolding page_builder
page-IsWithin limit page cs made =
    let (_, e) = guard-eq-ok (leb 1 limit && leb limit 500) _ _ made in
    attempts-IsWithin cs page (
      subst IsWithin (ok-injective e)
        (record { counted = refl; few = omega arith; hard = omega arith; target = refl }))
