-- ===== src/Search/Pages.antt =====
-- The pages of `public_search_listings` in backend/app/listings/router.py, by number and by cursor,
-- over the rows of the table, and a client that follows the cursors. The cache of the first page,
-- the rate limit, the thumbnails and the search log are left out.
use akar_ai.Prelude.{
  ℕ, zero, suc, ◌+◌, ◌-◌, ◌*◌, String, Bool, false, Option, none, some, List, [], ◌∷◌, ◌++◌, ltb,
  length, take, drop, if◌then◌else◌,
}
use akar_ai.Search.Query.{
  Row, Filters, Cursor, matches_filters, comes_before, after_cursor, make_cursor_from_item,
}
use akar_ai.Search.Sorted.{filter, sort_by}

pub record Page : Type 0 where
  pub items : List Row
  pub has_next : Bool
  pub has_previous : Bool
  pub next_cursor : Option Cursor

-- `items[-1] if items else None`
abbrev pub last : List Row → Option Row
last [] = none
last (x ∷ []) = some x
last (x ∷ y ∷ ys) = last (y ∷ ys)

abbrev cursor_of : Option String → Option Row → Option Cursor
cursor_of sort none = none
cursor_of sort (some item) = some (make_cursor_from_item item sort)

-- `if decoded: q = apply_public_search_cursor(q, sort, decoded)`
abbrev pub apply_cursor : Option String → Option Cursor → List Row → List Row
apply_cursor sort none q = q
apply_cursor sort (some decoded) q = filter (after_cursor sort decoded) q

module _ (ilike : String → String → Bool) (lower : String → String) (filters : Filters)
    (sort : Option String) (page_size : ℕ) (table : List Row) where
  -- `build_public_search_query`, run on the table.
  unfoldable pub results : List Row
  results = sort_by (comes_before sort) (filter (matches_filters ilike lower filters) table)

  -- The branch on a page number.
  unfoldable pub numbered_page : ℕ → Page
  numbered_page page =
      let total = length results in
      let offset = (page - 1) * page_size in
      record {
        items = take page_size (drop offset results);
        has_next = ltb (page * page_size) total;
        has_previous = ltb 1 page;
        next_cursor = none;
      }

  -- The branch on a cursor, which may have failed to decode.
  unfoldable pub cursor_page : Option Cursor → Page
  cursor_page decoded =
      let fetched = take (page_size + 1) (apply_cursor sort decoded results) in
      let more = ltb page_size (length fetched) in
      let shown = if more then take page_size fetched else fetched in
      record {
        items = shown;
        has_next = more;
        has_previous = false;
        next_cursor = if more then cursor_of sort (last shown) else none;
      }

  -- The items of at most so many pages, each asked for by the cursor of the page before.
  unfoldable pub walk : ℕ → Option Cursor → List Row
  walk zero decoded = []
  walk (suc pages) decoded =
      (cursor_page decoded).items
      ++ elim (cursor_page decoded).next_cursor [ none ↦ [] | some next ↦ walk pages (some next) ]
