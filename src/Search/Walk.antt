-- ===== src/Search/Walk.antt =====
-- Following the cursors of backend/app/listings/router.py. A request without a cursor is answered by
-- page number and gives none (`numbered_page`), so a client starts from a cursor that it has.
use mathlib.Core.List.{append_assoc, append-nil}
use akar_ai.Prelude.{
  ℕ, zero, suc, ◌+◌, ◌≤◌, ◌<◌, ◌≡◌, refl, sym, ap, ◌∙◌, String, Bool, true, false, Option, none,
  some, List, [], ◌∷◌, ◌++◌, inl, inr, arith, ltb, length, take, drop, take-drop, take_all,
  take-take, length-take_more, length-drop, Bool-cases,
}
use akar_ai.Search.Query.{Row, Filters, Cursor, comes_before, after_cursor, make_cursor_from_item}
use akar_ai.Search.Sorted.{
  filter, filter-every, IsSorted, filter-ext, filter_cut, AllDiffer, filter-AllDiffer,
  sort-IsSorted,
}
use akar_ai.Search.Pages.{last, apply_cursor, results, cursor_page, walk, Page}
use akar_ai.Search.Keyset.{
  Differ, is_known_sort, after_cursor-make_cursor, comes_before-IsStrictOrder,
  unknown_sort-after_cursor,
}

-- A list that is not empty, as its last row and those before it.
record Ends (xs : List Row) : Type 0 where
  front : List Row
  end : Row
  joined : xs ≡ front ++ end ∷ []
  is_last : last xs ≡ some end

take-Ends : (n : ℕ) (xs : List Row) → 0 < n → 0 < length xs → Ends (take n xs)
take-Ends zero xs p h = absurd (omega arith)
take-Ends (suc n) [] p h = absurd (omega arith)
take-Ends (suc n) (x ∷ xs) p h = ends x (take n xs)
  where
    ends : (x : Row) (xs : List Row) → Ends (x ∷ xs)
    ends x [] = record { front = []; end = x; joined = refl; is_last = refl }
    ends x (y ∷ ys) =
        let e = ends y ys in
        record {
          front = x ∷ e.front;
          end = e.end;
          joined = ap (λ zs. x ∷ zs) e.joined;
          is_last = e.is_last;
        }

module _ (ilike : String → String → Bool) (lower : String → String) (filters : Filters)
    (sort : Option String) (page_size : ℕ) (table : List Row) (shows : 0 < page_size) where
  abbrev found : List Row
  found = results ilike lower filters sort page_size table

  abbrev at_cursor : Option Cursor → Page
  at_cursor = cursor_page ilike lower filters sort page_size table

  -- The last page.
  last_page :
      (decoded : Option Cursor)
      → ltb page_size (length (apply_cursor sort decoded found)) ≡ false
      → ((at_cursor decoded).items ≡ apply_cursor sort decoded found)
        × ((at_cursor decoded).next_cursor ≡ none)
  unfolding cursor_page
  last_page decoded h =
      let whole = take_all (page_size + 1) (apply_cursor sort decoded found) (ground (arith, h)) in
      rw (whole, h) (refl, refl)

  -- A page with a next one.
  record Continues (decoded : Option Cursor) (page : Page) : Type 0 where
    front : List Row
    end : Row
    shown : page.items ≡ front ++ end ∷ []
    next : page.next_cursor ≡ some (make_cursor_from_item end sort)
    splits :
        apply_cursor sort decoded found
        ≡ (front ++ end ∷ []) ++ drop page_size (apply_cursor sort decoded found)

  page-Continues :
      (decoded : Option Cursor)
      → ltb page_size (length (apply_cursor sort decoded found)) ≡ true
      → Continues decoded (at_cursor decoded)
  unfolding cursor_page
  page-Continues decoded h =
      let rest = apply_cursor sort decoded found in
      let fetched = length-take_more page_size rest (ground (arith, h)) in
      let e = take-Ends page_size rest shows (ground (arith, h)) in
      let more : ltb page_size (page_size + 1) ≡ true = ground arith in
      record {
        front = e.front;
        end = e.end;
        shown = rw (fetched, more, take-take) e.joined;
        next = rw (fetched, more, take-take, e.is_last) refl;
        splits = sym (rw (sym e.joined) (take-drop page_size rest));
      }

  -- Following the cursors from a page whose query gives the end of the results gives that end.
  walk_rest :
      (known : is_known_sort sort ≡ true) (sorted : IsSorted (comes_before sort) found) (pages : ℕ)
      (decoded : Option Cursor) (front : List Row)
      → found ≡ front ++ apply_cursor sort decoded found
      → length (apply_cursor sort decoded found) ≤ pages
      → walk ilike lower filters sort page_size table pages decoded
        ≡ apply_cursor sort decoded found
  unfolding walk
  walk_rest known sorted zero decoded front split enough =
      ground (arith, take_all 0 (apply_cursor sort decoded found) enough)
  walk_rest known sorted (suc pages) decoded front split enough =
      elim (Bool-cases (ltb page_size (length (apply_cursor sort decoded found)))) [
        | inr over ↦
            let (shown, ended) = last_page decoded over in
            rw (ended, shown) (append-nil (apply_cursor sort decoded found))
        | inl more ↦
            let p = page-Continues decoded more in
            let rest = drop page_size (apply_cursor sort decoded found) in
            let next = make_cursor_from_item p.end sort in
            let cut : found ≡ (front ++ p.front) ++ p.end ∷ rest =
              split ∙ ap (λ rows. front ++ rows) p.splits ∙ simp append_assoc refl in
            let behind : apply_cursor sort (some next) found ≡ rest =
              filter-ext _ _ found (λ row. after_cursor-make_cursor sort p.end row known)
              ∙ filter_cut (comes_before-IsStrictOrder sort) found (front ++ p.front) p.end rest cut
                  sorted in
            let fewer : length rest < length (apply_cursor sort decoded found) =
              length-drop page_size _ shows (ground (arith, more)) in
            let later =
              walk_rest known sorted pages (some next) ((front ++ p.front) ++ p.end ∷ [])
                (rw behind (cut ∙ simp append_assoc refl)) (rw behind (omega arith)) in
            rw (p.next, p.shown, later, behind) (sym p.splits)
      ]

  found-IsSorted : AllDiffer Differ table → IsSorted (comes_before sort) found
  unfolding results
  found-IsSorted differ =
      sort-IsSorted (comes_before-IsStrictOrder sort) _ (filter-AllDiffer Differ _ table differ)

  -- Under a sort that the search knows and on a table whose rows have different ids, a client that
  -- sends the cursor of one of the results and then follows `next_cursor` from page to page gets
  -- exactly the results behind that one, each once and in the order of the query. As many pages as
  -- there are such results are enough. (No answer to a request without a cursor contains one.)
  pub walk-results :
      is_known_sort sort ≡ true
      → AllDiffer Differ table
      → (front : List Row) (item : Row) (behind : List Row) → found ≡ front ++ item ∷ behind
      → (pages : ℕ) → length behind ≤ pages
      → walk ilike lower filters sort page_size table pages (some (make_cursor_from_item item sort))
        ≡ behind
  walk-results known differ front item behind cut pages enough =
      let sorted = found-IsSorted differ in
      let cursor = make_cursor_from_item item sort in
      let rest : apply_cursor sort (some cursor) found ≡ behind =
        filter-ext _ _ found (λ row. after_cursor-make_cursor sort item row known)
        ∙ filter_cut (comes_before-IsStrictOrder sort) found front item behind cut sorted in
      walk_rest known sorted pages (some cursor) (front ++ item ∷ [])
        (rw rest (cut ∙ simp append_assoc refl)) (rw rest enough)
      ∙ rest

module _ (ilike : String → String → Bool) (lower : String → String) (filters : Filters)
    (sort : Option String) (page_size : ℕ) (table : List Row) where
  -- Under a sort that the search does not know, the page after a cursor is the page without one.
  pub unknown_sort-cursor_page :
      (cursor : Cursor)
      → is_known_sort sort ≡ false
      → cursor_page ilike lower filters sort page_size table (some cursor)
        ≡ cursor_page ilike lower filters sort page_size table none
  unfolding cursor_page
  unknown_sort-cursor_page cursor unknown =
      let found = results ilike lower filters sort page_size table in
      let whole : filter (after_cursor sort cursor) found ≡ found =
        filter-every _ found (λ row. unknown_sort-after_cursor sort cursor row unknown) in
      rw whole refl
