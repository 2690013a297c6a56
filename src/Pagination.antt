-- ===== src/Pagination.antt =====
-- backend/app/common/pagination.py, and the `offset` and `limit` of the repositories' list queries,
-- on the rows that the query selects in its order. The two sizes are settings of
-- backend/app/common/config.py. Page numbers and sizes are not negative, as the routers check.
use native.Mathlib.Nat.{zero-mul}
use akar_ai.Prelude.{
  ℕ, zero, suc, ◌+◌, ◌-◌, ◌*◌, ◌≤◌, ◌<◌, min, max, ◌≡◌, refl, sym, ap, Bool, false, Option, none,
  some, List, [], ◌∷◌, ◌++◌, ltb, length, take, drop, take-drop, take_all, drop-drop, drop_all, leb,
  length-drop_add, Bool-cases, inl, inr, arith, nat_beq, if◌then◌else◌,
}

pub record PaginationRequest : Type 0 where
  pub page : ℕ
  pub page_size : ℕ

-- `page_size if page_size else default`
abbrev asked_size : Option ℕ → ℕ → ℕ
asked_size none default_size = default_size
asked_size (some size) default_size = if nat_beq size 0 then default_size else size

-- `PaginationRequest(page, page_size)` under the settings of the default and of the largest size.
unfoldable pub new_request : ℕ → ℕ → ℕ → Option ℕ → PaginationRequest
new_request default_page_size max_page_size page page_size = record {
  page = max 1 page;
  page_size = min (asked_size page_size default_page_size) max_page_size;
}

module _ (default_page_size max_page_size : ℕ) (asked : Option ℕ) where
  abbrev page_size_of : ℕ
  page_size_of = min (asked_size asked default_page_size) max_page_size

  request_is :
      (page : ℕ)
      → new_request default_page_size max_page_size (page + 1) asked
        ≡ record { page = page + 1; page_size = page_size_of }
  unfolding new_request
  request_is page = ap (λ p. record { page = p; page_size = page_size_of }) (omega arith)

unfoldable pub offset : PaginationRequest → ℕ
offset request = (request.page - 1) * request.page_size

unfoldable pub limit : PaginationRequest → ℕ
limit request = request.page_size

pub record PaginationResult {ℓ} (A : Type ℓ) : Type ℓ where
  pub items : List A
  pub page : ℕ
  pub page_size : ℕ
  pub total : ℕ
  pub has_next : Bool
  pub has_previous : Bool

module _ {ℓ} {A : Type ℓ} where
  -- `PaginationResult(items, total, pagination)`
  unfoldable pub new_result : List A → ℕ → PaginationRequest → PaginationResult A
  new_result items total pagination = record {
    items = items;
    page = pagination.page;
    page_size = pagination.page_size;
    total = total;
    has_next = ltb (pagination.page * pagination.page_size) total;
    has_previous = ltb 1 pagination.page;
  }

  -- A repository's list query and the result that a service makes of it.
  unfoldable pub list_page : List A → PaginationRequest → PaginationResult A
  unfolding new_result offset limit
  list_page rows request =
      new_result (take (limit request) (drop (offset request) rows)) (length rows) request

  -- A client that asks for so many pages at most, from the given one, while there is a next one; the
  -- rows do not change meanwhile, and each query gives them in the same order.
  unfoldable pub read_pages : ℕ → ℕ → ℕ → ℕ → Option ℕ → List A → List A
  read_pages default_page_size max_page_size zero page page_size rows = []
  read_pages default_page_size max_page_size (suc pages) page page_size rows =
      let result = list_page rows (new_request default_page_size max_page_size page page_size) in
      let rest = read_pages default_page_size max_page_size pages (page + 1) page_size rows in
      if result.has_next then result.items ++ rest else result.items

  module _ (default_page_size max_page_size : ℕ) (asked : Option ℕ) where
    -- From the page after so many rows on.
    read_from :
        (pages page before : ℕ) (rows : List A)
        → 0 < (page_size_of default_page_size max_page_size asked)
        → page * (page_size_of default_page_size max_page_size asked) ≡ before
        → length (drop before rows) ≤ pages
        → read_pages default_page_size max_page_size pages (page + 1) asked rows ≡ drop before rows
    unfolding read_pages list_page
    read_from zero page before rows shows at enough = sym (nothing _ enough)
      where
        nothing : (xs : List A) → length xs ≤ 0 → xs ≡ []
        nothing [] h = refl
        nothing (x ∷ xs) h = absurd (omega arith)
    read_from (suc pages) page before rows shows at enough =
        let here : page + 1 - 1 ≡ page = omega arith in
        let next : (page + 1) * (page_size_of default_page_size max_page_size asked)
            ≡ before + (page_size_of default_page_size max_page_size asked) =
          grind arith in
        elim (Bool-cases
          (ltb (before + (page_size_of default_page_size max_page_size asked)) (length rows))) [
            | inl more ↦
                let fewer = length-drop_add before rows (ground (arith, more)) in
                let fewer' =
                  length-drop_add (before + (page_size_of default_page_size max_page_size asked))
                    rows (ground (arith, more)) in
                let later =
                  read_from pages (page + 1)
                    (before + (page_size_of default_page_size max_page_size asked)) rows shows next
                    (omega arith) in
                rw
                  (
                    request_is default_page_size max_page_size asked page,
                    next,
                    more,
                    here,
                    at,
                    later,
                    sym (
                        drop-drop before (page_size_of default_page_size max_page_size asked) rows),
                  )
                  (take-drop (page_size_of default_page_size max_page_size asked)
                    (drop before rows))
            | inr over ↦
                rw (request_is default_page_size max_page_size asked page, next, over, here, at)
                  (take_all (page_size_of default_page_size max_page_size asked) _ (short over))
          ]
      where
        short :
            ltb (before + (page_size_of default_page_size max_page_size asked)) (length rows)
              ≡ false
            → length (drop before rows) ≤ (page_size_of default_page_size max_page_size asked)
        short over = elim (Bool-cases (leb before (length rows))) [
          | inl inside ↦ ground (arith, over, length-drop_add before rows)
          | inr past ↦ rw (drop_all before rows (ground (arith, past))) (ground arith)
        ]

    -- A client that asks for page after page from the first on, with the same page size or none, while
    -- `has_next` is true, gets all rows once and in their order, if the two settings are positive and
    -- each query gives the same rows in the same order. As many pages as there are rows are enough.
    pub read_pages-all :
        (pages : ℕ) (rows : List A)
        → 0 < default_page_size
        → 0 < max_page_size
        → length rows ≤ pages
        → read_pages default_page_size max_page_size pages 1 asked rows ≡ rows
    read_pages-all pages rows d m enough =
        read_from pages 0 0 rows (ground (arith, asked)) (zero-mul _) enough
