-- ===== src/Search/Results.antt =====
-- What the query of the public search in backend/app/listings/router.py returns.
use mathlib.Core.List.{Perm}
use akar_ai.Prelude.{ℕ, ◌≡◌, ◌↔◌, String, Bool, true, Option, List, [], ◌∷◌, All}
use akar_ai.Search.Query.{Row, Filters, matches_filters, comes_before}
use akar_ai.Search.Sorted.{IsSorted, AllDiffer, filter, filter-AllDiffer, sort-IsSorted, sort-Perm}
use akar_ai.Search.Keyset.{Differ, comes_before-IsStrictOrder}
use akar_ai.Search.Order.{Precedes, comes_before-Precedes}
use akar_ai.Search.Selected.{IsSelected, matches_filters_iff}
use akar_ai.Search.Pages.{results}

-- Every row precedes the rows behind it.
abbrev pub AreInOrder : Option String → List Row → Type 0
AreInOrder sort [] = Unit
AreInOrder sort (row ∷ rows) = All (Precedes sort row) rows × AreInOrder sort rows

All-Precedes :
    (sort : Option String) (row : Row) (rows : List Row)
    → All (λ other. comes_before sort row other ≡ true) rows
    → All (Precedes sort row) rows
All-Precedes sort row [] h = tt
All-Precedes sort row (other ∷ rows) (first, h) =
    (comes_before-Precedes sort row other first, All-Precedes sort row rows h)

IsSorted-AreInOrder :
    (sort : Option String) (rows : List Row)
    → IsSorted (comes_before sort) rows
    → AreInOrder sort rows
IsSorted-AreInOrder sort [] h = tt
IsSorted-AreInOrder sort (row ∷ rows) (first, h) =
    (All-Precedes sort row rows first, IsSorted-AreInOrder sort rows h)

-- On a table whose rows have different ids, the query gives exactly the rows that match the filters,
-- each once, and a row matches them exactly if it is active and satisfies every filter that is given,
-- as `IsSelected` has them one by one. The rows come in the order of the sort: oldest or newest
-- first, or by price or area up or down with rows without a value last, and where the value is the
-- same by id, from the smaller id for the oldest and from the greater one for every other sort.
pub results-AreInOrder :
    (ilike : String → String → Bool) (lower : String → String) (filters : Filters)
    (sort : Option String) (page_size : ℕ) (table : List Row) (row : Row)
    → AllDiffer Differ table
    → let found = results ilike lower filters sort page_size table in
      AreInOrder sort found
      × Perm found (filter (matches_filters ilike lower filters) table)
      × ((matches_filters ilike lower filters row ≡ true) ↔ IsSelected ilike lower filters row)
unfolding results
results-AreInOrder ilike lower filters sort page_size table row differ = (
  IsSorted-AreInOrder sort _
      (sort-IsSorted (comes_before-IsStrictOrder sort) _ (filter-AllDiffer Differ _ table differ)),
  sort-Perm (comes_before sort) _,
  matches_filters_iff ilike lower filters row,
)
