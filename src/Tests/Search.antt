-- ===== src/Tests/Search.antt =====
-- Searches of a table with three listings, two of them without a price.
use mathlib.Core.List.{Perm}
use akar_ai.Prelude.{
  ◌↔◌, true, ℕ, ◌+◌, ◌-◌, ◌≡◌, leb, if◌then◌else◌, refl, String, Bool, false, Option, none, some,
  List, [], ◌∷◌, ◌++◌, arith,
}
use akar_ai.Pagination.{read_pages, read_pages-all}
use akar_ai.Search.Query.{
  Row, Filters, normalize_city_filters, matches_filters, comes_before, make_cursor_from_item,
}
use akar_ai.Search.Sorted.{AllDiffer, filter}
use akar_ai.Search.Results.{AreInOrder, results-AreInOrder}
use akar_ai.Search.Selected.{IsSelected}
use akar_ai.Search.Pages.{results, walk}
use akar_ai.Search.Keyset.{Differ}
use akar_ai.Search.Codec.{urlsafe_b64encode, encode_cursor, decode_cursor}
use akar_ai.Search.RoundTrip.{decode_cursor-encode_cursor}
use akar_ai.Search.Walk.{walk-results}

abbrev no_filters : Filters
no_filters = record {
  location = none;
  city = [];
  min_price = none;
  max_price = none;
  bedrooms = none;
  bathrooms = none;
  parking = none;
  floor = none;
  property_type = none;
  listing_purpose = none;
  furnishing = none;
  min_area_size = none;
  max_area_size = none;
}

abbrev priced : ℕ → Option ℕ → Row
priced id price = record {
  id = id;
  created_at = 100;
  status = "active";
  location_text = none;
  city = some "Tunis";
  address = none;
  price = price;
  area_size = none;
  bedrooms = none;
  bathrooms = none;
  parking = none;
  floor = none;
  property_type = none;
  listing_purpose = none;
  furnishing = none;
}

abbrev three : List Row
three = priced 1 none ∷ priced 2 (some 50) ∷ priced 3 none ∷ []

abbrev no_match : String → String → Bool
no_match pattern text = false

abbrev unchanged : String → String
unchanged s = s

abbrev cheapest : Option String
cheapest = some "price_asc"

abbrev misspelt : Option String
misspelt = some "price"

three-AllDiffer : AllDiffer Differ three
three-AllDiffer =
    (((λ e. omega arith), ((λ e. omega arith), tt)), (((λ e. omega arith), tt), (tt, tt)))

abbrev behind : List Row
behind = priced 3 none ∷ priced 1 none ∷ []

three_found :
    results no_match unchanged no_filters cheapest 2 three ≡ [] ++ priced 2 (some 50) ∷ behind
unfolding results matches_filters normalize_city_filters comes_before
three_found = refl

walk-results_example :
    walk no_match unchanged no_filters cheapest 2 three 2
      (some (make_cursor_from_item (priced 2 (some 50)) cheapest))
    ≡ behind
walk-results_example =
    walk-results no_match unchanged no_filters cheapest 2 three (omega arith) refl three-AllDiffer
      [] (priced 2 (some 50)) behind three_found 2 (omega arith)

results-AreInOrder_example :
    AreInOrder cheapest (results no_match unchanged no_filters cheapest 2 three)
    × Perm
        (results no_match unchanged no_filters cheapest 2 three)
        (filter (matches_filters no_match unchanged no_filters) three)
    × ((matches_filters no_match unchanged no_filters (priced 2 (some 50)) ≡ true)
        ↔ IsSelected no_match unchanged no_filters (priced 2 (some 50)))
results-AreInOrder_example =
    results-AreInOrder no_match unchanged no_filters cheapest 2 three (priced 2 (some 50))
      three-AllDiffer

read_pages-all_example : read_pages 20 100 3 1 (some 2) three ≡ three
read_pages-all_example =
    read_pages-all 20 100 (some 2) 3 three (omega arith) (omega arith) (omega arith)

-- A JSON text that is one digit.
abbrev dump_digit : ℕ → List ℕ
dump_digit n = (n + 48) ∷ []

abbrev load_digit : List ℕ → Option ℕ
load_digit (c ∷ []) = if leb 48 c then some (c - 48) else none
load_digit [] = none
load_digit (c ∷ d ∷ rest) = none

-- `7` is encoded as `Nw==`.
encode_seven : encode_cursor dump_digit load_digit 7 ≡ 78 ∷ 119 ∷ 61 ∷ 61 ∷ []
unfolding encode_cursor urlsafe_b64encode
encode_seven = refl

decode_cursor-encode_cursor_example :
    decode_cursor dump_digit load_digit (encode_cursor dump_digit load_digit 7) ≡ some 7
decode_cursor-encode_cursor_example =
    decode_cursor-encode_cursor dump_digit load_digit 7 (omega arith, tt)
