-- ===== src/Search/Query.antt =====
-- backend/app/listings/query_service.py: the filters, the orders and the cursors of the public
-- search. A query is a test and an order on rows. Amounts are in hundredths, as the columns
-- Numeric(_, 2) keep them, and a cursor carries them exactly. A cursor is the dictionary that
-- `decode_cursor` returns, with its ISO time read as a timestamp. `ilike` is the database's, and
-- `lower` stands for the database's and Python's.
use akar_ai.Prelude.{
  ℕ, String, Bool, true, false, ◌&&◌, ◌||◌, ◌==◌, Option, none, some, List, [], ◌∷◌, map, ltb, leb,
  str_eq, str_is, contains, strip, text_append, if◌then◌else◌,
}

-- The columns of a listing that the search reads. Floors are only compared for equality.
pub record Row : Type 0 where
  pub id : ℕ
  pub created_at : ℕ
  pub status : String
  pub location_text : Option String
  pub city : Option String
  pub address : Option String
  pub price : Option ℕ
  pub area_size : Option ℕ
  pub bedrooms : Option ℕ
  pub bathrooms : Option ℕ
  pub parking : Option ℕ
  pub floor : Option ℕ
  pub property_type : Option String
  pub listing_purpose : Option String
  pub furnishing : Option String

pub record Filters : Type 0 where
  pub location : Option String
  pub city : List String
  pub min_price : Option ℕ
  pub max_price : Option ℕ
  pub bedrooms : Option ℕ
  pub bathrooms : Option ℕ
  pub parking : Option ℕ
  pub floor : Option ℕ
  pub property_type : Option String
  pub listing_purpose : Option String
  pub furnishing : Option String
  pub min_area_size : Option ℕ
  pub max_area_size : Option ℕ

-- A comparison with a null column is not true.
abbrev pub holds {ℓ} : {A : Type ℓ} → (A → Bool) → Option A → Bool
holds p none = false
holds p (some a) = p a

-- `if value is not None: q = q.where(...)`
abbrev pub where_given {ℓ} : {A : Type ℓ} → Option A → (A → Bool) → Bool
where_given none p = true
where_given (some a) p = p a

-- `if text: q = q.where(...)`
abbrev pub where_text : Option String → (String → Bool) → Bool
where_text none p = true
where_text (some text) p = if str_eq text "" then true else p text

module _ (ilike : String → String → Bool) (lower : String → String) where
  -- The loop of `_normalize_city_filters`, with the keys that it has seen.
  unfoldable pub normalize_city_filters : List String → List String → List String
  normalize_city_filters seen [] = []
  normalize_city_filters seen (raw_value ∷ rest) =
      let stripped = strip raw_value in
      let dedupe_key = lower stripped in
      let skipped = normalize_city_filters seen rest in
      let added = normalize_city_filters (dedupe_key ∷ seen) rest in
      if str_eq stripped ""
      then skipped
      else if contains seen dedupe_key
      then skipped
      else stripped ∷ added

  abbrev pub in_cities : List String → Option String → Bool
  in_cities [] city = true
  in_cities (c ∷ cs) city = holds (λ own. contains (map lower (c ∷ cs)) (lower own)) city

  -- The conditions of `build_public_search_query`.
  unfoldable pub matches_filters : Filters → Row → Bool
  matches_filters f row =
      str_eq row.status "active"
      && where_text f.location (λ location.
        let pattern = text_append "%" (text_append location "%") in
        holds (ilike pattern) row.location_text
        || holds (ilike pattern) row.city
        || holds (ilike pattern) row.address)
      && in_cities (normalize_city_filters [] f.city) row.city
      && where_given f.min_price (λ least. holds (leb least) row.price)
      && where_given f.max_price (λ most. holds (λ own. leb own most) row.price)
      && where_given f.bedrooms (λ least. holds (leb least) row.bedrooms)
      && where_given f.bathrooms (λ least. holds (leb least) row.bathrooms)
      && where_given f.parking (λ least. holds (leb least) row.parking)
      && where_given f.floor (λ asked. holds (λ own. own == asked) row.floor)
      && where_text f.property_type (str_is row.property_type)
      && where_text f.listing_purpose (str_is row.listing_purpose)
      && where_text f.furnishing (str_is row.furnishing)
      && where_given f.min_area_size (λ least. holds (leb least) row.area_size)
      && where_given f.max_area_size (λ most. holds (λ own. leb own most) row.area_size)

-- `asc().nulls_last()` and `desc().nulls_last()`
abbrev pub below : Option ℕ → Option ℕ → Bool
below none b = false
below (some a) none = true
below (some a) (some b) = ltb a b

abbrev pub above : Option ℕ → Option ℕ → Bool
above none b = false
above (some a) none = true
above (some a) (some b) = ltb b a

abbrev pub same : Option ℕ → Option ℕ → Bool
same none none = true
same none (some b) = false
same (some a) none = false
same (some a) (some b) = a == b

abbrev pub newest_first : Row → Row → Bool
newest_first a b = ltb b.created_at a.created_at || (a.created_at == b.created_at && ltb b.id a.id)

-- The `order_by` of `build_public_search_query`: whether the first row comes before the second.
unfoldable pub comes_before : Option String → Row → Row → Bool
comes_before sort a b =
    if str_is sort "newest"
    then newest_first a b
    else if str_is sort "oldest"
    then ltb a.created_at b.created_at || (a.created_at == b.created_at && ltb a.id b.id)
    else if str_is sort "price_asc"
    then below a.price b.price || (same a.price b.price && ltb b.id a.id)
    else if str_is sort "price_desc"
    then above a.price b.price || (same a.price b.price && ltb b.id a.id)
    else if str_is sort "area_size_asc"
    then below a.area_size b.area_size || (same a.area_size b.area_size && ltb b.id a.id)
    else if str_is sort "area_size_desc"
    then above a.area_size b.area_size || (same a.area_size b.area_size && ltb b.id a.id)
    else newest_first a b

-- The values of a cursor; a key that is missing or null is `none`.
pub record Cursor : Type 0 where
  pub created_at : Option ℕ
  pub price : Option ℕ
  pub area_size : Option ℕ
  pub id : Option ℕ

-- `sort or "newest"`
abbrev sort_key : Option String → String
sort_key none = "newest"
sort_key (some sort) = if str_eq sort "" then "newest" else sort

abbrev pub after_time : (ℕ → ℕ → Bool) → Option ℕ → Option ℕ → Row → Bool
after_time past (some ca) (some ci) row =
    past row.created_at ca || (row.created_at == ca && past row.id ci)
after_time past _ _ row = true

abbrev is_null : Option ℕ → Bool
is_null none = true
is_null (some a) = false

-- The two branches on an amount, with the comparison that is past the cursor's.
abbrev pub after_amount : (ℕ → ℕ → Bool) → Option ℕ → Option ℕ → Option ℕ → ℕ → Bool
after_amount past (some cv) (some ci) col id =
    holds (λ own. past own cv) col || (holds (λ own. own == cv) col && ltb id ci) || is_null col
after_amount past none (some ci) col id = is_null col && ltb id ci
after_amount past cv none col id = true

-- `apply_public_search_cursor`: the condition that it adds to the query.
unfoldable pub after_cursor : Option String → Cursor → Row → Bool
after_cursor sort cursor row =
    let key = sort_key sort in
    if str_eq key "newest"
    then after_time (λ own at. ltb own at) cursor.created_at cursor.id row
    else if str_eq key "oldest"
    then after_time (λ own at. ltb at own) cursor.created_at cursor.id row
    else if str_eq key "price_desc"
    then after_amount (λ own at. ltb own at) cursor.price cursor.id row.price row.id
    else if str_eq key "area_size_desc"
    then after_amount (λ own at. ltb own at) cursor.area_size cursor.id row.area_size row.id
    else if str_eq key "price_asc"
    then after_amount (λ own at. ltb at own) cursor.price cursor.id row.price row.id
    else if str_eq key "area_size_asc"
    then after_amount (λ own at. ltb at own) cursor.area_size cursor.id row.area_size row.id
    else true

unfoldable pub make_cursor_from_item : Row → Option String → Cursor
make_cursor_from_item item sort =
    let key = sort_key sort in
    let bare : Cursor = record {
      created_at = none;
      price = none;
      area_size = none;
      id = some item.id;
    } in
    if str_eq key "newest" || str_eq key "oldest"
    then record bare { created_at = some item.created_at }
    else if str_eq key "price_desc" || str_eq key "price_asc"
    then record bare { price = item.price }
    else if str_eq key "area_size_desc" || str_eq key "area_size_asc"
    then record bare { area_size = item.area_size }
    else bare
