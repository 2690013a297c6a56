-- ===== src/Search/Selected.antt =====
-- Which rows `build_public_search_query` of backend/app/listings/query_service.py selects.
use akar_ai.Prelude.{◌≡◌, refl, ◌↔◌, String, Bool, true, false, ◌&&◌, arith, str_eq_iff}
use akar_ai.Search.Query.{Row, Filters, matches_filters}
use akar_ai.Search.Conditions.{
  AtLeast, AtMost, IsAsked, IsText, IsLocated, where_given-AtLeast, where_given-AtMost,
  where_given-IsAsked, where_text-IsText, where_text-IsLocated,
}
use akar_ai.Search.Cities.{InCities, in_cities-InCities}

both_true : (a b : Bool) → (a && b) ≡ true → (a ≡ true) × (b ≡ true)
both_true true b h = (refl, h)
both_true false b h = absurd (ground (arith, h))

and_true : {a b : Bool} → a ≡ true → b ≡ true → (a && b) ≡ true
and_true p q = ground (arith, p, q)

module _ (ilike : String → String → Bool) (lower : String → String) where
  -- What the public search asks of a row.
  pub record IsSelected (f : Filters) (row : Row) : Type 0 where
    pub active : row.status ≡ "active"
    pub location : IsLocated ilike row f.location
    pub city : InCities lower f.city row.city
    pub min_price : AtLeast row.price f.min_price
    pub max_price : AtMost row.price f.max_price
    pub bedrooms : AtLeast row.bedrooms f.bedrooms
    pub bathrooms : AtLeast row.bathrooms f.bathrooms
    pub parking : AtLeast row.parking f.parking
    pub floor : IsAsked row.floor f.floor
    pub property_type : IsText row.property_type f.property_type
    pub listing_purpose : IsText row.listing_purpose f.listing_purpose
    pub furnishing : IsText row.furnishing f.furnishing
    pub min_area_size : AtLeast row.area_size f.min_area_size
    pub max_area_size : AtMost row.area_size f.max_area_size

  matches_filters-IsSelected :
      (f : Filters) (row : Row) → matches_filters ilike lower f row ≡ true → IsSelected f row
  unfolding matches_filters
  matches_filters-IsSelected f row h =
      let (r0, h_max_area_size) = both_true _ _ h in
      let (r1, h_min_area_size) = both_true _ _ r0 in
      let (r2, h_furnishing) = both_true _ _ r1 in
      let (r3, h_listing_purpose) = both_true _ _ r2 in
      let (r4, h_property_type) = both_true _ _ r3 in
      let (r5, h_floor) = both_true _ _ r4 in
      let (r6, h_parking) = both_true _ _ r5 in
      let (r7, h_bathrooms) = both_true _ _ r6 in
      let (r8, h_bedrooms) = both_true _ _ r7 in
      let (r9, h_max_price) = both_true _ _ r8 in
      let (r10, h_min_price) = both_true _ _ r9 in
      let (r11, h_city) = both_true _ _ r10 in
      let (h_active, h_location) = both_true _ _ r11 in
      record {
        active = (str_eq_iff row.status "active").0 h_active;
        location = (where_text-IsLocated ilike row f.location).0 h_location;
        city = (in_cities-InCities ilike lower f.city row.city).0 h_city;
        min_price = (where_given-AtLeast row.price f.min_price).0 h_min_price;
        max_price = (where_given-AtMost row.price f.max_price).0 h_max_price;
        bedrooms = (where_given-AtLeast row.bedrooms f.bedrooms).0 h_bedrooms;
        bathrooms = (where_given-AtLeast row.bathrooms f.bathrooms).0 h_bathrooms;
        parking = (where_given-AtLeast row.parking f.parking).0 h_parking;
        floor = (where_given-IsAsked row.floor f.floor).0 h_floor;
        property_type = (where_text-IsText row.property_type f.property_type).0 h_property_type;
        listing_purpose =
            (where_text-IsText row.listing_purpose f.listing_purpose).0 h_listing_purpose;
        furnishing = (where_text-IsText row.furnishing f.furnishing).0 h_furnishing;
        min_area_size = (where_given-AtLeast row.area_size f.min_area_size).0 h_min_area_size;
        max_area_size = (where_given-AtMost row.area_size f.max_area_size).0 h_max_area_size;
      }

  IsSelected-matches_filters :
      (f : Filters) (row : Row) → IsSelected f row → matches_filters ilike lower f row ≡ true
  unfolding matches_filters
  IsSelected-matches_filters f row s =
      and_true
        (and_true
          (and_true
            (and_true
              (and_true
                (and_true
                  (and_true
                    (and_true
                      (and_true
                        (and_true
                          (and_true
                            (and_true
                              (and_true ((str_eq_iff row.status "active").1 s.active)
                                ((where_text-IsLocated ilike row f.location).1 s.location))
                              ((in_cities-InCities ilike lower f.city row.city).1 s.city))
                            ((where_given-AtLeast row.price f.min_price).1 s.min_price))
                          ((where_given-AtMost row.price f.max_price).1 s.max_price))
                        ((where_given-AtLeast row.bedrooms f.bedrooms).1 s.bedrooms))
                      ((where_given-AtLeast row.bathrooms f.bathrooms).1 s.bathrooms))
                    ((where_given-AtLeast row.parking f.parking).1 s.parking))
                  ((where_given-IsAsked row.floor f.floor).1 s.floor))
                ((where_text-IsText row.property_type f.property_type).1 s.property_type))
              ((where_text-IsText row.listing_purpose f.listing_purpose).1 s.listing_purpose))
            ((where_text-IsText row.furnishing f.furnishing).1 s.furnishing))
          ((where_given-AtLeast row.area_size f.min_area_size).1 s.min_area_size))
        ((where_given-AtMost row.area_size f.max_area_size).1 s.max_area_size)

  pub matches_filters_iff :
      (f : Filters) (row : Row) → (matches_filters ilike lower f row ≡ true) ↔ IsSelected f row
  matches_filters_iff f row = (matches_filters-IsSelected f row, IsSelected-matches_filters f row)
