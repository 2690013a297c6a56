-- ===== src/Search/Cities.antt =====
-- `_normalize_city_filters` of backend/app/listings/query_service.py and the condition on the city,
-- written out.
use akar_ai.Prelude.{
  ◌≡◌, ◌≢◌, ◌↔◌, refl, strip, contains, map, String, Bool, true, false, Option, none, some, List,
  [], ◌∷◌, inl, inr, All, arith, str_eq, str_eq_iff, Bool-cases,
}
use akar_ai.Search.Query.{normalize_city_filters, in_cities, same}

-- A city that is not blank is the wanted one, in any letter case.
pub data IsWanted (lower : String → String) (own : String) : List String → Type 0 where
  here :
      (city : String) (cities : List String)
      → strip city ≢ ""
      → lower (strip city) ≡ own
      → IsWanted lower own (city ∷ cities)
  there :
      (city : String) (cities : List String)
      → IsWanted lower own cities
      → IsWanted lower own (city ∷ cities)

-- Only blank cities are given, or one that is the column's.
pub data InCities (lower : String → String) (cities : List String) (column : Option String)
    : Type 0 where
  every_city : All (λ city. strip city ≡ "") cities → InCities lower cities column
  in_city :
      (own : String)
      → column ≡ some own
      → IsWanted lower (lower own) cities
      → InCities lower cities column

module _ (ilike : String → String → Bool) (lower : String → String) where
  abbrev normalized : List String → List String → List String
  normalized = normalize_city_filters ilike lower

  normalized-IsWanted :
      (own : String) (seen cities : List String)
      → contains (map lower (normalized seen cities)) own ≡ true
      → IsWanted lower own cities
  unfolding normalize_city_filters
  normalized-IsWanted own seen [] h = absurd (ground (arith, h))
  normalized-IsWanted own seen (city ∷ cities) h = elim (Bool-cases (str_eq (strip city) "")) [
    | inl blank ↦ there city cities (normalized-IsWanted own seen cities (rw blank at h))
    | inr given ↦ elim (Bool-cases (contains seen (lower (strip city)))) [
      | inl known ↦ there city cities (normalized-IsWanted own seen cities (rw (given, known) at h))
      | inr fresh ↦ elim (Bool-cases (str_eq (lower (strip city)) own)) [
        | inl e ↦
            here city cities (λ p. absurd (ground (arith, given, (str_eq_iff (strip city) "").1 p)))
              ((str_eq_iff (lower (strip city)) own).0 e)
        | inr other ↦ there city cities (
            normalized-IsWanted own (lower (strip city) ∷ seen) cities
              (rw (given, fresh, other) at h))
      ]
    ]
  ]

  IsWanted-normalized :
      (own : String) (seen cities : List String)
      → contains seen own ≡ false
      → IsWanted lower own cities
      → contains (map lower (normalized seen cities)) own ≡ true
  unfolding normalize_city_filters
  IsWanted-normalized own seen _ unseen (here city cities given same) =
      let is = (str_eq_iff (lower (strip city)) own).1 same in
      let fresh : contains seen (lower (strip city)) ≡ false = rw same unseen in
      elim (Bool-cases (str_eq (strip city) "")) [
        | inl blank ↦ absurd (given ((str_eq_iff (strip city) "").0 blank))
        | inr filled ↦ rw (filled, fresh, is) refl
      ]
  IsWanted-normalized own seen _ unseen (there city cities wanted) =
      elim (Bool-cases (str_eq (strip city) "")) [
        | inl blank ↦ rw blank (IsWanted-normalized own seen cities unseen wanted)
        | inr filled ↦ elim (Bool-cases (contains seen (lower (strip city)))) [
          | inl known ↦ rw (filled, known) (IsWanted-normalized own seen cities unseen wanted)
          | inr fresh ↦ elim (Bool-cases (str_eq (lower (strip city)) own)) [
            | inl e ↦ rw (filled, fresh, e) refl
            | inr other ↦
                rw (filled, fresh, other)
                  (IsWanted-normalized own (lower (strip city) ∷ seen) cities
                    (ground (arith, unseen, other)) wanted)
          ]
        ]
      ]

  blank-normalized :
      (seen cities : List String)
      → All (λ city. strip city ≡ "") cities
      → normalized seen cities ≡ []
  unfolding normalize_city_filters
  blank-normalized seen [] h = refl
  blank-normalized seen (city ∷ cities) (e, h) =
      let is = (str_eq_iff (strip city) "").1 e in
      ground (arith, is, blank-normalized seen cities h)

  normalized-blank :
      (cities : List String) → normalized [] cities ≡ [] → All (λ city. strip city ≡ "") cities
  unfolding normalize_city_filters
  normalized-blank [] h = tt
  normalized-blank (city ∷ cities) h = elim (Bool-cases (str_eq (strip city) "")) [
    | inl e ↦ ((str_eq_iff (strip city) "").0 e, normalized-blank cities (rw e at h))
    | inr e ↦ absurd (ground (arith, h, e))
  ]

  -- The condition on the city, with the normalized cities as a variable.
  city_forth :
      (cities names : List String) (column : Option String)
      → normalized [] cities ≡ names
      → in_cities ilike lower names column ≡ true
      → InCities lower cities column
  city_forth cities [] column e h = every_city (normalized-blank cities e)
  city_forth cities (name ∷ names) none e h = absurd (ground (arith, h))
  city_forth cities (name ∷ names) (some own) e h =
      in_city own refl (normalized-IsWanted (lower own) [] cities (rw e h))

  city_back :
      (cities names : List String) (column : Option String)
      → normalized [] cities ≡ names
      → InCities lower cities column
      → in_cities ilike lower names column ≡ true
  city_back cities [] column e h = refl
  city_back cities (name ∷ names) column e (every_city blank) =
      absurd (ground (arith, e, blank-normalized [] cities blank))
  city_back cities (name ∷ names) column e (in_city own is wanted) =
      let found = IsWanted-normalized (lower own) [] cities refl wanted in rw is (rw e at found)

  pub in_cities-InCities :
      (cities : List String) (column : Option String)
      → (in_cities ilike lower (normalize_city_filters ilike lower [] cities) column ≡ true)
        ↔ InCities lower cities column
  in_cities-InCities cities column = (
    city_forth cities (normalized [] cities) column refl,
    city_back cities (normalized [] cities) column refl,
  )
