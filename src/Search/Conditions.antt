-- ===== src/Search/Conditions.antt =====
-- The conditions on one column in `build_public_search_query` of
-- backend/app/listings/query_service.py, written out.
use akar_ai.Prelude.{
  ℕ, ◌≤◌, ◌≡◌, ◌⊎◌, ◌↔◌, refl, ap, ◌==◌, String, Bool, true, false, ◌||◌, Option, none, some, inl,
  inr, arith, leb, str_eq, str_eq_iff, str_is, text_append, Bool-cases,
}
use akar_ai.Search.Query.{Row, holds, where_given, where_text}

-- A bound that is not given, or a column that is not null and at least or at most the bound.
pub data AtLeast (column : Option ℕ) : Option ℕ → Type 0 where
  no_least : AtLeast column none
  least : (bound own : ℕ) → column ≡ some own → bound ≤ own → AtLeast column (some bound)

pub data AtMost (column : Option ℕ) : Option ℕ → Type 0 where
  no_most : AtMost column none
  most : (bound own : ℕ) → column ≡ some own → own ≤ bound → AtMost column (some bound)

pub data IsAsked {ℓ} {A : Type ℓ} (column : Option A) : Option A → Type ℓ where
  not_asked : IsAsked column none
  asked : (value : A) → column ≡ some value → IsAsked column (some value)

-- A text that is not given or empty, or one that the column equals.
pub data IsText (column : Option String) : Option String → Type 0 where
  no_text : IsText column none
  empty_text : (text : String) → text ≡ "" → IsText column (some text)
  equal_text : (text : String) → column ≡ some text → IsText column (some text)

pub where_given-AtLeast :
    (column bound : Option ℕ)
    → (where_given bound (λ least. holds (leb least) column) ≡ true) ↔ AtLeast column bound
where_given-AtLeast column none = (λ h. no_least, λ h. refl)
where_given-AtLeast none (some bound) = (λ h. absurd (ground (arith, h)), go)
  where
    go : AtLeast none (some bound) → false ≡ true
    go (least _ own p q) = absurd (ground (arith, p))
where_given-AtLeast (some own) (some bound) = (λ h. least bound own refl (ground (arith, h)), go)
  where
    go : AtLeast (some own) (some bound) → leb bound own ≡ true
    go (least _ _ p q) = ground (arith, p, q)

pub where_given-AtMost :
    (column bound : Option ℕ)
    → (where_given bound (λ most. holds (λ own. leb own most) column) ≡ true) ↔ AtMost column bound
where_given-AtMost column none = (λ h. no_most, λ h. refl)
where_given-AtMost none (some bound) = (λ h. absurd (ground (arith, h)), go)
  where
    go : AtMost none (some bound) → false ≡ true
    go (most _ own p q) = absurd (ground (arith, p))
where_given-AtMost (some own) (some bound) = (λ h. most bound own refl (ground (arith, h)), go)
  where
    go : AtMost (some own) (some bound) → leb own bound ≡ true
    go (most _ _ p q) = ground (arith, p, q)

pub str_is_lem :
    (column : Option String) (text : String) → str_is column text ≡ true → column ≡ some text
str_is_lem none text h = absurd (ground (arith, h))
str_is_lem (some own) text h = ap (λ s. some s) ((str_eq_iff own text).0 h)

holds_lem :
    (p : String → Bool) (column : Option String)
    → holds p column ≡ true
    → (own : String) × (column ≡ some own) × (p own ≡ true)
holds_lem p none h = absurd (ground (arith, h))
holds_lem p (some own) h = (own, refl, h)

pub where_text-IsText :
    (column given : Option String) → (where_text given (str_is column) ≡ true) ↔ IsText column given
where_text-IsText column none = (λ h. no_text, λ h. refl)
where_text-IsText column (some text) = (forth, back)
  where
    forth : where_text (some text) (str_is column) ≡ true → IsText column (some text)
    forth h = elim (Bool-cases (str_eq text "")) [
      | inl e ↦ empty_text text ((str_eq_iff text "").0 e)
      | inr e ↦ equal_text text (str_is_lem column text (ground (arith, h, e)))
    ]

    back : IsText column (some text) → where_text (some text) (str_is column) ≡ true
    back (empty_text _ e) = let is = (str_eq_iff text "").1 e in ground (arith, is)
    back (equal_text _ e) = let is = (str_eq_iff text text).1 refl in rw e (ground (arith, is))

pub where_given-IsAsked :
    (column given : Option ℕ)
    → (where_given given (λ asked. holds (λ own. own == asked) column) ≡ true)
      ↔ IsAsked column given
where_given-IsAsked column none = (λ h. not_asked, λ h. refl)
where_given-IsAsked none (some value) = (λ h. absurd (ground (arith, h)), go)
  where
    go : IsAsked none (some value) → false ≡ true
    go (asked _ p) = absurd (ground (arith, p))
where_given-IsAsked (some own) (some value) = (λ h. asked value (ground (arith, h)), go)
  where
    go : IsAsked (some own) (some value) → (own == value) ≡ true
    go (asked _ p) = ground (arith, p)

module _ (ilike : String → String → Bool) (row : Row) where
  -- A text that is not given or empty, or one that the database finds in one of three columns.
  pub data IsLocated : Option String → Type 0 where
    anywhere : IsLocated none
    empty_location : (text : String) → text ≡ "" → IsLocated (some text)
    located :
        (text column : String)
        → (row.location_text ≡ some column) ⊎ (row.city ≡ some column) ⊎ (row.address ≡ some column)
        → ilike (text_append "%" (text_append text "%")) column ≡ true
        → IsLocated (some text)

  abbrev pub finds : String → Bool
  finds text =
      let pattern = text_append "%" (text_append text "%") in
      holds (ilike pattern) row.location_text
      || holds (ilike pattern) row.city
      || holds (ilike pattern) row.address

  finds-IsLocated : (text : String) → finds text ≡ true → IsLocated (some text)
  finds-IsLocated text h =
      let pattern = text_append "%" (text_append text "%") in
      elim (Bool-cases (holds (ilike pattern) row.location_text)) [
        | inl e ↦
            let (column, p, q) = holds_lem (ilike pattern) row.location_text e in
            located text column (inl p) q
        | inr missing ↦ elim (Bool-cases (holds (ilike pattern) row.city)) [
          | inl e ↦
              let (column, p, q) = holds_lem (ilike pattern) row.city e in
              located text column (inr (inl p)) q
          | inr neither ↦
              let (column, p, q) =
                holds_lem (ilike pattern) row.address (ground (arith, h, missing, neither)) in
              located text column (inr (inr p)) q
        ]
      ]

  pub where_text-IsLocated :
      (given : Option String) → (where_text given finds ≡ true) ↔ IsLocated given
  where_text-IsLocated none = (λ h. anywhere, λ h. refl)
  where_text-IsLocated (some text) = (forth, back)
    where
      forth : where_text (some text) finds ≡ true → IsLocated (some text)
      forth h = elim (Bool-cases (str_eq text "")) [
        | inl e ↦ empty_location text ((str_eq_iff text "").0 e)
        | inr e ↦ finds-IsLocated text (ground (arith, h, e))
      ]

      back : IsLocated (some text) → where_text (some text) finds ≡ true
      back (empty_location _ e) = let is = (str_eq_iff text "").1 e in ground (arith, is)
      back (located _ column (inl p) q) = rw p (ground (arith, q))
      back (located _ column (inr (inl p)) q) = rw p (ground (arith, q))
      back (located _ column (inr (inr p)) q) = rw p (ground (arith, q))
