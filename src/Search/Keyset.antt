-- ===== src/Search/Keyset.antt =====
-- The condition that a cursor adds to the query of backend/app/listings/query_service.py, against
-- the order of that query.
use akar_ai.Prelude.{
  ℕ, ◌≡◌, ◌≢◌, refl, String, Bool, true, false, Option, none, some, List, [], ◌∷◌, contains, ◌⊎◌,
  ◌||◌, ◌&&◌, ◌==◌, ltb, inl, inr, arith, str_eq, str_is, str_eq_iff, Bool-cases, All, sym,
  false≢true, if◌then◌else◌,
}
use akar_ai.Search.Query.{
  Row, Cursor, below, above, same, after_time, after_amount, comes_before, after_cursor,
  make_cursor_from_item,
}
use akar_ai.Search.Sorted.{IsStrictOrder}

abbrev pub Differ : Row → Row → Type 0
Differ a b = a.id ≢ b.id

-- One of the three forms of order: by time, by an amount upwards, by an amount downwards.
newest-strict :
    IsStrictOrder Differ
      (λ a b. ltb b.created_at a.created_at || (a.created_at == b.created_at && ltb b.id a.id))
newest-strict = record {
  irreflexive = λ a. ground arith;
  asymmetric = λ a b. ground arith;
  transitive = λ a b c. ground arith;
  total = λ a b. ground arith;
}

oldest-strict :
    IsStrictOrder Differ
      (λ a b. ltb a.created_at b.created_at || (a.created_at == b.created_at && ltb a.id b.id))
oldest-strict = record {
  irreflexive = λ a. ground arith;
  asymmetric = λ a b. ground arith;
  transitive = λ a b c. ground arith;
  total = λ a b. ground arith;
}

module _ (amount : Row → Option ℕ) where
  upwards-strict :
      IsStrictOrder Differ
        (λ a b. below (amount a) (amount b) || (same (amount a) (amount b) && ltb b.id a.id))
  upwards-strict = record {
    irreflexive = λ a. ground arith;
    asymmetric = λ a b. ground arith;
    transitive = λ a b c. ground arith;
    total = λ a b. ground arith;
  }

  downwards-strict :
      IsStrictOrder Differ
        (λ a b. above (amount a) (amount b) || (same (amount a) (amount b) && ltb b.id a.id))
  downwards-strict = record {
    irreflexive = λ a. ground arith;
    asymmetric = λ a b. ground arith;
    transitive = λ a b c. ground arith;
    total = λ a b. ground arith;
  }

-- The sorts that `build_public_search_query` and `apply_public_search_cursor` both know.
abbrev known_sorts : List String
known_sorts =
    "" ∷ "newest" ∷ "oldest" ∷ "price_asc" ∷ "price_desc" ∷ "area_size_asc" ∷ "area_size_desc" ∷ []

abbrev pub is_known_sort : Option String → Bool
is_known_sort none = true
is_known_sort (some sort) = contains known_sorts sort

abbrev Among : List String → String → Type 0
Among [] s = ⊥
Among (x ∷ xs) s = (s ≡ x) ⊎ Among xs s

contains-Among : (xs : List String) (s : String) → contains xs s ≡ true → Among xs s
contains-Among [] s h = absurd (false≢true h)
contains-Among (x ∷ xs) s h = elim (Bool-cases (str_eq x s)) [
  | inl here ↦ inl (sym ((str_eq_iff x s).0 here))
  | inr other ↦ inr (contains-Among xs s (ground (arith, other, h)))
]

after_time-newer :
    (a b : Row)
    → after_time (λ own at. ltb own at) (some a.created_at) (some a.id) b
      ≡ (ltb b.created_at a.created_at || (a.created_at == b.created_at && ltb b.id a.id))
after_time-newer a b = ground arith

after_time-older :
    (a b : Row)
    → after_time (λ own at. ltb at own) (some a.created_at) (some a.id) b
      ≡ (ltb a.created_at b.created_at || (a.created_at == b.created_at && ltb a.id b.id))
after_time-older a b = ground arith

after_amount-above :
    (p q : Option ℕ) (i j : ℕ)
    → after_amount (λ own at. ltb own at) p (some i) q j ≡ (above p q || (same p q && ltb j i))
after_amount-above p q i j = ground arith

after_amount-below :
    (p q : Option ℕ) (i j : ℕ)
    → after_amount (λ own at. ltb at own) p (some i) q j ≡ (below p q || (same p q && ltb j i))
after_amount-below p q i j = ground arith

pub after_cursor-make_cursor :
    (sort : Option String) (item row : Row)
    → is_known_sort sort ≡ true
    → after_cursor sort (make_cursor_from_item item sort) row ≡ comes_before sort item row
unfolding after_cursor make_cursor_from_item comes_before
after_cursor-make_cursor none item row known = after_time-newer item row
after_cursor-make_cursor (some sort) item row known = elim (contains-Among known_sorts sort known) [
  | inl e ↦ rw e (after_time-newer item row)
  | inr (inl e) ↦ rw e (after_time-newer item row)
  | inr (inr (inl e)) ↦ rw e (after_time-older item row)
  | inr (inr (inr (inl e))) ↦ rw e (after_amount-below item.price row.price item.id row.id)
  | inr (inr (inr (inr (inl e)))) ↦ rw e (after_amount-above item.price row.price item.id row.id)
  | inr (inr (inr (inr (inr (inl e))))) ↦
      rw e (after_amount-below item.area_size row.area_size item.id row.id)
  | inr (inr (inr (inr (inr (inr (inl e)))))) ↦
      rw e (after_amount-above item.area_size row.area_size item.id row.id)
  | inr (inr (inr (inr (inr (inr (inr none_left)))))) ↦ absurd none_left
]

strict_if :
    {f g : Row → Row → Bool} (b : Bool)
    → IsStrictOrder Differ f
    → IsStrictOrder Differ g
    → IsStrictOrder Differ (λ x y. if b then f x y else g x y)
strict_if true hf hg = hf
strict_if false hf hg = hg

pub comes_before-IsStrictOrder : (sort : Option String) → IsStrictOrder Differ (comes_before sort)
unfolding comes_before
comes_before-IsStrictOrder sort = strict_if (str_is sort "newest") newest-strict (
    strict_if (str_is sort "oldest") oldest-strict (
      strict_if (str_is sort "price_asc") (upwards-strict (λ r. r.price)) (
        strict_if (str_is sort "price_desc") (downwards-strict (λ r. r.price)) (
          strict_if (str_is sort "area_size_asc") (upwards-strict (λ r. r.area_size)) (
            strict_if (str_is sort "area_size_desc") (downwards-strict (λ r. r.area_size))
              newest-strict)))))

absent-str_eq :
    (xs : List String) (s : String) → contains xs s ≡ false → All (λ x. str_eq s x ≡ false) xs
absent-str_eq [] s h = tt
absent-str_eq (x ∷ xs) s h =
    (ground (arith, h, str_eq_iff x s, str_eq_iff s x), absent-str_eq xs s (ground (arith, h)))

pub unknown_sort-after_cursor :
    (sort : Option String) (cursor : Cursor) (row : Row)
    → is_known_sort sort ≡ false
    → after_cursor sort cursor row ≡ true
unfolding after_cursor
unknown_sort-after_cursor none cursor row unknown = absurd (false≢true (sym unknown))
unknown_sort-after_cursor (some sort) cursor row unknown =
    let (blank, rest) = absent-str_eq known_sorts sort unknown in
    let (newest, (oldest, (price_asc, (price_desc, (area_asc, (area_desc, _)))))) = rest in
    rw (blank, newest, oldest, price_asc, price_desc, area_asc, area_desc) refl
