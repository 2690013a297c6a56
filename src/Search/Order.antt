-- ===== src/Search/Order.antt =====
-- The orders of `build_public_search_query` of backend/app/listings/query_service.py, written out.
use akar_ai.Prelude.{
  ℕ, ◌<◌, ◌≡◌, ◌≢◌, ◌⊎◌, refl, ap, ◌==◌, String, true, false, ◌&&◌, ◌||◌, Option, none, some, inl,
  inr, arith, ltb, str_eq_iff, str_is, Bool-cases,
}
use akar_ai.Search.Query.{Row, comes_before, below, above, same, newest_first}
use akar_ai.Search.Conditions.{str_is_lem}

-- A null column comes last.
pub data Below : Option ℕ → Option ℕ → Type 0 where
  less : (x y : ℕ) → x < y → Below (some x) (some y)
  null_after : (x : ℕ) → Below (some x) none

pub data Above : Option ℕ → Option ℕ → Type 0 where
  more : (x y : ℕ) → y < x → Above (some x) (some y)
  null_behind : (x : ℕ) → Above (some x) none

below-Below : (x y : Option ℕ) → below x y ≡ true → Below x y
below-Below none y h = absurd (ground (arith, h))
below-Below (some x) none h = null_after x
below-Below (some x) (some y) h = less x y (ground (arith, h))

above-Above : (x y : Option ℕ) → above x y ≡ true → Above x y
above-Above none y h = absurd (ground (arith, h))
above-Above (some x) none h = null_behind x
above-Above (some x) (some y) h = more x y (ground (arith, h))

newest_first-Newer :
    (a b : Row)
    → newest_first a b ≡ true
    → (b.created_at < a.created_at) ⊎ ((a.created_at ≡ b.created_at) × (b.id < a.id))
newest_first-Newer a b h = elim (Bool-cases (ltb b.created_at a.created_at)) [
  | inl e ↦ inl (ground (arith, e))
  | inr e ↦ inr (ground (arith, h, e), ground (arith, h, e))
]

same-equal : (x y : Option ℕ) → same x y ≡ true → x ≡ y
same-equal none none h = refl
same-equal none (some y) h = absurd (ground (arith, h))
same-equal (some x) none h = absurd (ground (arith, h))
same-equal (some x) (some y) h = ap (λ n. some n) (ground (arith, h))

-- Some rows before others: by the column in one direction, rows without a value last, and rows with
-- one value by the greater id.
abbrev pub Up : Option ℕ → Option ℕ → Row → Row → Type 0
Up x y a b = Below x y ⊎ ((x ≡ y) × (b.id < a.id))

abbrev pub Down : Option ℕ → Option ℕ → Row → Row → Type 0
Down x y a b = Above x y ⊎ ((x ≡ y) × (b.id < a.id))

below-Up :
    (x y : Option ℕ) (a b : Row) → (below x y || (same x y && ltb b.id a.id)) ≡ true → Up x y a b
below-Up x y a b h = elim (Bool-cases (below x y)) [
  | inl e ↦ inl (below-Below x y e)
  | inr e ↦ inr (same-equal x y (ground (arith, h, e)), ground (arith, h, e))
]

above-Down :
    (x y : Option ℕ) (a b : Row) → (above x y || (same x y && ltb b.id a.id)) ≡ true → Down x y a b
above-Down x y a b h = elim (Bool-cases (above x y)) [
  | inl e ↦ inl (above-Above x y e)
  | inr e ↦ inr (same-equal x y (ground (arith, h, e)), ground (arith, h, e))
]

oldest_lem :
    (a b : Row)
    → (ltb a.created_at b.created_at || (a.created_at == b.created_at && ltb a.id b.id)) ≡ true
    → (a.created_at < b.created_at) ⊎ ((a.created_at ≡ b.created_at) × (a.id < b.id))
oldest_lem a b h = elim (Bool-cases (ltb a.created_at b.created_at)) [
  | inl e ↦ inl (ground (arith, e))
  | inr e ↦ inr (ground (arith, h, e), ground (arith, h, e))
]

-- No sort of the five that are not the newest first.
pub record IsOther (sort : Option String) : Type 0 where
  pub not_oldest : sort ≢ some "oldest"
  pub not_price_asc : sort ≢ some "price_asc"
  pub not_price_desc : sort ≢ some "price_desc"
  pub not_area_size_asc : sort ≢ some "area_size_asc"
  pub not_area_size_desc : sort ≢ some "area_size_desc"

-- The order that each sort stands for; no sort and one that is not known stand for the newest first.
pub data Precedes (sort : Option String) (a b : Row) : Type 0 where
  by_oldest :
      sort ≡ some "oldest"
      → (a.created_at < b.created_at) ⊎ ((a.created_at ≡ b.created_at) × (a.id < b.id))
      → Precedes sort a b
  by_price_asc : sort ≡ some "price_asc" → Up a.price b.price a b → Precedes sort a b
  by_price_desc : sort ≡ some "price_desc" → Down a.price b.price a b → Precedes sort a b
  by_area_size_asc :
      sort ≡ some "area_size_asc" → Up a.area_size b.area_size a b → Precedes sort a b
  by_area_size_desc :
      sort ≡ some "area_size_desc" → Down a.area_size b.area_size a b → Precedes sort a b
  by_newest :
      IsOther sort
      → (b.created_at < a.created_at) ⊎ ((a.created_at ≡ b.created_at) × (b.id < a.id))
      → Precedes sort a b

is_not : (sort : Option String) (name : String) → str_is sort name ≡ false → sort ≢ some name
is_not none name h p = absurd (ground (arith, p))
is_not (some own) name h p = absurd (ground (arith, h, p, str_eq_iff own name))

is_newest-IsOther : (sort : Option String) → str_is sort "newest" ≡ true → IsOther sort
is_newest-IsOther sort e =
    let is = str_is_lem sort "newest" e in
    record {
      not_oldest = is_not sort "oldest" (rw is refl);
      not_price_asc = is_not sort "price_asc" (rw is refl);
      not_price_desc = is_not sort "price_desc" (rw is refl);
      not_area_size_asc = is_not sort "area_size_asc" (rw is refl);
      not_area_size_desc = is_not sort "area_size_desc" (rw is refl);
    }

pub comes_before-Precedes :
    (sort : Option String) (a b : Row) → comes_before sort a b ≡ true → Precedes sort a b
unfolding comes_before
comes_before-Precedes sort a b h = elim (Bool-cases (str_is sort "newest")) [
  | inl e ↦ by_newest (is_newest-IsOther sort e) (newest_first-Newer a b (rw e at h))
  | inr n ↦ elim (Bool-cases (str_is sort "oldest")) [
    | inl e ↦ by_oldest (str_is_lem sort "oldest" e) (oldest_lem a b (rw (n, e) at h))
    | inr o ↦ elim (Bool-cases (str_is sort "price_asc")) [
      | inl e ↦
          by_price_asc (str_is_lem sort "price_asc" e)
            (below-Up a.price b.price a b (rw (n, o, e) at h))
      | inr p ↦ elim (Bool-cases (str_is sort "price_desc")) [
        | inl e ↦
            by_price_desc (str_is_lem sort "price_desc" e)
              (above-Down a.price b.price a b (rw (n, o, p, e) at h))
        | inr q ↦ elim (Bool-cases (str_is sort "area_size_asc")) [
          | inl e ↦
              by_area_size_asc (str_is_lem sort "area_size_asc" e)
                (below-Up a.area_size b.area_size a b (rw (n, o, p, q, e) at h))
          | inr s ↦ elim (Bool-cases (str_is sort "area_size_desc")) [
            | inl e ↦
                by_area_size_desc (str_is_lem sort "area_size_desc" e)
                  (above-Down a.area_size b.area_size a b (rw (n, o, p, q, s, e) at h))
            | inr t ↦
                by_newest
                  (record {
                    not_oldest = is_not sort "oldest" o;
                    not_price_asc = is_not sort "price_asc" p;
                    not_price_desc = is_not sort "price_desc" q;
                    not_area_size_asc = is_not sort "area_size_asc" s;
                    not_area_size_desc = is_not sort "area_size_desc" t;
                  })
                  (newest_first-Newer a b (rw (n, o, p, q, s, t) at h))
          ]
        ]
      ]
    ]
  ]
]
