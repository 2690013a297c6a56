-- ===== src/Search/Sorted.antt =====
-- `where` and `order by` on lists of rows, and what a strict order gives: the rows behind one row of
-- a sorted list are those that it precedes.
use mathlib.Core.List.{Perm}
use mathlib.Core.List.Perm
use akar_ai.Prelude.{
  ◌≡◌, refl, ap, subst, ◌∙◌, Bool, true, false, List, [], ◌∷◌, ◌++◌, inl, inr, All, Bool-cases,
  arith, if◌then◌else◌,
}

module _ {ℓ} {A : Type ℓ} where
  abbrev pub filter : (A → Bool) → List A → List A
  filter p [] = []
  filter p (x ∷ xs) = let rest = filter p xs in if p x then x ∷ rest else rest

  abbrev pub insert_by : (A → A → Bool) → A → List A → List A
  insert_by before x [] = x ∷ []
  insert_by before x (y ∷ ys) =
      let rest = insert_by before x ys in if before x y then x ∷ y ∷ ys else y ∷ rest

  -- `order by`, where `before x y` says that x comes first
  abbrev pub sort_by : (A → A → Bool) → List A → List A
  sort_by before [] = []
  sort_by before (x ∷ xs) = insert_by before x (sort_by before xs)

  pub filter-append :
      (p : A → Bool) (xs ys : List A) → filter p (xs ++ ys) ≡ filter p xs ++ filter p ys
  filter-append p [] ys = refl
  filter-append p (x ∷ xs) ys = ground (arith, filter-append p xs ys)

  pub filter-All : (p : A → Bool) (xs : List A) → All (λ x. p x ≡ true) xs → filter p xs ≡ xs
  filter-All p [] h = refl
  filter-All p (x ∷ xs) (hx, h) = ground (arith, hx, filter-All p xs h)

  pub filter-nothing : (p : A → Bool) (xs : List A) → All (λ x. p x ≡ false) xs → filter p xs ≡ []
  filter-nothing p [] h = refl
  filter-nothing p (x ∷ xs) (hx, h) = ground (arith, hx, filter-nothing p xs h)

  pub filter-ext :
      (p q : A → Bool) (xs : List A) → ((x : A) → p x ≡ q x) → filter p xs ≡ filter q xs
  filter-ext p q [] h = refl
  filter-ext p q (x ∷ xs) h = ground (arith, h x, filter-ext p q xs h)

  pub filter-every : (p : A → Bool) (xs : List A) → ((x : A) → p x ≡ true) → filter p xs ≡ xs
  filter-every p [] h = refl
  filter-every p (x ∷ xs) h = ground (arith, h x, filter-every p xs h)

  All-filter : (P : A → Type 0) (p : A → Bool) (xs : List A) → All P xs → All P (filter p xs)
  All-filter P p [] h = tt
  All-filter P p (x ∷ xs) (px, h) = elim (Bool-cases (p x)) [
    | inl kept ↦ rw kept (px, All-filter P p xs h)
    | inr dropped ↦ rw dropped (All-filter P p xs h)
  ]

  insert-Perm :
      (before : A → A → Bool) (x : A) (xs : List A) → Perm (insert_by before x xs) (x ∷ xs)
  insert-Perm before x [] = Perm.refl (x ∷ [])
  insert-Perm before x (y ∷ ys) = elim (Bool-cases (before x y)) [
    | inl first ↦ rw first (Perm.refl (x ∷ y ∷ ys))
    | inr later ↦ rw later (Perm.trans (Perm.cons y (insert-Perm before x ys)) (Perm.swap x y ys))
  ]

  pub sort-Perm : (before : A → A → Bool) (xs : List A) → Perm (sort_by before xs) xs
  sort-Perm before [] = Perm.refl []
  sort-Perm before (x ∷ xs) =
      Perm.trans (insert-Perm before x (sort_by before xs)) (Perm.cons x (sort-Perm before xs))

  -- Every row comes before the rows behind it.
  abbrev pub IsSorted : (A → A → Bool) → List A → Type ℓ
  IsSorted before [] = Unit
  IsSorted before (x ∷ xs) = All (λ y. before x y ≡ true) xs × IsSorted before xs

module _ {ℓ} {A : Type ℓ} (Differ : A → A → Type 0) where
  abbrev pub AllDiffer : List A → Type 0
  AllDiffer [] = Unit
  AllDiffer (x ∷ xs) = All (Differ x) xs × AllDiffer xs

  pub filter-AllDiffer : (p : A → Bool) (xs : List A) → AllDiffer xs → AllDiffer (filter p xs)
  filter-AllDiffer p [] h = tt
  filter-AllDiffer p (x ∷ xs) (differ, h) = elim (Bool-cases (p x)) [
    | inl kept ↦ rw kept (All-filter (Differ x) p xs differ, filter-AllDiffer p xs h)
    | inr dropped ↦ rw dropped (filter-AllDiffer p xs h)
  ]

-- A strict order on rows that are told apart by `Differ`.
pub record IsStrictOrder {ℓ} {A : Type ℓ} (Differ : A → A → Type 0) (before : A → A → Bool)
    : Type ℓ where
  pub irreflexive : (a : A) → before a a ≡ false
  pub asymmetric : (a b : A) → before a b ≡ true → before b a ≡ false
  pub transitive : (a b c : A) → before a b ≡ true → before b c ≡ true → before a c ≡ true
  pub total : (a b : A) → Differ a b → before a b ≡ false → before b a ≡ true

module _ {ℓ} {A : Type ℓ} {Differ : A → A → Type 0} {before : A → A → Bool}
    (strict : IsStrictOrder Differ before) where
  All-insert :
      (P : A → Type 0) (x : A) (ys : List A) → P x → All P ys → All P (insert_by before x ys)
  All-insert P x [] px h = (px, tt)
  All-insert P x (y ∷ ys) px (py, h) = elim (Bool-cases (before x y)) [
    | inl first ↦ rw first (px, (py, h))
    | inr later ↦ rw later (py, All-insert P x ys px h)
  ]

  All-sort : (P : A → Type 0) (xs : List A) → All P xs → All P (sort_by before xs)
  All-sort P [] h = tt
  All-sort P (x ∷ xs) (px, h) = All-insert P x (sort_by before xs) px (All-sort P xs h)

  All-later :
      (x y : A) (ys : List A)
      → before x y ≡ true
      → All (λ z. before y z ≡ true) ys
      → All (λ z. before x z ≡ true) ys
  All-later x y [] e h = tt
  All-later x y (z ∷ ys) e (hz, h) = (strict.transitive x y z e hz, All-later x y ys e h)

  insert-IsSorted :
      (x : A) (ys : List A)
      → All (Differ x) ys
      → IsSorted before ys
      → IsSorted before (insert_by before x ys)
  insert-IsSorted x [] differ sorted = (tt, tt)
  insert-IsSorted x (y ∷ ys) (differ, differs) (h, sorted) = elim (Bool-cases (before x y)) [
    | inl first ↦ rw first ((first, All-later x y ys first h), (h, sorted))
    | inr later ↦ rw later (
      All-insert (λ z. before y z ≡ true) x ys (strict.total x y differ later) h,
      insert-IsSorted x ys differs sorted,
    )
  ]

  pub sort-IsSorted : (xs : List A) → AllDiffer Differ xs → IsSorted before (sort_by before xs)
  sort-IsSorted [] h = tt
  sort-IsSorted (x ∷ xs) (differ, h) =
      insert-IsSorted x (sort_by before xs) (All-sort (Differ x) xs differ) (sort-IsSorted xs h)

  -- In a sorted list no row before x comes after x.
  sorted_front :
      (front : List A) (x : A) (back : List A)
      → IsSorted before (front ++ x ∷ back)
      → All (λ y. before x y ≡ false) front
  sorted_front [] x back h = tt
  sorted_front (y ∷ front) x back (hy, h) =
      (strict.asymmetric y x (last_of front hy), sorted_front front x back h)
    where
      last_of : (ys : List A) → All (λ z. before y z ≡ true) (ys ++ x ∷ back) → before y x ≡ true
      last_of [] (e, h) = e
      last_of (z ∷ ys) (e, h) = last_of ys h

  sorted_back :
      (front : List A) (x : A) (back : List A)
      → IsSorted before (front ++ x ∷ back)
      → All (λ y. before x y ≡ true) back
  sorted_back [] x back (h, s) = h
  sorted_back (y ∷ front) x back (hy, h) = sorted_back front x back h

  -- The rows that x precedes are those behind it.
  filter-before :
      (front : List A) (x : A) (back : List A)
      → IsSorted before (front ++ x ∷ back)
      → filter (before x) (front ++ x ∷ back) ≡ back
  filter-before front x back h =
      let behind = filter-All (before x) back (sorted_back front x back h) in
      let ahead = filter-nothing (before x) front (sorted_front front x back h) in
      rw (filter-append (before x) front (x ∷ back), ahead, strict.irreflexive x, behind) refl

  pub filter_cut :
      (whole front : List A) (x : A) (back : List A)
      → whole ≡ front ++ x ∷ back
      → IsSorted before whole
      → filter (before x) whole ≡ back
  filter_cut whole front x back cut sorted =
      ap (filter (before x)) cut
      ∙ filter-before front x back (subst (λ xs. IsSorted before xs) cut sorted)
