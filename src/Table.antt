-- ===== src/Table.antt =====
-- A database table, or a Redis keyspace: rows under a primary key. `find` is
-- `select ... where id = k` with `scalar_one_or_none`, `put` is an INSERT of a new key and an
-- UPDATE of an old one, `select` and `count` are `select ... where` and `count`.
use akar_ai.Prelude.{
  ℕ, ◌+◌, ◌≤◌, ◌≡◌, refl, Bool, true, false, Option, none, some, List, [], ◌∷◌, arith, IsKey, leb,
  Bool-cases, inl, inr, if◌then◌else◌,
}

abbrev pub Table {ℓ κ} : Type ℓ → Type κ → Type (ℓ ⊔ κ)
Table K V = List (K × V)

abbrev pub bit : Bool → ℕ
bit true = 1
bit false = 0

module _ {ℓ κ} {K : Type ℓ} {V : Type κ} ⦃k_is : IsKey K⦄ where
  unfoldable pub find : K → Table K V → Option V
  find k [] = none
  find k ((j, v) ∷ t) = if k_is.matches j k then some v else find k t

  unfoldable pub put : K → V → Table K V → Table K V
  put k v [] = (k, v) ∷ []
  put k v ((j, w) ∷ t) = if k_is.matches j k then (j, v) ∷ t else (j, w) ∷ put k v t

  unfoldable pub delete : K → Table K V → Table K V
  delete k [] = []
  delete k ((j, w) ∷ t) = let rest = delete k t in if k_is.matches j k then rest else (j, w) ∷ rest

  pub find-put :
      (k j : K) (v : V) (t : Table K V)
      → find j (put k v t) ≡ (if k_is.matches k j then some v else find j t)
  unfolding find put
  find-put k j v [] = refl
  find-put k j v ((i, w) ∷ t) = ground (
    arith,
    k_is.matches_iff k j,
    k_is.matches_iff i k,
    k_is.matches_iff i j,
    k_is.matches_iff j j,
    k_is.matches_iff k k,
    find-put k j v t,
  )

  pub find-put_self : (k : K) (v : V) (t : Table K V) → find k (put k v t) ≡ some v
  find-put_self k v t = ground (arith, find-put k k v t, k_is.matches_iff k k)

  pub find-delete :
      (k j : K) (t : Table K V)
      → find j (delete k t) ≡ (if k_is.matches k j then none else find j t)
  unfolding find delete
  find-delete k j [] = ground arith
  find-delete k j ((i, w) ∷ t) =
      ground
        (arith, k_is.matches_iff k j, k_is.matches_iff i k, k_is.matches_iff i j, find-delete k j t)

module _ {ℓ κ} {K : Type ℓ} {V : Type κ} where
  unfoldable pub select : (V → Bool) → Table K V → Table K V
  select p [] = []
  select p ((k, v) ∷ t) = let rest = select p t in if p v then (k, v) ∷ rest else rest

  unfoldable pub count : (V → Bool) → Table K V → ℕ
  count p [] = 0
  count p ((k, v) ∷ t) = bit (p v) + count p t

  insert_by : (V → ℕ) → K → V → Table K V → Table K V
  insert_by key k v [] = (k, v) ∷ []
  insert_by key k v ((j, w) ∷ t) =
      let rest = insert_by key k v t in
      if leb (key v) (key w) then (k, v) ∷ (j, w) ∷ t else (j, w) ∷ rest

  -- `order by key`
  unfoldable pub order_by : (V → ℕ) → Table K V → Table K V
  unfolding insert_by
  order_by key [] = []
  order_by key ((k, v) ∷ t) = insert_by key k v (order_by key t)

module _ {ℓ κ} {K : Type ℓ} {V : Type κ} ⦃k_is : IsKey K⦄ (p : V → Bool) where
  -- What an INSERT adds to a count.
  pub count-put_new :
      (k : K) (v : V) (t : Table K V)
      → find k t ≡ none
      → count p (put k v t) ≡ count p t + bit (p v)
  unfolding find put count
  count-put_new k v [] h = omega arith
  count-put_new k v ((j, w) ∷ t) h = ground (arith, count-put_new k v t)

  -- What an UPDATE changes of a count.
  pub count-put_old :
      (k : K) (v w : V) (t : Table K V)
      → find k t ≡ some w
      → count p (put k v t) + bit (p w) ≡ count p t + bit (p v)
  unfolding find put count
  count-put_old k v w [] h = cc
  count-put_old k v w ((j, u) ∷ t) h = ground (arith, count-put_old k v w t)

module _ {ℓ κ} {K : Type ℓ} {V : Type κ} where
  -- The sum of a measure over the rows.
  unfoldable pub total : (V → ℕ) → Table K V → ℕ
  total m [] = 0
  total m ((k, v) ∷ t) = m v + total m t

module _ {ℓ κ} {K : Type ℓ} {V : Type κ} ⦃k_is : IsKey K⦄ where
  pub total-put_old :
      (m : V → ℕ) (k : K) (v w : V) (t : Table K V)
      → find k t ≡ some w
      → total m (put k v t) + m w ≡ total m t + m v
  unfolding find put total
  total-put_old m k v w [] h = absurd (ground arith)
  total-put_old m k v w ((j, u) ∷ t) h = elim (Bool-cases (k_is.matches j k)) [
    | inl same ↦ ground (arith, same)
    | inr other ↦ ground (arith, other, total-put_old m k v w t)
  ]

  -- No key stands twice.
  abbrev pub IsKeyed : Table K V → Type (ℓ ⊔ κ)
  IsKeyed [] = Unit
  IsKeyed ((k, v) ∷ t) = (find k t ≡ none) × IsKeyed t

  pub put-IsKeyed : (k : K) (v : V) (t : Table K V) → IsKeyed t → IsKeyed (put k v t)
  unfolding find put
  put-IsKeyed k v [] h = (refl, tt)
  put-IsKeyed k v ((j, w) ∷ t) (new, h) = elim (Bool-cases (k_is.matches j k)) [
    | inl same ↦ rw same (new, h)
    | inr other ↦ rw other (
      (ground (arith, find-put k j v t, other, new, k_is.matches_iff k j, k_is.matches_iff j k)),
      put-IsKeyed k v t h,
    )
  ]

module _ {ℓ κ} {K : Type ℓ} {V : Type κ} ⦃k_is : IsKey K⦄ where
  pub delete-IsKeyed : (k : K) (t : Table K V) → IsKeyed t → IsKeyed (delete k t)
  unfolding delete
  delete-IsKeyed k [] h = tt
  delete-IsKeyed k ((j, w) ∷ t) (new, h) = elim (Bool-cases (k_is.matches j k)) [
    | inl same ↦ rw same (delete-IsKeyed k t h)
    | inr other ↦ rw other ((ground (arith, find-delete k j t, new)), delete-IsKeyed k t h)
  ]

  pub count-delete_le : (p : V → Bool) (k : K) (t : Table K V) → count p (delete k t) ≤ count p t
  unfolding delete count
  count-delete_le p k [] = omega arith
  count-delete_le p k ((j, w) ∷ t) = ground (arith, count-delete_le p k t)

  -- Nothing is deleted under a key that is not there.
  delete_missing : (k : K) (t : Table K V) → find k t ≡ none → delete k t ≡ t
  unfolding find delete
  delete_missing k [] h = refl
  delete_missing k ((j, w) ∷ t) h = ground (arith, delete_missing k t)

  -- What a DELETE takes off a count.
  pub count-delete :
      (p : V → Bool) (k : K) (w : V) (t : Table K V)
      → IsKeyed t
      → find k t ≡ some w
      → count p (delete k t) + bit (p w) ≡ count p t
  unfolding find delete count
  count-delete p k w [] keyed h = absurd (ground arith)
  count-delete p k w ((j, u) ∷ t) (new, keyed) h = elim (Bool-cases (k_is.matches j k)) [
    | inl same ↦ ground (arith, same, new, k_is.matches_iff j k, delete_missing k t)
    | inr other ↦ ground (arith, other, count-delete p k w t keyed)
  ]

pub ruleset table_laws = (find-put, find-put_self, find-delete)
