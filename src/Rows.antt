-- ===== src/Rows.antt =====
-- `scalar_one_or_none` of a query, as SQLAlchemy documents it, and what it returns when no two rows
-- match.
use akar_ai.Prelude.{
  ℕ, ◌≤◌, ◌≡◌, refl, ◌⊎◌, Bool, true, inl, inr, Option, none, some, [], ◌∷◌, arith, ltb, Bool-cases,
  nat_beq_iff, nat_key,
}
use akar_ai.Exec.{Result, ok, err, uncaught}
use akar_ai.Table.{Table, find, select, count, IsKeyed}

abbrev pub one_or_none {ℓ} : {V : Type ℓ} → Table ℕ V → Result (Option (ℕ × V))
one_or_none [] = ok none
one_or_none (row ∷ []) = ok (some row)
one_or_none (row ∷ _ ∷ _) = err (uncaught "MultipleResultsFound")

module _ {V : Type 0} (p : V → Bool) where
  pub select-none : (rows : Table ℕ V) → count p rows ≡ 0 → select p rows ≡ []
  unfolding select count
  select-none [] h = refl
  select-none ((k, v) ∷ rows) h = ground (arith, select-none rows)

  -- A row that is the only one with a property is what its key finds.
  pub record Only (rows : Table ℕ V) : Type 0 where
    pub id : ℕ
    pub row : V
    pub selected : select p rows ≡ (id, row) ∷ []
    pub found : find id rows ≡ some row
    pub has : p row ≡ true

  select-Only : (rows : Table ℕ V) → IsKeyed rows → count p rows ≡ 1 → Only rows
  unfolding select count find
  select-Only [] keyed h = absurd (omega arith)
  select-Only ((k, v) ∷ rows) (new, keyed) h = elim (Bool-cases (p v)) [
    | inl yes_v ↦ record {
      id = k;
      row = v;
      selected = ground (arith, yes_v, select-none rows);
      found = ground (arith, nat_beq_iff k k);
      has = yes_v;
    }
    | inr no_v ↦
        let later = select-Only rows keyed (ground (arith, no_v)) in
        record {
          id = later.id;
          row = later.row;
          selected = ground (arith, no_v, later.selected);
          found = ground (arith, later.found, new, nat_beq_iff k later.id);
          has = later.has;
        }
  ]

  -- The lookup finds nothing, or the one row.
  pub lookup-cases :
      (rows : Table ℕ V)
      → IsKeyed rows
      → count p rows ≤ 1
      → ((one_or_none (select p rows) ≡ ok none) × (count p rows ≡ 0))
        ⊎ ((only : Only rows) × (one_or_none (select p rows) ≡ ok (some (only.id, only.row)))
            × (count p rows ≡ 1))
  lookup-cases rows keyed unique = elim (Bool-cases (ltb 0 (count p rows))) [
    | inl some_row ↦
        let one : count p rows ≡ 1 = ground (arith, some_row, unique) in
        let only = select-Only rows keyed one in inr (only, rw only.selected refl, one)
    | inr no_row ↦
        let zero_rows : count p rows ≡ 0 = ground (arith, no_row) in
        inl (rw (select-none rows zero_rows) refl, zero_rows)
  ]
