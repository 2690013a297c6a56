-- ===== src/Saved/Lookup.antt =====
-- What `get_by_user_and_listing` finds under the unique index of the table.
use akar_ai.Prelude.{ℕ, ◌≤◌, ◌≡◌, ◌⊎◌, none, some, [], ◌∷◌, arith, nat_key}
use akar_ai.Exec.{ok}
use akar_ai.Table.{Table, count, IsKeyed}
use akar_ai.Rows
use akar_ai.Rows.{Only}
use akar_ai.Saved.Service.{SavedListing, is_pair, is_live, get_by_user_and_listing}

-- No key and no pair stands twice, as the primary key and the unique index demand.
pub record IsIndexed (rows : Table ℕ SavedListing) : Type 0 where
  pub keyed : IsKeyed rows
  pub unique : (user_id listing_id : ℕ) → count (is_pair user_id listing_id) rows ≤ 1

pub live-count :
    (user_id listing_id : ℕ) (rows : Table ℕ SavedListing)
    → count (is_live user_id listing_id) rows ≤ count (is_pair user_id listing_id) rows
unfolding count
live-count user_id listing_id [] = ground arith
live-count user_id listing_id ((k, v) ∷ rows) = ground (arith, live-count user_id listing_id rows)

-- What the lookup returns: nothing, or the one live row of the pair.
pub lookup-cases :
    (user_id listing_id : ℕ) (rows : Table ℕ SavedListing)
    → IsIndexed rows
    → ((get_by_user_and_listing user_id listing_id rows ≡ ok none)
        × (count (is_live user_id listing_id) rows ≡ 0))
      ⊎ ((only : Only (is_live user_id listing_id) rows) × (get_by_user_and_listing user_id
              listing_id rows
            ≡ ok (some (only.id, only.row)))
          × (count (is_live user_id listing_id) rows ≡ 1))
unfolding get_by_user_and_listing
lookup-cases user_id listing_id rows indexed =
    Rows.lookup-cases (is_live user_id listing_id) rows indexed.keyed
      (ground (arith, live-count user_id listing_id rows, indexed.unique user_id listing_id))
