-- ===== src/Saved/Service.antt =====
-- `SavedListingRepository` and the two writing handlers of `saved_router`. The table has the unique
-- index on user_id and listing_id that backend/alembic/versions/0004_core_domain_crud.py creates.
use akar_ai.Prelude.{
  ℕ, Bool, true, false, not, ◌&&◌, ◌==◌, Option, none, some, str_eq, ltb, nat_key,
}
use akar_ai.Exec.{
  Result, Exec, not_found, integrity, pure, lift, gets, modify, raise_if, ◌>>=◌, ◌>>◌,
}
use akar_ai.Exec.{transaction}
use akar_ai.Table.{Table, find, put, select, count}
use akar_ai.Rows.{one_or_none}
use akar_ai.Database.{Listing}

-- listings/models.py
pub record SavedListing : Type 0 where
  pub user_id : ℕ
  pub listing_id : ℕ
  pub deleted_at : Option ℕ

-- The tables that the handlers use.
pub record Shelf : Type 0 where
  pub listings : Table ℕ Listing
  pub saved_listings : Table ℕ SavedListing

abbrev pub is_null : Option ℕ → Bool
is_null none = true
is_null (some a) = false

abbrev pub is_pair : ℕ → ℕ → SavedListing → Bool
is_pair user_id listing_id row = row.user_id == user_id && row.listing_id == listing_id

abbrev pub is_live : ℕ → ℕ → SavedListing → Bool
is_live user_id listing_id row = is_pair user_id listing_id row && is_null row.deleted_at

unfoldable pub get_by_user_and_listing :
    ℕ → ℕ → Table ℕ SavedListing → Result (Option (ℕ × SavedListing))
get_by_user_and_listing user_id listing_id rows =
    one_or_none (select (is_live user_id listing_id) rows)

-- The unique index has an entry for the pair, of a deleted row as well.
unfoldable pub in_index : ℕ → ℕ → Table ℕ SavedListing → Bool
in_index user_id listing_id rows = ltb 0 (count (is_pair user_id listing_id) rows)

-- `listing is None or listing.status != "active"`
abbrev not_active : Option Listing → Bool
not_active none = true
not_active (some listing) = not (str_eq listing.status "active")

module _ (user_id : ℕ) where
  -- What `save_listing` does without a row that is not deleted; the new row's id is drawn.
  abbrev add_saved : ℕ → ℕ → Exec Shelf SavedListing
  add_saved new_id listing_id = do
    listing ← gets (λ shelf. find listing_id shelf.listings)
    raise_if (not_active listing) (not_found "Listing not found or not active")
    let saved : SavedListing = record {
      user_id = user_id;
      listing_id = listing_id;
      deleted_at = none;
    }
    taken ← gets (λ shelf. in_index user_id listing_id shelf.saved_listings)
    raise_if taken (integrity "ix_saved_listings_user_listing")
    modify λ shelf. record shelf { saved_listings = put new_id saved shelf.saved_listings }
    pure saved

  abbrev return_or_add : ℕ → ℕ → Option (ℕ × SavedListing) → Exec Shelf SavedListing
  return_or_add new_id listing_id none = add_saved new_id listing_id
  return_or_add new_id listing_id (some existing) = pure existing.1

  unfoldable pub save_listing : ℕ → ℕ → Exec Shelf SavedListing
  save_listing new_id listing_id = do
    found ← gets (λ shelf. get_by_user_and_listing user_id listing_id shelf.saved_listings)
    existing ← lift found
    return_or_add new_id listing_id existing

  abbrev delete_if_found : ℕ → Option (ℕ × SavedListing) → Exec Shelf (Unit {0})
  delete_if_found now none = pure tt
  delete_if_found now (some (id, saved)) = modify λ shelf. record shelf {
    saved_listings = put id (record saved { deleted_at = some now }) shelf.saved_listings;
  }

  unfoldable pub unsave_listing : ℕ → ℕ → Exec Shelf (Unit {0})
  unsave_listing now listing_id = do
    found ← gets (λ shelf. get_by_user_and_listing user_id listing_id shelf.saved_listings)
    saved ← lift found
    delete_if_found now saved

-- The requests, each in its transaction.
pub data SavedRequest : Type 0 where
  save : (user_id new_id listing_id : ℕ) → SavedRequest
  unsave : (user_id now listing_id : ℕ) → SavedRequest

unfoldable pub handle_saved : SavedRequest → Shelf → Shelf
handle_saved (save user_id new_id listing_id) shelf =
    (transaction (save_listing user_id new_id listing_id) shelf).1
handle_saved (unsave user_id now listing_id) shelf =
    (transaction (unsave_listing user_id now listing_id) shelf).1

-- Whether a listing is among the rows that `list_by_user` selects for a user.
unfoldable pub is_saved : ℕ → ℕ → Shelf → Bool
is_saved user_id listing_id shelf = ltb 0 (count (is_live user_id listing_id) shelf.saved_listings)
