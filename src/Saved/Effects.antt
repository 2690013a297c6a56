-- ===== src/Saved/Effects.antt =====
-- What saving and removing do to what a user sees as saved.
use akar_ai.Prelude.{
  ℕ, Bool, true, false, ◌&&◌, ◌||◌, not, ◌==◌, ◌≡◌, refl, inl, inr, Option, none, some, arith,
  str_eq, ltb, Bool-cases, Option-cases, nat_key,
}
use akar_ai.Exec.{ok, transaction}
use akar_ai.Table.{Table, find, put, count}
use akar_ai.Database.{Listing}
use akar_ai.Saved.Service.{
  SavedListing, Shelf, is_pair, is_live, get_by_user_and_listing, in_index, save_listing,
  unsave_listing, SavedRequest, save, unsave, handle_saved, is_saved,
}
use akar_ai.Saved.Lookup.{IsIndexed, lookup-cases, live-count}

abbrev pub is_active : Option Listing → Bool
is_active none = false
is_active (some listing) = str_eq listing.status "active"

abbrev pub is_requested : ℕ → ℕ → SavedRequest → Bool
is_requested user_id listing_id (save u new_id l) = u == user_id && l == listing_id
is_requested user_id listing_id (unsave u now l) = u == user_id && l == listing_id

-- A row that is new has a key of its own.
abbrev pub IsFreshSaved : Shelf → SavedRequest → Type 0
IsFreshSaved shelf (save u new_id l) = find new_id shelf.saved_listings ≡ none
IsFreshSaved shelf (unsave u now l) = Unit

-- What a request leaves in the table: the rows as they were, a new row for a pair that the index
-- does not have, or the live row of the pair marked as deleted.
pub data Effect (shelf : Shelf) : SavedRequest → Table ℕ SavedListing → Type 0 where
  kept_saved :
      (u new_id l : ℕ)
      → (is_saved u l shelf
          || (not (is_active (find l shelf.listings)) || in_index u l shelf.saved_listings))
        ≡ true
      → Effect shelf (save u new_id l) shelf.saved_listings
  added :
      (u new_id l : ℕ)
      → is_active (find l shelf.listings) ≡ true
      → count (is_pair u l) shelf.saved_listings ≡ 0
      → Effect shelf (save u new_id l) (
          put new_id
            (record { user_id = u; listing_id = l; deleted_at = none })
            shelf.saved_listings)
  kept_unsaved :
      (u now l : ℕ)
      → is_saved u l shelf ≡ false
      → Effect shelf (unsave u now l) shelf.saved_listings
  removed :
      (u now l id : ℕ) (row : SavedListing)
      → find id shelf.saved_listings ≡ some row
      → is_live u l row ≡ true
      → count (is_live u l) shelf.saved_listings ≡ 1
      → Effect shelf
          (unsave u now l)
          (put id (record row { deleted_at = some now }) shelf.saved_listings)

save-kept :
    (shelf : Shelf) (u new_id l : ℕ)
    → IsIndexed shelf.saved_listings
    → (is_saved u l shelf
        || (not (is_active (find l shelf.listings)) || in_index u l shelf.saved_listings))
      ≡ true
    → (handle_saved (save u new_id l) shelf).saved_listings ≡ shelf.saved_listings
unfolding handle_saved save_listing transaction is_saved in_index
save-kept shelf u new_id l indexed h = elim (lookup-cases u l shelf.saved_listings indexed) [
  | inr (only, found, one) ↦ ground (arith, found)
  | inl (nothing, no_live) ↦ elim (Option-cases (find l shelf.listings)) [
    | inl missing ↦ ground (arith, nothing, missing)
    | inr (listing, e) ↦ ground (arith, nothing, e, h, no_live)
  ]
]

save-added :
    (shelf : Shelf) (u new_id l : ℕ)
    → IsIndexed shelf.saved_listings
    → is_active (find l shelf.listings) ≡ true
    → count (is_pair u l) shelf.saved_listings ≡ 0
    → (handle_saved (save u new_id l) shelf).saved_listings
      ≡ put new_id (record { user_id = u; listing_id = l; deleted_at = none }) shelf.saved_listings
unfolding handle_saved save_listing transaction in_index
save-added shelf u new_id l indexed active free =
    elim (lookup-cases u l shelf.saved_listings indexed) [
      | inr (only, found, one) ↦
          absurd (ground (arith, one, free, live-count u l shelf.saved_listings))
      | inl (nothing, no_live) ↦ elim (Option-cases (find l shelf.listings)) [
        | inl missing ↦ absurd (ground (arith, active, missing))
        | inr (listing, e) ↦ ground (arith, nothing, e, active, free)
      ]
    ]

unsave-nothing :
    (shelf : Shelf) (u now l : ℕ)
    → get_by_user_and_listing u l shelf.saved_listings ≡ ok none
    → (handle_saved (unsave u now l) shelf).saved_listings ≡ shelf.saved_listings
unfolding handle_saved unsave_listing transaction
unsave-nothing shelf u now l nothing = ground (arith, nothing)

unsave-found :
    (shelf : Shelf) (u now l id : ℕ) (row : SavedListing)
    → get_by_user_and_listing u l shelf.saved_listings ≡ ok (some (id, row))
    → (handle_saved (unsave u now l) shelf).saved_listings
      ≡ put id (record row { deleted_at = some now }) shelf.saved_listings
unfolding handle_saved unsave_listing transaction
unsave-found shelf u now l id row found = ground (arith, found)

in_index-count :
    (u l : ℕ) (rows : Table ℕ SavedListing)
    → in_index u l rows ≡ false
    → count (is_pair u l) rows ≡ 0
unfolding in_index
in_index-count u l rows h = ground (arith, h)

pub is_saved-count :
    (u l : ℕ) (shelf : Shelf)
    → is_saved u l shelf ≡ ltb 0 (count (is_live u l) shelf.saved_listings)
unfolding is_saved
is_saved-count u l shelf = refl

pub handle-Effect :
    (shelf : Shelf) (r : SavedRequest)
    → IsIndexed shelf.saved_listings
    → Effect shelf r (handle_saved r shelf).saved_listings
handle-Effect shelf (save u new_id l) indexed =
    elim (Bool-cases (
      is_saved u l shelf
      || (not (is_active (find l shelf.listings)) || in_index u l shelf.saved_listings))) [
        | inl kept ↦ rw (save-kept shelf u new_id l indexed kept) (kept_saved u new_id l kept)
        | inr new ↦
            let active : is_active (find l shelf.listings) ≡ true = ground (arith, new) in
            let free = in_index-count u l shelf.saved_listings (ground (arith, new)) in
            rw (save-added shelf u new_id l indexed active free) (added u new_id l active free)
      ]
handle-Effect shelf (unsave u now l) indexed =
    elim (lookup-cases u l shelf.saved_listings indexed) [
      | inl (nothing, no_live) ↦
          rw (unsave-nothing shelf u now l nothing)
            (kept_unsaved u now l (rw (is_saved-count u l shelf, no_live) refl))
      | inr (only, found, one) ↦
          rw (unsave-found shelf u now l only.id only.row found)
            (removed u now l only.id only.row only.found only.has one)
    ]
