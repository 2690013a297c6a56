-- ===== src/Saved/Views.antt =====
-- What the requests of backend/app/listings/router.py do to what each user sees as saved.
use akar_ai.Prelude.{
  ℕ, Bool, true, false, ◌&&◌, ◌||◌, not, ◌==◌, nat_beq_iff, ◌≡◌, refl, ◌∙◌, inl, inr, none, some,
  List, [], ◌∷◌, arith, ltb, str_eq_iff, Bool-cases, nat_key, if◌then◌else◌,
}
use akar_ai.Exec.{err, integrity, transaction}
use akar_ai.Table.{Table, find, count, put-IsKeyed, count-put_new, count-put_old}
use akar_ai.Database.{Listing}
use akar_ai.Saved.Service.{
  SavedListing, Shelf, is_pair, is_live, in_index, save_listing, unsave_listing, SavedRequest, save,
  unsave, handle_saved, is_saved,
}
use akar_ai.Saved.Lookup.{IsIndexed, lookup-cases, live-count}
use akar_ai.Saved.Effects.{
  Effect, kept_saved, added, kept_unsaved, removed, handle-Effect, is_active, is_requested,
  IsFreshSaved, is_saved-count,
}

-- What a user sees after a request, in terms of what was there before.
abbrev pub view_after : Shelf → SavedRequest → ℕ → ℕ → Bool
view_after shelf (save u new_id l) user_id listing_id =
    if is_requested user_id listing_id (save u new_id l)
    then (is_saved user_id listing_id shelf
        || (is_active (find l shelf.listings) && not (in_index u l shelf.saved_listings)))
    else is_saved user_id listing_id shelf
view_after shelf (unsave u now l) user_id listing_id =
    if is_requested user_id listing_id (unsave u now l)
    then false
    else is_saved user_id listing_id shelf

Effect-IsIndexed :
    (shelf : Shelf) (r : SavedRequest) (rows : Table ℕ SavedListing)
    → IsIndexed shelf.saved_listings
    → IsFreshSaved shelf r
    → Effect shelf r rows
    → IsIndexed rows
Effect-IsIndexed shelf _ _ indexed fresh (kept_saved u new_id l _) = indexed
Effect-IsIndexed shelf _ _ indexed fresh (kept_unsaved u now l _) = indexed
Effect-IsIndexed shelf _ _ indexed fresh (added u new_id l active free) =
    let new : SavedListing = record { user_id = u; listing_id = l; deleted_at = none } in
    record {
      keyed = put-IsKeyed new_id new shelf.saved_listings indexed.keyed;
      unique = λ u2 l2. ground (
        arith,
        indexed.unique u2 l2,
        count-put_new (is_pair u2 l2) new_id new shelf.saved_listings fresh,
        nat_beq_iff u u2,
        nat_beq_iff l l2,
        free,
      );
    }
Effect-IsIndexed shelf _ _ indexed fresh (removed u now l id row found live one) =
    let gone : SavedListing = record row { deleted_at = some now } in
    record {
      keyed = put-IsKeyed id gone shelf.saved_listings indexed.keyed;
      unique = λ u2 l2. ground (
        arith,
        indexed.unique u2 l2,
        count-put_old (is_pair u2 l2) id gone row shelf.saved_listings found,
      );
    }

Effect-view :
    (shelf : Shelf) (r : SavedRequest) (rows : Table ℕ SavedListing) (user_id listing_id : ℕ)
    → IsFreshSaved shelf r
    → Effect shelf r rows
    → ltb 0 (count (is_live user_id listing_id) rows) ≡ view_after shelf r user_id listing_id
unfolding is_saved in_index
Effect-view shelf _ _ user_id listing_id fresh (kept_saved u new_id l kept) = ground (
  arith,
  is_saved-count user_id listing_id shelf,
  nat_beq_iff u user_id,
  nat_beq_iff l listing_id,
)
Effect-view shelf _ _ user_id listing_id fresh (kept_unsaved u now l none_live) = ground (
  arith,
  is_saved-count user_id listing_id shelf,
  nat_beq_iff u user_id,
  nat_beq_iff l listing_id,
)
Effect-view shelf _ _ user_id listing_id fresh (added u new_id l active free) =
    let new : SavedListing = record { user_id = u; listing_id = l; deleted_at = none } in
    ground (
      arith,
      free,
      active,
      count-put_new (is_live user_id listing_id) new_id new shelf.saved_listings fresh,
    )
Effect-view shelf _ _ user_id listing_id fresh (removed u now l id row found live one) =
    let gone : SavedListing = record row { deleted_at = some now } in
    let change =
      count-put_old (is_live user_id listing_id) id gone row shelf.saved_listings found in
    elim (Bool-cases (u == user_id && l == listing_id)) [
      | inl same ↦
          ground (arith, same, one, live, change, nat_beq_iff u user_id, nat_beq_iff l listing_id)
      | inr other ↦
          ground
            (arith, other, live, change, nat_beq_iff row.user_id u, nat_beq_iff row.listing_id l)
    ]

-- Which listings a user sees as saved after a request: the request's own pair as asked for, unless
-- the listing is not active or the unique index still has the pair; any other pair as before.
pub handle_saved-view :
    (shelf : Shelf) (r : SavedRequest) (user_id listing_id : ℕ)
    → IsIndexed shelf.saved_listings
    → IsFreshSaved shelf r
    → is_saved user_id listing_id (handle_saved r shelf) ≡ view_after shelf r user_id listing_id
handle_saved-view shelf r user_id listing_id indexed fresh =
    is_saved-count user_id listing_id (handle_saved r shelf)
    ∙ Effect-view shelf r _ user_id listing_id fresh (handle-Effect shelf r indexed)

unfoldable pub serve_saved : Shelf → List SavedRequest → Shelf
serve_saved shelf [] = shelf
serve_saved shelf (r ∷ rs) = serve_saved (handle_saved r shelf) rs

abbrev pub AreFreshSaved : Shelf → List SavedRequest → Type 0
AreFreshSaved shelf [] = Unit
AreFreshSaved shelf (r ∷ rs) = IsFreshSaved shelf r × AreFreshSaved (handle_saved r shelf) rs

pub serve_saved-IsIndexed :
    (shelf : Shelf) (rs : List SavedRequest)
    → IsIndexed shelf.saved_listings
    → AreFreshSaved shelf rs
    → IsIndexed (serve_saved shelf rs).saved_listings
unfolding serve_saved
serve_saved-IsIndexed shelf [] indexed fresh = indexed
serve_saved-IsIndexed shelf (r ∷ rs) indexed (fresh, later) =
    serve_saved-IsIndexed (handle_saved r shelf) rs
      (Effect-IsIndexed shelf r _ indexed fresh (handle-Effect shelf r indexed)) later

unsave-in_index :
    (shelf : Shelf) (u now l : ℕ) (rows : Table ℕ SavedListing)
    → Effect shelf (unsave u now l) rows
    → in_index u l rows ≡ in_index u l shelf.saved_listings
unfolding in_index
unsave-in_index shelf _ _ _ _ (kept_unsaved u now l none_live) = refl
unsave-in_index shelf _ _ _ _ (removed u now l id row found live one) =
    let gone : SavedListing = record row { deleted_at = some now } in
    ground (arith, count-put_old (is_pair u l) id gone row shelf.saved_listings found)

unsave-listings :
    (shelf : Shelf) (u now l : ℕ)
    → IsIndexed shelf.saved_listings
    → (handle_saved (unsave u now l) shelf).listings ≡ shelf.listings
unfolding handle_saved unsave_listing transaction
unsave-listings shelf u now l indexed = elim (lookup-cases u l shelf.saved_listings indexed) [
  | inl (nothing, no_live) ↦ ground (arith, nothing)
  | inr (only, seen, one) ↦ ground (arith, seen)
]

saved-in_index :
    (u l : ℕ) (shelf : Shelf) → is_saved u l shelf ≡ true → in_index u l shelf.saved_listings ≡ true
unfolding is_saved in_index
saved-in_index u l shelf seen = ground (arith, seen, live-count u l shelf.saved_listings)

-- Saving a listing that is active, not saved, and in the index.
save_listing-refused :
    (shelf : Shelf) (u new_id l : ℕ) (listing : Listing)
    → IsIndexed shelf.saved_listings
    → is_saved u l shelf ≡ false
    → in_index u l shelf.saved_listings ≡ true
    → find l shelf.listings ≡ some listing
    → listing.status ≡ "active"
    → (save_listing u new_id l shelf).0 ≡ err (integrity "ix_saved_listings_user_listing")
unfolding save_listing
save_listing-refused shelf u new_id l listing indexed unseen taken found active =
    elim (lookup-cases u l shelf.saved_listings indexed) [
      | inr (only, seen, one) ↦ absurd (ground (arith, is_saved-count u l shelf, unseen, one))
      | inl (nothing, no_live) ↦
          ground (arith, nothing, found, active, taken, str_eq_iff listing.status "active")
    ]

-- A listing that a user saved and removed can never be saved by that user again: the next request
-- to save it violates the unique index.
pub save_listing-after_unsave :
    (shelf : Shelf) (user_id listing_id now new_id : ℕ) (listing : Listing)
    → IsIndexed shelf.saved_listings
    → is_saved user_id listing_id shelf ≡ true
    → find listing_id shelf.listings ≡ some listing
    → listing.status ≡ "active"
    → (save_listing user_id new_id listing_id
        (handle_saved (unsave user_id now listing_id) shelf)).0
      ≡ err (integrity "ix_saved_listings_user_listing")
save_listing-after_unsave shelf user_id listing_id now new_id listing indexed seen found active =
    let effect = handle-Effect shelf (unsave user_id now listing_id) indexed in
    let unseen : is_saved user_id listing_id (handle_saved (unsave user_id now listing_id) shelf)
        ≡ false =
      ground (
        arith,
        handle_saved-view shelf (unsave user_id now listing_id) user_id listing_id indexed tt,
        nat_beq_iff user_id user_id,
        nat_beq_iff listing_id listing_id,
      ) in
    let kept : in_index user_id listing_id shelf.saved_listings ≡ true =
      saved-in_index user_id listing_id shelf seen in
    save_listing-refused (handle_saved (unsave user_id now listing_id) shelf) user_id new_id
      listing_id listing (Effect-IsIndexed shelf _ _ indexed tt effect) unseen
      (unsave-in_index shelf user_id now listing_id _ effect ∙ kept)
      (rw (unsave-listings shelf user_id now listing_id indexed) found) active
