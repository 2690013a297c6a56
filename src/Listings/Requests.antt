-- ===== src/Listings/Requests.antt =====
-- The writing requests of the agency's listings, each in the transaction of `get_db_session`.
use akar_ai.Prelude.{ℕ, ◌≡◌, Option, none, List, [], ◌∷◌, nat_key}
use akar_ai.Exec.{transaction}
use akar_ai.Table.{find}
use akar_ai.Database.{Db}
use akar_ai.Tenant.{TenantContext}
use akar_ai.Listings.Service.{ListingData, create_listing, update_listing, archive_listing}

pub data ListingRequest : Type 0 where
  add : Option TenantContext → ℕ → ListingData → ListingRequest
  edit : Option TenantContext → ℕ → ℕ → ListingData → ListingRequest
  archive : Option TenantContext → ℕ → ℕ → ListingRequest

unfoldable pub handle_listing : ListingRequest → Db → Db
handle_listing (add tenant listing_id body) db =
    (transaction (create_listing tenant listing_id body) db).1
handle_listing (edit tenant now listing_id body) db =
    (transaction (update_listing tenant now listing_id body) db).1
handle_listing (archive tenant now listing_id) db =
    (transaction (archive_listing tenant now listing_id) db).1

unfoldable pub serve_listings : Db → List ListingRequest → Db
serve_listings db [] = db
serve_listings db (r ∷ rs) = serve_listings (handle_listing r db) rs

-- The id of a new listing is drawn fresh.
abbrev pub IsFreshListing : Db → ListingRequest → Type 0
IsFreshListing db (add tenant listing_id body) = find listing_id db.listings ≡ none
IsFreshListing db (edit tenant now listing_id body) = Unit
IsFreshListing db (archive tenant now listing_id) = Unit

abbrev pub AreFreshListings : Db → List ListingRequest → Type 0
AreFreshListings db [] = Unit
AreFreshListings db (r ∷ rs) = IsFreshListing db r × AreFreshListings (handle_listing r db) rs
