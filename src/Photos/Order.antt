-- ===== src/Photos/Order.antt =====
-- Where a photo that names no place is put among the photos of its listing.
use akar_ai.Prelude.{
  ℕ, ◌<◌, ◌≤◌, ◌≡◌, Option, none, some, [], ◌∷◌, inl, inr, arith, nat_beq_iff, nat_key,
  Option-cases, ◌⊎◌,
}
use akar_ai.Exec.{ok}
use akar_ai.Table.{Table, find}
use akar_ai.Tenant.{TenantContext, require_tenant}
use akar_ai.Photos.State.{ListingPhotoMetadata, Gallery}
use akar_ai.Photos.Service.{PhotoCreate, get_max_display_order, listing_of_tenant, create_photo}

get_max_display_order-bounds :
    (listing_id id : ℕ) (photo : ListingPhotoMetadata) (photos : Table ℕ ListingPhotoMetadata)
    → find id photos ≡ some photo
    → photo.listing_id ≡ listing_id
    → photo.display_order ≤ get_max_display_order listing_id photos
unfolding find get_max_display_order
get_max_display_order-bounds listing_id id photo [] found of_listing =
    absurd (ground (arith, found))
get_max_display_order-bounds listing_id id photo ((k, p) ∷ photos) found of_listing = ground (
  arith,
  nat_beq_iff p.listing_id listing_id,
  get_max_display_order-bounds listing_id id photo photos,
)

-- A new photo without a display order, or with order 0, comes after all photos that the listing has,
-- and is a photo of the listing in the tenant of the actor.
pub create_photo-last :
    (tenant : Option TenantContext) (new_id listing_id id : ℕ) (body : PhotoCreate) (g : Gallery)
    (photo other : ListingPhotoMetadata)
    → (create_photo tenant new_id listing_id body g).0 ≡ ok photo
    → (body.display_order ≡ none) ⊎ (body.display_order ≡ some 0)
    → find id g.photos ≡ some other
    → other.listing_id ≡ listing_id
    → (photo.listing_id ≡ listing_id) × (other.display_order < photo.display_order)
unfolding create_photo listing_of_tenant require_tenant
create_photo-last none new_id listing_id id body g photo other done unordered found of_listing =
    absurd (ground (arith, done))
create_photo-last (some ctx) new_id listing_id id body g photo other done unordered found
      of_listing =
    let bound = get_max_display_order-bounds listing_id id other g.photos found of_listing in
    elim (Option-cases (find listing_id g.db.listings)) [
      | inl missing ↦ absurd (ground (arith, missing, done))
      | inr (listing, e) ↦ elim (Option-cases ctx.tenant_id) [
        | inl no_tenant ↦ absurd (ground (arith, e, no_tenant, done))
        | inr (t, p) ↦ (ground (arith, e, p, done), ground (arith, e, p, done, bound, unordered))
      ]
    ]
