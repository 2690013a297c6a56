-- ===== src/Photos/Service.antt =====
-- `create_photo`, `update_photo`, `remove_photo` and `upload_photo` of listings/service.py. The id of
-- a new photo, the name of its object and the random part of a key are drawn.
use akar_ai.Prelude.{
  ℕ, ◌+◌, max, String, Bool, not, ◌==◌, Option, none, some, [], ◌∷◌, str, or_else, nat_key,
  text_key, if◌then◌else◌,
}
use akar_ai.Exec.{
  Error, not_found, validation, service_unavailable, unauthorized, forbidden, conflict,
  rate_limit_exceeded, app_exception, permission, integrity, uncaught, Result, ok, err, Exec, pure,
  lift, gets, modify, or_raise, raise_if, ◌>>=◌, ◌>>◌,
}
use akar_ai.Table.{Table, find, put}
use akar_ai.Database.{Listing, DomainEventLog, write_domain_event_log}
use akar_ai.Tenant.{TenantContext, require_tenant, ensure_tenant_match}
use akar_ai.Media.{Validated, valid, invalid, MediaMetadata}
use akar_ai.Photos.State.{ListingPhotoMetadata, Gallery, on_db}

-- `func.coalesce(func.max(display_order), 0)` over the photos of a listing
unfoldable pub get_max_display_order : ℕ → Table ℕ ListingPhotoMetadata → ℕ
get_max_display_order listing_id [] = 0
get_max_display_order listing_id ((id, photo) ∷ photos) =
    let rest = get_max_display_order listing_id photos in
    if photo.listing_id == listing_id then max photo.display_order rest else rest

photo_event : String → String → ℕ → Option ℕ → Option ℕ → ℕ → DomainEventLog
photo_event event_name aggregate_type aggregate_id tenant_id actor_id photo_id = record {
  event_name = event_name;
  aggregate_type = some aggregate_type;
  aggregate_id = some (str aggregate_id);
  payload = ("photo_id", some (str photo_id)) ∷ [];
  agency_tenant_id = tenant_id;
  actor_user_id = actor_id;
}

-- `if order == 0` with the default 0, and `display_order is None or display_order == 0`
abbrev pub order_or_last : Option ℕ → ℕ → ℕ
order_or_last none last = last + 1
order_or_last (some order) last = if order == 0 then last + 1 else order

-- The request bodies; in an update a field that is not in the body is `none`, one that is null is
-- `some none`.
pub record PhotoCreate : Type 0 where
  pub object_key : String
  pub caption : Option String
  pub alt_text : Option String
  pub display_order : Option ℕ

pub record PhotoUpdate : Type 0 where
  pub caption : Option (Option String)
  pub alt_text : Option (Option String)
  pub display_order : Option ℕ

-- Which of the calls that can fail succeed: `ensure_bucket_exists` and `upload_object` return, the
-- database accepts the writes, `delete_object` returns.
pub record Weather : Type 0 where
  pub bucket_ready : Bool
  pub stores : Bool
  pub orders : Bool
  pub persists : Bool
  pub deletes : Bool
  pub commits : Bool

-- `str(e)`
abbrev pub error_text : Error → String
error_text (not_found detail) = detail
error_text (validation detail) = detail
error_text (service_unavailable detail) = detail
error_text (unauthorized detail) = detail
error_text (forbidden detail) = detail
error_text (conflict detail) = detail
error_text (rate_limit_exceeded detail) = detail
error_text (app_exception code detail error_code) = detail
error_text (permission detail) = detail
error_text (integrity detail) = detail
error_text (uncaught detail) = detail

-- `try: m except Exception as e: handler e`
abbrev pub catch : {A : Type 0} → Result A → (Error → Exec Gallery A) → Exec Gallery A
catch (ok a) handler g = (ok a, g)
catch (err e) handler g = handler e g

abbrev pub try_except : {A : Type 0} → Exec Gallery A → (Error → Exec Gallery A) → Exec Gallery A
try_except m handler g = catch (m g).0 handler (m g).1

abbrev pub or_invalid : Validated MediaMetadata → Result MediaMetadata
or_invalid (valid metadata) = ok metadata
or_invalid (invalid detail) = err (validation detail)

module _ (tenant : Option TenantContext) where
  -- The listing of the methods that name one, after its checks.
  unfoldable pub listing_of_tenant : ℕ → Exec Gallery Listing
  listing_of_tenant listing_id = do
    found ← gets (λ g. find listing_id g.db.listings)
    listing ← or_raise (not_found "Listing not found") found
    lift (ensure_tenant_match tenant listing.agency_tenant_id)
    pure listing

  unfoldable pub create_photo : ℕ → ℕ → PhotoCreate → Exec Gallery ListingPhotoMetadata
  unfolding listing_of_tenant photo_event write_domain_event_log
  create_photo new_id listing_id body = do
    ctx ← lift (require_tenant tenant)
    listing ← listing_of_tenant listing_id
    last ← gets (λ g. get_max_display_order listing_id g.photos)
    tenant_id ← or_raise (integrity "agency_tenant_id") ctx.tenant_id
    let photo : ListingPhotoMetadata = record {
      listing_id = listing_id;
      agency_tenant_id = tenant_id;
      object_key = body.object_key;
      caption = body.caption;
      alt_text = body.alt_text;
      display_order = order_or_last body.display_order last;
      status = "active";
      content_type = none;
      file_size_bytes = none;
      width = none;
      height = none;
    }
    modify λ g. record g { photos = put new_id photo g.photos }
    on_db (
        write_domain_event_log (
          photo_event "listing.photo_added" "listing" listing_id ctx.tenant_id ctx.actor_id new_id))
    pure photo

  -- The photo of the two methods that name one, after its checks.
  unfoldable pub photo_of_tenant : ℕ → ℕ → Exec Gallery ListingPhotoMetadata
  photo_of_tenant listing_id photo_id = do
    found ← gets (λ g. find photo_id g.photos)
    photo ← or_raise (not_found "Photo metadata not found") found
    raise_if (not (photo.listing_id == listing_id)) (not_found "Photo not found for this listing")
    lift (ensure_tenant_match tenant photo.agency_tenant_id)
    pure photo

  unfoldable pub update_photo : ℕ → ℕ → PhotoUpdate → Exec Gallery ListingPhotoMetadata
  unfolding photo_of_tenant photo_event write_domain_event_log
  update_photo listing_id photo_id body = do
    ctx ← lift (require_tenant tenant)
    old ← photo_of_tenant listing_id photo_id
    let photo : ListingPhotoMetadata = record old {
      caption = or_else body.caption old.caption;
      alt_text = or_else body.alt_text old.alt_text;
      display_order = or_else body.display_order old.display_order;
    }
    modify λ g. record g { photos = put photo_id photo g.photos }
    on_db (
        write_domain_event_log (
          photo_event "listing.photo_updated" "listing" listing_id (some photo.agency_tenant_id)
            ctx.actor_id photo_id))
    pure photo

  unfoldable pub remove_photo : ℕ → ℕ → Exec Gallery (Unit {0})
  unfolding photo_of_tenant photo_event write_domain_event_log
  remove_photo listing_id photo_id = do
    ctx ← lift (require_tenant tenant)
    photo ← photo_of_tenant listing_id photo_id
    modify λ g. record g { photos = put photo_id (record photo { status = "removed" }) g.photos }
    on_db (
        write_domain_event_log (
          photo_event "listing.photo_removed" "listing" listing_id (some photo.agency_tenant_id)
            ctx.actor_id photo_id))
