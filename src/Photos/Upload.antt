-- ===== src/Photos/Upload.antt =====
-- `upload_photo` of listings/service.py, and its request: the transaction rolls the tables back, not
-- the object storage. The object's key is `generate_original_object_key`'s, whose name is drawn.
use akar_ai.Prelude.{
  ℕ, String, Bool, true, not, ◌&&◌, ◌==◌, Option, none, some, List, [], ◌∷◌, str_is, str, format,
  text_append, if◌then◌else◌, nat_key, text_key,
}
use akar_ai.Exec.{
  Error, service_unavailable, forbidden, integrity, uncaught, Result, ok, err, Exec, pure, raise,
  lift, gets, modify, or_raise, raise_if, ◌>>=◌, ◌>>◌,
}
use akar_ai.Table.{put, delete}
use akar_ai.Database.{OutboxEvent, write_domain_event_log, publish_outbox_event_in_session}
use akar_ai.Tenant.{TenantContext, require_tenant}
use akar_ai.Media.{Pillow, MediaMetadata, validate_media_upload}
use akar_ai.Photos.State.{ListingPhotoMetadata, Gallery, on_db, write_media_audit_log}
use akar_ai.Photos.Service.{
  Weather, get_max_display_order, order_or_last, try_except, error_text, or_invalid,
  listing_of_tenant,
}

-- What the client sends, with the values that are drawn for the photo.
pub record Upload : Type 0 where
  pub file_bytes : List ℕ
  pub content_type : Option String
  pub caption : Option String
  pub alt_text : Option String
  pub display_order : Option ℕ
  pub new_id : ℕ
  pub unique_name : String
  pub key_suffix : String

abbrev optional_id : Option ℕ → Option String
optional_id none = none
optional_id (some id) = some (str id)

abbrev tenant_text : Option ℕ → String
tenant_text none = "None"
tenant_text (some t) = str t

-- `build_object_path(f"{prefix}/{tenant_id}/{listing_id}", unique_name)` with a prefix that neither
-- begins nor ends with a slash
unfoldable pub original_object_key : String → Option ℕ → ℕ → String → String
original_object_key prefix tenant_id listing_id unique_name =
    format (prefix ∷ "/" ∷ tenant_text tenant_id ∷ "/" ∷ str listing_id ∷ "/" ∷ unique_name ∷ [])

unfoldable pub image_uploaded : TenantContext → ℕ → String → MediaMetadata → Upload → OutboxEvent
image_uploaded ctx listing_id object_key metadata upload = record {
  event_name = "listing.image_uploaded";
  aggregate_type = some "listing_photo";
  aggregate_id = some (str upload.new_id);
  idempotency_key = format ("upload-" ∷ str upload.new_id ∷ "-" ∷ upload.key_suffix ∷ []);
  payload =
      ("listing_id", some (str listing_id))
      ∷ ("listing_photo_id", some (str upload.new_id))
      ∷ ("agency_tenant_id", optional_id ctx.tenant_id)
      ∷ ("object_key", some object_key)
      ∷ ("content_type", some metadata.content_type)
      ∷ ("file_size_bytes", some (str metadata.file_size_bytes))
      ∷ ("uploaded_by_user_id", optional_id ctx.actor_id)
      ∷ [];
}

-- The body of the `try`: the photo's row, the outbox event and the two logs.
unfoldable pub persist_photo :
    Weather
    → TenantContext
    → ℕ
    → String
    → MediaMetadata
    → Upload
    → ℕ
    → Exec Gallery ListingPhotoMetadata
unfolding image_uploaded write_media_audit_log write_domain_event_log
    publish_outbox_event_in_session
persist_photo weather ctx listing_id object_key metadata upload order = do
  tenant_id ← or_raise (integrity "agency_tenant_id") ctx.tenant_id
  raise_if (not weather.persists) (uncaught "flush")
  let photo : ListingPhotoMetadata = record {
    listing_id = listing_id;
    agency_tenant_id = tenant_id;
    object_key = object_key;
    caption = upload.caption;
    alt_text = upload.alt_text;
    display_order = order;
    status = "uploaded";
    content_type = some metadata.content_type;
    file_size_bytes = some metadata.file_size_bytes;
    width = some metadata.width;
    height = some metadata.height;
  }
  modify λ g. record g { photos = put upload.new_id photo g.photos }
  on_db (publish_outbox_event_in_session (image_uploaded ctx listing_id object_key metadata upload))
  write_media_audit_log (record {
    event_name = "listing.image_uploaded";
    agency_tenant_id = ctx.tenant_id;
    listing_photo_metadata_id = upload.new_id;
    actor_user_id = ctx.actor_id;
    result = "uploaded";
  })
  on_db (
      write_domain_event_log (record {
        event_name = "listing.image_uploaded";
        aggregate_type = some "listing_photo";
        aggregate_id = some (str upload.new_id);
        payload =
            ("photo_id", some (str upload.new_id)) ∷ ("listing_id", some (str listing_id)) ∷ [];
        agency_tenant_id = ctx.tenant_id;
        actor_user_id = ctx.actor_id;
      }))
  pure photo

-- The `except`: delete the object, whether or not that succeeds, and raise.
unfoldable pub discard_object : Weather → String → Error → Exec Gallery ListingPhotoMetadata
discard_object weather object_key e = do
  modify
      λ g. record g { objects = if weather.deletes then delete object_key g.objects else g.objects }
  raise (service_unavailable (text_append "Failed to persist photo metadata: " (error_text e)))

-- `display_order is None or display_order == 0`
abbrev pub is_unset : Option ℕ → Bool
is_unset none = true
is_unset (some order) = order == 0

module _ (media_max_file_size_mb : ℕ) (lower : String → String) (pillow : Pillow) (prefix : String)
    (weather : Weather) (tenant : Option TenantContext) where
  -- From the storage on.
  unfoldable pub store_photo :
      TenantContext → ℕ → MediaMetadata → Upload → Exec Gallery ListingPhotoMetadata
  store_photo ctx listing_id metadata upload = do
    raise_if (not weather.bucket_ready) (uncaught "bucket")
    let object_key = original_object_key prefix ctx.tenant_id listing_id upload.unique_name
    raise_if (not weather.stores)
        (service_unavailable "We couldn't store this image right now. Try again in a moment.")
    modify λ g. record g { objects = put object_key upload.file_bytes g.objects }
    raise_if (is_unset upload.display_order && not weather.orders) (uncaught "display order")
    last ← gets (λ g. get_max_display_order listing_id g.photos)
    try_except
        (persist_photo weather ctx listing_id object_key metadata upload
          (order_or_last upload.display_order last))
        (discard_object weather object_key)

  unfoldable pub upload_photo : ℕ → Upload → Exec Gallery ListingPhotoMetadata
  unfolding listing_of_tenant
  upload_photo listing_id upload = do
    ctx ← lift (require_tenant tenant)
    raise_if (str_is ctx.role "support_employee")
        (forbidden "Support employees cannot upload photos")
    listing ← listing_of_tenant tenant listing_id
    metadata ← lift (
        or_invalid (
          validate_media_upload media_max_file_size_mb lower pillow upload.file_bytes
            upload.content_type))
    store_photo ctx listing_id metadata upload

  -- The commit after a return, and the rollback after an error.
  abbrev settle_tables :
      Gallery → Result ListingPhotoMetadata → Gallery → Result ListingPhotoMetadata × Gallery
  settle_tables before (ok photo) written =
      if weather.commits
      then (ok photo, written)
      else (err (uncaught "commit"), record before { objects = written.objects })
  settle_tables before (err e) written = (err e, record before { objects = written.objects })

  unfoldable pub upload_request : ℕ → Upload → Exec Gallery ListingPhotoMetadata
  upload_request listing_id upload g =
      settle_tables g (upload_photo listing_id upload g).0 (upload_photo listing_id upload g).1
