-- ===== src/Tests/Photos.antt =====
-- Uploads of a small PNG file.
use akar_ai.Prelude.{
  ℕ, ◌≡◌, ◌↔◌, ◌⊎◌, refl, String, true, false, none, some, Option, List, [], ◌∷◌, nat_key, text_key,
}
use akar_ai.Exec.{Error, ok, err}
use akar_ai.Table.{find}
use akar_ai.Tenant.{require_tenant, ensure_tenant_match}
use akar_ai.Media.{Pillow, present, MediaMetadata, valid, validate_media_upload}
use akar_ai.Media.Laws.{IsAcceptable, validate_media_upload-valid_iff}
use akar_ai.Photos.State.{ListingPhotoMetadata, Gallery}
use akar_ai.Photos.Service.{
  Weather, PhotoCreate, create_photo, listing_of_tenant, get_max_display_order,
}
use akar_ai.Photos.Upload.{Upload, original_object_key, upload_request}
use akar_ai.Photos.Atomic.{AllThere, NothingThere, upload_request-all_or_nothing}
use akar_ai.Tests.Data.{agent, agency}

abbrev png : List ℕ
png = 137 ∷ 80 ∷ 78 ∷ 71 ∷ 13 ∷ 10 ∷ 26 ∷ 10 ∷ 0 ∷ 0 ∷ 0 ∷ 13 ∷ []

abbrev unchanged : String → String
unchanged s = s

abbrev one_pixel : Pillow
one_pixel = present (λ file_bytes. some (1, 1))

abbrev png_type : Option String
png_type = some "image/png"

abbrev found : MediaMetadata
found = record { content_type = "image/png"; file_size_bytes = 12; width = 1; height = 1 }

validate_media_upload-valid_iff_example :
    (validate_media_upload 10 unchanged one_pixel png png_type ≡ valid found)
    ↔ IsAcceptable 10 unchanged one_pixel png png_type found
validate_media_upload-valid_iff_example =
    validate_media_upload-valid_iff 10 unchanged one_pixel png png_type found

abbrev front_view : ListingPhotoMetadata
front_view = record {
  listing_id = 1;
  agency_tenant_id = 7;
  object_key = "front";
  caption = none;
  alt_text = none;
  display_order = 4;
  status = "active";
  content_type = none;
  file_size_bytes = none;
  width = none;
  height = none;
}

abbrev gallery : Gallery
gallery = record { db = agency; photos = (21, front_view) ∷ []; media_audit = []; objects = [] }

abbrev upload : Upload
upload = record {
  file_bytes = png;
  content_type = png_type;
  caption = none;
  alt_text = none;
  display_order = none;
  new_id = 22;
  unique_name = "u.png";
  key_suffix = "ab12";
}

-- The database refuses the writes; everything else works.
abbrev stormy : Weather
stormy = record {
  bucket_ready = true;
  stores = true;
  orders = true;
  persists = false;
  deletes = true;
  commits = true;
}

abbrev prefix : String
prefix = "listing-photos/originals"

upload_request-all_or_nothing_example :
    ((photo : ListingPhotoMetadata) × ((metadata : MediaMetadata) × ((upload_request 10 unchanged
            one_pixel prefix stormy
            (some agent)
            1
            upload
            gallery).0
          ≡ ok photo)
        × (validate_media_upload 10 unchanged one_pixel upload.file_bytes upload.content_type
            ≡ valid metadata)
        × AllThere agent 1
            (original_object_key prefix agent.tenant_id 1 upload.unique_name)
            upload
            metadata
            photo
            gallery
            (upload_request 10 unchanged one_pixel prefix stormy (some agent) 1 upload gallery).1))
    ⊎ ((e : Error) × ((upload_request 10 unchanged one_pixel prefix stormy
            (some agent)
            1
            upload
            gallery).0
          ≡ err e)
        × NothingThere gallery
            (upload_request 10 unchanged one_pixel prefix stormy (some agent) 1 upload gallery).1)
upload_request-all_or_nothing_example =
    upload_request-all_or_nothing 10 unchanged one_pixel prefix stormy agent 1 upload gallery refl
      refl refl (unfold find in refl)

abbrev side_view : PhotoCreate
side_view = record { object_key = "side"; caption = none; alt_text = none; display_order = none }

abbrev side_photo : ListingPhotoMetadata
side_photo = record front_view { object_key = "side"; display_order = 5 }

create_side_view : (create_photo (some agent) 23 1 side_view gallery).0 ≡ ok side_photo
unfolding create_photo listing_of_tenant require_tenant ensure_tenant_match find
    get_max_display_order
create_side_view = refl
