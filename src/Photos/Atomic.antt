-- ===== src/Photos/Atomic.antt =====
-- The request that uploads a photo, over the tables and the object storage.
use akar_ai.Prelude.{
  ℕ, String, true, false, ◌≡◌, refl, ◌⊎◌, inl, inr, none, some, [], ◌∷◌, ◌++◌, arith, nat_key,
  text_key,
}
use akar_ai.Exec.{Error, uncaught, Result, ok, err, Result-cases}
use akar_ai.Table.{find, find-put_self}
use akar_ai.Tenant.{TenantContext}
use akar_ai.Media.{Pillow, MediaMetadata, valid, validate_media_upload}
use akar_ai.Photos.State.{ListingPhotoMetadata, Gallery}
use akar_ai.Photos.Service.{Weather}
use akar_ai.Photos.Upload.{
  Upload, original_object_key, image_uploaded, upload_photo, upload_request,
}
use akar_ai.Photos.Storage.{stored, store_photo-objects, store_photo-Stored, upload_photo-cases}

-- The photo's row, its object and the event for the worker are there together.
pub record AllThere (ctx : TenantContext) (listing_id : ℕ) (object_key : String) (upload : Upload)
    (metadata : MediaMetadata) (photo : ListingPhotoMetadata) (g g' : Gallery) : Type 0 where
  pub row : find upload.new_id g'.photos ≡ some photo
  pub of_listing : photo.listing_id ≡ listing_id
  pub same_key : photo.object_key ≡ object_key
  pub object : find object_key g'.objects ≡ some upload.file_bytes
  pub event :
      g'.db.outbox ≡ g.db.outbox ++ image_uploaded ctx listing_id object_key metadata upload ∷ []

-- No row, no log, no event and no object is new.
pub record NothingThere (g g' : Gallery) : Type 0 where
  pub same_db : g'.db ≡ g.db
  pub same_photos : g'.photos ≡ g.photos
  pub same_audit : g'.media_audit ≡ g.media_audit
  pub same_objects : (key : String) → find key g'.objects ≡ find key g.objects

module _ (media_max_file_size_mb : ℕ) (lower : String → String) (pillow : Pillow) (prefix : String)
    (weather : Weather) (ctx : TenantContext) (listing_id : ℕ) (upload : Upload) (g : Gallery) where
  abbrev uploaded : Result ListingPhotoMetadata × Gallery
  uploaded =
      upload_photo media_max_file_size_mb lower pillow prefix weather (some ctx) listing_id upload g

  abbrev request : Result ListingPhotoMetadata × Gallery
  request =
      upload_request media_max_file_size_mb lower pillow prefix weather (some ctx) listing_id upload
        g

  request_done :
      (photo : ListingPhotoMetadata)
      → weather.commits ≡ true
      → uploaded.0 ≡ ok photo
      → request ≡ (ok photo, uploaded.1)
  unfolding upload_request
  request_done photo commits done = ground (arith, commits, done)

  request_failed :
      (e : Error)
      → uploaded.0 ≡ err e
      → request ≡ (err e, record g { objects = uploaded.1.objects })
  unfolding upload_request
  request_failed e failed = ground (arith, failed)

  request_lost :
      (photo : ListingPhotoMetadata)
      → weather.commits ≡ false
      → uploaded.0 ≡ ok photo
      → request ≡ (err (uncaught "commit"), record g { objects = uploaded.1.objects })
  unfolding upload_request
  request_lost photo lost done = ground (arith, lost, done)

  -- An upload of a photo either returns, and then the image was valid and row, object and event are
  -- there, or it raises, and then nothing is: whichever other call of the storage or of the database
  -- failed, as long as these three do not: the compensating delete, the query for the last display
  -- order, which the code makes after it has stored the object and outside the `try`, and the commit
  -- after the return.
  pub upload_request-all_or_nothing :
      weather.deletes ≡ true
      → weather.orders ≡ true
      → weather.commits ≡ true
      → find (original_object_key prefix ctx.tenant_id listing_id upload.unique_name) g.objects
        ≡ none
      → let result =
          upload_request media_max_file_size_mb lower pillow prefix weather
            (some ctx)
            listing_id
            upload
            g in
        let object_key = original_object_key prefix ctx.tenant_id listing_id upload.unique_name in
        ((photo : ListingPhotoMetadata) × ((metadata : MediaMetadata) × (result.0 ≡ ok photo)
            × (validate_media_upload media_max_file_size_mb lower pillow upload.file_bytes
                  upload.content_type
                ≡ valid metadata)
            × AllThere ctx listing_id object_key upload metadata photo g result.1))
        ⊎ ((e : Error) × (result.0 ≡ err e) × NothingThere g result.1)
  upload_request-all_or_nothing deletes orders commits fresh =
      elim (upload_photo-cases media_max_file_size_mb lower pillow prefix weather ctx listing_id
        upload g) [
          | inl (e, failed, same) ↦
              let run = request_failed e failed in
              inr (
                e,
                rw run refl,
                rw (run, same)
                    (record {
                      same_db = refl;
                      same_photos = refl;
                      same_audit = refl;
                      same_objects = λ key. refl;
                    }),
              )
          | inr (metadata, accepted, at_storage) ↦
              elim (Result-cases
                (stored media_max_file_size_mb lower pillow prefix weather ctx listing_id upload g
                  metadata).0) [
                    | inl (photo, done) ↦
                        let s =
                          store_photo-Stored media_max_file_size_mb lower pillow prefix weather ctx
                            listing_id upload g metadata photo done in
                        let run = request_done photo commits (rw at_storage done) in
                        inl (
                          photo,
                          (
                            metadata,
                            rw run refl,
                            accepted,
                            rw (run, at_storage)
                                (record {
                                  row = rw (s.row, find-put_self) refl;
                                  of_listing = s.of_listing;
                                  same_key = s.same_key;
                                  object = rw (s.object, find-put_self) refl;
                                  event = s.event;
                                }),
                          ),
                        )
                    | inr (e, failed) ↦
                        let run = request_failed e (rw at_storage failed) in
                        inr (
                          e,
                          rw run refl,
                          rw (run, at_storage)
                              (record {
                                same_db = refl;
                                same_photos = refl;
                                same_audit = refl;
                                same_objects = λ key.
                                    store_photo-objects media_max_file_size_mb lower pillow prefix
                                      weather ctx listing_id upload g metadata e key deletes orders
                                      fresh failed;
                              }),
                        )
                  ]
        ]

  -- When the commit fails after the photo was uploaded, the object stays in the storage and no row
  -- names it.
  pub upload_request-orphan :
      (photo : ListingPhotoMetadata) (metadata : MediaMetadata)
      → weather.commits ≡ false
      → upload_photo media_max_file_size_mb lower pillow prefix weather
          (some ctx)
          listing_id
          upload
          g
        ≡ stored media_max_file_size_mb lower pillow prefix weather ctx listing_id upload g metadata
      → (stored media_max_file_size_mb lower pillow prefix weather ctx listing_id upload g
          metadata).0
        ≡ ok photo
      → let result =
          upload_request media_max_file_size_mb lower pillow prefix weather
            (some ctx)
            listing_id
            upload
            g in
        (result.0 ≡ err (uncaught "commit"))
        × (result.1.photos ≡ g.photos)
        × (find
              (original_object_key prefix ctx.tenant_id listing_id upload.unique_name)
              result.1.objects
            ≡ some upload.file_bytes)
  upload_request-orphan photo metadata fails at_storage done =
      let s =
        store_photo-Stored media_max_file_size_mb lower pillow prefix weather ctx listing_id upload
          g metadata photo done in
      let run = request_lost photo fails (rw at_storage done) in
      rw (run, at_storage) (refl, refl, rw (s.object, find-put_self) refl)
