-- ===== src/Photos/Storage.antt =====
-- Uploading a photo keeps the tables and the object storage in step.
use akar_ai.Prelude.{
  ℕ, String, true, false, not, ◌&&◌, ◌≡◌, refl, ◌⊎◌, inl, inr, none, some, [], ◌∷◌, ◌++◌, arith,
  Option-cases, Bool-cases, nat_key, text_key, str_is,
}
use akar_ai.Exec.{Error, not_found, validation, forbidden, Result, ok, err, ok-same, Result-cases}
use akar_ai.Table.{find, put, delete, find-put, find-delete}
use akar_ai.Tenant.{TenantContext, require_tenant, ensure_tenant_match}
use akar_ai.Tenant.Laws.{require_tenant-same}
use akar_ai.Media.{Pillow, MediaMetadata, Validated, valid, invalid, validate_media_upload}
use akar_ai.Photos.State.{ListingPhotoMetadata, Gallery}
use akar_ai.Photos.Service.{Weather, listing_of_tenant, get_max_display_order, order_or_last}
use akar_ai.Photos.Upload.{
  Upload, original_object_key, image_uploaded, persist_photo, discard_object, store_photo,
  upload_photo, is_unset,
}

Validated-cases :
    {A : Type 0} (v : Validated A)
    → ((a : A) × (v ≡ valid a)) ⊎ ((detail : String) × (v ≡ invalid detail))
Validated-cases (valid a) = inl (a, refl)
Validated-cases (invalid detail) = inr (detail, refl)

-- What persisting a photo has written when it returned.
record Persisted (ctx : TenantContext) (listing_id : ℕ) (object_key : String)
    (metadata : MediaMetadata) (upload : Upload) (g : Gallery) (photo : ListingPhotoMetadata)
    (g' : Gallery) : Type 0 where
  of_listing : photo.listing_id ≡ listing_id
  same_key : photo.object_key ≡ object_key
  row : g'.photos ≡ put upload.new_id photo g.photos
  event :
      g'.db.outbox ≡ g.db.outbox ++ image_uploaded ctx listing_id object_key metadata upload ∷ []

module _ (weather : Weather) (ctx : TenantContext) (listing_id : ℕ) (object_key : String)
    (metadata : MediaMetadata) (upload : Upload) (order : ℕ) (g : Gallery) where
  persist_photo-objects :
      (persist_photo weather ctx listing_id object_key metadata upload order g).1.objects
      ≡ g.objects
  unfolding persist_photo
  persist_photo-objects = elim (Option-cases ctx.tenant_id) [
    | inl missing ↦ ground (arith, missing)
    | inr (t, e) ↦ ground (arith, e)
  ]

  persist_photo-Persisted :
      (photo : ListingPhotoMetadata)
      → (persist_photo weather ctx listing_id object_key metadata upload order g).0 ≡ ok photo
      → Persisted ctx listing_id object_key metadata upload g photo
          (persist_photo weather ctx listing_id object_key metadata upload order g).1
  unfolding persist_photo
  persist_photo-Persisted photo done = elim (Option-cases ctx.tenant_id) [
    | inl missing ↦ absurd (ground (arith, missing))
    | inr (t, e) ↦ record {
      of_listing = ground (arith, e, done);
      same_key = ground (arith, e, done);
      row = ground (arith, e, done);
      event = ground (arith, e, done);
    }
  ]

module _ (media_max_file_size_mb : ℕ) (lower : String → String) (pillow : Pillow) (prefix : String)
    (weather : Weather) (ctx : TenantContext) (listing_id : ℕ) (upload : Upload) (g : Gallery) where
  abbrev pub uploaded : Result ListingPhotoMetadata × Gallery
  uploaded =
      upload_photo media_max_file_size_mb lower pillow prefix weather (some ctx) listing_id upload g

  abbrev pub key_of : String
  key_of = original_object_key prefix ctx.tenant_id listing_id upload.unique_name

  abbrev pub stored : MediaMetadata → Result ListingPhotoMetadata × Gallery
  stored metadata =
      store_photo media_max_file_size_mb lower pillow prefix weather (some ctx) ctx listing_id
        metadata upload g

  -- The gallery in which the row is written.
  abbrev with_object : Gallery
  with_object = record g { objects = put key_of upload.file_bytes g.objects }

  abbrev persisted : MediaMetadata → Result ListingPhotoMetadata × Gallery
  persisted metadata =
      persist_photo weather ctx listing_id key_of metadata upload
        (order_or_last upload.display_order (get_max_display_order listing_id g.photos)) with_object

  pub store_photo-objects :
      (metadata : MediaMetadata) (e : Error) (key : String)
      → weather.deletes ≡ true
      → weather.orders ≡ true
      → find key_of g.objects ≡ none
      → (stored metadata).0 ≡ err e
      → find key (stored metadata).1.objects ≡ find key g.objects
  unfolding store_photo discard_object
  store_photo-objects metadata e key deletes orders fresh failed =
      elim (Bool-cases weather.bucket_ready) [
        | inr down ↦ ground (arith, down)
        | inl ready ↦ elim (Bool-cases weather.stores) [
          | inr down ↦ ground (arith, ready, down)
          | inl stores ↦ elim (Result-cases (persisted metadata).0) [
            | inl (photo, done) ↦ absurd (ground (arith, ready, stores, orders, done, failed))
            | inr (e2, raised) ↦
                let kept =
                  persist_photo-objects weather ctx listing_id key_of metadata upload
                    (order_or_last upload.display_order (get_max_display_order listing_id g.photos))
                    with_object in
                let gone : (stored metadata).1.objects
                    ≡ delete key_of (put key_of upload.file_bytes g.objects) =
                  ground (arith, ready, stores, orders, raised, deletes, kept) in
                rw (gone, find-delete, find-put)
                  (ground (arith, fresh, text_key.matches_iff key_of key))
          ]
        ]
      ]

  pub record Stored (metadata : MediaMetadata) (photo : ListingPhotoMetadata) (g' : Gallery)
      : Type 0 where
    pub of_listing : photo.listing_id ≡ listing_id
    pub same_key : photo.object_key ≡ key_of
    pub row : g'.photos ≡ put upload.new_id photo g.photos
    pub event :
        g'.db.outbox ≡ g.db.outbox ++ image_uploaded ctx listing_id key_of metadata upload ∷ []
    pub object : g'.objects ≡ put key_of upload.file_bytes g.objects

  -- With a storage that answers and a row that is written, the upload is what the last step left.
  store_photo-runs :
      (metadata : MediaMetadata) (photo : ListingPhotoMetadata)
      → weather.bucket_ready ≡ true
      → weather.stores ≡ true
      → (is_unset upload.display_order && not weather.orders) ≡ false
      → (persisted metadata).0 ≡ ok photo
      → stored metadata ≡ (ok photo, (persisted metadata).1)
  unfolding store_photo
  store_photo-runs metadata photo ready stores ordered wrote =
      ground (arith, ready, stores, ordered, wrote)

  pub store_photo-Stored :
      (metadata : MediaMetadata) (photo : ListingPhotoMetadata)
      → (stored metadata).0 ≡ ok photo
      → Stored metadata photo (stored metadata).1
  unfolding store_photo discard_object
  store_photo-Stored metadata photo done = elim (Bool-cases weather.bucket_ready) [
    | inr down ↦ absurd (ground (arith, down, done))
    | inl ready ↦ elim (Bool-cases weather.stores) [
      | inr down ↦ absurd (ground (arith, ready, down, done))
      | inl stores ↦ elim (Bool-cases (is_unset upload.display_order && not weather.orders)) [
        | inl down ↦ absurd (ground (arith, ready, stores, down, done))
        | inr ordered ↦ elim (Result-cases (persisted metadata).0) [
          | inr (e2, raised) ↦ absurd (ground (arith, ready, stores, ordered, raised, done))
          | inl (made, wrote) ↦
              let runs = store_photo-runs metadata made ready stores ordered wrote in
              let same : made ≡ photo = ok-same (rw runs at done) in
              let order =
                order_or_last upload.display_order (get_max_display_order listing_id g.photos) in
              let p =
                persist_photo-Persisted weather ctx listing_id key_of metadata upload order
                  with_object photo (rw same at wrote) in
              rw runs (record {
                of_listing = p.of_listing;
                same_key = p.same_key;
                row = p.row;
                event = p.event;
                object =
                    persist_photo-objects weather ctx listing_id key_of metadata upload order
                      with_object;
              })
        ]
      ]
    ]
  ]

  -- The checks before the storage write nothing.
  pub upload_photo-cases :
      ((e : Error) × (uploaded.0 ≡ err e) × (uploaded.1 ≡ g))
      ⊎ ((metadata : MediaMetadata) × (validate_media_upload media_max_file_size_mb lower pillow
              upload.file_bytes upload.content_type
            ≡ valid metadata)
          × (uploaded ≡ stored metadata))
  unfolding upload_photo listing_of_tenant
  upload_photo-cases = elim (Result-cases (require_tenant (some ctx))) [
    | inr (e, refused) ↦ inl (e, ground (arith, refused), ground (arith, refused))
    | inl (actor, passed) ↦
        let same = require_tenant-same ctx actor passed in
        elim (Bool-cases (str_is ctx.role "support_employee")) [
          | inl support ↦ inl (
            forbidden "Support employees cannot upload photos",
            rw (passed, same, support) refl,
            rw (passed, same, support) refl,
          )
          | inr agent ↦ elim (Option-cases (find listing_id g.db.listings)) [
            | inl missing ↦ inl (
              not_found "Listing not found",
              rw (passed, same, agent, missing) refl,
              rw (passed, same, agent, missing) refl,
            )
            | inr (listing, e) ↦
                elim (Result-cases (ensure_tenant_match (some ctx) listing.agency_tenant_id)) [
                  | inr (denied, no_match) ↦ inl (
                    denied,
                    rw (passed, same, agent, e, no_match) refl,
                    rw (passed, same, agent, e, no_match) refl,
                  )
                  | inl (u, match_ok) ↦
                      elim (Validated-cases (
                        validate_media_upload media_max_file_size_mb lower pillow upload.file_bytes
                          upload.content_type)) [
                            | inr (detail, refused) ↦ inl (
                              validation detail,
                              rw (passed, same, agent, e, match_ok, refused) refl,
                              rw (passed, same, agent, e, match_ok, refused) refl,
                            )
                            | inl (metadata, accepted) ↦ inr (
                              metadata,
                              accepted,
                              rw (passed, same, agent, e, match_ok, accepted) refl,
                            )
                          ]
                ]
          ]
        ]
  ]
