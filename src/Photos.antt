-- ===== src/Photos.antt =====
-- The photos of listings: the photo methods of `ListingService` in backend/app/listings/service.py
-- with `ListingPhotoRepository`, and the object storage that backend/app/common/storage.py calls.
pub mod State
pub mod Service
pub mod Upload
pub mod Storage
pub mod Atomic
pub mod Order
