-- ===== src/Saved.antt =====
-- The saved listings of a user: `SavedListingRepository` of backend/app/listings/repository.py and
-- the handlers of `saved_router` in backend/app/listings/router.py.
pub mod Service
pub mod Lookup
pub mod Effects
pub mod Views
