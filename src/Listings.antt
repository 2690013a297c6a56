-- ===== src/Listings.antt =====
-- backend/app/listings/service.py: the agency's reads and writes of its listings. The search and
-- dashboard caches that the writes invalidate are not part of the state.
pub mod Service
pub mod Requests
pub mod Effects
pub mod Archive
