-- ===== src/Search.antt =====
-- The public search of listings: backend/app/listings/query_service.py and `public_search_listings`
-- of backend/app/listings/router.py.
pub mod Query
pub mod Conditions
pub mod Cities
pub mod Order
pub mod Selected
pub mod Results
pub mod Sorted
pub mod Pages
pub mod Keyset
pub mod Walk
pub mod Codec
pub mod RoundTrip
