-- ===== src/Comparisons.antt =====
-- The comparison sessions of a user: `ComparisonRepository` of backend/app/listings/repository.py and
-- the handlers of `comparison_router` in backend/app/listings/router.py.
pub mod Service
pub mod Effects
pub mod Limit
pub mod Owners
