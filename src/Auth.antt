-- ===== src/Auth.antt =====
-- backend/app/auth/service.py over auth/repository.py, with the token check of
-- auth/dependencies.py.
pub mod State
pub mod Sessions
pub mod Login
pub mod Revocation
pub mod Invalidation
