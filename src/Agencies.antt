-- ===== src/Agencies.antt =====
-- Agencies and their employees: backend/app/agencies/service.py and repository.py, and
-- `_resolve_tenant_context` of backend/app/auth/dependencies.py.
pub mod State
pub mod Service
pub mod Access
pub mod Isolation
pub mod Route
