-- ===== src/Ingestion.antt =====
-- The ingestion of an agency's policy documents: workers/handlers/rag.py over the rows of
-- backend/app/rag/models.py.
pub mod Rows
pub mod Chunks
pub mod Hashes
pub mod Reconcile
pub mod Existing
pub mod Remap
pub mod Insert
pub mod Orphans
pub mod Active
pub mod Handler
pub mod Cleanup
pub mod Outcome
