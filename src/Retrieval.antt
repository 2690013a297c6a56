-- ===== src/Retrieval.antt =====
-- backend/app/rag/retrieval.py: the answer to a policy question, with its citations and evidence.
pub mod Text
pub mod Citations
pub mod Assemble
pub mod Grounded
pub mod Search
pub mod Rerank
pub mod Redaction
pub mod Services
pub mod Stages
pub mod Query
pub mod Current
pub mod Kept
pub mod Answers
