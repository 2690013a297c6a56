-- ===== src/Ingestion/Rows.antt =====
-- The rows of backend/app/rag/models.py that the ingestion writes.
use akar_ai.Prelude.{ℕ, String, List}

pub record RagDocument : Type 0 where
  pub tenant_id : ℕ
  pub filename : String
  pub status : String
  pub blob_path : String

pub record RagPage : Type 0 where
  pub document_id : ℕ
  pub tenant_id : ℕ
  pub page_number : ℕ
  pub blob_path : String
  pub content : String

-- An embedding is what the provider returns for a text.
pub record RagChunk (E : Type 0) : Type 0 where
  pub document_id : ℕ
  pub tenant_id : ℕ
  pub page_ids : List ℕ
  pub content_hash : String
  pub text : String
  pub embedding : E
  pub status : String
