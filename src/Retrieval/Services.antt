-- ===== src/Retrieval/Services.antt =====
-- The records of `RagRetrievalService.answer_policy_query` of backend/app/rag/service.py.
use akar_ai.Prelude.{ℕ, String, Bool, ◌⊎◌, Option, List}
use akar_ai.Table.{Table}
use akar_ai.Ingestion.Rows.{RagDocument, RagPage, RagChunk}
use akar_ai.Guardrails.History.{ChatMessage}
use akar_ai.Guardrails.Messages.{Settings, Providers}
use akar_ai.Retrieval.Citations.{RetrievalCandidate}
use akar_ai.Retrieval.Search.{Floats}
use akar_ai.Retrieval.Rerank.{Reranked}
use akar_ai.Retrieval.Redaction.{Redactor}

-- rag/models.py, without the two times
pub record RagRetrievalLog : Type 0 where
  pub tenant_id : ℕ
  pub actor_user_id : Option ℕ
  pub actor_role : String
  pub query : String
  pub retrieval_scope : String
  pub selected_document_ids : List ℕ
  pub selected_chunk_ids : List ℕ
  pub selected_page_ids : List ℕ
  pub reranker_used : Bool
  pub reranker_provider : Option String
  pub fallback_reason : Option String
  pub confidence_status : String

pub record RagRetrievalQueryRequest : Type 0 where
  pub query : String
  pub top_k : ℕ
  pub include_debug : Bool
  pub conversation_messages : List ChatMessage

-- What the statements of one query read, in their order.
pub record Reads (E : Type 0) : Type 0 where
  pub listed : Table ℕ RagDocument
  pub searched : Table ℕ RagDocument
  pub chunks : Table ℕ (RagChunk (Option E))
  pub pages : Table ℕ RagPage
  pub refreshed : Table ℕ RagDocument

-- The providers and settings; a text on the left is the message of an exception.
pub record Services (E F : Type 0) : Type 0 where
  pub floats : Floats E F
  pub embed : List String → String ⊎ List E
  pub search_failure : Option String
  pub reranker_available : Bool
  pub rerank : String → List String → Option (List (Reranked F))
  pub settings : Settings
  pub max_history_turns : ℕ
  pub max_message_chars : ℕ
  pub providers : Providers
  pub redactor : Redactor
  pub new_log_id : ℕ

-- What stage 5 leaves behind.
pub record Ranking (F : Type 0) : Type 0 where
  pub candidates : List (RetrievalCandidate F)
  pub reranker_used : Bool
  pub fallback_reason : Option String
  pub rerank_candidate_count : Option ℕ

-- What stages 7 and 7a find out.
pub record Generation : Type 0 where
  pub answer_text : Option String
  pub guardrail_status : Option String
  pub guardrail_blocked_reason : Option String
  pub generation_provider : Option String
  pub fallback_reason : Option String
  pub confidence_status : String
