-- ===== src/Retrieval/Query.antt =====
-- `RagRetrievalService.answer_policy_query` of backend/app/rag/service.py. Each statement reads what
-- the database holds by then, so that a document may be replaced between the search and the check
-- after it.
use akar_ai.Prelude.{
  ℕ, String, ◌⊎◌, inl, inr, Option, none, some, List, [], ◌∷◌, ◌++◌, length, str_eq, strip,
  text_append,
}
use akar_ai.Exec.{
  Error, Result, ok, err, Exec, app_exception, uncaught, pure, lift, raise_if, ◌>>=◌, ◌>>◌,
}
use akar_ai.Table.{Table}
use akar_ai.Tenant.{TenantContext, require_tenant}
use akar_ai.Ingestion.Rows.{RagDocument, RagPage}
use akar_ai.Guardrails.History.{ChatMessage, normalize_history}
use akar_ai.Retrieval.Assemble.{RagPolicyAnswer}
use akar_ai.Retrieval.Search.{
  Found, loaded, list_processed_documents, get_documents_by_ids, list_parent_pages,
  search_chunks_by_embedding, vector_candidates, document_ids, all_page_ids, current_rows,
}
use akar_ai.Retrieval.Rerank.{page_texts, parent_texts}
use akar_ai.Retrieval.Services.{RagRetrievalQueryRequest, Reads, Services}
use akar_ai.Retrieval.Stages.{
  Logs, insufficient, create_retrieval_log, log_with, rerank_candidates, generation_for,
  final_answer,
}

module _ {E F : Type 0} (services : Services E F) (ctx : TenantContext) (query : String) where
  -- Stages 5 to 9, from the rows whose documents are still processed
  unfoldable pub answer_from :
      RagRetrievalQueryRequest
      → List ChatMessage
      → Table ℕ RagPage
      → List (Found F)
      → Exec Logs (RagPolicyAnswer F)
  answer_from request conversation_messages pages [] =
      insufficient services ctx query "documents_replaced_during_retrieval"
  answer_from request conversation_messages pages (row ∷ rows) =
      let ranking =
        rerank_candidates services ctx query
          (vector_candidates services.floats pages 1 (row ∷ rows)) in
      let texts = parent_texts (page_texts pages) ranking.candidates [] in
      let generation =
        generation_for services ctx query ranking.candidates texts ranking.fallback_reason
          conversation_messages in
      create_retrieval_log services ctx query ctx.tenant_id ctx.role (
        log_with services ctx query ranking.candidates ranking.reranker_used
          generation.fallback_reason generation.confidence_status)
      >>= λ log_id. pure (
          final_answer services ctx query request.include_debug (length (row ∷ rows)) ranking
            generation texts log_id)

  abbrev pub failed : String → String → Error
  failed what reason = app_exception 503 (text_append what reason) ""

  -- Stages 3 and 4
  unfoldable pub answer_found :
      RagRetrievalQueryRequest
      → List ChatMessage
      → Table ℕ RagDocument
      → Reads E
      → List (Found F)
      → Exec Logs (RagPolicyAnswer F)
  answer_found request conversation_messages session reads [] =
      insufficient services ctx query "no_vector_results"
  answer_found request conversation_messages session reads (row ∷ rows) =
      let rows = row ∷ rows in
      answer_from request conversation_messages
        (list_parent_pages ctx.tenant_id (all_page_ids rows) reads.pages)
        (current_rows
          (get_documents_by_ids ctx.tenant_id (document_ids rows)
            (session ++ loaded (document_ids rows) reads.searched) reads.refreshed)
          rows)

  abbrev pub search :
      RagRetrievalQueryRequest → Table ℕ RagDocument → Reads E → E → Result (List (Found F))
  search request session reads embedding = elim services.search_failure [
    | some reason ↦ err (failed "Vector search failed: " reason)
    | none ↦ ok (
        search_chunks_by_embedding services.floats ctx.tenant_id embedding request.top_k session
          reads.searched reads.chunks)
  ]

  -- Stage 2; a provider that answers with no embedding is an `IndexError`.
  abbrev pub query_embedding : String ⊎ List E → Result E
  query_embedding (inl reason) = err (failed "Failed to generate query embedding: " reason)
  query_embedding (inr []) = err (uncaught "IndexError")
  query_embedding (inr (embedding ∷ _)) = ok embedding

  -- Stages 1 to 9 of a query that is not empty; the processed documents are the objects that the
  -- session holds from then on.
  unfoldable pub answer_query :
      RagRetrievalQueryRequest
      → List ChatMessage
      → Reads E
      → Table ℕ RagDocument
      → Exec Logs (RagPolicyAnswer F)
  answer_query request conversation_messages reads [] =
      insufficient services ctx query "no_processed_documents"
  answer_query request conversation_messages reads (row ∷ rows) =
      let session = row ∷ rows in
      lift (query_embedding (services.embed (query ∷ []))) >>= λ embedding.
      lift (search request session reads embedding) >>= λ rows.
      answer_found request conversation_messages session reads rows

unfoldable pub answer_policy_query :
    {E F : Type 0}
    → Services E F
    → Option TenantContext
    → Reads E
    → RagRetrievalQueryRequest
    → Exec Logs (RagPolicyAnswer F)
answer_policy_query services tenant reads request = lift (require_tenant tenant) >>= λ ctx.
    raise_if (str_eq (strip request.query) "") (app_exception 400 "Query cannot be empty" "")
    >> answer_query services ctx (strip request.query) request
        (normalize_history services.max_history_turns services.max_message_chars
          request.conversation_messages)
        reads (list_processed_documents ctx.tenant_id reads.listed)
