-- ===== src/Tests/Retrieval.antt =====
-- A policy question, with a document that is replaced while it is answered.
use akar_ai.Prelude.{
  ℕ, ◌+◌, ◌≡◌, refl, String, true, false, none, some, inr, Option, List, [], ◌∷◌, All, leb, strip,
  str,
}
use akar_ai.Exec.{ok}
use akar_ai.Table.{find, put}
use akar_ai.Tenant.{TenantContext, require_tenant}
use akar_ai.Ingestion.Rows.{RagDocument, RagChunk}
use akar_ai.Guardrails.History.{normalize_history, normalized, last_items}
use akar_ai.Guardrails.Generate.{
  detect_block_reason, judge_content_safety, generate_with_nemo, generate_guardrailed_policy_answer,
}
use akar_ai.Guardrails.Messages.{build_grounded_messages}
use akar_ai.Retrieval.Text.{split_from, join_words, truncate_text, sorted_pages, source_label}
use akar_ai.Retrieval.Citations.{
  RetrievalCandidate, cite_page, cite_pages, cite_all, build_citations,
}
use akar_ai.Retrieval.Assemble.{
  RagPolicyAnswer, Retrieved, build_evidence, assemble_result, to_policy_answer,
}
use akar_ai.Retrieval.Grounded.{IsGrounded, assemble_result-IsGrounded}
use akar_ai.Retrieval.Search.{
  loaded, list_processed_documents, get_documents_by_ids, list_parent_pages, page_numbers_of,
  matching_chunks, search_chunks_by_embedding, vector_candidates, stale_doc_ids, without_stale,
  current_rows,
}
use akar_ai.Retrieval.Rerank.{parent_texts, build_evidence_blocks}
use akar_ai.Retrieval.Redaction.{redact_pii_text, redact_text, sanitize_policy_answer}
use akar_ai.Retrieval.Services.{RagRetrievalQueryRequest, Reads, Services}
use akar_ai.Retrieval.Stages.{rerank_candidates, generate_grounded_answer, final_answer}
use akar_ai.Retrieval.Query.{answer_from, answer_found, answer_query, answer_policy_query}
use akar_ai.Retrieval.Current.{IsCurrent}
use akar_ai.Retrieval.Answers.{answer_policy_query-IsCurrent}

abbrev candidate : ℕ → List ℕ → RetrievalCandidate ℕ
candidate document_id page_numbers = record {
  chunk_id = document_id + 10;
  document_id = document_id;
  document_filename = "lease";
  page_ids = page_numbers;
  page_numbers = page_numbers;
  text = "Rent";
  vector_rank = 1;
  vector_score = 0;
  rerank_rank = none;
  rerank_score = none;
}

-- Page 3 of document 1 is cited once, though two candidates have it.
citations_run :
    build_citations (candidate 1 (3 ∷ []) ∷ candidate 1 (3 ∷ 4 ∷ []) ∷ [])
    ≡ record {
      document_id = 1;
      document_filename = "lease";
      page_number = 3;
      source_label = "lease p.3";
    }
      ∷ record {
        document_id = 1;
        document_filename = "lease";
        page_number = 4;
        source_label = "lease p.4";
      }
      ∷ []
unfolding build_citations cite_all cite_pages cite_page source_label sorted_pages str
citations_run = refl

abbrev plain : Retrieved
plain = record {
  answer_text = none;
  reranker_used = false;
  reranker_provider = none;
  fallback_reason = none;
  confidence_status = "sufficient";
  retrieval_log_id = 9;
  parent_page_text = [];
  guardrail_status = none;
  guardrail_blocked_reason = none;
  generation_provider = none;
}

assemble_result-IsGrounded_example :
    IsGrounded (to_policy_answer (assemble_result "Rent?" (candidate 1 (3 ∷ []) ∷ []) plain))
assemble_result-IsGrounded_example =
    assemble_result-IsGrounded "Rent?" (candidate 1 (3 ∷ []) ∷ []) plain

abbrev manager : TenantContext
manager = record {
  actor_id = some 4;
  role = some "agency_admin";
  permissions = [];
  tenant_id = some 7;
  membership_id = none;
  is_platform_actor = false;
}

abbrev document : String → RagDocument
document status = record { tenant_id = 7; filename = "lease"; status = status; blob_path = "lease" }

abbrev chunk : ℕ → RagChunk (Option ℕ)
chunk document_id = record {
  document_id = document_id;
  tenant_id = 7;
  page_ids = 31 ∷ [];
  content_hash = "h";
  text = "Rent";
  embedding = some document_id;
  status = "active";
}

-- Document 1 is being processed again by the time of the check, which does not see it; document 2 has
-- gone.
abbrev reads : Reads ℕ
reads = record {
  listed = (1, document "processed") ∷ (2, document "processed") ∷ [];
  searched = (1, document "processed") ∷ (2, document "processed") ∷ [];
  chunks = (11, chunk 1) ∷ (12, chunk 2) ∷ [];
  pages =
      (
        31,
        record {
          document_id = 1;
          tenant_id = 7;
          page_number = 3;
          blob_path = "p";
          content = "Rent is due";
        },
      )
      ∷ [];
  refreshed = (1, document "processing") ∷ [];
}

abbrev services : Services ℕ ℕ
services = record {
  floats = record { cosine_distance = λ a b. a; le = leb; score_of = λ d. d; zero_score = 0 };
  embed = λ texts. inr (5 ∷ []);
  search_failure = none;
  reranker_available = false;
  rerank = λ query texts. none;
  settings = record {
    ai_guardrails_enabled = true;
    ai_guardrails_use_nemo_runtime = false;
    config_path_exists = false;
    openrouter_api_key = "";
    openrouter_content_safety_model = "";
    ai_primary_provider = "azure";
  };
  max_history_turns = 1;
  max_message_chars = 5;
  providers = record {
    search = λ pattern_ text. false;
    judge = λ prompt answer stage. none;
    nemo = λ messages. none;
    chat = λ messages. ok (some "Due");
  };
  redactor = record {
    sub = λ pattern_ replacement text. text;
    is_uuid = λ text. false;
    ai_pii_redaction_enabled = false;
    presidio = λ text. none;
  };
  new_log_id = 9;
}

abbrev request : RagRetrievalQueryRequest
request = record { query = " Rent? "; top_k = 8; include_debug = true; conversation_messages = [] }

-- Only document 1 is evidence.
abbrev answer : RagPolicyAnswer ℕ
answer = record {
  status = "fallback";
  answer = "Due";
  citations =
      record {
        document_id = 1;
        document_filename = "lease";
        page_number = 3;
        source_label = "lease p.3";
      }
      ∷ [];
  evidence =
      record {
        chunk_id = 11;
        document_id = 1;
        page_ids = 31 ∷ [];
        document_filename = "lease";
        page_numbers = 3 ∷ [];
        source_label = "lease p.3";
        vector_rank = 1;
        vector_score = 1;
        rerank_rank = none;
        rerank_score = none;
        text_preview = "Rent";
        parent_page_text = some "Rent is due";
      }
      ∷ [];
  debug = record {
    reranker_used = false;
    reranker_provider = none;
    fallback_reason = some "reranker_unavailable";
    confidence_status = "fallback";
    retrieval_log_id = 9;
    guardrail_status = some "degraded";
    guardrail_blocked_reason = none;
    generation_provider = some "azure";
    vector_candidate_count = some 1;
    rerank_candidate_count = none;
  };
}

answer_policy_query_run :
    (answer_policy_query services (some manager) reads request []).0 ≡ ok answer
unfolding answer_policy_query answer_query answer_found answer_from final_answer
    generate_grounded_answer rerank_candidates require_tenant list_processed_documents
    get_documents_by_ids list_parent_pages page_numbers_of matching_chunks
    search_chunks_by_embedding vector_candidates stale_doc_ids without_stale current_rows
    parent_texts loaded build_evidence_blocks redact_text redact_pii_text sanitize_policy_answer
    build_evidence assemble_result to_policy_answer build_citations cite_all cite_pages cite_page
    source_label sorted_pages truncate_text join_words split_from normalize_history normalized
    last_items generate_guardrailed_policy_answer detect_block_reason judge_content_safety
    generate_with_nemo build_grounded_messages strip str find put
answer_policy_query_run = refl

answer_policy_query-IsCurrent_example :
    All (λ e. IsCurrent (some 7) reads.searched reads.refreshed e.document_id) answer.evidence
answer_policy_query-IsCurrent_example =
    answer_policy_query-IsCurrent services manager reads request [] answer answer_policy_query_run
