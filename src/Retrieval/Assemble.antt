-- ===== src/Retrieval/Assemble.antt =====
-- `build_evidence`, `assemble_result` and `to_policy_answer` of backend/app/rag/retrieval.py.
use akar_ai.Prelude.{
  ℕ, suc, String, Bool, true, false, Option, none, some, List, [], ◌∷◌, length, str_eq, text_append,
  if◌then◌else◌, nat_key,
}
use akar_ai.Table.{Table, find}
use akar_ai.Retrieval.Text.{truncate_text, source_label}
use akar_ai.Retrieval.Citations.{RetrievalCandidate, RagRetrievalCitation, build_citations}

pub record RagRetrievalEvidence (F : Type 0) : Type 0 where
  pub chunk_id : ℕ
  pub document_id : ℕ
  pub page_ids : List ℕ
  pub document_filename : String
  pub page_numbers : List ℕ
  pub source_label : String
  pub vector_rank : ℕ
  pub vector_score : F
  pub rerank_rank : Option ℕ
  pub rerank_score : Option F
  pub text_preview : String
  pub parent_page_text : Option String

pub record RagRetrievalDebug : Type 0 where
  pub reranker_used : Bool
  pub reranker_provider : Option String
  pub fallback_reason : Option String
  pub confidence_status : String
  pub retrieval_log_id : ℕ
  pub guardrail_status : Option String
  pub guardrail_blocked_reason : Option String
  pub generation_provider : Option String
  pub vector_candidate_count : Option ℕ
  pub rerank_candidate_count : Option ℕ

pub record RetrievalResult (F : Type 0) : Type 0 where
  pub status : String
  pub answer : String
  pub citations : List RagRetrievalCitation
  pub evidence : List (RagRetrievalEvidence F)
  pub debug : RagRetrievalDebug

pub record RagPolicyAnswer (F : Type 0) : Type 0 where
  pub status : String
  pub answer : String
  pub citations : List RagRetrievalCitation
  pub evidence : List (RagRetrievalEvidence F)
  pub debug : RagRetrievalDebug

-- The keyword arguments of `assemble_result`.
pub record Retrieved : Type 0 where
  pub answer_text : Option String
  pub reranker_used : Bool
  pub reranker_provider : Option String
  pub fallback_reason : Option String
  pub confidence_status : String
  pub retrieval_log_id : ℕ
  pub parent_page_text : Table ℕ String
  pub guardrail_status : Option String
  pub guardrail_blocked_reason : Option String
  pub generation_provider : Option String

-- `parent_page_text.get(page_id, "")`
abbrev text_or_empty : Option String → String
text_or_empty none = ""
text_or_empty (some text) = text

abbrev first_page_text : List ℕ → Table ℕ String → Option String
first_page_text [] parent_page_text = none
first_page_text (page_id ∷ page_ids) parent_page_text =
    some (truncate_text (text_or_empty (find page_id parent_page_text)) 800)

-- Python's `a or b` on an optional text
abbrev or_text : Option String → String → String
or_text none other = other
or_text (some text) other = if str_eq text "" then other else text

abbrev is_some {ℓ} : {A : Type ℓ} → Option A → Bool
is_some none = false
is_some (some _) = true

module _ {F : Type 0} where
  abbrev evidence_of : RetrievalCandidate F → Table ℕ String → RagRetrievalEvidence F
  evidence_of candidate parent_page_text = record {
    chunk_id = candidate.chunk_id;
    document_id = candidate.document_id;
    page_ids = candidate.page_ids;
    document_filename = candidate.document_filename;
    page_numbers = candidate.page_numbers;
    source_label = source_label candidate.document_filename candidate.page_numbers;
    vector_rank = candidate.vector_rank;
    vector_score = candidate.vector_score;
    rerank_rank = candidate.rerank_rank;
    rerank_score = candidate.rerank_score;
    text_preview = truncate_text candidate.text 240;
    parent_page_text = first_page_text candidate.page_ids parent_page_text;
  }

  unfoldable pub build_evidence :
      List (RetrievalCandidate F) → Table ℕ String → List (RagRetrievalEvidence F)
  build_evidence [] parent_page_text = []
  build_evidence (candidate ∷ candidates) parent_page_text =
      evidence_of candidate parent_page_text ∷ build_evidence candidates parent_page_text

  abbrev count_reranked : List (RetrievalCandidate F) → ℕ
  count_reranked [] = 0
  count_reranked (candidate ∷ candidates) =
      let rest = count_reranked candidates in
      if is_some candidate.rerank_rank then suc rest else rest

  -- The status of an answer, with what it says when no answer was generated.
  abbrev status_and_default : String → String → List (RagRetrievalEvidence F) → String × String
  status_and_default query confidence_status [] =
      ("insufficient_evidence", "I could not find enough policy evidence to answer that.")
  status_and_default query confidence_status (_ ∷ _) =
      if str_eq confidence_status "fallback"
      then ("fallback", text_append "I found partial evidence for: " query)
      else ("answered", text_append "Grounded answer for: " query)

  unfoldable pub assemble_result :
      String → List (RetrievalCandidate F) → Retrieved → RetrievalResult F
  assemble_result query candidates r =
      let evidence = build_evidence candidates r.parent_page_text in
      let status = status_and_default query r.confidence_status evidence in
      record {
        status = status.0;
        answer = or_text r.answer_text status.1;
        citations = build_citations candidates;
        evidence = evidence;
        debug = record {
          reranker_used = r.reranker_used;
          reranker_provider = r.reranker_provider;
          fallback_reason = r.fallback_reason;
          confidence_status = r.confidence_status;
          retrieval_log_id = r.retrieval_log_id;
          guardrail_status = r.guardrail_status;
          guardrail_blocked_reason = r.guardrail_blocked_reason;
          generation_provider = r.generation_provider;
          vector_candidate_count = some (length candidates);
          rerank_candidate_count = some (count_reranked candidates);
        };
      }

  unfoldable pub to_policy_answer : RetrievalResult F → RagPolicyAnswer F
  to_policy_answer result = record {
    status = result.status;
    answer = result.answer;
    citations = result.citations;
    evidence = result.evidence;
    debug = result.debug;
  }
