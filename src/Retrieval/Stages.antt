-- ===== src/Retrieval/Stages.antt =====
-- Stages 5 to 9 of `RagRetrievalService.answer_policy_query`: the ranking, the generated answer, the
-- log and the answer that is returned.
use akar_ai.Prelude.{
  ℕ, ◌==◌, String, Bool, true, false, not, Option, none, some, List, [], ◌∷◌, ◌++◌, length, str_eq,
  nat_key, if◌then◌else◌,
}
use akar_ai.Exec.{Result, ok, err, Exec, integrity, pure, raise, ◌>>=◌}
use akar_ai.Table.{Table, put}
use akar_ai.Tenant.{TenantContext}
use akar_ai.Guardrails.History.{ChatMessage, normalize_history}
use akar_ai.Guardrails.Generate.{generate_guardrailed_policy_answer}
use akar_ai.Guardrails.Messages.{GuardrailedGenerationResult}
use akar_ai.Retrieval.Citations.{RetrievalCandidate}
use akar_ai.Retrieval.Assemble.{Retrieved, RagPolicyAnswer, assemble_result, to_policy_answer}
use akar_ai.Retrieval.Rerank.{Reranked, apply_rerank, build_evidence_blocks}
use akar_ai.Retrieval.Redaction.{redact_text, sanitize_policy_answer}
use akar_ai.Retrieval.Services.{RagRetrievalLog, Services, Ranking, Generation}

-- The tables that a query writes: the retrieval logs. A log without a tenant or a role violates NOT
-- NULL.
abbrev pub Logs : Type 0
Logs = Table ℕ RagRetrievalLog

abbrev truthy : Option String → Bool
truthy none = false
truthy (some text) = not (str_eq text "")

-- Python's `a or b` of an optional text and a text
abbrev or_reason : Option String → String → Option String
or_reason reason other = if truthy reason then reason else some other

abbrev confidence_of : Option String → String
confidence_of fallback_reason = if truthy fallback_reason then "fallback" else "sufficient"

abbrev without : ℕ → List ℕ → List ℕ
without id [] = []
without id (i ∷ ids) = let rest = without id ids in if i == id then rest else i ∷ rest

-- `list(set(ids))`, in the order of the first ones; Python's order is unspecified.
abbrev distinct : List ℕ → List ℕ
distinct [] = []
distinct (id ∷ ids) = let rest = distinct ids in id ∷ without id rest

module _ {F : Type 0} where
  abbrev pub candidate_texts : List (RetrievalCandidate F) → List String
  candidate_texts [] = []
  candidate_texts (candidate ∷ candidates) = candidate.text ∷ candidate_texts candidates

  abbrev chunk_ids_of : List (RetrievalCandidate F) → List ℕ
  chunk_ids_of [] = []
  chunk_ids_of (candidate ∷ candidates) = candidate.chunk_id ∷ chunk_ids_of candidates

  abbrev document_ids_of : List (RetrievalCandidate F) → List ℕ
  document_ids_of [] = []
  document_ids_of (candidate ∷ candidates) = candidate.document_id ∷ document_ids_of candidates

  abbrev page_ids_of : List (RetrievalCandidate F) → List ℕ
  page_ids_of [] = []
  page_ids_of (candidate ∷ candidates) = candidate.page_ids ++ page_ids_of candidates

module _ {E F : Type 0} (services : Services E F) (ctx : TenantContext) (query : String) where
  abbrev create_log : RagRetrievalLog → Exec Logs ℕ
  create_log log logs = (ok services.new_log_id, put services.new_log_id log logs)

  abbrev pub log_with :
      List (RetrievalCandidate F) → Bool → Option String → String → ℕ → String → RagRetrievalLog
  log_with candidates reranker_used fallback_reason confidence_status tenant_id role = record {
    tenant_id = tenant_id;
    actor_user_id = ctx.actor_id;
    actor_role = role;
    query = query;
    retrieval_scope = "agency_policy";
    selected_document_ids = distinct (document_ids_of candidates);
    selected_chunk_ids = chunk_ids_of candidates;
    selected_page_ids = distinct (page_ids_of candidates);
    reranker_used = reranker_used;
    reranker_provider = if reranker_used then some "openrouter" else none;
    fallback_reason = fallback_reason;
    confidence_status = confidence_status;
  }

  -- `create_retrieval_log`
  abbrev pub create_retrieval_log :
      Option ℕ → Option String → (ℕ → String → RagRetrievalLog) → Exec Logs ℕ
  create_retrieval_log none role log = raise (integrity "tenant_id")
  create_retrieval_log (some tenant_id) none log = raise (integrity "actor_role")
  create_retrieval_log (some tenant_id) (some role) log = create_log (log tenant_id role)

  abbrev not_answered : String → ℕ → RagPolicyAnswer F
  not_answered reason log_id =
      let answer = to_policy_answer (
        assemble_result query [] (record {
          answer_text = none;
          reranker_used = false;
          reranker_provider = none;
          fallback_reason = some reason;
          confidence_status = "insufficient";
          retrieval_log_id = log_id;
          parent_page_text = [];
          guardrail_status = none;
          guardrail_blocked_reason = none;
          generation_provider = none;
        })) in
      record answer {
        debug = record (answer.debug) {
          vector_candidate_count = some 0;
          rerank_candidate_count = some 0;
        };
      }

  -- The answer without candidates, for a reason; its log is `_create_log_for_result`.
  unfoldable pub insufficient : String → Exec Logs (RagPolicyAnswer F)
  insufficient reason =
      create_retrieval_log ctx.tenant_id ctx.role (log_with [] false none "insufficient")
      >>= λ log_id. pure (not_answered reason log_id)

  abbrev unranked : List (RetrievalCandidate F) → Bool → Option String → Ranking F
  unranked candidates used reason = record {
    candidates = candidates;
    reranker_used = used;
    fallback_reason = reason;
    rerank_candidate_count = none;
  }

  abbrev pub ranking_by : List (RetrievalCandidate F) → Option (List (Reranked F)) → Ranking F
  ranking_by candidates none = unranked candidates true (some "reranker_unavailable")
  ranking_by candidates (some []) = unranked candidates true none
  ranking_by candidates (some (entry ∷ entries)) = record {
    candidates = apply_rerank services.floats.zero_score (entry ∷ entries) candidates;
    reranker_used = true;
    fallback_reason = none;
    rerank_candidate_count = some (length (entry ∷ entries));
  }

  -- Stage 5
  unfoldable pub rerank_candidates : List (RetrievalCandidate F) → Ranking F
  rerank_candidates [] =
      if services.reranker_available
      then unranked [] true none
      else unranked [] false (some "reranker_unavailable")
  rerank_candidates (candidate ∷ candidates) =
      if services.reranker_available
      then ranking_by (candidate ∷ candidates)
          (services.rerank query (candidate_texts (candidate ∷ candidates)))
      else unranked (candidate ∷ candidates) false (some "reranker_unavailable")

  -- The answer of the generator, or what an exception of it leaves.
  abbrev generated : Option String → String → Result GuardrailedGenerationResult → Generation
  generated fallback_reason confidence_status (err _) = record {
    answer_text = none;
    guardrail_status = none;
    guardrail_blocked_reason = none;
    generation_provider = none;
    fallback_reason = or_reason fallback_reason "answer_generation_unavailable";
    confidence_status = "fallback";
  }
  generated fallback_reason confidence_status (ok generation) =
      let is_blocked = str_eq generation.guardrail_status "blocked" in
      record {
        answer_text = some (redact_text services.redactor generation.answer_text);
        guardrail_status = some generation.guardrail_status;
        guardrail_blocked_reason = generation.blocked_reason;
        generation_provider = generation.generation_provider;
        fallback_reason =
            if is_blocked
            then or_reason generation.blocked_reason "guardrail_blocked"
            else fallback_reason;
        confidence_status = if is_blocked then "fallback" else confidence_status;
      }

  -- Stage 7, for at least one candidate
  unfoldable pub generate_grounded_answer :
      List (RetrievalCandidate F) → Table ℕ String → Option String → List ChatMessage → Generation
  generate_grounded_answer candidates texts fallback_reason conversation_messages =
      let confidence_status = confidence_of fallback_reason in
      generated fallback_reason confidence_status (
        generate_guardrailed_policy_answer services.settings services.providers query
          (build_evidence_blocks candidates texts)
          (normalize_history services.max_history_turns services.max_message_chars
            conversation_messages)
          confidence_status)

  abbrev no_generation : Option String → Generation
  no_generation fallback_reason = record {
    answer_text = none;
    guardrail_status = none;
    guardrail_blocked_reason = none;
    generation_provider = none;
    fallback_reason = fallback_reason;
    confidence_status = "insufficient";
  }

  abbrev pub generation_for :
      List (RetrievalCandidate F) → Table ℕ String → Option String → List ChatMessage → Generation
  generation_for [] texts fallback_reason conversation_messages = no_generation fallback_reason
  generation_for (candidate ∷ candidates) texts fallback_reason conversation_messages =
      generate_grounded_answer (candidate ∷ candidates) texts fallback_reason conversation_messages

  abbrev retrieved : Ranking F → Generation → Table ℕ String → ℕ → Retrieved
  retrieved ranking generation texts log_id = record {
    answer_text = generation.answer_text;
    reranker_used = ranking.reranker_used;
    reranker_provider = if ranking.reranker_used then some "openrouter" else none;
    fallback_reason = generation.fallback_reason;
    confidence_status = generation.confidence_status;
    retrieval_log_id = log_id;
    parent_page_text = texts;
    guardrail_status = generation.guardrail_status;
    guardrail_blocked_reason = generation.guardrail_blocked_reason;
    generation_provider = generation.generation_provider;
  }

  -- `if include_debug and answer.debug`
  abbrev with_counts : Bool → ℕ → Option ℕ → RagPolicyAnswer F → RagPolicyAnswer F
  with_counts include_debug found reranked answer =
      if include_debug
      then record answer {
        debug = record (answer.debug) {
          vector_candidate_count = some found;
          rerank_candidate_count = reranked;
        };
      }
      else answer

  -- Stage 9, after the log of stage 8
  unfoldable pub final_answer :
      Bool → ℕ → Ranking F → Generation → Table ℕ String → ℕ → RagPolicyAnswer F
  final_answer include_debug found ranking generation texts log_id =
      sanitize_policy_answer services.redactor (
        with_counts include_debug found ranking.rerank_candidate_count (
          to_policy_answer
            (assemble_result query ranking.candidates (retrieved ranking generation texts log_id))))
