-- ===== src/Retrieval/Answers.antt =====
-- What `answer_policy_query` answers and logs.
use akar_ai.Prelude.{
  ℕ, ◌≡◌, refl, subst, String, Bool, true, false, Option, none, some, List, [], ◌∷◌, ◌++◌, All,
  Bool-cases, nat_key, inl, inr, strip, str_eq,
}
use akar_ai.Exec.{
  Result, ok, err, Exec, app_exception, raise_if, pure, lift, ok-not_err, ok-same, ◌>>=◌, ◌>>◌,
}
use akar_ai.Table.{Table}
use akar_ai.Tenant.{TenantContext, require_tenant}
use akar_ai.Tenant.Laws.{require_tenant-same}
use akar_ai.Guardrails.History.{ChatMessage, normalize_history}
use akar_ai.Ingestion.Rows.{RagDocument, RagPage}
use akar_ai.Retrieval.Citations.{RetrievalCandidate}
use akar_ai.Retrieval.Assemble.{RagPolicyAnswer, build_evidence, assemble_result, to_policy_answer}
use akar_ai.Retrieval.Search.{
  Found, list_processed_documents, get_documents_by_ids, is_stale, loaded,
  search_chunks_by_embedding, document_ids,
}
use akar_ai.Retrieval.Rerank.{Reranked}
use akar_ai.Retrieval.Redaction.{sanitize_policy_answer}
use akar_ai.Retrieval.Services.{
  RagRetrievalQueryRequest, RagRetrievalLog, Reads, Services, Ranking, Generation,
}
use akar_ai.Retrieval.Stages.{
  candidate_texts, ranking_by, create_retrieval_log, insufficient, rerank_candidates, final_answer,
}
use akar_ai.Retrieval.Query.{
  query_embedding, failed, search, answer_from, answer_found, answer_query, answer_policy_query,
}
use akar_ai.Retrieval.Current.{
  IsCurrent, IsProcessed, current_rows-All, current_rows-kept, not_stale-IsThere,
  search_chunks_by_embedding-AllProcessed,
}
use akar_ai.Retrieval.Kept.{
  AllOf, AllFound, AllCited, vector_candidates-AllOf, apply_rerank-AllOf, build_evidence-AllCited,
  sanitized-AllCited,
}

-- What holds of a result that is no error.
abbrev pub WhenOk : {A : Type 0} → (A → Type 0) → Result A → Type 0
WhenOk P (ok a) = P a
WhenOk P (err e) = Unit

WhenOk-any : {B : Type 0} (result : Result B) → WhenOk (λ b. Unit) result
WhenOk-any (ok b) = tt
WhenOk-any (err _) = tt

lifted-WhenOk :
    {A B : Type 0}
    → (Q : A → Type 0) (R : B → Type 0) (result : Result B)
      (next : B → Exec (Table ℕ RagRetrievalLog) A) (logs : Table ℕ RagRetrievalLog)
    → WhenOk R result
    → ((b : B) → R b → WhenOk Q (next b logs).0)
    → WhenOk Q ((lift result >>= next) logs).0
lifted-WhenOk Q R (ok b) next logs r h = h b r
lifted-WhenOk Q R (err _) next logs r h = tt

WhenOk-ok : {A : Type 0} → (Q : A → Type 0) (r : Result A) (a : A) → WhenOk Q r → r ≡ ok a → Q a
WhenOk-ok Q (ok b) a h e = subst Q (ok-same e) h
WhenOk-ok Q (err e) a h returned = absurd (ok-not_err returned e refl)

module _ {E F : Type 0} (services : Services E F) (ctx : TenantContext) (query : String)
    (P : ℕ → Type 0) where
  rerank_candidates-AllOf :
      (candidates : List (RetrievalCandidate F))
      → AllOf P candidates
      → AllOf P (rerank_candidates services ctx query candidates).candidates
  unfolding rerank_candidates
  rerank_candidates-AllOf [] h = elim (Bool-cases services.reranker_available) [
    | inl there ↦ rw there tt
    | inr missing ↦ rw missing tt
  ]
  rerank_candidates-AllOf (candidate ∷ candidates) h =
      elim (Bool-cases services.reranker_available) [
        | inr missing ↦ rw missing h
        | inl there ↦
            rw there (ranking (services.rerank query (candidate_texts (candidate ∷ candidates))))
      ]
    where
      ranking :
          (answer : Option (List (Reranked F)))
          → AllOf P (ranking_by services ctx query (candidate ∷ candidates) answer).candidates
      ranking none = h
      ranking (some []) = h
      ranking (some (entry ∷ entries)) =
          apply_rerank-AllOf P services.floats.zero_score (entry ∷ entries) (candidate ∷ candidates)
            h

  final_answer-AllCited :
      (include_debug : Bool) (found : ℕ) (ranking : Ranking F) (generation : Generation)
      (texts : Table ℕ String) (log_id : ℕ)
      → AllOf P ranking.candidates
      → AllCited P
          (final_answer services ctx query include_debug found ranking generation texts
            log_id).evidence
  unfolding final_answer sanitize_policy_answer to_policy_answer assemble_result
  final_answer-AllCited true found ranking generation texts log_id h =
      sanitized-AllCited P services.redactor _
        (build_evidence-AllCited P ranking.candidates texts h)
  final_answer-AllCited false found ranking generation texts log_id h =
      sanitized-AllCited P services.redactor _
        (build_evidence-AllCited P ranking.candidates texts h)

  abbrev AllOfAnswer : Result (RagPolicyAnswer F) → Type 0
  AllOfAnswer answered = WhenOk (λ answer. AllCited P answer.evidence) answered

  logged-WhenOk :
      {A : Type 0}
      → (Q : A → Type 0) (tenant_id : Option ℕ) (role : Option String)
        (log : ℕ → String → RagRetrievalLog) (answer : ℕ → A) (logs : Table ℕ RagRetrievalLog)
      → ((log_id : ℕ) → Q (answer log_id))
      → WhenOk Q
          ((create_retrieval_log services ctx query tenant_id role log >>= λ log_id.
              pure (answer log_id))
            logs).0
  logged-WhenOk Q none role log answer logs h = tt
  logged-WhenOk Q (some tenant_id) none log answer logs h = tt
  logged-WhenOk Q (some tenant_id) (some role) log answer logs h = h services.new_log_id

  insufficient-AllOfAnswer :
      (reason : String) (logs : Table ℕ RagRetrievalLog)
      → AllOfAnswer (insufficient services ctx query reason logs).0
  unfolding insufficient
  insufficient-AllOfAnswer reason logs =
      logged-WhenOk _ ctx.tenant_id ctx.role _ _ logs
        (λ log_id. unfold to_policy_answer assemble_result build_evidence in tt)

  answer_from-AllOfAnswer :
      (request : RagRetrievalQueryRequest) (conversation_messages : List ChatMessage)
      (pages : Table ℕ RagPage) (rows : List (Found F)) (logs : Table ℕ RagRetrievalLog)
      → AllFound P rows
      → AllOfAnswer (answer_from services ctx query request conversation_messages pages rows logs).0
  unfolding answer_from
  answer_from-AllOfAnswer request conversation_messages pages [] logs h =
      insufficient-AllOfAnswer "documents_replaced_during_retrieval" logs
  answer_from-AllOfAnswer request conversation_messages pages (row ∷ rows) logs h =
      logged-WhenOk _ ctx.tenant_id ctx.role _ _ logs (λ log_id.
        final_answer-AllCited request.include_debug _ _ _ _ log_id (
          rerank_candidates-AllOf _
            (vector_candidates-AllOf P services.floats pages 1 (row ∷ rows) h)))

-- What a stage of the query answers is about documents that the search found processed.
module _ {E F : Type 0} (services : Services E F) (ctx : TenantContext) (query : String)
    (reads : Reads E) where
  abbrev Current : ℕ → Type 0
  Current = IsCurrent ctx.tenant_id reads.searched reads.refreshed

  abbrev IsCurrentAnswer : Result (RagPolicyAnswer F) → Type 0
  IsCurrentAnswer answered = WhenOk (λ answer. AllCited Current answer.evidence) answered

  abbrev AllSearched : List (Found F) → Type 0
  AllSearched rows = AllFound (IsProcessed ctx.tenant_id reads.searched) rows

  fresh_rows :
      (ids : List ℕ) (session : Table ℕ RagDocument) (rows : List (Found F))
      → All
          (λ row.
            is_stale
              (get_documents_by_ids ctx.tenant_id ids session reads.refreshed)
              row.document_id
            ≡ false)
          rows
      → AllSearched rows
      → AllFound Current rows
  fresh_rows ids session [] h k = tt
  fresh_rows ids session (row ∷ rows) (p, h) (q, k) = (
    (q, not_stale-IsThere ctx.tenant_id ids session reads.refreshed row.document_id p),
    fresh_rows ids session rows h k,
  )

  answer_found-IsCurrentAnswer :
      (request : RagRetrievalQueryRequest) (conversation_messages : List ChatMessage)
      (session : Table ℕ RagDocument) (rows : List (Found F)) (logs : Table ℕ RagRetrievalLog)
      → AllSearched rows
      → IsCurrentAnswer
          (answer_found services ctx query request conversation_messages session reads rows logs).0
  unfolding answer_found
  answer_found-IsCurrentAnswer request conversation_messages session [] logs k =
      insufficient-AllOfAnswer services ctx query _ "no_vector_results" logs
  answer_found-IsCurrentAnswer request conversation_messages session (row ∷ rows) logs k =
      let ids = document_ids (row ∷ rows) in
      let held = session ++ loaded ids reads.searched in
      answer_from-AllOfAnswer services ctx query Current request conversation_messages _ _ logs (
        fresh_rows ids held _ (current_rows-All _ (row ∷ rows))
          (current_rows-kept _ _ (row ∷ rows) k))

  search-AllSearched :
      (request : RagRetrievalQueryRequest) (session : Table ℕ RagDocument) (embedding : E)
      → WhenOk AllSearched (search services ctx query request session reads embedding)
  search-AllSearched request session embedding = failing services.search_failure
    where
      rows : List (Found F)
      rows =
          search_chunks_by_embedding services.floats ctx.tenant_id embedding request.top_k session
            reads.searched reads.chunks

      failing :
          (failure : Option String)
          → WhenOk AllSearched (elim failure [
            | some reason ↦ err (failed services ctx query "Vector search failed: " reason)
            | none ↦ ok rows
          ])
      failing (some reason) = tt
      failing none =
          search_chunks_by_embedding-AllProcessed services.floats ctx.tenant_id embedding session
            reads.searched request.top_k reads.chunks

  answer_query-IsCurrentAnswer :
      (request : RagRetrievalQueryRequest) (conversation_messages : List ChatMessage)
      (documents : Table ℕ RagDocument) (logs : Table ℕ RagRetrievalLog)
      → IsCurrentAnswer
          (answer_query services ctx query request conversation_messages reads documents logs).0
  unfolding answer_query
  answer_query-IsCurrentAnswer request conversation_messages [] logs =
      insufficient-AllOfAnswer services ctx query _ "no_processed_documents" logs
  answer_query-IsCurrentAnswer request conversation_messages (row ∷ rows) logs =
      let session = row ∷ rows in
      lifted-WhenOk _ (λ embedding. Unit)
        (query_embedding services ctx query (services.embed (query ∷ []))) _ logs (WhenOk-any _)
        (λ embedding _.
          lifted-WhenOk _ AllSearched (search services ctx query request session reads embedding) _
            logs (search-AllSearched request session embedding)
            (λ found k.
              answer_found-IsCurrentAnswer request conversation_messages session found logs k))

checked-WhenOk :
    {A B : Type 0}
    → (Q : A → Type 0) (b : B) (result : Result B) (next : B → Exec (Table ℕ RagRetrievalLog) A)
      (logs : Table ℕ RagRetrievalLog)
    → ((passed : B) → result ≡ ok passed → passed ≡ b)
    → WhenOk Q (next b logs).0
    → WhenOk Q ((lift result >>= next) logs).0
checked-WhenOk Q b (ok c) next logs same h = rw (same c refl) h
checked-WhenOk Q b (err _) next logs same h = tt

-- Every piece of evidence of a policy answer is from a document of the tenant that was processed when
-- the search ran and whose row is still there at the check after it. The check does not see a status
-- that has changed since: the session holds the object that it loaded.
pub answer_policy_query-IsCurrent :
    {E F : Type 0}
    → (services : Services E F) (ctx : TenantContext) (reads : Reads E)
      (request : RagRetrievalQueryRequest) (logs : Table ℕ RagRetrievalLog)
      (answer : RagPolicyAnswer F)
    → (answer_policy_query services (some ctx) reads request logs).0 ≡ ok answer
    → All
        (λ e. IsCurrent ctx.tenant_id reads.searched reads.refreshed e.document_id)
        answer.evidence
unfolding answer_policy_query require_tenant
answer_policy_query-IsCurrent services ctx reads request logs answer returned =
    WhenOk-ok
      (λ answer. AllCited (IsCurrent ctx.tenant_id reads.searched reads.refreshed) answer.evidence)
      _ answer
      (checked-WhenOk _ ctx (require_tenant (some ctx)) _ logs (require_tenant-same ctx) asked)
      returned
  where
    asked :
        WhenOk
          (λ answer.
            AllCited (IsCurrent ctx.tenant_id reads.searched reads.refreshed) answer.evidence)
          ((raise_if
                (str_eq (strip request.query) "")
                (app_exception 400 "Query cannot be empty" "")
              >> answer_query services ctx
                  (strip request.query)
                  request
                  (normalize_history services.max_history_turns services.max_message_chars
                    request.conversation_messages)
                  reads
                  (list_processed_documents ctx.tenant_id reads.listed))
            logs).0
    asked = elim (Bool-cases (str_eq (strip request.query) "")) [
      | inl empty ↦ rw empty tt
      | inr some_query ↦
          rw some_query
            (answer_query-IsCurrentAnswer services ctx (strip request.query) reads request _ _ logs)
    ]
