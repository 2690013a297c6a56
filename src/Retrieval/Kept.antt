-- ===== src/Retrieval/Kept.antt =====
-- What the stages of `answer_policy_query` after the search keep of the documents.
use akar_ai.Prelude.{
  ℕ, ◌+◌, Option, none, some, List, [], ◌∷◌, All, String, leb, map, nat_key, Bool-cases, inl, inr,
}
use akar_ai.Table.{Table, find}
use akar_ai.Ingestion.Rows.{RagPage}
use akar_ai.Retrieval.Citations.{RetrievalCandidate}
use akar_ai.Retrieval.Assemble.{RagRetrievalEvidence, build_evidence}
use akar_ai.Retrieval.Search.{Floats, Found, vector_candidates}
use akar_ai.Retrieval.Rerank.{
  Reranked, ranked, sort_candidates, insert_candidate, sort_key, with_rank, apply_rerank,
}
use akar_ai.Retrieval.Redaction.{Redactor, sanitized_evidence}

module _ {F : Type 0} (P : ℕ → Type 0) where
  abbrev pub AllOf : List (RetrievalCandidate F) → Type 0
  AllOf candidates = All (λ candidate. P candidate.document_id) candidates

  abbrev pub AllFound : List (Found F) → Type 0
  AllFound rows = All (λ row. P row.document_id) rows

  abbrev pub AllCited : List (RagRetrievalEvidence F) → Type 0
  AllCited evidence = All (λ e. P e.document_id) evidence

  pub vector_candidates-AllOf :
      {E : Type 0}
      → (floats : Floats E F) (pages : Table ℕ RagPage) (rank : ℕ) (rows : List (Found F))
      → AllFound rows
      → AllOf (vector_candidates floats pages rank rows)
  unfolding vector_candidates
  vector_candidates-AllOf floats pages rank [] h = tt
  vector_candidates-AllOf floats pages rank (row ∷ rows) (p, h) =
      (p, vector_candidates-AllOf floats pages (rank + 1) rows h)

  insert_candidate-AllOf :
      (zero_score : F) (x : RetrievalCandidate F) (ys : List (RetrievalCandidate F))
      → P x.document_id
      → AllOf ys
      → AllOf (insert_candidate zero_score x ys)
  insert_candidate-AllOf zero_score x [] p h = (p, tt)
  insert_candidate-AllOf zero_score x (y ∷ ys) p (q, h) =
      elim (Bool-cases (leb (sort_key zero_score x) (sort_key zero_score y))) [
        | inl first ↦ rw first (p, (q, h))
        | inr later ↦ rw later (q, insert_candidate-AllOf zero_score x ys p h)
      ]

  sort_candidates-AllOf :
      (zero_score : F) (xs : List (RetrievalCandidate F))
      → AllOf xs
      → AllOf (sort_candidates zero_score xs)
  unfolding sort_candidates
  sort_candidates-AllOf zero_score [] h = tt
  sort_candidates-AllOf zero_score (x ∷ xs) (p, h) =
      insert_candidate-AllOf zero_score x (sort_candidates zero_score xs) p
        (sort_candidates-AllOf zero_score xs h)

  ranked-AllOf :
      (zero_score : F) (ranks : Table ℕ (ℕ × F)) (original : ℕ)
      (candidates : List (RetrievalCandidate F))
      → AllOf candidates
      → AllOf (ranked zero_score ranks original candidates)
  unfolding ranked
  ranked-AllOf zero_score ranks original [] h = tt
  ranked-AllOf zero_score ranks original (candidate ∷ candidates) (p, h) = (
    with_rank_keeps (find original ranks),
    ranked-AllOf zero_score ranks (original + 1) candidates h,
  )
    where
      with_rank_keeps :
          (rank : Option (ℕ × F)) → P (with_rank zero_score original rank candidate).document_id
      with_rank_keeps none = p
      with_rank_keeps (some (rank, score)) = p

  pub apply_rerank-AllOf :
      (zero_score : F) (entries : List (Reranked F)) (candidates : List (RetrievalCandidate F))
      → AllOf candidates
      → AllOf (apply_rerank zero_score entries candidates)
  unfolding apply_rerank
  apply_rerank-AllOf zero_score [] candidates h = h
  apply_rerank-AllOf zero_score (entry ∷ entries) candidates h =
      sort_candidates-AllOf zero_score _ (ranked-AllOf zero_score _ 0 candidates h)

  pub build_evidence-AllCited :
      (candidates : List (RetrievalCandidate F)) (texts : Table ℕ String)
      → AllOf candidates
      → AllCited (build_evidence candidates texts)
  unfolding build_evidence
  build_evidence-AllCited [] texts h = tt
  build_evidence-AllCited (candidate ∷ candidates) texts (p, h) =
      (p, build_evidence-AllCited candidates texts h)

  pub sanitized-AllCited :
      (redactor : Redactor) (evidence : List (RagRetrievalEvidence F))
      → AllCited evidence
      → AllCited (map (sanitized_evidence redactor) evidence)
  sanitized-AllCited redactor [] h = tt
  sanitized-AllCited redactor (e ∷ evidence) (p, h) = (p, sanitized-AllCited redactor evidence h)
