-- ===== src/Retrieval/Grounded.antt =====
-- What the answers of backend/app/rag/retrieval.py cite.
use akar_ai.Prelude.{
  ℕ, ◌≡◌, ◌↔◌, ◌≤◌, refl, String, Bool, false, ◌==◌, ◌&&◌, ◌||◌, List, [], ◌∷◌, All, length, codes,
  str_eq, str_eq_iff, arith, Bool-cases, inl, inr,
}
use akar_ai.Table.{Table, bit}
use akar_ai.Retrieval.Text.{truncate_text-bounded}
use akar_ai.Retrieval.Citations.{
  RetrievalCandidate, times_cited, has_page, is_evidence, build_citations-once,
}
use akar_ai.Retrieval.Assemble.{
  RagRetrievalEvidence, RagPolicyAnswer, Retrieved, build_evidence, assemble_result,
  to_policy_answer,
}

module _ {F : Type 0} where
  -- Some piece of evidence is on the page of the document.
  abbrev pub is_backed : ℕ → ℕ → List (RagRetrievalEvidence F) → Bool
  is_backed d p [] = false
  is_backed d p (e ∷ evidence) =
      (e.document_id == d && has_page p e.page_numbers) || is_backed d p evidence

  build_evidence_backed :
      (d p : ℕ) (candidates : List (RetrievalCandidate F)) (texts : Table ℕ String)
      → is_backed d p (build_evidence candidates texts) ≡ is_evidence d p candidates
  unfolding build_evidence
  build_evidence_backed d p [] texts = refl
  build_evidence_backed d p (candidate ∷ candidates) texts =
      rw (build_evidence_backed d p candidates texts) refl

  abbrev IsShort : RagRetrievalEvidence F → Type 0
  IsShort e = length (codes e.text_preview) ≤ 240

  build_evidence-IsShort :
      (candidates : List (RetrievalCandidate F)) (texts : Table ℕ String)
      → All IsShort (build_evidence candidates texts)
  unfolding build_evidence
  build_evidence-IsShort [] texts = _
  build_evidence-IsShort (candidate ∷ candidates) texts = (
    truncate_text-bounded candidate.text 240 (omega arith),
    build_evidence-IsShort candidates texts,
  )

  -- An answer without evidence says so, and only such an answer; its citations are the pages of its
  -- evidence, each cited once; and its previews are short.
  abbrev pub IsGrounded : RagPolicyAnswer F → Type 0
  IsGrounded answer =
      ((answer.status ≡ "insufficient_evidence") ↔ (answer.evidence ≡ []))
      × ((d p : ℕ) → times_cited d p answer.citations ≡ bit (is_backed d p answer.evidence))
      × All IsShort answer.evidence

  insufficient_iff :
      (query : String) (candidates : List (RetrievalCandidate F)) (r : Retrieved)
      → ((assemble_result query candidates r).status ≡ "insufficient_evidence")
        ↔ (build_evidence candidates r.parent_page_text ≡ [])
  unfolding assemble_result build_evidence
  insufficient_iff query [] r = ((λ _. refl), λ _. refl)
  insufficient_iff query (candidate ∷ candidates) r =
      elim (Bool-cases (str_eq r.confidence_status "fallback")) [
        | inl partial ↦ rw partial (
          (λ h. absurd (ground (arith, h, str_eq_iff "fallback" "insufficient_evidence"))),
          λ h. absurd (ground (arith, h)),
        )
        | inr sure ↦ rw sure (
          (λ h. absurd (ground (arith, h, str_eq_iff "answered" "insufficient_evidence"))),
          λ h. absurd (ground (arith, h)),
        )
      ]

  -- An answer that is assembled has the status for insufficient evidence exactly when it has no
  -- evidence; it cites every page of its evidence once and no other page; and each preview has at
  -- most 240 characters.
  pub assemble_result-IsGrounded :
      (query : String) (candidates : List (RetrievalCandidate F)) (r : Retrieved)
      → IsGrounded (to_policy_answer (assemble_result query candidates r))
  unfolding to_policy_answer assemble_result
  assemble_result-IsGrounded query candidates r = (
    insufficient_iff query candidates r,
    (λ d p.
        rw (build_evidence_backed d p candidates r.parent_page_text)
          (build_citations-once d p candidates)),
    build_evidence-IsShort candidates r.parent_page_text,
  )
