-- ===== src/Retrieval/Citations.antt =====
-- `build_citations` of backend/app/rag/retrieval.py.
use akar_ai.Prelude.{
  ℕ, ◌+◌, ◌==◌, String, ◌≡◌, refl, Bool, true, false, ◌&&◌, ◌||◌, Option, List, [], ◌∷◌, ◌++◌,
  arith, Bool-cases, inl, inr, if◌then◌else◌,
}
use akar_ai.Table.{bit}
use akar_ai.Retrieval.Text.{source_label}

-- The scores are floats of the database and of the reranker, which are only passed on.
pub record RetrievalCandidate (F : Type 0) : Type 0 where
  pub chunk_id : ℕ
  pub document_id : ℕ
  pub document_filename : String
  pub page_ids : List ℕ
  pub page_numbers : List ℕ
  pub text : String
  pub vector_rank : ℕ
  pub vector_score : F
  pub rerank_rank : Option ℕ
  pub rerank_score : Option F

pub record RagRetrievalCitation : Type 0 where
  pub document_id : ℕ
  pub document_filename : String
  pub page_number : ℕ
  pub source_label : String

-- `key in seen`
abbrev pub is_seen : ℕ → ℕ → List (ℕ × ℕ) → Bool
is_seen document_id page_number [] = false
is_seen document_id page_number ((d, p) ∷ seen) =
    (d == document_id && p == page_number) || is_seen document_id page_number seen

pub record Cited : Type 0 where
  pub seen : List (ℕ × ℕ)
  pub citations : List RagRetrievalCitation

abbrev pub citation : ℕ → String → ℕ → RagRetrievalCitation
citation document_id document_filename page_number = record {
  document_id = document_id;
  document_filename = document_filename;
  page_number = page_number;
  source_label = source_label document_filename (page_number ∷ []);
}

-- A page of a candidate, cited unless it was seen.
unfoldable pub cite_page : ℕ → String → ℕ → Cited → Cited
cite_page document_id document_filename page_number cited =
    if is_seen document_id page_number cited.seen then cited else record {
      seen = (document_id, page_number) ∷ cited.seen;
      citations = cited.citations ++ citation document_id document_filename page_number ∷ [];
    }

-- The inner loop, over the pages of a candidate.
unfoldable pub cite_pages : ℕ → String → List ℕ → Cited → Cited
cite_pages document_id document_filename [] cited = cited
cite_pages document_id document_filename (page_number ∷ page_numbers) cited =
    cite_pages document_id document_filename page_numbers
      (cite_page document_id document_filename page_number cited)

-- How often a page of a document is cited.
abbrev pub times_cited : ℕ → ℕ → List RagRetrievalCitation → ℕ
times_cited d p [] = 0
times_cited d p (c ∷ citations) =
    bit (c.document_id == d && c.page_number == p) + times_cited d p citations

abbrev pub has_page : ℕ → List ℕ → Bool
has_page p [] = false
has_page p (page_number ∷ page_numbers) = page_number == p || has_page p page_numbers

module _ {F : Type 0} where
  unfoldable pub cite_all : List (RetrievalCandidate F) → Cited → Cited
  cite_all [] cited = cited
  cite_all (candidate ∷ candidates) cited =
      cite_all candidates
        (cite_pages candidate.document_id candidate.document_filename candidate.page_numbers cited)

  unfoldable pub build_citations : List (RetrievalCandidate F) → List RagRetrievalCitation
  build_citations candidates =
      (cite_all candidates (record { seen = []; citations = [] })).citations

  -- Some candidate of the document has the page.
  abbrev pub is_evidence : ℕ → ℕ → List (RetrievalCandidate F) → Bool
  is_evidence d p [] = false
  is_evidence d p (candidate ∷ candidates) =
      (candidate.document_id == d && has_page p candidate.page_numbers)
      || is_evidence d p candidates

module _ (d p : ℕ) where
  times_cited-append :
      (xs ys : List RagRetrievalCitation)
      → times_cited d p (xs ++ ys) ≡ times_cited d p xs + times_cited d p ys
  times_cited-append [] ys = omega arith
  times_cited-append (x ∷ xs) ys = ground (arith, times_cited-append xs ys)

  -- What is cited was seen, and is cited once.
  abbrev IsOnce : Cited → Type 0
  IsOnce cited = times_cited d p cited.citations ≡ bit (is_seen d p cited.seen)

  is_seen_here :
      (a b : ℕ) (seen : List (ℕ × ℕ))
      → (a == d && b == p) ≡ true
      → is_seen a b seen ≡ is_seen d p seen
  is_seen_here a b seen e =
      let same_a : a ≡ d = ground arith in
      let same_b : b ≡ p = ground arith in rw (same_a, same_b) refl

  cite_page-IsOnce :
      (document_id : ℕ) (document_filename : String) (page_number : ℕ) (cited : Cited)
      → IsOnce cited
      → IsOnce (cite_page document_id document_filename page_number cited)
        × (is_seen d p (cite_page document_id document_filename page_number cited).seen
            ≡ ((document_id == d && page_number == p) || is_seen d p cited.seen))
  unfolding cite_page
  cite_page-IsOnce document_id document_filename page_number cited once =
      elim (Bool-cases (is_seen document_id page_number cited.seen)) [
        | inl seen ↦
            rw seen (once, ground (arith, seen, is_seen_here document_id page_number cited.seen))
        | inr new ↦ rw new (
          ground (
            arith,
            once,
            new,
            is_seen_here document_id page_number cited.seen,
            times_cited-append cited.citations
                (citation document_id document_filename page_number ∷ []),
          ),
          refl,
        )
      ]

  cite_pages-IsOnce :
      (document_id : ℕ) (document_filename : String) (page_numbers : List ℕ) (cited : Cited)
      → IsOnce cited
      → IsOnce (cite_pages document_id document_filename page_numbers cited)
        × (is_seen d p (cite_pages document_id document_filename page_numbers cited).seen
            ≡ ((document_id == d && has_page p page_numbers) || is_seen d p cited.seen))
  unfolding cite_pages
  cite_pages-IsOnce document_id document_filename [] cited once = (once, ground arith)
  cite_pages-IsOnce document_id document_filename (page_number ∷ page_numbers) cited once =
      let step = cite_page-IsOnce document_id document_filename page_number cited once in
      let rest =
        cite_pages-IsOnce document_id document_filename page_numbers
          (cite_page document_id document_filename page_number cited) step.0 in
      (rest.0, ground (arith, step.1, rest.1))

  module _ {F : Type 0} where
    cite_all-IsOnce :
        (candidates : List (RetrievalCandidate F)) (cited : Cited)
        → IsOnce cited
        → IsOnce (cite_all candidates cited)
          × (is_seen d p (cite_all candidates cited).seen
              ≡ (is_evidence d p candidates || is_seen d p cited.seen))
    unfolding cite_all
    cite_all-IsOnce [] cited once = (once, refl)
    cite_all-IsOnce (candidate ∷ candidates) cited once =
        let step =
          cite_pages-IsOnce candidate.document_id candidate.document_filename candidate.page_numbers
            cited once in
        let rest =
          cite_all-IsOnce candidates
            (cite_pages candidate.document_id candidate.document_filename candidate.page_numbers
              cited)
            step.0 in
        (rest.0, ground (arith, step.1, rest.1))

    -- Each page of each document is cited once when a candidate has it, and never otherwise, however
    -- many candidates have it.
    pub build_citations-once :
        (candidates : List (RetrievalCandidate F))
        → times_cited d p (build_citations candidates) ≡ bit (is_evidence d p candidates)
    unfolding build_citations
    build_citations-once candidates =
        let all = cite_all-IsOnce candidates (record { seen = []; citations = [] }) refl in
        ground (arith, all.0, all.1)
