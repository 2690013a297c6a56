-- ===== src/Retrieval/Rerank.antt =====
-- Stages 5 and 6 of `RagRetrievalService.answer_policy_query`: the reranked candidates, the text of
-- their pages and the blocks of evidence for the generator.
use akar_ai.Prelude.{
  ℕ, ◌+◌, ◌-◌, ◌==◌, String, Option, none, some, List, [], ◌∷◌, take, str, str_eq, strip, format,
  leb, or_else, nat_key, if◌then◌else◌,
}
use akar_ai.Table.{Table, find, put}
use akar_ai.Ingestion.Rows.{RagPage}
use akar_ai.Retrieval.Text.{truncate_text}
use akar_ai.Retrieval.Citations.{RetrievalCandidate}

-- An entry of the reranker's answer.
pub record Reranked (F : Type 0) : Type 0 where
  pub index : Option ℕ
  pub score : Option F

module _ {F : Type 0} (zero_score : F) where
  -- `rerank_map` and `rerank_score_map` after the entries, the first of which has a given rank
  unfoldable pub rerank_maps : ℕ → List (Reranked F) → Table ℕ (ℕ × F) → Table ℕ (ℕ × F)
  rerank_maps rank [] ranks = ranks
  rerank_maps rank (entry ∷ entries) ranks =
      rerank_maps (rank + 1) entries
        (put (or_else entry.index (rank - 1)) (rank, or_else entry.score zero_score) ranks)

  abbrev pub with_rank : ℕ → Option (ℕ × F) → RetrievalCandidate F → RetrievalCandidate F
  with_rank original none candidate = record candidate {
    rerank_rank = some (original + 1);
    rerank_score = some zero_score;
  }
  with_rank original (some (rank, score)) candidate = record candidate {
    rerank_rank = some rank;
    rerank_score = some score;
  }

  unfoldable pub ranked :
      Table ℕ (ℕ × F) → ℕ → List (RetrievalCandidate F) → List (RetrievalCandidate F)
  ranked ranks original [] = []
  ranked ranks original (candidate ∷ candidates) =
      with_rank original (find original ranks) candidate ∷ ranked ranks (original + 1) candidates

  -- `c.rerank_rank or 999`
  abbrev pub sort_key : RetrievalCandidate F → ℕ
  sort_key candidate = elim candidate.rerank_rank [
    | none ↦ 999
    | some rank ↦ if rank == 0 then 999 else rank
  ]

  abbrev pub insert_candidate :
      RetrievalCandidate F → List (RetrievalCandidate F) → List (RetrievalCandidate F)
  insert_candidate x [] = x ∷ []
  insert_candidate x (y ∷ ys) =
      let rest = insert_candidate x ys in
      if leb (sort_key x) (sort_key y) then x ∷ y ∷ ys else y ∷ rest

  unfoldable pub sort_candidates : List (RetrievalCandidate F) → List (RetrievalCandidate F)
  sort_candidates [] = []
  sort_candidates (x ∷ xs) = insert_candidate x (sort_candidates xs)

  -- `if rerank_results and len(rerank_results) > 0`
  unfoldable pub apply_rerank :
      List (Reranked F) → List (RetrievalCandidate F) → List (RetrievalCandidate F)
  apply_rerank [] candidates = candidates
  apply_rerank (entry ∷ entries) candidates =
      sort_candidates (ranked (rerank_maps 1 (entry ∷ entries) []) 0 candidates)

-- `page_id_to_text`
abbrev pub page_texts : Table ℕ RagPage → Table ℕ String
page_texts [] = []
page_texts ((id, page) ∷ pages) =
    let rest = page_texts pages in
    if str_eq page.content "" then rest else (id, page.content) ∷ rest

abbrev collect_texts : Table ℕ String → List ℕ → Table ℕ String → Table ℕ String
collect_texts texts [] collected = collected
collect_texts texts (id ∷ ids) collected = collect_texts texts ids (elim (find id collected) [
  | some text ↦ collected
  | none ↦ elim (find id texts) [ none ↦ collected | some text ↦ put id text collected ]
])

-- `parent_page_text`, the texts of the candidates' pages
unfoldable pub parent_texts :
    {F : Type 0} → Table ℕ String → List (RetrievalCandidate F) → Table ℕ String → Table ℕ String
parent_texts texts [] collected = collected
parent_texts texts (candidate ∷ candidates) collected =
    parent_texts texts candidates (collect_texts texts candidate.page_ids collected)

abbrev text_of_page : Table ℕ String → ℕ → String
text_of_page parent_page_text id = or_else (find id parent_page_text) ""

-- The texts of the pages that have one, joined by spaces
abbrev join_texts : String → String → String
join_texts text rest = if str_eq rest "" then text else format (text ∷ " " ∷ rest ∷ [])

abbrev page_context : Table ℕ String → List ℕ → String
page_context parent_page_text [] = ""
page_context parent_page_text (id ∷ ids) =
    let rest = page_context parent_page_text ids in
    let text = text_of_page parent_page_text id in
    if str_eq text "" then rest else join_texts text rest

abbrev join_numbers : List ℕ → String
join_numbers [] = ""
join_numbers (n ∷ ns) =
    let rest = join_numbers ns in
    if n == 0 then rest else if str_eq rest "" then str n else format (str n ∷ ", " ∷ rest ∷ [])

abbrev or_text : String → String → String
or_text text other = if str_eq text "" then other else text

module _ {F : Type 0} where
  abbrev evidence_block : Table ℕ String → ℕ → RetrievalCandidate F → String
  evidence_block parent_page_text index candidate =
      let context = strip (page_context parent_page_text candidate.page_ids) in
      format (
        "[Source "
        ∷ str index
        ∷ "] "
        ∷ candidate.document_filename
        ∷ " | pages "
        ∷ join_numbers candidate.page_numbers
        ∷ "\n"
        ∷ truncate_text (or_text context candidate.text) 1600
        ∷ [])

  abbrev blocks_from : Table ℕ String → ℕ → List (RetrievalCandidate F) → List String
  blocks_from parent_page_text index [] = []
  blocks_from parent_page_text index (candidate ∷ candidates) =
      evidence_block parent_page_text index candidate
      ∷ blocks_from parent_page_text (index + 1) candidates

  unfoldable pub build_evidence_blocks : List (RetrievalCandidate F) → Table ℕ String → List String
  build_evidence_blocks candidates parent_page_text =
      blocks_from parent_page_text 1 (take 6 candidates)
