-- ===== src/Retrieval/Search.antt =====
-- Stages 1 to 4 of `RagRetrievalService.answer_policy_query`, and the queries of
-- backend/app/rag/repository.py behind them. The distance of two embeddings (pgvector) and the
-- arithmetic of floats are given.
use akar_ai.Prelude.{
  ℕ, ◌+◌, ◌==◌, String, Bool, true, false, not, ◌&&◌, ◌||◌, Option, none, some, List, [], ◌∷◌, ◌++◌,
  take, min, max, str_eq, some_is, leb, or_else, nat_key, if◌then◌else◌,
}
use akar_ai.Table.{Table, find}
use akar_ai.Ingestion.Rows.{RagDocument, RagPage, RagChunk}
use akar_ai.Retrieval.Citations.{RetrievalCandidate}

-- What the code does with floats and embeddings.
pub record Floats (E F : Type 0) : Type 0 where
  pub cosine_distance : E → E → F
  pub le : F → F → Bool
  -- `1.0 - min(distance, 1.0)`
  pub score_of : F → F
  pub zero_score : F

-- A row of the search: a chunk with its document and the distance.
pub record Found (F : Type 0) : Type 0 where
  pub chunk_id : ℕ
  pub document_id : ℕ
  pub filename : String
  pub page_ids : List ℕ
  pub text : String
  pub distance : F

abbrev pub is_processed : Option ℕ → RagDocument → Bool
is_processed tenant_id document =
    some_is tenant_id document.tenant_id && str_eq document.status "processed"

-- `list_processed_documents`
unfoldable pub list_processed_documents : Option ℕ → Table ℕ RagDocument → Table ℕ RagDocument
list_processed_documents tenant_id [] = []
list_processed_documents tenant_id ((id, document) ∷ documents) =
    let rest = list_processed_documents tenant_id documents in
    if is_processed tenant_id document then (id, document) ∷ rest else rest

abbrev pub nat_in : ℕ → List ℕ → Bool
nat_in id [] = false
nat_in id (i ∷ ids) = i == id || nat_in id ids

-- The object of a row: SQLAlchemy's session gives the one that it has already loaded, with its values
-- of then (`populate_existing` is not set), and makes one of the row otherwise.
abbrev pub object_of : Table ℕ RagDocument → ℕ → RagDocument → RagDocument
object_of session id row = or_else (find id session) row

-- The rows of some ids that the session loads.
unfoldable pub loaded : List ℕ → Table ℕ RagDocument → Table ℕ RagDocument
loaded ids [] = []
loaded ids ((id, document) ∷ documents) =
    let rest = loaded ids documents in if nat_in id ids then (id, document) ∷ rest else rest

-- `get_documents_by_ids`, by the objects of the session
unfoldable pub get_documents_by_ids :
    Option ℕ → List ℕ → Table ℕ RagDocument → Table ℕ RagDocument → Table ℕ RagDocument
get_documents_by_ids tenant_id ids session [] = []
get_documents_by_ids tenant_id ids session ((id, document) ∷ documents) =
    let rest = get_documents_by_ids tenant_id ids session documents in
    if some_is tenant_id document.tenant_id && nat_in id ids
    then (id, object_of session id document) ∷ rest
    else rest

-- `list_parent_pages`
unfoldable pub list_parent_pages : Option ℕ → List ℕ → Table ℕ RagPage → Table ℕ RagPage
list_parent_pages tenant_id ids [] = []
list_parent_pages tenant_id ids ((id, page) ∷ pages) =
    let rest = list_parent_pages tenant_id ids pages in
    if some_is tenant_id page.tenant_id && nat_in id ids then (id, page) ∷ rest else rest

-- `sorted(...)` of the page numbers
abbrev insert_number : ℕ → List ℕ → List ℕ
insert_number n [] = n ∷ []
insert_number n (m ∷ ms) = let rest = insert_number n ms in if leb n m then n ∷ m ∷ ms else m ∷ rest

unfoldable pub page_numbers_of : Table ℕ RagPage → List ℕ → List ℕ
page_numbers_of pages [] = []
page_numbers_of pages (id ∷ ids) =
    let rest = page_numbers_of pages ids in
    insert_number (elim (find id pages) [ none ↦ 0 | some page ↦ page.page_number ]) rest

module _ {E F : Type 0} (floats : Floats E F) where
  abbrev pub insert_found : Found F → List (Found F) → List (Found F)
  insert_found x [] = x ∷ []
  insert_found x (y ∷ ys) =
      let rest = insert_found x ys in
      if floats.le x.distance y.distance then x ∷ y ∷ ys else y ∷ rest

  -- The row of a chunk with its document, when it satisfies the conditions of the query.
  abbrev pub with_document :
      Option ℕ
      → Table ℕ RagDocument
      → ℕ
      → RagChunk (Option E)
      → F
      → Option RagDocument
      → List (Found F)
      → List (Found F)
  with_document tenant_id session id chunk distance none rows = rows
  with_document tenant_id session id chunk distance (some document) rows =
      if some_is tenant_id chunk.tenant_id
        && str_eq chunk.status "active"
        && is_processed tenant_id document
      then insert_found
          (record {
            chunk_id = id;
            document_id = chunk.document_id;
            filename = (object_of session chunk.document_id document).filename;
            page_ids = chunk.page_ids;
            text = chunk.text;
            distance = distance;
          })
          rows
      else rows

  -- The rows of `search_chunks_by_embedding` before its limit, by distance; rows at one distance come in
  -- the order of the table.
  unfoldable pub matching_chunks :
      Option ℕ
      → E
      → Table ℕ RagDocument
      → Table ℕ RagDocument
      → Table ℕ (RagChunk (Option E))
      → List (Found F)
  matching_chunks tenant_id query session documents [] = []
  matching_chunks tenant_id query session documents ((id, chunk) ∷ chunks) =
      let rest = matching_chunks tenant_id query session documents chunks in
      elim chunk.embedding [
        | none ↦ rest
        | some embedding ↦
            with_document tenant_id session id chunk (floats.cosine_distance embedding query)
              (find chunk.document_id documents) rest
      ]

  unfoldable pub search_chunks_by_embedding :
      Option ℕ
      → E
      → ℕ
      → Table ℕ RagDocument
      → Table ℕ RagDocument
      → Table ℕ (RagChunk (Option E))
      → List (Found F)
  search_chunks_by_embedding tenant_id query top_k session documents chunks =
      take (min (max 1 top_k) 20) (matching_chunks tenant_id query session documents chunks)

  -- The candidates, ranked from a number on.
  unfoldable pub vector_candidates :
      Table ℕ RagPage → ℕ → List (Found F) → List (RetrievalCandidate F)
  vector_candidates pages rank [] = []
  vector_candidates pages rank (row ∷ rows) =
      record {
        chunk_id = row.chunk_id;
        document_id = row.document_id;
        document_filename = row.filename;
        page_ids = row.page_ids;
        page_numbers = page_numbers_of pages row.page_ids;
        text = row.text;
        vector_rank = rank;
        vector_score = floats.score_of row.distance;
        rerank_rank = none;
        rerank_score = none;
      }
      ∷ vector_candidates pages (rank + 1) rows

abbrev pub is_stale : Table ℕ RagDocument → ℕ → Bool
is_stale refreshed id = elim (find id refreshed) [
  | none ↦ true
  | some document ↦ not (str_eq document.status "processed")
]

unfoldable pub stale_doc_ids : Table ℕ RagDocument → List ℕ → List ℕ
stale_doc_ids refreshed [] = []
stale_doc_ids refreshed (id ∷ ids) =
    let rest = stale_doc_ids refreshed ids in if is_stale refreshed id then id ∷ rest else rest

module _ {F : Type 0} where
  abbrev pub document_ids : List (Found F) → List ℕ
  document_ids [] = []
  document_ids (row ∷ rows) = row.document_id ∷ document_ids rows

  abbrev pub all_page_ids : List (Found F) → List ℕ
  all_page_ids [] = []
  all_page_ids (row ∷ rows) = row.page_ids ++ all_page_ids rows

  unfoldable pub without_stale : List ℕ → List (Found F) → List (Found F)
  without_stale stale [] = []
  without_stale stale (row ∷ rows) =
      let rest = without_stale stale rows in
      if nat_in row.document_id stale then rest else row ∷ rest

  -- `filtered_distances`, or all rows when no document is stale
  unfoldable pub current_rows : Table ℕ RagDocument → List (Found F) → List (Found F)
  current_rows refreshed rows = elim (stale_doc_ids refreshed (document_ids rows)) [
    | [] ↦ rows
    | id ∷ ids ↦ without_stale (id ∷ ids) rows
  ]
