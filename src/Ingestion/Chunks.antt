-- ===== src/Ingestion/Chunks.antt =====
-- The texts of a document's pages, its chunks, and the chunks by hash: `extract_text_from_pdf`,
-- `create_chunks_from_pages` and the dict of the handler in workers/handlers/rag.py. PyMuPDF, fastcdc
-- with the decoding of its pieces, and SHA-256 are given.
use akar_ai.Prelude.{
  ℕ, String, Bool, Option, none, some, List, [], ◌∷◌, ◌++◌, str_eq, strip, text_key, if◌then◌else◌,
}
use akar_ai.Table.{Table, find, put}
use akar_ai.Ingestion.Rows.{RagPage}

-- `not text.strip()`
abbrev pub is_blank : String → Bool
is_blank text = str_eq (strip text) ""

-- The texts that `page.get_text()` gives for the pages.
unfoldable pub extract_text_from_pdf : List String → List String
extract_text_from_pdf [] = []
extract_text_from_pdf (text ∷ texts) =
    let rest = extract_text_from_pdf texts in if is_blank text then rest else text ∷ rest

pub record ChunkData : Type 0 where
  pub text : String
  pub page_ids : List ℕ
  pub content_hash : String

module _ (fastcdc : String → List String) (sha256 : String → String) where
  unfoldable pub chunks_of_page : ℕ → List String → List ChunkData
  chunks_of_page page_id [] = []
  chunks_of_page page_id (text ∷ texts) =
      let rest = chunks_of_page page_id texts in
      if is_blank text
      then rest
      else record { text = text; page_ids = page_id ∷ []; content_hash = sha256 text } ∷ rest

  unfoldable pub create_chunks_from_pages : Table ℕ RagPage → List ChunkData
  create_chunks_from_pages [] = []
  create_chunks_from_pages ((id, page) ∷ pages) =
      let rest = create_chunks_from_pages pages in
      if is_blank page.content then rest else chunks_of_page id (fastcdc page.content) ++ rest

abbrev merged : ChunkData → Option ChunkData → ChunkData
merged chunk none = chunk
merged chunk (some old) = record old { page_ids = old.page_ids ++ chunk.page_ids }

-- The loop that fills `chunks_by_hash`.
unfoldable pub chunks_by_hash : List ChunkData → Table String ChunkData → Table String ChunkData
chunks_by_hash [] by_hash = by_hash
chunks_by_hash (chunk ∷ chunks) by_hash =
    chunks_by_hash chunks
      (put chunk.content_hash (merged chunk (find chunk.content_hash by_hash)) by_hash)
