-- ===== src/Ingestion/Handler.antt =====
-- `handle_rag_document_uploaded` of workers/handlers/rag.py, with `hard_delete_document` of
-- backend/app/rag/repository.py. The handler commits twice: after it has set the status `processing`,
-- and at its end. What the storage, PyMuPDF, the embedding provider and the database answer is given
-- as an `Outside`; the row-level context of the worker is left out.
use akar_ai.Prelude.{
  ℕ, ◌+◌, ◌==◌, String, Bool, true, false, Option, none, some, List, [], ◌∷◌, map, format, str,
  nat_key, text_key, if◌then◌else◌,
}
use akar_ai.Exec.{Error, uncaught, Result, ok, err}
use akar_ai.Table.{Table, find, put, delete}
use akar_ai.Ingestion.Rows.{RagDocument, RagPage, RagChunk}
use akar_ai.Ingestion.Chunks.{
  ChunkData, extract_text_from_pdf, create_chunks_from_pages, chunks_by_hash,
}
use akar_ai.Ingestion.Reconcile.{existing_by_hash, new_hashes, reconcile}

pub record Vault (E : Type 0) : Type 0 where
  pub documents : Table ℕ RagDocument
  pub pages : Table ℕ RagPage
  pub chunks : Table ℕ (RagChunk E)
  pub blobs : Table String (List ℕ)

pub record Outside (E : Type 0) : Type 0 where
  pub fitz : List ℕ → Result (List String)
  pub utf8 : String → List ℕ
  pub fastcdc : String → List String
  pub sha256 : String → String
  pub embed : List String → Result (List E)
  -- whether the first SELECT and the first commit go through
  pub selects : Bool
  pub begins : Bool
  -- whether the upload of a page, the deletion of an object, the writes of the success path and
  -- those of the hard delete go through
  pub uploads : String → Bool
  pub deletes : String → Bool
  pub flushes : Bool
  pub hard_deletes : Bool
  -- the ids that `uuid4` draws
  pub page_id : ℕ → ℕ
  pub chunk_id : ℕ → ℕ

-- Delete the rows with a property.
unfoldable pub delete_where {ℓ} : {V : Type ℓ} → (V → Bool) → Table ℕ V → Table ℕ V
delete_where p [] = []
delete_where p ((k, v) ∷ t) = let rest = delete_where p t in if p v then rest else (k, v) ∷ rest

module _ {E : Type 0} (outside : Outside E) where
  -- `delete_object` in a `try` that only logs
  abbrev pub delete_object : String → Vault E → Vault E
  delete_object path v =
      if outside.deletes path then record v { blobs = delete path v.blobs } else v

  -- `_cleanup_page_blobs`
  unfoldable pub cleanup_page_blobs : List String → Vault E → Vault E
  cleanup_page_blobs [] v = v
  cleanup_page_blobs (path ∷ paths) v = cleanup_page_blobs paths (delete_object path v)

  -- The paths of a document's pages.
  unfoldable pub paths_of : ℕ → Table ℕ RagPage → List String
  paths_of document_id [] = []
  paths_of document_id ((id, page) ∷ pages) =
      let rest = paths_of document_id pages in
      if page.document_id == document_id then page.blob_path ∷ rest else rest

  -- `RagRepository.hard_delete_document`
  unfoldable pub hard_delete_document : ℕ → Vault E → Vault E
  hard_delete_document document_id v = record v {
    chunks = delete_where (λ c. c.document_id == document_id) v.chunks;
    pages = delete_where (λ p. p.document_id == document_id) v.pages;
    documents = delete document_id v.documents;
  }

  unfoldable pub hard_delete_failed_document : ℕ → RagDocument → Vault E → Vault E
  hard_delete_failed_document document_id document v =
      let v1 =
        cleanup_page_blobs (paths_of document_id v.pages) (delete_object document.blob_path v) in
      if outside.hard_deletes then hard_delete_document document_id v1 else v1

  module _ (document_id tenant_id : ℕ) where
    abbrev pub page_blob_path : ℕ → String
    page_blob_path page_num = format (
        "rag-vault/"
        ∷ str tenant_id
        ∷ "/"
        ∷ str document_id
        ∷ "/pages/page_"
        ∷ str page_num
        ∷ ".txt"
        ∷ [])

    abbrev pub new_page : ℕ → String → RagPage
    new_page page_num text = record {
      document_id = document_id;
      tenant_id = tenant_id;
      page_number = page_num;
      blob_path = page_blob_path page_num;
      content = text;
    }

    -- The uploads of the pages, from a number on, with the paths of those that went through.
    unfoldable pub upload_pages : ℕ → List String → Vault E → Bool × List String × Vault E
    upload_pages page_num [] v = (true, [], v)
    upload_pages page_num (text ∷ texts) v =
        let path = page_blob_path page_num in
        let rest =
          upload_pages (page_num + 1) texts
            (record v { blobs = put path (outside.utf8 text) v.blobs }) in
        if outside.uploads path then (rest.0, path ∷ rest.1, rest.2) else (false, [], v)

    unfoldable pub build_pages : ℕ → List String → Table ℕ RagPage
    build_pages page_num [] = []
    build_pages page_num (text ∷ texts) =
        (outside.page_id page_num, new_page page_num text) ∷ build_pages (page_num + 1) texts

    unfoldable pub add_pages : Table ℕ RagPage → Table ℕ RagPage → Table ℕ RagPage
    add_pages [] pages = pages
    add_pages ((id, page) ∷ new_pages) pages = add_pages new_pages (put id page pages)

    abbrev texts_of : Table String ChunkData → List String
    texts_of data_ = map (λ row. row.1.text) data_

    -- The embeddings of the new hashes; the provider is not called when there are none.
    abbrev pub embeddings_of : Table String ChunkData → Result (List E)
    embeddings_of [] = ok []
    embeddings_of (row ∷ data_) = outside.embed (texts_of (row ∷ data_))

    -- The handlers of the failures: the last one raises again.
    unfoldable pub give_up : RagDocument → List String → Vault E → Result (Unit {0}) × Vault E
    give_up document paths v =
        (ok tt, hard_delete_failed_document document_id document (cleanup_page_blobs paths v))

    unfoldable pub fail : RagDocument → List String → Error → Vault E → Result (Unit {0}) × Vault E
    fail document paths e v =
        (err e, hard_delete_failed_document document_id document (cleanup_page_blobs paths v))

    -- The end of the success path: the second commit.
    abbrev pub committed : RagDocument → Table ℕ RagPage → Table ℕ (RagChunk E) → Vault E → Vault E
    committed document new_pages chunks v = record v {
      documents = put document_id (record document { status = "processed" }) v.documents;
      pages = add_pages new_pages (delete_where (λ p. p.document_id == document_id) v.pages);
      chunks = chunks;
    }

    abbrev pub commit_chunks :
        RagDocument
        → List String
        → Table ℕ RagPage
        → Option (Table ℕ (RagChunk E))
        → Vault E
        → Result (Unit {0}) × Vault E
    commit_chunks document paths new_pages none v =
        fail document paths (uncaught "list index out of range") v
    commit_chunks document paths new_pages (some chunks) v =
        if outside.flushes
        then (ok tt, committed document new_pages chunks v)
        else fail document paths (uncaught "flush") v

    abbrev pub store_chunks :
        RagDocument
        → List String
        → Table ℕ RagPage
        → Table String ChunkData
        → Result (List E)
        → Vault E
        → Result (Unit {0}) × Vault E
    store_chunks document paths new_pages active (err e) v = give_up document paths v
    store_chunks document paths new_pages active (ok embeddings) v =
        commit_chunks document paths new_pages
          (reconcile document_id outside.chunk_id tenant_id active embeddings v.chunks) v

    unfoldable pub process_chunks :
        RagDocument
        → List String
        → Table ℕ RagPage
        → List ChunkData
        → Vault E
        → Result (Unit {0}) × Vault E
    process_chunks document paths new_pages [] v = give_up document paths v
    process_chunks document paths new_pages (chunk ∷ data_) v =
        let active = chunks_by_hash (chunk ∷ data_) [] in
        store_chunks document paths new_pages active
          (embeddings_of (new_hashes (existing_by_hash document_id v.chunks []) active)) v

    unfoldable pub process_pages : RagDocument → List String → Vault E → Result (Unit {0}) × Vault E
    process_pages document [] v = give_up document [] v
    process_pages document (text ∷ texts) v =
        let (sent, paths, v1) = upload_pages 1 (text ∷ texts) v in
        let new_pages = build_pages 1 (text ∷ texts) in
        if sent
        then process_chunks document paths new_pages
            (create_chunks_from_pages outside.fastcdc outside.sha256 new_pages) v1
        else fail document paths (uncaught "upload") v1

    abbrev pub process_texts :
        RagDocument → Result (List String) → Vault E → Result (Unit {0}) × Vault E
    process_texts document (err e) v = fail document [] e v
    process_texts document (ok texts) v = process_pages document (extract_text_from_pdf texts) v

    abbrev pub process_pdf : RagDocument → Option (List ℕ) → Vault E → Result (Unit {0}) × Vault E
    process_pdf document none v = fail document [] (uncaught "download") v
    process_pdf document (some pdf_bytes) v = process_texts document (outside.fitz pdf_bytes) v

    abbrev pub process_document :
        String → Option RagDocument → Vault E → Result (Unit {0}) × Vault E
    process_document blob_path none v = (err (uncaught "Document not found"), v)
    process_document blob_path (some document) v =
        let processing = record document { status = "processing" } in
        let v1 = record v { documents = put document_id processing v.documents } in
        let run = process_pdf processing (find blob_path v1.blobs) v1 in
        if outside.begins then run else fail document [] (uncaught "commit") v

    -- The first SELECT failed: the `except` reads the document again.
    abbrev pub not_selected : Option RagDocument → Vault E → Result (Unit {0}) × Vault E
    not_selected none v = (err (uncaught "select"), v)
    not_selected (some document) v = fail document [] (uncaught "select") v

    unfoldable pub handle_rag_document_uploaded : String → Vault E → Result (Unit {0}) × Vault E
    handle_rag_document_uploaded blob_path v =
        if outside.selects
        then process_document blob_path (find document_id v.documents) v
        else not_selected (find document_id v.documents) v
