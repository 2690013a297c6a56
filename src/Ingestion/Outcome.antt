-- ===== src/Ingestion/Outcome.antt =====
-- How the handler of workers/handlers/rag.py can end.
use akar_ai.Prelude.{
  ℕ, ◌==◌, String, ◌≡◌, ◌∙◌, refl, Bool, true, false, Option, none, some, List, [], ◌∷◌, nat_key,
  text_key, inl, inr, sym, ap, if◌then◌else◌,
}
use akar_ai.Exec.{Error, uncaught, Result, ok, err}
use akar_ai.Table.{Table, find, put, find-put_self}
use akar_ai.Ingestion.Rows.{RagDocument, RagPage, RagChunk}
use akar_ai.Ingestion.Chunks.{
  ChunkData, extract_text_from_pdf, create_chunks_from_pages, chunks_by_hash,
}
use akar_ai.Ingestion.Reconcile.{existing_by_hash, new_hashes, reconcile}
use akar_ai.Ingestion.Handler.{
  Vault, Outside, delete_where, upload_pages, build_pages, add_pages, embeddings_of, give_up, fail,
  committed, commit_chunks, store_chunks, process_chunks, process_pages, process_texts, process_pdf,
  process_document, not_selected, handle_rag_document_uploaded,
}
use akar_ai.Ingestion.Cleanup.{SameTables, upload_pages-SameTables, Removed, ended, ended-cases}

module _ {E : Type 0} (outside : Outside E) where
  -- The text of the pages comes from the object of the upload.
  pub record IsRead (blob_path : String) (v : Vault E) (texts : List String) : Type 0 where
    pub bytes : List ℕ
    pub raw : List String
    pub downloaded : find blob_path v.blobs ≡ some bytes
    pub opened : outside.fitz bytes ≡ ok raw
    pub extracted : texts ≡ extract_text_from_pdf raw

  -- The chunks of a document's new text, by hash.
  abbrev pub text_chunks : ℕ → ℕ → List String → Table String ChunkData
  text_chunks document_id tenant_id texts =
      chunks_by_hash
        (create_chunks_from_pages outside.fastcdc outside.sha256
          (build_pages outside document_id tenant_id 1 texts))
        []

  -- How a run can end: with an unknown document, with nothing left of it, with everything as before or
  -- the document still in processing when its removal failed as well, or with its new pages and chunks.
  pub data Ended (document_id tenant_id : ℕ) (blob_path : String) (v : Vault E)
      : Result (Unit {0}) → Vault E → Type 0 where
    missing :
        {e : Error}
        → find document_id v.documents ≡ none
        → Ended document_id tenant_id blob_path v (err e) v
    removed :
        {r : Result (Unit {0})} {v' : Vault E}
        → Removed document_id v'
        → Ended document_id tenant_id blob_path v r v'
    unchanged :
        {e : Error} {v' : Vault E}
        → outside.hard_deletes ≡ false
        → SameTables v v'
        → Ended document_id tenant_id blob_path v (err e) v'
    stuck :
        {r : Result (Unit {0})} {v' : Vault E} (document : RagDocument)
        → outside.hard_deletes ≡ false
        → find document_id v'.documents ≡ some (record document { status = "processing" })
        → v'.pages ≡ v.pages
        → v'.chunks ≡ v.chunks
        → Ended document_id tenant_id blob_path v r v'
    processed :
        {v' : Vault E} (document : RagDocument) (texts : List String) (embeddings : List E)
        → IsRead blob_path v texts
        → embeddings_of outside document_id tenant_id (
            new_hashes
              (existing_by_hash document_id v.chunks [])
              (text_chunks document_id tenant_id texts))
          ≡ ok embeddings
        → find document_id v'.documents ≡ some (record document { status = "processed" })
        → v'.pages
          ≡ add_pages outside document_id tenant_id
              (build_pages outside document_id tenant_id 1 texts)
              (delete_where (λ p. p.document_id == document_id) v.pages)
        → reconcile document_id outside.chunk_id tenant_id
            (text_chunks document_id tenant_id texts)
            embeddings
            v.chunks
          ≡ some v'.chunks
        → Ended document_id tenant_id blob_path v (ok tt) v'

  module _ (document_id tenant_id : ℕ) (blob_path : String) (v : Vault E)
      (document : RagDocument) where
    abbrev processing : RagDocument
    processing = record document { status = "processing" }

    -- The tables after the first commit.
    record Begun (v1 : Vault E) : Type 0 where
      found : find document_id v1.documents ≡ some processing
      pages_are : v1.pages ≡ v.pages
      chunks_are : v1.chunks ≡ v.chunks

    ended-Ended :
        (r : Result (Unit {0})) (paths : List String) (v1 : Vault E)
        → Begun v1
        → Ended document_id tenant_id blob_path v r (ended outside document_id processing paths v1)
    ended-Ended r paths v1 begun = elim (ended-cases outside document_id processing paths v1) [
      | inl gone ↦ removed gone
      | inr (broken, same) ↦
          stuck document broken (same_documents same) (same.pages_are ∙ begun.pages_are)
            (same.chunks_are ∙ begun.chunks_are)
    ]
      where
        same_documents :
            {v2 : Vault E} → SameTables v1 v2 → find document_id v2.documents ≡ some processing
        same_documents same = rw same.documents_are begun.found

    process_chunks-Ended :
        (paths : List String) (texts : List String) (data_ : List ChunkData) (v1 : Vault E)
        → data_
          ≡ create_chunks_from_pages outside.fastcdc outside.sha256
              (build_pages outside document_id tenant_id 1 texts)
        → IsRead blob_path v texts
        → Begun v1
        → Ended document_id tenant_id blob_path v
            (process_chunks outside document_id tenant_id processing paths
              (build_pages outside document_id tenant_id 1 texts)
              data_
              v1).0
            (process_chunks outside document_id tenant_id processing paths
              (build_pages outside document_id tenant_id 1 texts)
              data_
              v1).1
    unfolding process_chunks give_up fail
    process_chunks-Ended paths texts [] v1 made source begun = ended-Ended (ok tt) paths v1 begun
    process_chunks-Ended paths texts (chunk ∷ data_) v1 made source begun =
        stored
          (embeddings_of outside document_id tenant_id
            (new_hashes (existing_by_hash document_id v1.chunks []) active))
          refl
      where
        new_pages : Table ℕ RagPage
        new_pages = build_pages outside document_id tenant_id 1 texts

        active : Table String ChunkData
        active = chunks_by_hash (chunk ∷ data_) []

        embedded_from :
            (embeddings : List E)
            → embeddings_of outside document_id tenant_id
                (new_hashes (existing_by_hash document_id v1.chunks []) active)
              ≡ ok embeddings
            → embeddings_of outside document_id tenant_id (
                new_hashes
                  (existing_by_hash document_id v.chunks [])
                  (text_chunks document_id tenant_id texts))
              ≡ ok embeddings
        embedded_from embeddings e =
            ap
              (λ d.
                embeddings_of outside document_id tenant_id
                  (new_hashes (existing_by_hash document_id v.chunks []) (chunks_by_hash d [])))
              (sym made)
            ∙ ap
                (λ t.
                  embeddings_of outside document_id tenant_id
                    (new_hashes (existing_by_hash document_id t []) active))
                (sym begun.chunks_are)
            ∙ e

        commits :
            (flushes : Bool) (embeddings : List E) (chunks : Table ℕ (RagChunk E))
            → embeddings_of outside document_id tenant_id
                (new_hashes (existing_by_hash document_id v1.chunks []) active)
              ≡ ok embeddings
            → reconcile document_id outside.chunk_id tenant_id active embeddings v1.chunks
              ≡ some chunks
            → let run =
                if flushes
                then (ok tt, committed outside document_id tenant_id processing new_pages chunks v1)
                else fail outside document_id tenant_id processing paths (uncaught "flush") v1 in
              Ended document_id tenant_id blob_path v run.0 run.1
        commits false embeddings chunks embedded done =
            ended-Ended (err (uncaught "flush")) paths v1 begun
        commits true embeddings chunks embedded done =
            processed document texts embeddings source (embedded_from embeddings embedded)
              (find-put_self document_id _ v1.documents)
              (ap
                (λ pages.
                  add_pages outside document_id tenant_id new_pages
                    (delete_where (λ p. p.document_id == document_id) pages))
                begun.pages_are)
              (ap
                  (λ d.
                    reconcile document_id outside.chunk_id tenant_id (chunks_by_hash d [])
                      embeddings v.chunks)
                  (sym made)
                ∙ ap (λ t. reconcile document_id outside.chunk_id tenant_id active embeddings t)
                    (sym begun.chunks_are)
                ∙ done)

        reconciled :
            (embeddings : List E) (r : Option (Table ℕ (RagChunk E)))
            → embeddings_of outside document_id tenant_id
                (new_hashes (existing_by_hash document_id v1.chunks []) active)
              ≡ ok embeddings
            → reconcile document_id outside.chunk_id tenant_id active embeddings v1.chunks ≡ r
            → let run =
                commit_chunks outside document_id tenant_id processing paths new_pages r v1 in
              Ended document_id tenant_id blob_path v run.0 run.1
        reconciled embeddings none embedded done =
            ended-Ended (err (uncaught "list index out of range")) paths v1 begun
        reconciled embeddings (some chunks) embedded done =
            commits outside.flushes embeddings chunks embedded done

        stored :
            (r : Result (List E))
            → embeddings_of outside document_id tenant_id
                (new_hashes (existing_by_hash document_id v1.chunks []) active)
              ≡ r
            → let run =
                store_chunks outside document_id tenant_id processing paths new_pages active r v1 in
              Ended document_id tenant_id blob_path v run.0 run.1
        stored (err e) embedded = ended-Ended (ok tt) paths v1 begun
        stored (ok embeddings) embedded =
            reconciled embeddings
              (reconcile document_id outside.chunk_id tenant_id active embeddings v1.chunks)
              embedded refl

    process_pages-Ended :
        (texts : List String) (v1 : Vault E)
        → IsRead blob_path v texts
        → Begun v1
        → Ended document_id tenant_id blob_path v
            (process_pages outside document_id tenant_id processing texts v1).0
            (process_pages outside document_id tenant_id processing texts v1).1
    unfolding process_pages give_up fail
    process_pages-Ended [] v1 source begun = ended-Ended (ok tt) [] v1 begun
    process_pages-Ended (text ∷ texts) v1 source begun =
        let up = upload_pages outside document_id tenant_id 1 (text ∷ texts) v1 in
        sending up.0 up.1 up.2
          (begun_still (upload_pages-SameTables outside document_id tenant_id 1 (text ∷ texts) v1))
      where
        new_pages : Table ℕ RagPage
        new_pages = build_pages outside document_id tenant_id 1 (text ∷ texts)

        begun_still : {v2 : Vault E} → SameTables v1 v2 → Begun v2
        begun_still same = record {
          found = rw same.documents_are begun.found;
          pages_are = same.pages_are ∙ begun.pages_are;
          chunks_are = same.chunks_are ∙ begun.chunks_are;
        }

        sending :
            (sent : Bool) (paths : List String) (v2 : Vault E)
            → Begun v2
            → let run =
                if sent
                then process_chunks outside document_id tenant_id processing paths new_pages
                    (create_chunks_from_pages outside.fastcdc outside.sha256 new_pages)
                    v2
                else fail outside document_id tenant_id processing paths (uncaught "upload") v2 in
              Ended document_id tenant_id blob_path v run.0 run.1
        sending true paths v2 still =
            process_chunks-Ended paths (text ∷ texts) _ v2 refl source still
        sending false paths v2 still = ended-Ended (err (uncaught "upload")) paths v2 still

    process_texts-Ended :
        (bytes : List ℕ) (r : Result (List String)) (v1 : Vault E)
        → find blob_path v.blobs ≡ some bytes
        → outside.fitz bytes ≡ r
        → Begun v1
        → Ended document_id tenant_id blob_path v
            (process_texts outside document_id tenant_id processing r v1).0
            (process_texts outside document_id tenant_id processing r v1).1
    unfolding fail
    process_texts-Ended bytes (err e) v1 downloaded opened begun = ended-Ended (err e) [] v1 begun
    process_texts-Ended bytes (ok texts) v1 downloaded opened begun =
        process_pages-Ended (extract_text_from_pdf texts) v1
          (record {
            bytes = bytes;
            raw = texts;
            downloaded = downloaded;
            opened = opened;
            extracted = refl;
          })
          begun

    process_pdf-Ended :
        (bytes : Option (List ℕ)) (v1 : Vault E)
        → find blob_path v.blobs ≡ bytes
        → Begun v1
        → Ended document_id tenant_id blob_path v
            (process_pdf outside document_id tenant_id processing bytes v1).0
            (process_pdf outside document_id tenant_id processing bytes v1).1
    unfolding fail
    process_pdf-Ended none v1 downloaded begun = ended-Ended (err (uncaught "download")) [] v1 begun
    process_pdf-Ended (some bytes) v1 downloaded begun =
        process_texts-Ended bytes (outside.fitz bytes) v1 downloaded refl begun

  -- A run that failed before the first commit.
  not_begun-Ended :
      (document_id tenant_id : ℕ) (blob_path : String) (v : Vault E) (document : RagDocument)
      (e : Error)
      → Ended document_id tenant_id blob_path v
          (fail outside document_id tenant_id document [] e v).0
          (fail outside document_id tenant_id document [] e v).1
  unfolding fail
  not_begun-Ended document_id tenant_id blob_path v document e =
      elim (ended-cases outside document_id document [] v) [
        | inl gone ↦ removed gone
        | inr (broken, same) ↦ unchanged broken same
      ]

  -- How a run ends: whatever the storage, PyMuPDF, the embedding provider and the
  -- database answer, a run of the handler ends in one of five ways. The document was not there and
  -- nothing has changed; or the document, its pages and its chunks are gone; or it failed before its
  -- first commit, the removal failed as well, and the tables are as before; or the removal failed
  -- later, and the document is still `processing` with the pages and chunks of before; or the run
  -- returned, and the document is `processed`: its pages are those of the text that PyMuPDF read from
  -- the uploaded object, and its chunks are those of before, reconciled with the chunks of that text
  -- and with the embeddings that the provider gave for the new ones (an empty list of them adds no new
  -- chunk).
  pub handle_rag_document_uploaded-Ended :
      (document_id tenant_id : ℕ) (blob_path : String) (v : Vault E)
      → Ended document_id tenant_id blob_path v
          (handle_rag_document_uploaded outside document_id tenant_id blob_path v).0
          (handle_rag_document_uploaded outside document_id tenant_id blob_path v).1
  unfolding handle_rag_document_uploaded
  handle_rag_document_uploaded-Ended document_id tenant_id blob_path v =
      either outside.selects (run (find document_id v.documents) refl)
        (unread (find document_id v.documents) refl)
    where
      either :
          (test : Bool) {a b : Result (Unit {0}) × Vault E}
          → Ended document_id tenant_id blob_path v a.0 a.1
          → Ended document_id tenant_id blob_path v b.0 b.1
          → Ended document_id tenant_id blob_path v
              (if test then a else b).0
              (if test then a else b).1
      either true h k = h
      either false h k = k

      unread :
          (found : Option RagDocument)
          → find document_id v.documents ≡ found
          → let r = not_selected outside document_id tenant_id found v in
            Ended document_id tenant_id blob_path v r.0 r.1
      unread none e = missing e
      unread (some document) e =
          not_begun-Ended document_id tenant_id blob_path v document (uncaught "select")

      run :
          (found : Option RagDocument)
          → find document_id v.documents ≡ found
          → let r = process_document outside document_id tenant_id blob_path found v in
            Ended document_id tenant_id blob_path v r.0 r.1
      run none e = missing e
      run (some document) e =
          either outside.begins
            (process_pdf-Ended document_id tenant_id blob_path v document (find blob_path v.blobs)
              (record v {
                documents = put document_id (record document { status = "processing" }) v.documents;
              })
              refl
              (record {
                found = find-put_self document_id _ v.documents;
                pages_are = refl;
                chunks_are = refl;
              }))
            (not_begun-Ended document_id tenant_id blob_path v document (uncaught "commit"))
