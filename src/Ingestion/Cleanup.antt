-- ===== src/Ingestion/Cleanup.antt =====
-- What the clean-up of a failed run of workers/handlers/rag.py leaves.
use akar_ai.Prelude.{
  ℕ, ◌+◌, ◌==◌, nat_beq_iff, String, ◌≡◌, ◌∙◌, refl, Bool, true, false, none, List, [], ◌∷◌, arith,
  nat_key, text_key, Bool-cases, inl, inr, ◌⊎◌, if◌then◌else◌,
}
use akar_ai.Table.{Table, find, put, delete, count, find-delete}
use akar_ai.Ingestion.Rows.{RagDocument}
use akar_ai.Ingestion.Handler.{
  Vault, Outside, delete_where, cleanup_page_blobs, paths_of, hard_delete_document,
  hard_delete_failed_document, upload_pages, page_blob_path,
}

pub count-delete_where :
    {V : Type 0} (p : V → Bool) (t : Table ℕ V) → count p (delete_where p t) ≡ 0
unfolding count delete_where
count-delete_where p [] = refl
count-delete_where p ((k, v) ∷ t) = ground (arith, count-delete_where p t)

pub record SameTables {E : Type 0} (v v' : Vault E) : Type 0 where
  pub documents_are : v'.documents ≡ v.documents
  pub pages_are : v'.pages ≡ v.pages
  pub chunks_are : v'.chunks ≡ v.chunks

-- Nothing of the document is left.
pub record Removed {E : Type 0} (document_id : ℕ) (v : Vault E) : Type 0 where
  pub no_document : find document_id v.documents ≡ none
  pub no_pages : count (λ p. p.document_id == document_id) v.pages ≡ 0
  pub no_chunks : count (λ c. c.document_id == document_id) v.chunks ≡ 0

module _ {E : Type 0} (outside : Outside E) where
  cleanup_page_blobs-SameTables :
      (paths : List String) (v : Vault E) → SameTables v (cleanup_page_blobs outside paths v)
  unfolding cleanup_page_blobs
  cleanup_page_blobs-SameTables [] v = record {
    documents_are = refl;
    pages_are = refl;
    chunks_are = refl;
  }
  cleanup_page_blobs-SameTables (path ∷ paths) v = elim (Bool-cases (outside.deletes path)) [
    | inl deleted ↦
        let s = cleanup_page_blobs-SameTables paths (record v { blobs = delete path v.blobs }) in
        rw deleted (record {
          documents_are = s.documents_are;
          pages_are = s.pages_are;
          chunks_are = s.chunks_are;
        })
    | inr kept ↦ rw kept (cleanup_page_blobs-SameTables paths v)
  ]

  module _ (document_id tenant_id : ℕ) where
    pub upload_pages-SameTables :
        (page_num : ℕ) (texts : List String) (v : Vault E)
        → SameTables v (upload_pages outside document_id tenant_id page_num texts v).2
    unfolding upload_pages
    upload_pages-SameTables page_num [] v = record {
      documents_are = refl;
      pages_are = refl;
      chunks_are = refl;
    }
    upload_pages-SameTables page_num (text ∷ texts) v =
        elim (Bool-cases
          (outside.uploads (page_blob_path outside document_id tenant_id page_num))) [
            | inl sent ↦
                let path = page_blob_path outside document_id tenant_id page_num in
                let s =
                  upload_pages-SameTables (page_num + 1) texts
                    (record v { blobs = put path (outside.utf8 text) v.blobs }) in
                rw sent (record {
                  documents_are = s.documents_are;
                  pages_are = s.pages_are;
                  chunks_are = s.chunks_are;
                })
            | inr lost ↦
                rw lost (record { documents_are = refl; pages_are = refl; chunks_are = refl })
          ]

  pub SameTables-trans : {v v1 v2 : Vault E} → SameTables v v1 → SameTables v1 v2 → SameTables v v2
  SameTables-trans a b = record {
    documents_are = b.documents_are ∙ a.documents_are;
    pages_are = b.pages_are ∙ a.pages_are;
    chunks_are = b.chunks_are ∙ a.chunks_are;
  }

  module _ (document_id : ℕ) (document : RagDocument) where
    hard_delete_cases :
        (works : Bool) (v v1 : Vault E)
        → SameTables v v1
        → Removed document_id (if works then hard_delete_document outside document_id v1 else v1)
          ⊎ ((works ≡ false)
              × SameTables v (if works then hard_delete_document outside document_id v1 else v1))
    unfolding hard_delete_document
    hard_delete_cases true v v1 same = inl (record {
      no_document = rw find-delete (ground (arith, nat_beq_iff document_id document_id));
      no_pages = count-delete_where (λ p. p.document_id == document_id) v1.pages;
      no_chunks = count-delete_where (λ c. c.document_id == document_id) v1.chunks;
    })
    hard_delete_cases false v v1 same = inr (refl, same)

    hard_delete_failed_document-cases :
        (v : Vault E)
        → Removed document_id (hard_delete_failed_document outside document_id document v)
          ⊎ ((outside.hard_deletes ≡ false)
              × SameTables v (hard_delete_failed_document outside document_id document v))
    unfolding hard_delete_failed_document hard_delete_document cleanup_page_blobs
    hard_delete_failed_document-cases v =
        hard_delete_cases outside.hard_deletes v
          (cleanup_page_blobs outside (document.blob_path ∷ paths_of outside document_id v.pages) v)
          (cleanup_page_blobs-SameTables (document.blob_path ∷ paths_of outside document_id v.pages)
            v)

    -- The end of a run that failed.
    abbrev pub ended : List String → Vault E → Vault E
    ended paths v =
        hard_delete_failed_document outside document_id document
          (cleanup_page_blobs outside paths v)

    pub ended-cases :
        (paths : List String) (v : Vault E)
        → Removed document_id (ended paths v)
          ⊎ ((outside.hard_deletes ≡ false) × SameTables v (ended paths v))
    ended-cases paths v =
        elim (hard_delete_failed_document-cases (cleanup_page_blobs outside paths v)) [
          | inl removed ↦ inl removed
          | inr (broken, same) ↦
              inr (broken, SameTables-trans (cleanup_page_blobs-SameTables paths v) same)
        ]
