-- ===== src/Tests/Ingestion.antt =====
-- A document whose text has changed: one piece stays, one is new, one has gone.
use akar_ai.Prelude.{ℕ, String, ◌≡◌, refl, true, some, List, [], ◌∷◌, arith, nat_key, text_key, ◌+◌}
use akar_ai.Exec.{ok, err, uncaught}
use akar_ai.Table.{Table, find, put}
use akar_ai.Ingestion.Rows.{RagDocument, RagChunk}
use akar_ai.Ingestion.Chunks.{ChunkData, chunks_by_hash}
use akar_ai.Ingestion.Reconcile.{
  reconcile, existing_by_hash, new_hashes, remap_chunks, insert_chunks, orphan_chunks_not_in_set,
}
use akar_ai.Ingestion.Active.{active, Reconciled, reconcile-Reconciled}
use akar_ai.Ingestion.Handler.{Vault, Outside, handle_rag_document_uploaded}
use akar_ai.Ingestion.Outcome.{Ended, handle_rag_document_uploaded-Ended}

abbrev piece : String → List ℕ → ChunkData
piece text page_ids = record { text = text; page_ids = page_ids; content_hash = text }

abbrev new_text : List ChunkData
new_text = piece "rent" (31 ∷ []) ∷ piece "fees" (31 ∷ []) ∷ piece "rent" (32 ∷ []) ∷ []

abbrev old_chunk : String → String → RagChunk ℕ
old_chunk text status = record {
  document_id = 5;
  tenant_id = 7;
  page_ids = 21 ∷ [];
  content_hash = text;
  text = text;
  embedding = 0;
  status = status;
}

abbrev old_chunks : Table ℕ (RagChunk ℕ)
old_chunks = (1, old_chunk "rent" "orphaned") ∷ (2, old_chunk "pets" "active") ∷ []

abbrev drawn : ℕ → ℕ
drawn i = i + 100

-- "rent" is active again on both pages, "pets" is orphaned, "fees" is new.
reconciled_chunks :
    reconcile 5 drawn 7 (active 5 7 drawn new_text old_chunks) (9 ∷ []) old_chunks
    ≡ some (
        (1, record (old_chunk "rent" "active") { page_ids = 31 ∷ 32 ∷ [] })
        ∷ (2, old_chunk "pets" "orphaned")
        ∷ (100, record (old_chunk "fees" "active") { page_ids = 31 ∷ []; embedding = 9 })
        ∷ [])
unfolding reconcile find put existing_by_hash new_hashes remap_chunks insert_chunks
    orphan_chunks_not_in_set chunks_by_hash
reconciled_chunks = refl

reconcile-Reconciled_example :
    (after : Table ℕ (RagChunk ℕ)) × (reconcile 5 drawn 7
        (active 5 7 drawn new_text old_chunks)
        (9 ∷ [])
        old_chunks
      ≡ some after)
    × Reconciled 5 7 drawn new_text old_chunks after
reconcile-Reconciled_example =
    reconcile-Reconciled 5 7 drawn new_text old_chunks (unfold find in (refl, (refl, tt)))
      (λ i j same. omega arith) (λ i. unfold find in ground arith) (9 ∷ [])
      (unfold find put existing_by_hash new_hashes chunks_by_hash in refl)

abbrev document : RagDocument
document = record {
  tenant_id = 7;
  filename = "rules.pdf";
  status = "pending";
  blob_path = "up/rules.pdf";
}

abbrev vault : Vault ℕ
vault = record {
  documents = (5, document) ∷ [];
  pages = [];
  chunks = old_chunks;
  blobs = ("up/rules.pdf", 1 ∷ []) ∷ [];
}

-- The provider of embeddings is down.
abbrev outside : Outside ℕ
outside = record {
  fitz = λ bytes. ok ("rent" ∷ "fees" ∷ []);
  utf8 = λ text. 1 ∷ [];
  fastcdc = λ text. text ∷ [];
  sha256 = λ text. text;
  embed = λ texts. err (uncaught "down");
  selects = true;
  begins = true;
  uploads = λ path. true;
  deletes = λ path. true;
  flushes = true;
  hard_deletes = true;
  page_id = λ n. n + 30;
  chunk_id = drawn;
}

handle_rag_document_uploaded-Ended_example :
    Ended outside 5 7 "up/rules.pdf" vault
      (handle_rag_document_uploaded outside 5 7 "up/rules.pdf" vault).0
      (handle_rag_document_uploaded outside 5 7 "up/rules.pdf" vault).1
handle_rag_document_uploaded-Ended_example =
    handle_rag_document_uploaded-Ended outside 5 7 "up/rules.pdf" vault
