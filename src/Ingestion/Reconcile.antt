-- ===== src/Ingestion/Reconcile.antt =====
-- How the handler of workers/handlers/rag.py brings the chunks of a document in line with its new
-- text: chunks whose hash is still there are kept, chunks with a new hash are added with their
-- embeddings, the others are marked as orphaned. Python walks `active_hashes` in some order; here it is
-- the order of `chunks_by_hash`.
use akar_ai.Prelude.{
  ℕ, ◌+◌, ◌==◌, String, Bool, true, false, not, ◌&&◌, Option, none, some, List, [], ◌∷◌, str_eq,
  nat_key, text_key, if◌then◌else◌,
}
use akar_ai.Table.{Table, find, put}
use akar_ai.Ingestion.Rows.{RagChunk}
use akar_ai.Ingestion.Chunks.{ChunkData}

abbrev pub is_in {ℓ} : {V : Type ℓ} → String → Table String V → Bool
is_in h t = elim (find h t) [ none ↦ false | some _ ↦ true ]

-- `new_hashes`, each with its chunk
unfoldable pub new_hashes {ℓ} :
    {V : Type ℓ} → Table String V → Table String ChunkData → Table String ChunkData
new_hashes existing [] = []
new_hashes existing ((h, chunk) ∷ data_) =
    let rest = new_hashes existing data_ in if is_in h existing then rest else (h, chunk) ∷ rest

module _ {E : Type 0} (document_id : ℕ) where
  -- The loop that fills `existing_by_hash`; of two rows with one hash the later one stays.
  unfoldable pub existing_by_hash :
      Table ℕ (RagChunk E) → Table String (ℕ × RagChunk E) → Table String (ℕ × RagChunk E)
  existing_by_hash [] by_hash = by_hash
  existing_by_hash ((id, chunk) ∷ chunks) by_hash = existing_by_hash chunks (
      if chunk.document_id == document_id
      then put chunk.content_hash (id, chunk) by_hash
      else by_hash)

  abbrev remap_one :
      ChunkData → Option (ℕ × RagChunk E) → Table ℕ (RagChunk E) → Table ℕ (RagChunk E)
  remap_one chunk none chunks = chunks
  remap_one chunk (some (id, existing)) chunks =
      put id (record existing { page_ids = chunk.page_ids; status = "active" }) chunks

  -- `existing.page_ids = ...`, `existing.status = "active"` for each hash that is there already
  unfoldable pub remap_chunks :
      Table String (ℕ × RagChunk E)
      → Table String ChunkData
      → Table ℕ (RagChunk E)
      → Table ℕ (RagChunk E)
  remap_chunks existing [] chunks = chunks
  remap_chunks existing ((h, chunk) ∷ data_) chunks =
      remap_chunks existing data_ (remap_one chunk (find h existing) chunks)

  abbrev pub new_chunk : ℕ → String → ChunkData → E → RagChunk E
  new_chunk tenant_id h chunk embedding = record {
    document_id = document_id;
    tenant_id = tenant_id;
    page_ids = chunk.page_ids;
    content_hash = h;
    text = chunk.text;
    embedding = embedding;
    status = "active";
  }

  -- The chunks of the new hashes, from an index on; the ids are drawn. A missing embedding is an
  -- `IndexError`.
  unfoldable pub insert_chunks :
      (ℕ → ℕ)
      → ℕ
      → ℕ
      → Table String ChunkData
      → List E
      → Table ℕ (RagChunk E)
      → Option (Table ℕ (RagChunk E))
  insert_chunks new_id tenant_id i [] embeddings chunks = some chunks
  insert_chunks new_id tenant_id i ((h, chunk) ∷ data_) [] chunks = none
  insert_chunks new_id tenant_id i ((h, chunk) ∷ data_) (embedding ∷ embeddings) chunks =
      insert_chunks new_id tenant_id (i + 1) data_ embeddings
        (put (new_id i) (new_chunk tenant_id h chunk embedding) chunks)

  -- `if new_hashes and embeddings`
  abbrev pub insert_new :
      (ℕ → ℕ)
      → ℕ
      → Table String ChunkData
      → List E
      → Table ℕ (RagChunk E)
      → Option (Table ℕ (RagChunk E))
  insert_new new_id tenant_id data_ [] chunks = some chunks
  insert_new new_id tenant_id data_ (embedding ∷ embeddings) chunks =
      insert_chunks new_id tenant_id 0 data_ (embedding ∷ embeddings) chunks

  abbrev pub orphaned : Table String ChunkData → RagChunk E → RagChunk E
  orphaned active chunk =
      if chunk.document_id == document_id
        && not (is_in chunk.content_hash active)
        && str_eq chunk.status "active"
      then record chunk { status = "orphaned" }
      else chunk

  unfoldable pub orphan_chunks_not_in_set :
      Table String ChunkData → Table ℕ (RagChunk E) → Table ℕ (RagChunk E)
  orphan_chunks_not_in_set active [] = []
  orphan_chunks_not_in_set active ((id, chunk) ∷ chunks) =
      (id, orphaned active chunk) ∷ orphan_chunks_not_in_set active chunks

  abbrev then_orphan :
      Table String ChunkData → Option (Table ℕ (RagChunk E)) → Option (Table ℕ (RagChunk E))
  then_orphan active none = none
  then_orphan active (some chunks) = some (orphan_chunks_not_in_set active chunks)

  -- The chunk table after the success path, with the embeddings of the new hashes.
  unfoldable pub reconcile :
      (ℕ → ℕ)
      → ℕ
      → Table String ChunkData
      → List E
      → Table ℕ (RagChunk E)
      → Option (Table ℕ (RagChunk E))
  reconcile new_id tenant_id active embeddings chunks =
      let existing = existing_by_hash chunks [] in
      then_orphan active (
        insert_new new_id tenant_id (new_hashes existing active) embeddings
          (remap_chunks existing active chunks))
