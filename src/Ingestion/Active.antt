-- ===== src/Ingestion/Active.antt =====
-- Which chunks of a document are active after its text has been processed.
use akar_ai.Prelude.{
  ℕ, String, ◌≡◌, ◌≢◌, ◌∙◌, refl, true, none, some, List, [], arith, nat_key, text_key, Bool-cases,
  Option-cases, inl, inr, sym, ap, subst, length,
}
use akar_ai.Table.{Table, find, IsKeyed}
use akar_ai.Ingestion.Rows.{RagChunk}
use akar_ai.Ingestion.Chunks.{ChunkData, chunks_by_hash}
use akar_ai.Ingestion.Hashes.{
  has_hash, pages_of, chunks_by_hash-IsKeyed, chunks_by_hash_other, chunks_by_hash-Collected,
}
use akar_ai.Ingestion.Reconcile.{
  is_in, new_hashes, existing_by_hash, remap_chunks, new_chunk, insert_chunks,
  orphan_chunks_not_in_set, reconcile,
}
use akar_ai.Ingestion.Existing.{IsEntry, keyed_found, existing_by_hash-AreEntries}
use akar_ai.Ingestion.Remap.{remap_chunks_untouched, remap_chunks_kept}
use akar_ai.Ingestion.Insert.{
  new_hashes-find, insert_chunks_untouched, insert_chunks-Inserted, insert_chunks_enough,
  insert_new_enough,
}
use akar_ai.Ingestion.Orphans.{orphan_sound, orphan_present, orphan_other, find-is_in}

module _ {E : Type 0} (document_id tenant_id : ℕ) (new_id : ℕ → ℕ) (data_ : List ChunkData)
    (chunks : Table ℕ (RagChunk E)) where
  abbrev pub active : Table String ChunkData
  active = chunks_by_hash data_ []

  abbrev existing : Table String (ℕ × RagChunk E)
  existing = existing_by_hash document_id chunks []

  -- The hashes that need an embedding.
  abbrev pub to_embed : Table String ChunkData
  to_embed = new_hashes existing active

  -- The active chunk of a hash, on the pages of the new text.
  pub record Live (h : String) (after : Table ℕ (RagChunk E)) : Type 0 where
    pub id : ℕ
    pub chunk : RagChunk E
    pub row : find id after ≡ some chunk
    pub of_document : chunk.document_id ≡ document_id
    pub same_hash : chunk.content_hash ≡ h
    pub is_active : chunk.status ≡ "active"
    pub on_pages : chunk.page_ids ≡ pages_of h data_

  pub record Reconciled (after : Table ℕ (RagChunk E)) : Type 0 where
    pub sound :
        (id : ℕ) (chunk : RagChunk E)
        → find id after ≡ some chunk
        → chunk.document_id ≡ document_id
        → chunk.status ≡ "active"
        → has_hash chunk.content_hash data_ ≡ true
    pub complete : (h : String) → has_hash h data_ ≡ true → Live h after
    pub others :
        (id : ℕ) (chunk : RagChunk E)
        → find id chunks ≡ some chunk
        → chunk.document_id ≢ document_id
        → find id after ≡ some chunk

  is_in-has_hash : (h : String) → is_in h active ≡ true → has_hash h data_ ≡ true
  is_in-has_hash h present = elim (Bool-cases (has_hash h data_)) [
    | inl yes_h ↦ yes_h
    | inr absent ↦
        absurd (unfold find in ground (arith, present, chunks_by_hash_other h data_ [] absent))
  ]

  module _ (keyed : IsKeyed chunks) (differ : (i j : ℕ) → new_id i ≡ new_id j → i ≡ j)
      (fresh : (i : ℕ) → find (new_id i) chunks ≡ none) where
    entries :
        (h : String) (id : ℕ) (chunk : RagChunk E)
        → find h existing ≡ some (id, chunk)
        → IsEntry document_id chunks h id chunk
    entries =
        existing_by_hash-AreEntries document_id chunks chunks [] (keyed_found chunks keyed)
          (λ h id chunk e. absurd (unfold find in ground (arith, e)))

    active-IsKeyed : IsKeyed active
    active-IsKeyed = chunks_by_hash-IsKeyed data_ [] tt

    taken : (j id : ℕ) (chunk : RagChunk E) → new_id j ≡ id → find id chunks ≡ some chunk → ⊥
    taken j id chunk same e =
        let free : find id chunks ≡ none = subst (λ k. find k chunks ≡ none) same (fresh j) in
        ground (arith, free, e)

    module _ (inserted : Table ℕ (RagChunk E)) (embeddings : List E)
        (done : insert_chunks document_id new_id tenant_id 0 to_embed embeddings
            (remap_chunks document_id existing active chunks)
          ≡ some inserted) where
      -- A row of before keeps what remapping made of it.
      inserted-old :
          (id : ℕ) (chunk : RagChunk E)
          → find id chunks ≡ some chunk
          → find id inserted ≡ find id (remap_chunks document_id existing active chunks)
      inserted-old id chunk e =
          insert_chunks_untouched document_id new_id differ tenant_id id 0 to_embed embeddings
            (remap_chunks document_id existing active chunks) inserted
            (λ j le same. absurd (taken j id chunk same e)) done

      live :
          (h : String)
          → has_hash h data_ ≡ true
          → Live h (orphan_chunks_not_in_set document_id active inserted)
      live h present =
          let c = chunks_by_hash-Collected h data_ [] (unfold find in refl) present in
          elim (Option-cases (find h existing)) [
            | inr ((id, chunk), e) ↦
                let entry = entries h id chunk e in
                let kept =
                  remap_chunks_kept document_id existing chunks entries h c.entry id chunk active
                    chunks active-IsKeyed c.at e in
                record {
                  id = id;
                  chunk = record chunk { page_ids = c.entry.page_ids; status = "active" };
                  row =
                      orphan_present document_id active id _ inserted
                        (inserted-old id chunk entry.row ∙ kept)
                        (rw entry.same_hash (find-is_in h c.entry active c.at));
                  of_document = entry.of_document;
                  same_hash = entry.same_hash;
                  is_active = refl;
                  on_pages = c.pages;
                }
            | inl missing ↦
                let made =
                  insert_chunks-Inserted document_id new_id differ tenant_id h c.entry 0 to_embed
                    embeddings (remap_chunks document_id existing active chunks) inserted
                    (new_hashes-find existing h c.entry active missing c.at) done in
                record {
                  id = made.id;
                  chunk = new_chunk document_id tenant_id h c.entry made.embedding;
                  row =
                      orphan_present document_id active made.id _ inserted made.row
                        (find-is_in h c.entry active c.at);
                  of_document = refl;
                  same_hash = refl;
                  is_active = refl;
                  on_pages = c.pages;
                }
          ]

      other_rows :
          (id : ℕ) (chunk : RagChunk E)
          → find id chunks ≡ some chunk
          → chunk.document_id ≢ document_id
          → find id (orphan_chunks_not_in_set document_id active inserted) ≡ some chunk
      other_rows id chunk e other =
          orphan_other document_id active id chunk inserted
            (inserted-old id chunk e
              ∙ remap_chunks_untouched document_id existing id active chunks
                  (λ h x c at here. absurd (foreign h c here)) active-IsKeyed
              ∙ e)
            other
        where
          foreign : (h : String) (c : RagChunk E) → find h existing ≡ some (id, c) → ⊥
          foreign h c here =
              let entry = entries h id c here in
              let same : c ≡ chunk = ground (arith, entry.row, e) in
              other (sym (ap (λ x. x.document_id) same) ∙ entry.of_document)

      -- What the steps leave of the chunks.
      inserted-Reconciled : Reconciled (orphan_chunks_not_in_set document_id active inserted)
      inserted-Reconciled = record {
        sound = λ id chunk at own alive.
            is_in-has_hash chunk.content_hash
              (orphan_sound document_id active id chunk inserted at own alive);
        complete = live;
        others = other_rows;
      }

    -- The chunks of a processed document. When the provider returns an embedding for each new hash and
    -- the drawn ids are new, the handler gets a chunk table in which the active chunks of the
    -- document are those of its new text: an active chunk has a hash of the text, each hash of the text
    -- has an active chunk on exactly the pages where the text has it, and the chunks of other documents
    -- are as they were.
    pub reconcile-Reconciled :
        (embeddings : List E)
        → length embeddings ≡ length to_embed
        → (after : Table ℕ (RagChunk E)) × (reconcile document_id new_id tenant_id active embeddings
              chunks
            ≡ some after)
          × Reconciled after
    unfolding reconcile
    reconcile-Reconciled embeddings enough =
        let (inserted, done) =
          insert_chunks_enough document_id new_id differ tenant_id 0 to_embed embeddings
            (remap_chunks document_id existing active chunks) enough in
        (
          orphan_chunks_not_in_set document_id active inserted,
          rw
              (
                insert_new_enough document_id new_id differ tenant_id to_embed embeddings
                    (remap_chunks document_id existing active chunks) enough,
                done,
              )
              refl,
          inserted-Reconciled inserted embeddings done,
        )
