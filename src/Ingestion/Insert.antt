-- ===== src/Ingestion/Insert.antt =====
-- What inserting the chunks of the new hashes leaves.
use akar_ai.Prelude.{
  ℕ, ◌+◌, ◌≤◌, nat_beq_iff, String, ◌≡◌, ◌≢◌, ◌∙◌, refl, none, some, List, [], ◌∷◌, arith, nat_key,
  text_key, Bool-cases, inl, inr, length,
}
use akar_ai.Table.{Table, find, put, find-put, find-put_self}
use akar_ai.Ingestion.Rows.{RagChunk}
use akar_ai.Ingestion.Chunks.{ChunkData}
use akar_ai.Ingestion.Reconcile.{new_hashes, new_chunk, insert_chunks, insert_new}

-- A hash that is not there yet is among the new ones.
pub new_hashes-find :
    {V : Type 0} (existing : Table String V) (h : String) (x : ChunkData)
    (data_ : Table String ChunkData)
    → find h existing ≡ none
    → find h data_ ≡ some x
    → find h (new_hashes existing data_) ≡ some x
unfolding new_hashes find
new_hashes-find existing h x [] fresh at = absurd (ground (arith, at))
new_hashes-find existing h x ((k, y) ∷ data_) fresh at =
    ground (arith, fresh, at, text_key.matches_iff k h, new_hashes-find existing h x data_ fresh)

module _ {E : Type 0} (document_id : ℕ) (new_id : ℕ → ℕ)
    (differ : (i j : ℕ) → new_id i ≡ new_id j → i ≡ j) (tenant_id : ℕ) where
  -- A row whose id is not drawn is left as it is.
  pub insert_chunks_untouched :
      (id i : ℕ) (data_ : Table String ChunkData) (embeddings : List E)
      (chunks after : Table ℕ (RagChunk E))
      → ((j : ℕ) → i ≤ j → new_id j ≢ id)
      → insert_chunks document_id new_id tenant_id i data_ embeddings chunks ≡ some after
      → find id after ≡ find id chunks
  unfolding insert_chunks
  insert_chunks_untouched id i [] embeddings chunks after apart done = ground (arith, done)
  insert_chunks_untouched id i ((h, x) ∷ data_) [] chunks after apart done =
      absurd (ground (arith, done))
  insert_chunks_untouched id i ((h, x) ∷ data_) (v ∷ embeddings) chunks after apart done =
      insert_chunks_untouched id (i + 1) data_ embeddings _ after (λ j le. apart j (omega arith))
        done
      ∙ rw find-put (ground (arith, apart i, nat_beq_iff (new_id i) id))

  pub record Inserted (h : String) (x : ChunkData) (after : Table ℕ (RagChunk E)) : Type 0 where
    pub id : ℕ
    pub embedding : E
    pub row : find id after ≡ some (new_chunk document_id tenant_id h x embedding)

  -- Each new hash has a row.
  pub insert_chunks-Inserted :
      (h : String) (x : ChunkData) (i : ℕ) (data_ : Table String ChunkData) (embeddings : List E)
      (chunks after : Table ℕ (RagChunk E))
      → find h data_ ≡ some x
      → insert_chunks document_id new_id tenant_id i data_ embeddings chunks ≡ some after
      → Inserted h x after
  unfolding insert_chunks
  insert_chunks-Inserted h x i [] embeddings chunks after at done =
      absurd (unfold find in ground (arith, at))
  insert_chunks-Inserted h x i ((k, y) ∷ data_) [] chunks after at done =
      absurd (ground (arith, done))
  insert_chunks-Inserted h x i ((k, y) ∷ data_) (v ∷ embeddings) chunks after at done =
      elim (Bool-cases (text_key.matches k h)) [
        | inr other ↦
            insert_chunks-Inserted h x (i + 1) data_ embeddings _ after
              (unfold find in ground (arith, at, other)) done
        | inl same ↦
            let here : k ≡ h = (text_key.matches_iff k h).0 same in
            let value : y ≡ x = unfold find in ground (arith, at, same) in
            record {
              id = new_id i;
              embedding = v;
              row =
                  insert_chunks_untouched (new_id i) (i + 1) data_ embeddings _ after
                    (λ j le e. absurd (omega (arith, differ j i e))) done
                  ∙ rw (find-put_self, here, value) refl;
            }
      ]

  -- With an embedding for each new hash the insertion succeeds.
  pub insert_chunks_enough :
      (i : ℕ) (data_ : Table String ChunkData) (embeddings : List E) (chunks : Table ℕ (RagChunk E))
      → length embeddings ≡ length data_
      → (after : Table ℕ (RagChunk E)) × (insert_chunks document_id new_id tenant_id i data_
            embeddings chunks
          ≡ some after)
  unfolding insert_chunks
  insert_chunks_enough i [] embeddings chunks same = (chunks, refl)
  insert_chunks_enough i ((h, x) ∷ data_) [] chunks same = absurd (omega arith)
  insert_chunks_enough i ((h, x) ∷ data_) (v ∷ embeddings) chunks same =
      insert_chunks_enough (i + 1) data_ embeddings
        (put (new_id i) (new_chunk document_id tenant_id h x v) chunks) (omega arith)

  pub insert_new_enough :
      (data_ : Table String ChunkData) (embeddings : List E) (chunks : Table ℕ (RagChunk E))
      → length embeddings ≡ length data_
      → insert_new document_id new_id tenant_id data_ embeddings chunks
        ≡ insert_chunks document_id new_id tenant_id 0 data_ embeddings chunks
  unfolding insert_chunks
  insert_new_enough [] [] chunks same = refl
  insert_new_enough (row ∷ data_) [] chunks same = absurd (omega arith)
  insert_new_enough [] (v ∷ embeddings) chunks same = absurd (omega arith)
  insert_new_enough (row ∷ data_) (v ∷ embeddings) chunks same = refl
