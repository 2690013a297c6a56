-- ===== src/Ingestion/Remap.antt =====
-- What remapping the chunks of the hashes that are there already leaves.
use akar_ai.Prelude.{
  ℕ, ◌==◌, nat_beq_iff, String, ◌≡◌, ◌≢◌, ◌∙◌, refl, some, [], ◌∷◌, arith, nat_key, text_key,
  Bool-cases, Option-cases, inl, inr, sym, ap,
}
use akar_ai.Table.{Table, find, put, find-put, find-put_self, IsKeyed}
use akar_ai.Ingestion.Rows.{RagChunk}
use akar_ai.Ingestion.Chunks.{ChunkData}
use akar_ai.Ingestion.Reconcile.{remap_chunks}
use akar_ai.Ingestion.Existing.{IsEntry}

module _ {E : Type 0} (document_id : ℕ) (existing : Table String (ℕ × RagChunk E)) where
  -- A row that no remaining hash stands for is left as it is.
  pub remap_chunks_untouched :
      (id : ℕ) (data_ : Table String ChunkData) (chunks : Table ℕ (RagChunk E))
      → ((h : String) (x : ChunkData) (chunk : RagChunk E)
          → find h data_ ≡ some x
          → find h existing ≢ some (id, chunk))
      → IsKeyed data_
      → find id (remap_chunks document_id existing data_ chunks) ≡ find id chunks
  unfolding remap_chunks
  remap_chunks_untouched id [] chunks apart keyed = refl
  remap_chunks_untouched id ((h, x) ∷ data_) chunks apart (new, keyed) =
      elim (Option-cases (find h existing)) [
        | inl missing ↦ rw missing (remap_chunks_untouched id data_ chunks later keyed)
        | inr ((j, chunk), e) ↦ rw e (
            remap_chunks_untouched id data_
              (put j (record chunk { page_ids = x.page_ids; status = "active" }) chunks) later keyed
            ∙ elsewhere j chunk e)
      ]
    where
      later :
          (h' : String) (x' : ChunkData) (chunk : RagChunk E)
          → find h' data_ ≡ some x'
          → find h' existing ≢ some (id, chunk)
      later h' x' chunk at =
          apart h' x' chunk (unfold find in ground (arith, at, new, text_key.matches_iff h h'))

      elsewhere :
          (j : ℕ) (chunk : RagChunk E)
          → find h existing ≡ some (j, chunk)
          → find id (put j (record chunk { page_ids = x.page_ids; status = "active" }) chunks)
            ≡ find id chunks
      elsewhere j chunk e = elim (Bool-cases (j == id)) [
        | inl same ↦ absurd (
            apart h x chunk (unfold find in ground (arith, text_key.matches_iff h h))
              (rw e (ap (λ k. some (k, chunk)) ((nat_beq_iff j id).0 same))))
        | inr other ↦ rw find-put (ground (arith, other))
      ]

  module _ (full : Table ℕ (RagChunk E))
      (entries : (h : String) (id : ℕ) (chunk : RagChunk E)
        → find h existing ≡ some (id, chunk)
        → IsEntry document_id full h id chunk) where
    -- A row has one hash, so it stands for one.
    same_row :
        (h h' : String) (id : ℕ) (chunk chunk' : RagChunk E)
        → find h existing ≡ some (id, chunk)
        → find h' existing ≡ some (id, chunk')
        → h ≡ h'
    same_row h h' id chunk chunk' e e' =
        let a = entries h id chunk e in
        let b = entries h' id chunk' e' in
        let same : chunk ≡ chunk' = ground (arith, a.row, b.row) in
        sym a.same_hash ∙ ap (λ c. c.content_hash) same ∙ b.same_hash

    -- The row of a hash that is still there is active, with the pages of the new text.
    pub remap_chunks_kept :
        (h : String) (x : ChunkData) (id : ℕ) (chunk : RagChunk E) (data_ : Table String ChunkData)
        (chunks : Table ℕ (RagChunk E))
        → IsKeyed data_
        → find h data_ ≡ some x
        → find h existing ≡ some (id, chunk)
        → find id (remap_chunks document_id existing data_ chunks)
          ≡ some (record chunk { page_ids = x.page_ids; status = "active" })
    unfolding remap_chunks
    remap_chunks_kept h x id chunk [] chunks keyed at e = absurd (unfold find in ground (arith, at))
    remap_chunks_kept h x id chunk ((k, y) ∷ data_) chunks (new, keyed) at e =
        elim (Bool-cases (text_key.matches k h)) [
          | inr other ↦
              remap_chunks_kept h x id chunk data_ _ keyed
                (unfold find in ground (arith, at, other)) e
          | inl same ↦
              let here : k ≡ h = (text_key.matches_iff k h).0 same in
              let value : y ≡ x = unfold find in ground (arith, at, same) in
              let found = rw (sym here) at e in
              let rest =
                remap_chunks_untouched id data_
                  (put id (record chunk { page_ids = y.page_ids; status = "active" }) chunks)
                  (λ h' x' chunk' at' e'. absurd (only h' x' chunk' at' e' here)) keyed in
              rw found (rest ∙ rw (find-put_self, value) refl)
        ]
      where
        only :
            (h' : String) (x' : ChunkData) (chunk' : RagChunk E)
            → find h' data_ ≡ some x'
            → find h' existing ≡ some (id, chunk')
            → k ≡ h
            → ⊥
        only h' x' chunk' at' e' here =
            let one : h' ≡ k = same_row h' h id chunk' chunk e' e ∙ sym here in
            let found : find k data_ ≡ some x' = rw one at at' in ground (arith, found, new)
