-- ===== src/Ingestion/Orphans.antt =====
-- What marking the chunks of other hashes as orphaned leaves.
use akar_ai.Prelude.{
  ℕ, ◌==◌, nat_beq_iff, String, ◌≡◌, ◌≢◌, ◌∙◌, refl, true, none, some, [], ◌∷◌, arith, nat_key,
  text_key, Bool-cases, Option-cases, inl, inr, sym, ap, str_eq_iff,
}
use akar_ai.Table.{Table, find}
use akar_ai.Ingestion.Rows.{RagChunk}
use akar_ai.Ingestion.Chunks.{ChunkData}
use akar_ai.Ingestion.Reconcile.{is_in, orphaned, orphan_chunks_not_in_set}

module _ {E : Type 0} (document_id : ℕ) (active : Table String ChunkData) where
  orphan_find :
      (id : ℕ) (chunk : RagChunk E) (chunks : Table ℕ (RagChunk E))
      → find id chunks ≡ some chunk
      → find id (orphan_chunks_not_in_set document_id active chunks)
        ≡ some (orphaned document_id active chunk)
  unfolding orphan_chunks_not_in_set find
  orphan_find id chunk [] at = absurd (ground (arith, at))
  orphan_find id chunk ((k, c) ∷ chunks) at = elim (Bool-cases (k == id)) [
    | inl same ↦ rw same (ap (λ x. some (orphaned document_id active x)) (ground (arith, at, same)))
    | inr other ↦ rw other (orphan_find id chunk chunks (ground (arith, at, other)))
  ]

  orphan_missing :
      (id : ℕ) (chunks : Table ℕ (RagChunk E))
      → find id chunks ≡ none
      → find id (orphan_chunks_not_in_set document_id active chunks) ≡ none
  unfolding orphan_chunks_not_in_set find
  orphan_missing id [] missing = refl
  orphan_missing id ((k, c) ∷ chunks) missing = ground (arith, missing, orphan_missing id chunks)

  orphan_from :
      (id : ℕ) (after : RagChunk E) (chunks : Table ℕ (RagChunk E))
      → find id (orphan_chunks_not_in_set document_id active chunks) ≡ some after
      → (chunk : RagChunk E) × (find id chunks ≡ some chunk)
        × (orphaned document_id active chunk ≡ after)
  orphan_from id after chunks at = elim (Option-cases (find id chunks)) [
    | inl missing ↦ absurd (ground (arith, at, orphan_missing id chunks missing))
    | inr (chunk, e) ↦ (chunk, e, ground (arith, at, orphan_find id chunk chunks e))
  ]

  orphaned_live :
      (chunk : RagChunk E)
      → (orphaned document_id active chunk).document_id ≡ document_id
      → (orphaned document_id active chunk).status ≡ "active"
      → is_in (orphaned document_id active chunk).content_hash active ≡ true
  orphaned_live chunk own live = elim (Bool-cases (is_in chunk.content_hash active)) [
    | inl present ↦ ground (arith, present)
    | inr absent ↦ absurd (
        ground (
          arith,
          absent,
          own,
          live,
          nat_beq_iff chunk.document_id document_id,
          str_eq_iff chunk.status "active",
          str_eq_iff "orphaned" "active",
        ))
  ]

  -- An active chunk that the last step leaves has a hash of the text.
  pub orphan_sound :
      (id : ℕ) (after : RagChunk E) (chunks : Table ℕ (RagChunk E))
      → find id (orphan_chunks_not_in_set document_id active chunks) ≡ some after
      → after.document_id ≡ document_id
      → after.status ≡ "active"
      → is_in after.content_hash active ≡ true
  orphan_sound id after chunks at own live =
      let (chunk, e, same) = orphan_from id after chunks at in
      rw (sym same) (orphaned_live chunk (rw (sym same) at own) (rw (sym same) at live))

  pub orphan_present :
      (id : ℕ) (chunk : RagChunk E) (chunks : Table ℕ (RagChunk E))
      → find id chunks ≡ some chunk
      → is_in chunk.content_hash active ≡ true
      → find id (orphan_chunks_not_in_set document_id active chunks) ≡ some chunk
  orphan_present id chunk chunks at present =
      orphan_find id chunk chunks at ∙ ap (λ c. some c) (ground (arith, present))

  pub orphan_other :
      (id : ℕ) (chunk : RagChunk E) (chunks : Table ℕ (RagChunk E))
      → find id chunks ≡ some chunk
      → chunk.document_id ≢ document_id
      → find id (orphan_chunks_not_in_set document_id active chunks) ≡ some chunk
  orphan_other id chunk chunks at other =
      orphan_find id chunk chunks at
      ∙ ap (λ c. some c) (ground (arith, other, nat_beq_iff chunk.document_id document_id))

pub find-is_in :
    {V : Type 0} (h : String) (v : V) (t : Table String V) → find h t ≡ some v → is_in h t ≡ true
find-is_in h v t at = ground (arith, at)
