-- ===== src/Ingestion/Existing.antt =====
-- What `existing_by_hash` of workers/handlers/rag.py holds.
use akar_ai.Prelude.{
  ℕ, ◌==◌, nat_beq_iff, String, ◌≡◌, true, Option, some, [], ◌∷◌, All, arith, nat_key, text_key,
  Bool-cases, inl, inr,
}
use akar_ai.Table.{Table, find, put, find-put, IsKeyed}
use akar_ai.Ingestion.Rows.{RagChunk}
use akar_ai.Ingestion.Reconcile.{existing_by_hash}

-- Every row of a table with different keys is found under its key.
pub keyed_found :
    {V : Type 0} (t : Table ℕ V) → IsKeyed t → All (λ row. find row.0 t ≡ some row.1) t
unfolding find
keyed_found [] keyed = tt
keyed_found ((k, v) ∷ t) (new, keyed) =
    (ground (arith, nat_beq_iff k k), still t (keyed_found t keyed))
  where
    still :
        (rows : Table ℕ _)
        → All (λ row. find row.0 t ≡ some row.1) rows
        → All (λ row. find row.0 ((k, v) ∷ t) ≡ some row.1) rows
    still [] h = tt
    still ((j, w) ∷ rows) (here, h) = (ground (arith, here, new, nat_beq_iff k j), still rows h)

module _ {E : Type 0} (document_id : ℕ) where
  -- The entry of a hash is a row of the document with that hash.
  pub record IsEntry (full : Table ℕ (RagChunk E)) (h : String) (id : ℕ) (chunk : RagChunk E)
      : Type 0 where
    pub row : find id full ≡ some chunk
    pub of_document : chunk.document_id ≡ document_id
    pub same_hash : chunk.content_hash ≡ h

  abbrev AreEntries : Table ℕ (RagChunk E) → Table String (ℕ × RagChunk E) → Type 0
  AreEntries full by_hash =
      (h : String) (id : ℕ) (chunk : RagChunk E)
      → find h by_hash ≡ some (id, chunk)
      → IsEntry full h id chunk

  pub existing_by_hash-AreEntries :
      (full rows : Table ℕ (RagChunk E)) (by_hash : Table String (ℕ × RagChunk E))
      → All (λ row. find row.0 full ≡ some row.1) rows
      → AreEntries full by_hash
      → AreEntries full (existing_by_hash document_id rows by_hash)
  unfolding existing_by_hash
  existing_by_hash-AreEntries full [] by_hash found entries = entries
  existing_by_hash-AreEntries full ((k, v) ∷ rows) by_hash (here, found) entries =
      elim (Bool-cases (v.document_id == document_id)) [
        | inr other ↦ rw other (existing_by_hash-AreEntries full rows by_hash found entries)
        | inl own ↦ rw own (
            existing_by_hash-AreEntries full rows (put v.content_hash (k, v) by_hash) found
              (λ h id chunk e. added h id chunk own e))
      ]
    where
      added :
          (h : String) (id : ℕ) (chunk : RagChunk E)
          → (v.document_id == document_id) ≡ true
          → find h (put v.content_hash (k, v) by_hash) ≡ some (id, chunk)
          → IsEntry full h id chunk
      added h id chunk own e = elim (Bool-cases (text_key.matches v.content_hash h)) [
        | inr other ↦
            entries h id chunk (ground (arith, e, other, find-put v.content_hash h (k, v) by_hash))
        | inl same ↦
            let p : ◌≡◌ {A = Option (ℕ × RagChunk E)} (some (k, v)) (some (id, chunk)) =
              ground (arith, e, same, find-put v.content_hash h (k, v) by_hash) in
            record {
              row = ground (arith, p, here);
              of_document = ground (arith, p, own);
              same_hash = ground (arith, p, same, text_key.matches_iff v.content_hash h);
            }
      ]
