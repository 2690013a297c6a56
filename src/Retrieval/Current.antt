-- ===== src/Retrieval/Current.antt =====
-- The rows of the search of `answer_policy_query`, and those that pass the check after it.
use akar_ai.Prelude.{
  none, Option, some, str_eq, ℕ, zero, suc, take, ◌≡◌, ◌⊎◌, inl, inr, refl, ◌==◌, true, false, ◌&&◌,
  List, [], ◌∷◌, All, str_eq_iff, some_is, nat_key, arith, Bool-cases, Option-cases,
}
use akar_ai.Table.{Table, find}
use akar_ai.Ingestion.Rows.{RagDocument, RagChunk}
use akar_ai.Retrieval.Search.{
  Floats, Found, is_processed, insert_found, with_document, matching_chunks,
  search_chunks_by_embedding, nat_in, get_documents_by_ids, document_ids, is_stale, stale_doc_ids,
  without_stale, current_rows,
}

abbrev pub IsRow : ℕ → RagDocument → Table ℕ RagDocument → Type 0
IsRow id document [] = ⊥
IsRow id document ((i, d) ∷ documents) = ((i ≡ id) × (d ≡ document)) ⊎ IsRow id document documents

-- A document of the tenant that is there.
abbrev pub IsThere : Option ℕ → Table ℕ RagDocument → ℕ → Type 0
IsThere tenant_id documents id =
    (document : RagDocument) × IsRow id document documents
    × (some_is tenant_id document.tenant_id ≡ true)

-- A document of the tenant that is processed.
abbrev pub IsProcessed : Option ℕ → Table ℕ RagDocument → ℕ → Type 0
IsProcessed tenant_id documents id =
    (document : RagDocument) × (find id documents ≡ some document)
    × (document.status ≡ "processed")
    × (some_is tenant_id document.tenant_id ≡ true)

-- A document of the evidence: it was processed when the search ran, and it is there at the check.
abbrev pub IsCurrent : Option ℕ → Table ℕ RagDocument → Table ℕ RagDocument → ℕ → Type 0
IsCurrent tenant_id searched refreshed id =
    IsProcessed tenant_id searched id × IsThere tenant_id refreshed id

get_documents_by_ids-IsThere :
    (tenant_id : Option ℕ) (ids : List ℕ) (session documents : Table ℕ RagDocument) (id : ℕ)
    (d : RagDocument)
    → find id (get_documents_by_ids tenant_id ids session documents) ≡ some d
    → IsThere tenant_id documents id
unfolding get_documents_by_ids find
get_documents_by_ids-IsThere tenant_id ids session [] id d h = absurd (ground (arith, h))
get_documents_by_ids-IsThere tenant_id ids session ((i, document) ∷ documents) id d h =
    let rest = get_documents_by_ids-IsThere tenant_id ids session documents id d in
    elim (Bool-cases (some_is tenant_id document.tenant_id && nat_in i ids)) [
      | inr other ↦ let row = rest (rw other at h) in (row.0, inr row.1, row.2)
      | inl chosen ↦ elim (Bool-cases (i == id)) [
        | inl same ↦ (document, inl (ground (arith, same), refl), ground (arith, chosen))
        | inr differ ↦ let row = rest (rw (chosen, differ) at h) in (row.0, inr row.1, row.2)
      ]
    ]

module _ (tenant_id : Option ℕ) (ids : List ℕ) (session documents : Table ℕ RagDocument) where
  pub not_stale-IsThere :
      (id : ℕ)
      → is_stale (get_documents_by_ids tenant_id ids session documents) id ≡ false
      → IsThere tenant_id documents id
  not_stale-IsThere id h =
      elim (Option-cases (find id (get_documents_by_ids tenant_id ids session documents))) [
        | inl missing ↦ absurd (ground (arith, missing, h))
        | inr (d, found) ↦ get_documents_by_ids-IsThere tenant_id ids session documents id d found
      ]

module _ (documents : Table ℕ RagDocument) where
  not_in_stale :
      (id : ℕ) (ids : List ℕ)
      → nat_in id ids ≡ true
      → nat_in id (stale_doc_ids documents ids) ≡ false
      → is_stale documents id ≡ false
  unfolding stale_doc_ids
  not_in_stale id [] here h = absurd (ground (arith, here))
  not_in_stale id (i ∷ ids) here h =
      let rest = not_in_stale id ids in
      elim (Bool-cases (i == id)) [
        | inl same ↦ elim (Bool-cases (is_stale documents id)) [
          | inr fresh ↦ fresh
          | inl stale ↦
              let id_is : i ≡ id = ground (arith, same) in
              let stale_i : is_stale documents i ≡ true = rw id_is stale in
              absurd (ground (arith, h, stale_i, same))
        ]
        | inr differ ↦ elim (Bool-cases (is_stale documents i)) [
          | inl stale ↦ rest (ground (arith, here, differ)) (ground (arith, h, stale))
          | inr fresh ↦ rest (ground (arith, here, differ)) (ground (arith, h, fresh))
        ]
      ]

module _ {F : Type 0} (documents : Table ℕ RagDocument) where
  abbrev IsFresh : Found F → Type 0
  IsFresh row = is_stale documents row.document_id ≡ false

  none_stale :
      (rows : List (Found F)) → stale_doc_ids documents (document_ids rows) ≡ [] → All IsFresh rows
  unfolding stale_doc_ids
  none_stale [] h = tt
  none_stale (row ∷ rows) h = elim (Bool-cases (is_stale documents row.document_id)) [
    | inl stale ↦ absurd (ground (arith, stale, h))
    | inr fresh ↦ (fresh, none_stale rows (ground (arith, fresh, h)))
  ]

  -- The rows whose document is among some ids are fresh when its id is none of the stale ones.
  without_stale-All :
      (ids : List ℕ) (rows : List (Found F))
      → All (λ row. nat_in row.document_id ids ≡ true) rows
      → All IsFresh (without_stale (stale_doc_ids documents ids) rows)
  unfolding without_stale
  without_stale-All ids [] h = tt
  without_stale-All ids (row ∷ rows) (here, h) =
      elim (Bool-cases (nat_in row.document_id (stale_doc_ids documents ids))) [
        | inl stale ↦ rw stale (without_stale-All ids rows h)
        | inr fresh ↦
            rw fresh
              (not_in_stale documents row.document_id ids here fresh, without_stale-All ids rows h)
      ]

  in_more :
      (id : ℕ) (rows : List (Found F)) (ids : List ℕ)
      → All (λ row. nat_in row.document_id ids ≡ true) rows
      → All (λ row. nat_in row.document_id (id ∷ ids) ≡ true) rows
  in_more id [] ids h = tt
  in_more id (row ∷ rows) ids (here, h) = (ground (arith, here), in_more id rows ids h)

  document_ids-All :
      (rows : List (Found F)) → All (λ row. nat_in row.document_id (document_ids rows) ≡ true) rows
  document_ids-All [] = tt
  document_ids-All (row ∷ rows) =
      (ground arith, in_more row.document_id rows (document_ids rows) (document_ids-All rows))

  pub current_rows-All : (rows : List (Found F)) → All IsFresh (current_rows documents rows)
  unfolding current_rows
  current_rows-All rows = chosen (stale_doc_ids documents (document_ids rows)) refl
    where
      chosen :
          (stale : List ℕ)
          → stale_doc_ids documents (document_ids rows) ≡ stale
          → All IsFresh (elim stale [ [] ↦ rows | id ∷ ids ↦ without_stale (id ∷ ids) rows ])
      chosen [] e = none_stale rows e
      chosen (id ∷ ids) e =
          rw (← e) (without_stale-All (document_ids rows) rows (document_ids-All rows))

module _ {F : Type 0} (P : Found F → Type 0) where
  without_stale-kept :
      (stale : List ℕ) (rows : List (Found F)) → All P rows → All P (without_stale stale rows)
  unfolding without_stale
  without_stale-kept stale [] h = tt
  without_stale-kept stale (row ∷ rows) (p, h) = elim (Bool-cases (nat_in row.document_id stale)) [
    | inl gone ↦ rw gone (without_stale-kept stale rows h)
    | inr kept ↦ rw kept (p, without_stale-kept stale rows h)
  ]

  pub current_rows-kept :
      (documents : Table ℕ RagDocument) (rows : List (Found F))
      → All P rows
      → All P (current_rows documents rows)
  unfolding current_rows
  current_rows-kept documents rows h = chosen (stale_doc_ids documents (document_ids rows))
    where
      chosen :
          (stale : List ℕ)
          → All P (elim stale [ [] ↦ rows | id ∷ ids ↦ without_stale (id ∷ ids) rows ])
      chosen [] = h
      chosen (id ∷ ids) = without_stale-kept (id ∷ ids) rows h

  take-kept : (n : ℕ) (rows : List (Found F)) → All P rows → All P (take n rows)
  take-kept zero rows h = tt
  take-kept (suc n) [] h = tt
  take-kept (suc n) (row ∷ rows) (p, h) = (p, take-kept n rows h)

  module _ {E : Type 0} (floats : Floats E F) where
    insert_found-kept :
        (x : Found F) (rows : List (Found F))
        → P x
        → All P rows
        → All P (insert_found floats x rows)
    insert_found-kept x [] p h = (p, tt)
    insert_found-kept x (y ∷ ys) p (q, h) = elim (Bool-cases (floats.le x.distance y.distance)) [
      | inl first ↦ rw first (p, (q, h))
      | inr later ↦ rw later (q, insert_found-kept x ys p h)
    ]

-- The search finds chunks of documents that are processed.
module _ {E F : Type 0} (floats : Floats E F) (tenant_id : Option ℕ) (query : E)
    (session documents : Table ℕ RagDocument) where
  abbrev pub AllProcessed : List (Found F) → Type 0
  AllProcessed rows = All (λ row. IsProcessed tenant_id documents row.document_id) rows

  with_document-AllProcessed :
      (id : ℕ) (chunk : RagChunk (Option E)) (distance : F) (found : Option RagDocument)
      (rows : List (Found F))
      → find chunk.document_id documents ≡ found
      → AllProcessed rows
      → AllProcessed (with_document floats tenant_id session id chunk distance found rows)
  with_document-AllProcessed id chunk distance none rows e h = h
  with_document-AllProcessed id chunk distance (some document) rows e h =
      elim (Bool-cases (
        some_is tenant_id chunk.tenant_id
        && str_eq chunk.status "active"
        && is_processed tenant_id document)) [
          | inr other ↦ rw other h
          | inl chosen ↦ rw chosen (
              insert_found-kept (λ row. IsProcessed tenant_id documents row.document_id) floats _
                rows
                (
                  document,
                  e,
                  ground (arith, chosen, str_eq_iff document.status "processed"),
                  ground (arith, chosen),
                )
                h)
        ]

  matching_chunks-AllProcessed :
      (chunks : Table ℕ (RagChunk (Option E)))
      → AllProcessed (matching_chunks floats tenant_id query session documents chunks)
  unfolding matching_chunks
  matching_chunks-AllProcessed [] = tt
  matching_chunks-AllProcessed ((id, chunk) ∷ chunks) =
      embedded chunk.embedding (matching_chunks-AllProcessed chunks)
    where
      rest : List (Found F)
      rest = matching_chunks floats tenant_id query session documents chunks

      embedded :
          (embedding : Option E)
          → AllProcessed rest
          → AllProcessed (elim embedding [
            | none ↦ rest
            | some own ↦
                with_document floats tenant_id session id chunk
                  (floats.cosine_distance own query)
                  (find chunk.document_id documents)
                  rest
          ])
      embedded none h = h
      embedded (some own) h =
          with_document-AllProcessed id chunk (floats.cosine_distance own query)
            (find chunk.document_id documents) rest refl h

  pub search_chunks_by_embedding-AllProcessed :
      (top_k : ℕ) (chunks : Table ℕ (RagChunk (Option E)))
      → AllProcessed
          (search_chunks_by_embedding floats tenant_id query top_k session documents chunks)
  unfolding search_chunks_by_embedding
  search_chunks_by_embedding-AllProcessed top_k chunks =
      take-kept _ _ _ (matching_chunks-AllProcessed chunks)
