-- ===== src/Ingestion/Hashes.antt =====
-- What the dict of chunks by hash holds, said without a dict.
use akar_ai.Prelude.{
  ℕ, String, ◌≡◌, ◌∙◌, refl, Bool, true, false, ◌||◌, none, some, List, [], ◌∷◌, ◌++◌, arith,
  str_eq, str_eq_iff, text_key, Bool-cases, inl, inr, ap, if◌then◌else◌,
}
use mathlib.Core.List.{append_assoc, append-nil}
use akar_ai.Table.{Table, find, put, find-put, find-put_self, IsKeyed, put-IsKeyed}
use akar_ai.Ingestion.Chunks.{ChunkData, chunks_by_hash}

-- Some chunk of the text has the hash.
abbrev pub has_hash : String → List ChunkData → Bool
has_hash h [] = false
has_hash h (chunk ∷ chunks) = str_eq chunk.content_hash h || has_hash h chunks

-- The pages of the chunks with the hash, in their order.
abbrev pub pages_of : String → List ChunkData → List ℕ
pages_of h [] = []
pages_of h (chunk ∷ chunks) =
    let rest = pages_of h chunks in
    if str_eq chunk.content_hash h then chunk.page_ids ++ rest else rest

pub chunks_by_hash-IsKeyed :
    (chunks : List ChunkData) (by_hash : Table String ChunkData)
    → IsKeyed by_hash
    → IsKeyed (chunks_by_hash chunks by_hash)
unfolding chunks_by_hash
chunks_by_hash-IsKeyed [] by_hash keyed = keyed
chunks_by_hash-IsKeyed (chunk ∷ chunks) by_hash keyed =
    chunks_by_hash-IsKeyed chunks _ (put-IsKeyed chunk.content_hash _ by_hash keyed)

module _ (h : String) where
  pub chunks_by_hash_other :
      (chunks : List ChunkData) (by_hash : Table String ChunkData)
      → has_hash h chunks ≡ false
      → find h (chunks_by_hash chunks by_hash) ≡ find h by_hash
  unfolding chunks_by_hash
  chunks_by_hash_other [] by_hash absent = refl
  chunks_by_hash_other (chunk ∷ chunks) by_hash absent =
      chunks_by_hash_other chunks _ (ground (arith, absent)) ∙ rw find-put (ground (arith, absent))

  -- An entry that is there gets the pages of the later chunks.
  chunks_by_hash_extends :
      (chunks : List ChunkData) (by_hash : Table String ChunkData) (old : ChunkData)
      → find h by_hash ≡ some old
      → find h (chunks_by_hash chunks by_hash)
        ≡ some (record old { page_ids = old.page_ids ++ pages_of h chunks })
  unfolding chunks_by_hash
  chunks_by_hash_extends [] by_hash old at = rw append-nil at
  chunks_by_hash_extends (chunk ∷ chunks) by_hash old at =
      elim (Bool-cases (str_eq chunk.content_hash h)) [
        | inr other ↦
            rw other (chunks_by_hash_extends chunks _ old (rw find-put (ground (arith, other, at))))
        | inl same ↦
            let here = (str_eq_iff chunk.content_hash h).0 same in
            rw same (
              chunks_by_hash_extends chunks _
                (record old { page_ids = old.page_ids ++ chunk.page_ids })
                (rw (here, at) (find-put_self h _ by_hash))
              ∙ ap (λ p. some (record old { page_ids = p }))
                  (append_assoc old.page_ids chunk.page_ids (pages_of h chunks)))
      ]

  pub record Collected (chunks : List ChunkData) (by_hash : Table String ChunkData) : Type 0 where
    pub entry : ChunkData
    pub at : find h by_hash ≡ some entry
    pub pages : entry.page_ids ≡ pages_of h chunks

  -- A hash of the text has an entry with its pages.
  pub chunks_by_hash-Collected :
      (chunks : List ChunkData) (by_hash : Table String ChunkData)
      → find h by_hash ≡ none
      → has_hash h chunks ≡ true
      → Collected chunks (chunks_by_hash chunks by_hash)
  unfolding chunks_by_hash
  chunks_by_hash-Collected [] by_hash fresh present = absurd (ground arith)
  chunks_by_hash-Collected (chunk ∷ chunks) by_hash fresh present =
      elim (Bool-cases (str_eq chunk.content_hash h)) [
        | inr other ↦
            let rest =
              chunks_by_hash-Collected chunks (put chunk.content_hash _ by_hash)
                (rw find-put (ground (arith, other, fresh))) (ground (arith, other, present)) in
            record { entry = rest.entry; at = rest.at; pages = rw other rest.pages }
        | inl same ↦
            let here = (str_eq_iff chunk.content_hash h).0 same in
            record {
              entry = record chunk { page_ids = chunk.page_ids ++ pages_of h chunks };
              at =
                  chunks_by_hash_extends chunks _ chunk
                    (rw (here, fresh) (find-put_self h _ by_hash));
              pages = rw same refl;
            }
      ]
