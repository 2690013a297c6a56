-- ===== src/Retrieval/Text.antt =====
-- `truncate_text` and `source_label` of backend/app/rag/retrieval.py.
use Prim.Native.Char.{Char, code}
use akar_ai.Prelude.{
  ℕ, ◌-◌, ◌≤◌, ◌<◌, String, List, [], ◌∷◌, ◌++◌, is_space, codes, text_of, text_append, format, str,
  str_eq, take, length, length-append, length-take, codes-text_of, leb, ltb, nat_beq, arith,
  Bool-cases, inl, inr, if◌then◌else◌,
}

abbrev with_word : List Char → List (List Char) → List (List Char)
with_word [] words = words
with_word (c ∷ cs) words = (c ∷ cs) ∷ words

-- `text.split()`, from inside a word on
unfoldable pub split_from : List Char → List Char → List (List Char)
split_from word [] = with_word word []
split_from word (c ∷ cs) =
    let ended = split_from [] cs in
    let longer = split_from (word ++ c ∷ []) cs in
    if is_space (code c) then with_word word ended else longer

-- `" ".join(words)`
unfoldable pub join_words : List (List Char) → List Char
join_words [] = []
join_words (word ∷ []) = word
join_words (word ∷ next ∷ words) = word ++ codes " " ++ join_words (next ∷ words)

unfoldable pub truncate_text : String → ℕ → String
truncate_text text limit =
    let normalized = join_words (split_from [] (codes text)) in
    if leb (length normalized) limit
    then text_of normalized
    else text_of (take (limit - 1) normalized ++ codes "…")

-- `sorted(set(page_numbers))`
abbrev insert_page : ℕ → List ℕ → List ℕ
insert_page page [] = page ∷ []
insert_page page (p ∷ pages) =
    let rest = insert_page page pages in
    if nat_beq page p then p ∷ pages else if ltb page p then page ∷ p ∷ pages else p ∷ rest

unfoldable pub sorted_pages : List ℕ → List ℕ
sorted_pages [] = []
sorted_pages (page ∷ pages) = insert_page page (sorted_pages pages)

-- `", ".join(...)`
abbrev join_pages : List ℕ → String
join_pages [] = ""
join_pages (page ∷ []) = str page
join_pages (page ∷ next ∷ pages) =
    let rest = join_pages (next ∷ pages) in text_append (str page) (text_append ", " rest)

unfoldable pub source_label : String → List ℕ → String
source_label document_filename page_numbers =
    let pages = join_pages (sorted_pages page_numbers) in
    if str_eq pages "" then document_filename else format (document_filename ∷ " p." ∷ pages ∷ [])

-- A preview has at most as many characters as its limit, the sign of omission included, when the limit
-- is positive.
pub truncate_text-bounded :
    (text : String) (limit : ℕ) → 0 < limit → length (codes (truncate_text text limit)) ≤ limit
unfolding truncate_text
truncate_text-bounded text limit h =
    let normalized = join_words (split_from [] (codes text)) in
    elim (Bool-cases (leb (length normalized) limit)) [
      | inl short ↦ rw (short, codes-text_of) (ground (arith, short))
      | inr long ↦
          rw (long, codes-text_of, length-append)
            (ground (arith, h, length-take (limit - 1) normalized))
    ]
