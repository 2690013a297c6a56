-- ===== src/Search/Codec.antt =====
-- The text form of a cursor: `encode_cursor` and `decode_cursor` of
-- backend/app/listings/query_service.py, with Python's `base64.urlsafe_b64encode` and
-- `urlsafe_b64decode` on bytes. The bytes of the JSON text are given: `dumps` writes them and `loads`
-- reads them or fails.
use akar_ai.Prelude.{
  ℕ, ◌+◌, ◌-◌, ◌*◌, ◌/◌, ◌%◌, true, false, ◌&&◌, ◌||◌, ◌==◌, Option, none, some, List, [], ◌∷◌, ltb,
  leb, if◌then◌else◌,
}

-- The character of a six-bit number.
abbrev pub symbol : ℕ → ℕ
symbol i =
    if ltb i 26
    then i + 65
    else if ltb i 52
    then i + 71
    else if ltb i 62
    then i - 4
    else if i == 62
    then 45
    else 95

abbrev pub pad : ℕ
pad = 61

unfoldable pub urlsafe_b64encode : List ℕ → List ℕ
urlsafe_b64encode [] = []
urlsafe_b64encode (a ∷ []) = symbol (a / 4) ∷ symbol (a % 4 * 16) ∷ pad ∷ pad ∷ []
urlsafe_b64encode (a ∷ b ∷ []) =
    symbol (a / 4) ∷ symbol (a % 4 * 16 + b / 16) ∷ symbol (b % 16 * 4) ∷ pad ∷ []
urlsafe_b64encode (a ∷ b ∷ c ∷ rest) =
    symbol (a / 4)
    ∷ symbol (a % 4 * 16 + b / 16)
    ∷ symbol (b % 16 * 4 + c / 64)
    ∷ symbol (c % 64)
    ∷ urlsafe_b64encode rest

-- The number of a character; `-` and `_` are read as `+` and `/` are.
abbrev pub value : ℕ → Option ℕ
value c =
    if leb 65 c && leb c 90
    then some (c - 65)
    else if leb 97 c && leb c 122
    then some (c - 71)
    else if leb 48 c && leb c 57
    then some (c + 4)
    else if c == 43 || c == 45
    then some 62
    else if c == 47 || c == 95
    then some 63
    else none

-- Where the decoder stands in a group of four, with the bits that are left over.
pub data Quad : Type 0 where
  at_start : Quad
  after_one after_two after_three : ℕ → Quad

abbrev pub prepend : ℕ → Option (List ℕ) → Option (List ℕ)
prepend b none = none
prepend b (some bytes) = some (b ∷ bytes)

-- The decoder's loop: it skips characters that are not of the alphabet, stops when the padding
-- completes a group, and fails at the end of the text inside a group. The number counts pads.
unfoldable pub a2b_base64 : List ℕ → Quad → ℕ → Option (List ℕ)
a2b_base64 [] at_start pads = some []
a2b_base64 [] (after_one left) pads = none
a2b_base64 [] (after_two left) pads = none
a2b_base64 [] (after_three left) pads = none
a2b_base64 (c ∷ cs) at_start pads = elim (c == pad) [
  | true ↦ a2b_base64 cs at_start pads
  | false ↦ elim (value c) [
    | none ↦ a2b_base64 cs at_start pads
    | some v ↦ a2b_base64 cs (after_one v) 0
  ]
]
a2b_base64 (c ∷ cs) (after_one left) pads = elim (c == pad) [
  | true ↦ a2b_base64 cs (after_one left) pads
  | false ↦ elim (value c) [
    | none ↦ a2b_base64 cs (after_one left) pads
    | some v ↦ prepend (left * 4 + v / 16) (a2b_base64 cs (after_two (v % 16)) 0)
  ]
]
a2b_base64 (c ∷ cs) (after_two left) pads = elim (c == pad) [
  | true ↦ elim (leb 2 (pads + 1)) [
    | true ↦ some []
    | false ↦ a2b_base64 cs (after_two left) (pads + 1)
  ]
  | false ↦ elim (value c) [
    | none ↦ a2b_base64 cs (after_two left) pads
    | some v ↦ prepend (left * 16 + v / 4) (a2b_base64 cs (after_three (v % 4)) 0)
  ]
]
a2b_base64 (c ∷ cs) (after_three left) pads = elim (c == pad) [
  | true ↦ some []
  | false ↦ elim (value c) [
    | none ↦ a2b_base64 cs (after_three left) pads
    | some v ↦ prepend (left * 64 + v) (a2b_base64 cs at_start 0)
  ]
]

unfoldable pub urlsafe_b64decode : List ℕ → Option (List ℕ)
urlsafe_b64decode raw = a2b_base64 raw at_start 0

module _ {A : Type 0} (dumps : A → List ℕ) (loads : List ℕ → Option A) where
  unfoldable pub encode_cursor : A → List ℕ
  encode_cursor values = urlsafe_b64encode (dumps values)

  abbrev pub load : Option (List ℕ) → Option A
  load none = none
  load (some text) = loads text

  -- Every exception becomes `None`.
  unfoldable pub decode_cursor : List ℕ → Option A
  decode_cursor raw = load (urlsafe_b64decode raw)
