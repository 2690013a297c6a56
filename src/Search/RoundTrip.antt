-- ===== src/Search/RoundTrip.antt =====
-- The text form of a cursor is read back.
use akar_ai.Prelude.{
  ℕ, ◌+◌, ◌*◌, ◌/◌, ◌%◌, ◌<◌, false, ◌==◌, ◌≡◌, refl, ◌∙◌, ap, Option, some, List, [], ◌∷◌, All,
  arith,
}
use akar_ai.Search.Codec.{
  symbol, pad, value, urlsafe_b64encode, at_start, after_one, after_two, after_three, prepend,
  a2b_base64, urlsafe_b64decode, encode_cursor, load, decode_cursor,
}

symbol-is_symbol : (i : ℕ) → i < 64 → ((symbol i == pad) ≡ false) × (value (symbol i) ≡ some i)
symbol-is_symbol i h = (ground arith, ground arith)

-- One step of the loop on the character of a number, for each place in the group.
start_step :
    (v : ℕ) (cs : List ℕ) (pads : ℕ)
    → v < 64
    → a2b_base64 (symbol v ∷ cs) at_start pads ≡ a2b_base64 cs (after_one v) 0
unfolding a2b_base64
start_step v cs pads h = let (n, is) = symbol-is_symbol v h in rw (n, is, a2b_base64) refl

one_step :
    (left v byte : ℕ) (cs : List ℕ) (pads : ℕ)
    → v < 64
    → left * 4 + v / 16 ≡ byte
    → a2b_base64 (symbol v ∷ cs) (after_one left) pads
      ≡ prepend byte (a2b_base64 cs (after_two (v % 16)) 0)
unfolding a2b_base64
one_step left v byte cs pads h same =
    let (n, is) = symbol-is_symbol v h in rw (n, is, same, a2b_base64) refl

two_step :
    (left v byte : ℕ) (cs : List ℕ) (pads : ℕ)
    → v < 64
    → left * 16 + v / 4 ≡ byte
    → a2b_base64 (symbol v ∷ cs) (after_two left) pads
      ≡ prepend byte (a2b_base64 cs (after_three (v % 4)) 0)
unfolding a2b_base64
two_step left v byte cs pads h same =
    let (n, is) = symbol-is_symbol v h in rw (n, is, same, a2b_base64) refl

three_step :
    (left v byte : ℕ) (cs : List ℕ) (pads : ℕ)
    → v < 64
    → left * 64 + v ≡ byte
    → a2b_base64 (symbol v ∷ cs) (after_three left) pads ≡ prepend byte (a2b_base64 cs at_start 0)
unfolding a2b_base64
three_step left v byte cs pads h same =
    let (n, is) = symbol-is_symbol v h in rw (n, is, same, a2b_base64) refl

two_pads : (left : ℕ) → a2b_base64 (pad ∷ pad ∷ []) (after_two left) 0 ≡ some []
unfolding a2b_base64
two_pads left = refl

one_pad : (left : ℕ) → a2b_base64 (pad ∷ []) (after_three left) 0 ≡ some []
unfolding a2b_base64
one_pad left = refl

-- The first two characters of a group give its first byte.
lead_step :
    (a v : ℕ) (cs : List ℕ) (pads : ℕ)
    → a < 256
    → v / 16 ≡ a % 4
    → v < 64
    → a2b_base64 (symbol (a / 4) ∷ symbol v ∷ cs) at_start pads
      ≡ prepend a (a2b_base64 cs (after_two (v % 16)) 0)
lead_step a v cs pads small same six =
    start_step (a / 4) (symbol v ∷ cs) pads (omega arith)
    ∙ one_step (a / 4) v a cs 0 six (omega arith)

-- The third character gives the second byte.
next_step :
    (a b v : ℕ) (cs : List ℕ)
    → b < 256
    → v / 4 ≡ b % 16
    → v < 64
    → a2b_base64 (symbol v ∷ cs) (after_two ((a % 4 * 16 + b / 16) % 16)) 0
      ≡ prepend b (a2b_base64 cs (after_three (v % 4)) 0)
next_step a b v cs small same six = two_step ((a % 4 * 16 + b / 16) % 16) v b cs 0 six (omega arith)

-- Decoding the code of a text gives the text.
a2b_base64-urlsafe_b64encode :
    (bytes : List ℕ) (pads : ℕ)
    → All (λ b. b < 256) bytes
    → a2b_base64 (urlsafe_b64encode bytes) at_start pads ≡ some bytes
unfolding a2b_base64 urlsafe_b64encode
a2b_base64-urlsafe_b64encode [] pads h = refl
a2b_base64-urlsafe_b64encode (a ∷ []) pads (ha, h) =
    lead_step a (a % 4 * 16) (pad ∷ pad ∷ []) pads ha (omega arith) (omega arith)
    ∙ ap (prepend a) (two_pads (a % 4 * 16 % 16))
a2b_base64-urlsafe_b64encode (a ∷ b ∷ []) pads (ha, (hb, h)) =
    let v = b % 16 * 4 in
    lead_step a (a % 4 * 16 + b / 16) (symbol v ∷ pad ∷ []) pads ha (omega arith) (omega arith)
    ∙ ap (prepend a) (
        next_step a b v (pad ∷ []) hb (omega arith) (omega arith)
        ∙ ap (prepend b) (one_pad (v % 4)))
a2b_base64-urlsafe_b64encode (a ∷ b ∷ c ∷ rest) pads (ha, (hb, (hc, h))) =
    let v = b % 16 * 4 + c / 64 in
    let w = c % 64 in
    let cs = urlsafe_b64encode rest in
    let third = three_step (v % 4) w c cs 0 (omega arith) (omega arith) in
    let rest_same = a2b_base64-urlsafe_b64encode rest 0 h in
    lead_step a (a % 4 * 16 + b / 16) (symbol v ∷ symbol w ∷ cs) pads ha (omega arith) (omega arith)
    ∙ ap (prepend a) (
        next_step a b v (symbol w ∷ cs) hb (omega arith) (omega arith)
        ∙ ap (prepend b) (third ∙ ap (prepend c) rest_same))

module _ {A : Type 0} (dumps : A → List ℕ) (loads : List ℕ → Option A) where
  -- Decoding an encoded cursor gives what the JSON parser reads in the JSON text of its values, for a
  -- text that is a sequence of bytes: the base64 layer loses and changes nothing, whatever the length.
  pub decode_cursor-encode_cursor :
      (values : A)
      → All (λ b. b < 256) (dumps values)
      → decode_cursor dumps loads (encode_cursor dumps loads values) ≡ loads (dumps values)
  unfolding decode_cursor encode_cursor urlsafe_b64decode
  decode_cursor-encode_cursor values bytes =
      ap (load dumps loads) (a2b_base64-urlsafe_b64encode (dumps values) 0 bytes)
