-- ===== src/Guardrails/History.antt =====
-- `_normalize_history` of backend/app/ai/guardrails.py: the part of a conversation that is handed to
-- the provider. The two settings are not negative.
use akar_ai.Prelude.{
  ℕ, ◌*◌, ◌-◌, ◌≤◌, ◌<◌, String, Bool, true, not, ◌&&◌, ◌||◌, ◌≡◌, List, [], ◌∷◌, All, str_eq,
  strip, codes, text_of, take, drop, length, nat_beq, arith, if◌then◌else◌, length-drop_add,
  length-take, codes-text_of, Bool-cases, inl, inr,
}

pub record ChatMessage : Type 0 where
  pub role : String
  pub content : String

-- `xs[-n:]`, which is the whole list for n = 0
unfoldable pub last_items : ℕ → List ChatMessage → List ChatMessage
last_items n xs = if nat_beq n 0 then xs else drop (length xs - n) xs

abbrev pub take_text : ℕ → String → String
take_text n s = text_of (take n (codes s))

abbrev is_turn : String → String → Bool
is_turn role content = (str_eq role "user" || str_eq role "assistant") && not (str_eq content "")

-- The loop over the trimmed messages.
unfoldable pub normalized : ℕ → List ChatMessage → List ChatMessage
normalized max_chars [] = []
normalized max_chars (message ∷ messages) =
    let role = strip message.role in
    let content = strip message.content in
    let rest = normalized max_chars messages in
    if is_turn role content
    then record { role = role; content = take_text max_chars content } ∷ rest
    else rest

unfoldable pub normalize_history : ℕ → ℕ → List ChatMessage → List ChatMessage
normalize_history max_turns max_chars messages =
    normalized max_chars (last_items (max_turns * 2) messages)

-- A message as it is handed on.
pub record IsTurn (max_chars : ℕ) (message : ChatMessage) : Type 0 where
  pub speaker : (str_eq message.role "user" || str_eq message.role "assistant") ≡ true
  pub short : length (codes message.content) ≤ max_chars

normalized-All :
    (max_chars : ℕ) (messages : List ChatMessage)
    → All (IsTurn max_chars) (normalized max_chars messages)
unfolding normalized
normalized-All max_chars [] = tt
normalized-All max_chars (message ∷ messages) =
    elim (Bool-cases (is_turn (strip message.role) (strip message.content))) [
      | inr other ↦ rw other (normalized-All max_chars messages)
      | inl turn ↦ rw turn (
        record {
          speaker = ground (arith, turn);
          short = rw codes-text_of (length-take max_chars (codes (strip message.content)));
        },
        normalized-All max_chars messages,
      )
    ]

length-normalized :
    (max_chars : ℕ) (messages : List ChatMessage)
    → length (normalized max_chars messages) ≤ length messages
unfolding normalized
length-normalized max_chars [] = omega arith
length-normalized max_chars (message ∷ messages) =
    ground (arith, length-normalized max_chars messages)

length-last_items : (n : ℕ) (xs : List ChatMessage) → 0 < n → length (last_items n xs) ≤ n
unfolding last_items
length-last_items n xs h = ground (arith, length-drop_add (length xs - n) xs)

-- The history that reaches the provider is bounded: with a positive number of turns it has at most two
-- messages a turn, each by the user or the assistant and no longer than the setting allows.
pub normalize_history-bounded :
    (max_turns max_chars : ℕ) (messages : List ChatMessage)
    → 0 < max_turns
    → (length (normalize_history max_turns max_chars messages) ≤ max_turns * 2)
      × All (IsTurn max_chars) (normalize_history max_turns max_chars messages)
unfolding normalize_history
normalize_history-bounded max_turns max_chars messages h = (
  ground (
    arith,
    length-normalized max_chars (last_items (max_turns * 2) messages),
    length-last_items (max_turns * 2) messages,
  ),
  normalized-All max_chars (last_items (max_turns * 2) messages),
)
