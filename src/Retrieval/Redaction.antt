-- ===== src/Retrieval/Redaction.antt =====
-- backend/app/rag/redaction.py and backend/app/ai/pii_redaction.py: what is taken out of a text before
-- it is returned or stored. `re` and Presidio are given.
use akar_ai.Prelude.{
  ℕ, String, Bool, not, ◌||◌, Option, none, some, List, [], ◌∷◌, ltb, take, length, codes, text_of,
  text_append, str_eq, map, if◌then◌else◌,
}
use akar_ai.Retrieval.Citations.{RagRetrievalCitation}
use akar_ai.Retrieval.Assemble.{RagRetrievalEvidence, RagRetrievalDebug, RagPolicyAnswer}

pub record Redactor : Type 0 where
  -- `re.sub` of a pattern by a replacement, and the match of a UUID
  pub sub : String → String → String → String
  pub is_uuid : String → Bool
  pub ai_pii_redaction_enabled : Bool
  -- Presidio; `none` is an engine that is not there or that raised
  pub presidio : String → Option String

abbrev redact_patterns : List (String × String)
redact_patterns =
    ("(?i)Bearer\\s+[A-Za-z0-9\\-._~+/]+=*", "Bearer [REDACTED]")
    ∷ ("eyJ[A-Za-z0-9\\-_]{4,}\\.eyJ[A-Za-z0-9\\-_]{4,}\\.[A-Za-z0-9\\-_]+", "[REDACTED_JWT]")
    ∷ ("\\bsk[-_][a-zA-Z0-9]{20,}\\b", "[REDACTED_KEY]")
    ∷ ("(?i)(api[_\\- ]?key\\s*[:=]\\s*)['\"]?[A-Za-z0-9\\-_\\.]{16,}['\"]?", "\\1[REDACTED]")
    ∷ (
      "(?i)((?:password|passwd|secret|private[_\\-]?key)\\s*[:=]\\s*)['\"]?\\S{8,}['\"]?",
      "\\1[REDACTED]",
    )
    ∷ (
      "(?i)\\b(system\\s+prompt|developer\\s+prompt|hidden\\s+prompt|internal\\s+instructions)\\b",
      "[BLOCKED_TERM]",
    )
    ∷ []

abbrev fallback_patterns : List (String × String)
fallback_patterns =
    ("[a-zA-Z0-9._%+\\-]+@[a-zA-Z0-9.\\-]+\\.[a-zA-Z]{2,}", "[REDACTED_EMAIL]")
    ∷ ("(?:\\+?1[-.\\s]?)?\\(?\\d{3}\\)?[-.\\s]\\d{3}[-.\\s]\\d{4}", "[REDACTED_PHONE]")
    ∷ []

-- `text[:limit] + "…" if len(text) > limit`
abbrev cap : ℕ → String → String
cap limit text =
    if ltb limit (length (codes text))
    then text_append (text_of (take limit (codes text))) "…"
    else text

abbrev cut : ℕ → String → String
cut limit text = if ltb limit (length (codes text)) then text_of (take limit (codes text)) else text

abbrev on_some : (String → String) → Option String → Option String
on_some f none = none
on_some f (some text) = some (f text)

module _ (redactor : Redactor) where
  abbrev sub_all : List (String × String) → String → String
  sub_all [] text = text
  sub_all ((pattern_, replacement) ∷ patterns) text =
      sub_all patterns (redactor.sub pattern_ replacement text)

  unfoldable pub redact_pii_text : String → String
  redact_pii_text text =
      if str_eq text "" || not redactor.ai_pii_redaction_enabled
      then text
      else if redactor.is_uuid text
      then text
      else elim (redactor.presidio text) [
        | none ↦ sub_all fallback_patterns text
        | some anonymized ↦ anonymized
      ]

  unfoldable pub redact_text : String → String
  redact_text text = redact_pii_text (sub_all redact_patterns text)

  -- The strings of a citation; the ids are UUIDs, which pass.
  abbrev sanitized_citation : RagRetrievalCitation → RagRetrievalCitation
  sanitized_citation citation = record citation {
    document_filename = redact_text citation.document_filename;
    source_label = redact_text citation.source_label;
  }

  abbrev sanitized_debug : RagRetrievalDebug → RagRetrievalDebug
  sanitized_debug debug = record debug {
    reranker_provider = on_some redact_text debug.reranker_provider;
    fallback_reason = on_some redact_text debug.fallback_reason;
    confidence_status = redact_text debug.confidence_status;
    guardrail_status = on_some redact_text debug.guardrail_status;
    guardrail_blocked_reason =
        on_some (λ text. cut 120 (redact_text text)) debug.guardrail_blocked_reason;
    generation_provider = on_some redact_text debug.generation_provider;
  }

  module _ {F : Type 0} where
    abbrev pub sanitized_evidence : RagRetrievalEvidence F → RagRetrievalEvidence F
    sanitized_evidence evidence = record evidence {
      document_filename = redact_text evidence.document_filename;
      source_label = redact_text evidence.source_label;
      text_preview = cap 500 (redact_text evidence.text_preview);
      parent_page_text = on_some (λ text. cap 1000 (redact_text text)) evidence.parent_page_text;
    }

    -- `_sanitize_policy_answer`, by `sanitize_answer_payload` on the fields of an answer
    unfoldable pub sanitize_policy_answer : RagPolicyAnswer F → RagPolicyAnswer F
    sanitize_policy_answer answer = record {
      status = redact_text answer.status;
      answer = redact_text answer.answer;
      citations = map sanitized_citation answer.citations;
      evidence = map sanitized_evidence answer.evidence;
      debug = sanitized_debug answer.debug;
    }
