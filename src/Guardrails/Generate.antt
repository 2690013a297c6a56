-- ===== src/Guardrails/Generate.antt =====
-- The decision chain of backend/app/ai/guardrails.py, for policy answers and for the drafts of an
-- agency. `re.search` without case, the content safety judge of ai/openrouter.py, NeMo and the chat
-- provider are given; `none` is an exception that the code catches, `err` one that it does not.
use akar_ai.Prelude.{
  String, Bool, false, not, ◌&&◌, ◌||◌, Option, none, some, List, [], ◌∷◌, str_eq, strip, or_else,
  if◌then◌else◌,
}
use akar_ai.Exec.{uncaught, Result, ok, err}
use akar_ai.Guardrails.History.{ChatMessage}
use akar_ai.Guardrails.Messages.{
  GuardrailedGenerationResult, ContentSafetyDecision, Settings, Providers,
  prompt_injection_patterns, out_of_scope_patterns, out_of_scope_patterns_agency,
  unsafe_output_pattern, blocked, is_unsafe, reason_of, build_grounded_messages, unsafe_answer,
}

module _ (settings : Settings) (providers : Providers) where
  abbrev matches_any : List String → String → Bool
  matches_any [] text = false
  matches_any (pattern ∷ patterns) text = providers.search pattern text || matches_any patterns text

  abbrev detect : List String → String → Option String
  detect out_of_scope query =
      if matches_any prompt_injection_patterns query
      then some "prompt_injection_attempt"
      else if matches_any out_of_scope query
      then some "out_of_scope_request"
      else none

  unfoldable pub detect_block_reason : String → Option String
  detect_block_reason query = detect out_of_scope_patterns query

  unfoldable pub detect_block_reason_agency : String → Option String
  detect_block_reason_agency query = detect out_of_scope_patterns_agency query

  abbrev unavailable : String → ContentSafetyDecision
  unavailable reason = record {
    safe = false;
    category = some "content_safety_unavailable";
    reason = some reason;
  }

  abbrev judged : Option ContentSafetyDecision → ContentSafetyDecision
  judged none = unavailable "Content safety judge unavailable"
  judged (some decision) = decision

  unfoldable pub judge_content_safety :
      String → Option String → String → Option ContentSafetyDecision
  judge_content_safety user_prompt assistant_response stage =
      if str_eq settings.openrouter_content_safety_model ""
      then none
      else if str_eq settings.openrouter_api_key ""
      then some (unavailable "OpenRouter content safety is configured without an API key")
      else some (judged (providers.judge user_prompt assistant_response stage))

  abbrev stripped_or_none : Option String → Option String
  stripped_or_none none = none
  stripped_or_none (some text) = if str_eq (strip text) "" then none else some (strip text)

  unfoldable pub generate_with_nemo : List ChatMessage → Option String
  generate_with_nemo messages =
      if settings.ai_guardrails_enabled && settings.ai_guardrails_use_nemo_runtime
        && settings.config_path_exists
      then stripped_or_none (providers.nemo messages)
      else none

  abbrev content_safety_configured : Bool
  content_safety_configured =
      not (str_eq settings.openrouter_api_key "")
      && not (str_eq settings.openrouter_content_safety_model "")

  abbrev pub passed_status : String
  passed_status =
      if content_safety_configured
      then "passed"
      else if settings.ai_guardrails_enabled
      then "degraded"
      else "bypassed"

  abbrev answered : String → String → Option String → GuardrailedGenerationResult
  answered answer status provider = record {
    answer_text = answer;
    guardrail_status = status;
    blocked_reason = none;
    generation_provider = provider;
  }

  -- The last check of an answer, with what is returned in the place of an unsafe one.
  abbrev pub after_judging :
      String → String → String → String → String → GuardrailedGenerationResult
  after_judging query answer status provider instead =
      let decision = judge_content_safety query (some answer) "output" in
      if is_unsafe decision
      then blocked instead (reason_of "unsafe_output" decision) (some provider)
      else answered answer status (some provider)

  abbrev pub checked_answer : String → String → Result GuardrailedGenerationResult
  checked_answer query answer_text =
      if str_eq answer_text ""
      then err (uncaught "Chat provider returned an empty answer")
      else if providers.search unsafe_output_pattern answer_text
      then ok (
          blocked
            "I can't answer that safely. Ask a policy question grounded in the uploaded documents."
            (some "unsafe_output_blocked") (some settings.ai_primary_provider))
      else ok
          (after_judging query answer_text passed_status settings.ai_primary_provider unsafe_answer)

  abbrev pub answer_of_chat : String → Result (Option String) → Result GuardrailedGenerationResult
  answer_of_chat query (err e) = err e
  answer_of_chat query (ok text) = checked_answer query (strip (or_else text ""))

  abbrev pub answer_of :
      String → List ChatMessage → Option String → Result GuardrailedGenerationResult
  answer_of query messages (some nemo_text) =
      ok (after_judging query nemo_text "passed" "nemo_guardrails" unsafe_answer)
  answer_of query messages none = answer_of_chat query (providers.chat messages)

  abbrev pub policy_unblocked :
      String → List String → List ChatMessage → String → Result GuardrailedGenerationResult
  policy_unblocked query evidence_blocks history confidence_status =
      let input = judge_content_safety query none "input" in
      let messages = build_grounded_messages query evidence_blocks history confidence_status in
      if is_unsafe input
      then ok (
          blocked
            "I can only answer agency policy questions that pass the configured safety policy."
            (reason_of "unsafe_prompt" input) (some "openrouter_content_safety"))
      else answer_of query messages (generate_with_nemo messages)

  -- `history` is the normalized conversation.
  unfoldable pub generate_guardrailed_policy_answer :
      String → List String → List ChatMessage → String → Result GuardrailedGenerationResult
  generate_guardrailed_policy_answer query evidence_blocks history confidence_status =
      elim (detect_block_reason query) [
        | some reason ↦ ok (
            blocked
              "I can only answer agency policy questions grounded in your uploaded policy documents."
              (some reason) none)
        | none ↦ policy_unblocked query evidence_blocks history confidence_status
      ]

  abbrev pub checked_draft : String → String → GuardrailedGenerationResult
  checked_draft user_prompt answer_text =
      if str_eq answer_text ""
      then blocked "" (some "empty_response") none
      else if providers.search unsafe_output_pattern answer_text
      then blocked "" (some "unsafe_output_blocked") (some settings.ai_primary_provider)
      else after_judging user_prompt answer_text passed_status settings.ai_primary_provider ""

  abbrev pub draft_of_chat : String → Result (Option String) → GuardrailedGenerationResult
  draft_of_chat user_prompt (err e) = record {
    answer_text = "";
    guardrail_status = "failed";
    blocked_reason = some "provider_unavailable";
    generation_provider = none;
  }
  draft_of_chat user_prompt (ok text) = checked_draft user_prompt (strip (or_else text ""))

  abbrev pub draft_unblocked : String → List ChatMessage → GuardrailedGenerationResult
  draft_unblocked user_prompt conversation_messages =
      let input = judge_content_safety user_prompt none "input" in
      if is_unsafe input
      then blocked "" (reason_of "unsafe_prompt" input) (some "openrouter_content_safety")
      else draft_of_chat user_prompt (
          providers.chat
            (build_grounded_messages user_prompt [] conversation_messages "agency_draft"))

  -- Like the source it does not use its `system_prompt`.
  unfoldable pub generate_guardrailed_agency_text :
      String → String → List ChatMessage → GuardrailedGenerationResult
  generate_guardrailed_agency_text system_prompt user_prompt conversation_messages =
      elim (detect_block_reason_agency user_prompt) [
        | some reason ↦ blocked "" (some reason) none
        | none ↦ draft_unblocked user_prompt conversation_messages
      ]

  unfoldable pub generate_guardrailed_agency_draft :
      String → String → String → GuardrailedGenerationResult
  generate_guardrailed_agency_draft query system_prompt user_prompt =
      elim (detect_block_reason_agency query) [
        | some reason ↦ blocked "" (some reason) none
        | none ↦ generate_guardrailed_agency_text system_prompt user_prompt []
      ]
