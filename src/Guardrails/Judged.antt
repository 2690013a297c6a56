-- ===== src/Guardrails/Judged.antt =====
-- No answer that was not judged safe leaves backend/app/ai/guardrails.py when the content safety model
-- is set.
use akar_ai.Prelude.{
  String, [], ◌≡◌, ◌≢◌, refl, true, false, Option, none, some, List, arith, str_eq, str_eq_iff,
  strip, or_else, Bool-cases, Option-cases, inl, inr, subst,
}
use akar_ai.Exec.{Result, ok, err}
use akar_ai.Guardrails.History.{ChatMessage}
use akar_ai.Guardrails.Generate.{
  judge_content_safety, generate_with_nemo, detect_block_reason, detect_block_reason_agency,
  generate_guardrailed_policy_answer, generate_guardrailed_agency_text, after_judging, answer_of,
  answer_of_chat, checked_answer, policy_unblocked, checked_draft, draft_of_chat, draft_unblocked,
  passed_status,
}
use akar_ai.Guardrails.Messages.{
  GuardrailedGenerationResult, ContentSafetyDecision, Settings, Providers, blocked, is_unsafe,
  build_grounded_messages, unsafe_output_pattern, unsafe_answer,
}

module _ (settings : Settings) (providers : Providers) where
  -- The judge was asked and found the text safe.
  pub record FoundSafe (user_prompt : String) (answer : Option String) (stage : String)
      : Type 0 where
    pub decision : ContentSafetyDecision
    pub asked : providers.judge user_prompt answer stage ≡ some decision
    pub safe : decision.safe ≡ true

  judge_content_safety-FoundSafe :
      (user_prompt : String) (answer : Option String) (stage : String)
      → settings.openrouter_content_safety_model ≢ ""
      → is_unsafe (judge_content_safety settings providers user_prompt answer stage) ≡ false
      → FoundSafe user_prompt answer stage
  unfolding judge_content_safety
  judge_content_safety-FoundSafe user_prompt answer stage set safe =
      elim (Option-cases (providers.judge user_prompt answer stage)) [
        | inl down ↦ absurd (
            ground (arith, set, safe, down, str_eq_iff settings.openrouter_content_safety_model ""))
        | inr (decision, e) ↦ record {
          decision = decision;
          asked = e;
          safe =
              ground (arith, set, safe, e, str_eq_iff settings.openrouter_content_safety_model "");
        }
      ]

  pub record IsJudged (user_prompt : String) (answer : String) : Type 0 where
    pub prompt_safe : FoundSafe user_prompt none "input"
    pub answer_safe : FoundSafe user_prompt (some answer) "output"

  -- Neither refused nor failed.
  abbrev pub IsAnswer : GuardrailedGenerationResult → Type 0
  IsAnswer r = (r.guardrail_status ≢ "blocked") × (r.guardrail_status ≢ "failed")

  -- What holds of a result: an answer was judged.
  abbrev OfAnswer : String → Result GuardrailedGenerationResult → Type 0
  OfAnswer query (err e) = Unit
  OfAnswer query (ok a) = IsAnswer a → IsJudged query a.answer_text

  module _ (set : settings.openrouter_content_safety_model ≢ "") (query : String)
      (input : is_unsafe (judge_content_safety settings providers query none "input") ≡ false) where
    after_judging-IsJudged :
        (answer status provider instead : String)
        → IsAnswer (after_judging settings providers query answer status provider instead)
        → IsJudged query
            (after_judging settings providers query answer status provider instead).answer_text
    after_judging-IsJudged answer status provider instead (open_, _) =
        elim (Bool-cases
          (is_unsafe (judge_content_safety settings providers query (some answer) "output"))) [
            | inl unsafe ↦ absurd (open_ (rw unsafe refl))
            | inr safe ↦ rw safe (record {
              prompt_safe = judge_content_safety-FoundSafe query none "input" set input;
              answer_safe = judge_content_safety-FoundSafe query (some answer) "output" set safe;
            })
          ]

    checked_answer-OfAnswer :
        (answer : String) → OfAnswer query (checked_answer settings providers query answer)
    checked_answer-OfAnswer answer = elim (Bool-cases (str_eq answer "")) [
      | inl empty ↦ rw empty tt
      | inr text ↦ elim (Bool-cases (providers.search unsafe_output_pattern answer)) [
        | inl unsafe ↦ rw (text, unsafe) (λ is. absurd (is.0 refl))
        | inr clean ↦
            rw (text, clean)
              (after_judging-IsJudged answer (passed_status settings providers)
                settings.ai_primary_provider unsafe_answer)
      ]
    ]

    answer_of-OfAnswer :
        (messages : List ChatMessage) (nemo_text : Option String)
        → OfAnswer query (answer_of settings providers query messages nemo_text)
    answer_of-OfAnswer messages (some text) =
        after_judging-IsJudged text "passed" "nemo_guardrails" unsafe_answer
    answer_of-OfAnswer messages none = chatted (providers.chat messages)
      where
        chatted :
            (r : Result (Option String))
            → OfAnswer query (answer_of_chat settings providers query r)
        chatted (err e) = tt
        chatted (ok text) = checked_answer-OfAnswer (strip (or_else text ""))

    checked_draft-IsJudged :
        (answer : String)
        → IsAnswer (checked_draft settings providers query answer)
        → IsJudged query (checked_draft settings providers query answer).answer_text
    checked_draft-IsJudged answer = elim (Bool-cases (str_eq answer "")) [
      | inl empty ↦ rw empty (λ is. absurd (is.0 refl))
      | inr text ↦ elim (Bool-cases (providers.search unsafe_output_pattern answer)) [
        | inl unsafe ↦ rw (text, unsafe) (λ is. absurd (is.0 refl))
        | inr clean ↦
            rw (text, clean)
              (after_judging-IsJudged answer (passed_status settings providers)
                settings.ai_primary_provider "")
      ]
    ]

    draft_of_chat-IsJudged :
        (r : Result (Option String))
        → IsAnswer (draft_of_chat settings providers query r)
        → IsJudged query (draft_of_chat settings providers query r).answer_text
    draft_of_chat-IsJudged (err e) is = absurd (is.1 refl)
    draft_of_chat-IsJudged (ok text) is = checked_draft-IsJudged (strip (or_else text "")) is

  policy_unblocked-OfAnswer :
      (query : String) (evidence_blocks : List String) (history : List ChatMessage)
      (confidence_status : String)
      → settings.openrouter_content_safety_model ≢ ""
      → OfAnswer query
          (policy_unblocked settings providers query evidence_blocks history confidence_status)
  policy_unblocked-OfAnswer query evidence_blocks history confidence_status set =
      elim (Bool-cases (is_unsafe (judge_content_safety settings providers query none "input"))) [
        | inl unsafe ↦ rw unsafe (λ is. absurd (is.0 refl))
        | inr safe ↦
            let messages =
              build_grounded_messages query evidence_blocks history confidence_status in
            rw safe (
              answer_of-OfAnswer set query safe messages
                (generate_with_nemo settings providers messages))
      ]

  -- When a content safety model is set, a policy answer that is returned and is not marked as blocked
  -- passed both checks: the judge was asked about the question and about exactly the returned text, and
  -- found both safe. This holds on the NeMo path and on the chat path.
  pub generate_guardrailed_policy_answer-IsJudged :
      (query : String) (evidence_blocks : List String) (history : List ChatMessage)
      (confidence_status : String) (r : GuardrailedGenerationResult)
      → settings.openrouter_content_safety_model ≢ ""
      → generate_guardrailed_policy_answer settings providers query evidence_blocks history
          confidence_status
        ≡ ok r
      → IsAnswer r
      → IsJudged query r.answer_text
  unfolding generate_guardrailed_policy_answer
  generate_guardrailed_policy_answer-IsJudged query evidence_blocks history confidence_status r set
        done =
      chain (detect_block_reason settings providers query) done
    where
      chain :
          (found : Option String)
          → elim found as (λ x. Result GuardrailedGenerationResult) [
            | some reason ↦ ok (
                blocked
                  "I can only answer agency policy questions grounded in your uploaded policy documents."
                  (some reason)
                  none)
            | none ↦
                policy_unblocked settings providers query evidence_blocks history confidence_status
          ]
            ≡ ok r
          → IsAnswer r
          → IsJudged query r.answer_text
      chain (some reason) e = subst (OfAnswer query) e (λ is. absurd (is.0 refl))
      chain none e =
          subst (OfAnswer query) e
            (policy_unblocked-OfAnswer query evidence_blocks history confidence_status set)

  draft_unblocked-IsJudged :
      (user_prompt : String) (conversation_messages : List ChatMessage)
      → settings.openrouter_content_safety_model ≢ ""
      → IsAnswer (draft_unblocked settings providers user_prompt conversation_messages)
      → IsJudged user_prompt
          (draft_unblocked settings providers user_prompt conversation_messages).answer_text
  draft_unblocked-IsJudged user_prompt conversation_messages set =
      elim (Bool-cases
        (is_unsafe (judge_content_safety settings providers user_prompt none "input"))) [
          | inl unsafe ↦ rw unsafe (λ is. absurd (is.0 refl))
          | inr safe ↦ rw safe (
              draft_of_chat-IsJudged set user_prompt safe (
                providers.chat
                  (build_grounded_messages user_prompt [] conversation_messages "agency_draft")))
        ]

  -- When a content safety model is set, a draft of an agency that is neither blocked nor failed passed
  -- both checks: the judge was asked about the prompt and about exactly the returned text, and found both
  -- safe.
  pub generate_guardrailed_agency_text-IsJudged :
      (system_prompt user_prompt : String) (conversation_messages : List ChatMessage)
      → settings.openrouter_content_safety_model ≢ ""
      → IsAnswer (
          generate_guardrailed_agency_text settings providers system_prompt user_prompt
            conversation_messages)
      → IsJudged user_prompt
          (generate_guardrailed_agency_text settings providers system_prompt user_prompt
            conversation_messages).answer_text
  unfolding generate_guardrailed_agency_text
  generate_guardrailed_agency_text-IsJudged system_prompt user_prompt conversation_messages set =
      chain (detect_block_reason_agency settings providers user_prompt)
    where
      chain :
          (found : Option String)
          → let r = elim found as (λ x. GuardrailedGenerationResult) [
            | some reason ↦ blocked "" (some reason) none
            | none ↦ draft_unblocked settings providers user_prompt conversation_messages
          ] in
            IsAnswer r → IsJudged user_prompt r.answer_text
      chain (some reason) is = absurd (is.0 refl)
      chain none is = draft_unblocked-IsJudged user_prompt conversation_messages set is
