-- ===== src/Tests/Guardrails.antt =====
-- A policy assistant with a judge that finds everything safe, and a conversation.
use akar_ai.Prelude.{◌≡◌, refl, true, false, none, some, List, [], ◌∷◌, arith, str_eq_iff, strip}
use akar_ai.Exec.{ok}
use akar_ai.Guardrails.History.{ChatMessage, last_items, normalized, normalize_history}
use akar_ai.Guardrails.Generate.{
  detect_block_reason, detect_block_reason_agency, judge_content_safety, generate_with_nemo,
  generate_guardrailed_policy_answer, generate_guardrailed_agency_text,
}
use akar_ai.Guardrails.Messages.{
  Settings, Providers, ContentSafetyDecision, GuardrailedGenerationResult,
}
use akar_ai.Guardrails.Judged.{
  IsJudged, generate_guardrailed_policy_answer-IsJudged, generate_guardrailed_agency_text-IsJudged,
}

abbrev settings : Settings
settings = record {
  ai_guardrails_enabled = true;
  ai_guardrails_use_nemo_runtime = false;
  config_path_exists = false;
  openrouter_api_key = "key";
  openrouter_content_safety_model = "judge";
  ai_primary_provider = "azure";
}

abbrev fine : ContentSafetyDecision
fine = record { safe = true; category = none; reason = none }

abbrev providers : Providers
providers = record {
  search = λ pattern text. false;
  judge = λ prompt answer stage. some fine;
  nemo = λ messages. none;
  chat = λ messages. ok (some " Two months. ");
}

abbrev answer : GuardrailedGenerationResult
answer = record {
  answer_text = "Two months.";
  guardrail_status = "passed";
  blocked_reason = none;
  generation_provider = some "azure";
}

policy_run :
    generate_guardrailed_policy_answer settings providers "Which notice?" [] [] "sufficient"
    ≡ ok answer
unfolding generate_guardrailed_policy_answer detect_block_reason judge_content_safety
    generate_with_nemo strip
policy_run = refl

generate_guardrailed_policy_answer-IsJudged_example :
    IsJudged settings providers "Which notice?" "Two months."
generate_guardrailed_policy_answer-IsJudged_example =
    generate_guardrailed_policy_answer-IsJudged settings providers "Which notice?" [] []
      "sufficient" answer (λ e. ground (arith, str_eq_iff "judge" "")) policy_run
      (
        (λ e. ground (arith, str_eq_iff "passed" "blocked")),
        λ e. ground (arith, str_eq_iff "passed" "failed"),
      )

drafted : generate_guardrailed_agency_text settings providers "" "Write a title" [] ≡ answer
unfolding generate_guardrailed_agency_text detect_block_reason_agency judge_content_safety strip
drafted = refl

generate_guardrailed_agency_text-IsJudged_example :
    IsJudged settings providers "Write a title"
      (generate_guardrailed_agency_text settings providers "" "Write a title" []).answer_text
generate_guardrailed_agency_text-IsJudged_example =
    generate_guardrailed_agency_text-IsJudged settings providers "" "Write a title" []
      (λ e. ground (arith, str_eq_iff "judge" ""))
      (rw drafted (
        (λ e. ground (arith, str_eq_iff "passed" "blocked")),
        λ e. ground (arith, str_eq_iff "passed" "failed"),
      ))

abbrev conversation : List ChatMessage
conversation =
    record { role = "user"; content = "Hello" }
    ∷ record { role = "user"; content = " Which notice? " }
    ∷ record { role = "tool"; content = "x" }
    ∷ []

one_turn : normalize_history 1 5 conversation ≡ record { role = "user"; content = "Which" } ∷ []
unfolding normalize_history normalized last_items strip
one_turn = refl

-- Without turns the whole conversation is kept: `messages[-0:]` is all of it.
no_turns :
    normalize_history 0 5 conversation
    ≡ record { role = "user"; content = "Hello" } ∷ record { role = "user"; content = "Which" } ∷ []
unfolding normalize_history normalized last_items strip
no_turns = refl
