-- ===== src/Leads/Worker.antt =====
-- The worker's handler of `lead.created`, workers/handlers/leads.py, over the retries of
-- workers/handlers/lead_processing_client.py and the callback endpoint of the backend. The model
-- service is given: `classify` is what one attempt answers or fails with, and what it did to the
-- database through its own callbacks. The JSON text of the failure's details is given as well.
use akar_ai.Prelude.{
  ℕ, zero, suc, String, Option, none, some, [], ◌∷◌, format, str, or_else, if◌then◌else◌,
}
use akar_ai.Exec.{Exec, Result, ok, err, uncaught, transaction, pure, ◌>>◌}
use akar_ai.Database.{Db, StageResult}
use akar_ai.Leads.Inquiries.{has_text}
use akar_ai.Leads.Callbacks.{CallbackBody, classification_callback}

-- What a call answers, or the text of the exception that it raises.
pub data Reply (A : Type 0) : Type 0 where
  answered : A → Reply A
  failed : String → Reply A

module _ {A : Type 0} (classify : ℕ → Db → Reply A × Db) (lead_id max_attempts : ℕ) where
  -- `last_error` as Python writes it into the text.
  abbrev exhausted : Option String → String
  exhausted last_error = format (
      "Failed to classify lead "
      ∷ str lead_id
      ∷ " after "
      ∷ str max_attempts
      ∷ " attempts: "
      ∷ or_else last_error "None"
      ∷ [])

  -- The loop, from an attempt on, with the number of attempts that are left; it pauses in between.
  unfoldable pub attempts_from : ℕ → ℕ → Option String → Db → Reply A × Db
  attempts_from zero attempt last_error db = (failed (exhausted last_error), db)
  attempts_from (suc left) attempt last_error db = elim (classify attempt db).0 [
    | answered data_ ↦ (answered data_, (classify attempt db).1)
    | failed error ↦ attempts_from left (suc attempt) (some error) (classify attempt db).1
  ]

  unfoldable pub forward_to_model_service : Db → Reply A × Db
  forward_to_model_service db = attempts_from max_attempts 1 none db

pub data Outcome (A : Type 0) : Type 0 where
  skipped_empty_message : Outcome A
  classified : A → Outcome A
  fail_open_completed : String → Outcome A

-- The worker's setting `CALLBACK_TOKEN` and the backend's.
module _ (callback_token token : String) (fail_reason : String → String)
    (lead_id tenant_id : ℕ) where
  abbrev pub fail_open_body : String → String → String → CallbackBody
  fail_open_body stage label error = record {
    lead_id = lead_id;
    tenant_id = tenant_id;
    stage = stage;
    status = "completed";
    label = some label;
    score = some 0;
    details = some (fail_reason error);
    retry_count = 0;
  }

  abbrev raise_for_status : Result StageResult → Result (Unit {0})
  raise_for_status (ok r) = ok tt
  raise_for_status (err e) = err (uncaught "HTTPStatusError")

  unfoldable pub post_fail_open_callback : String → String → String → Exec Db (Unit {0})
  post_fail_open_callback stage label error db =
      let answer =
        transaction
          (classification_callback token (format ("Bearer " ∷ callback_token ∷ []))
            (fail_open_body stage label error))
          db in
      (raise_for_status answer.0, answer.1)

  module _ {A : Type 0} (classify : ℕ → Db → Reply A × Db) (max_attempts : ℕ) where
    abbrev pub complete : Reply A → Exec Db (Outcome A)
    complete (answered result) = pure (classified result)
    complete (failed error) = do
      post_fail_open_callback "spam" "not_spam" error
      post_fail_open_callback "level" "normal" error
      pure (fail_open_completed error)

    unfoldable pub handle_lead_created : Option String → Exec Db (Outcome A)
    handle_lead_created message db =
        if has_text message
        then complete (forward_to_model_service classify lead_id max_attempts db).0
            (forward_to_model_service classify lead_id max_attempts db).1
        else pure skipped_empty_message db
