-- ===== src/Leads/Callbacks.antt =====
-- The classification callbacks: `process_spam_callback` and `process_level_callback` of
-- leads/service.py, the result repositories, and the endpoint of leads/router.py that dispatches to
-- them, with the validation of its body in leads/schemas.py.
use akar_ai.Prelude.{
  ℕ, ◌==◌, String, Bool, not, ◌||◌, ◌&&◌, Option, none, some, [], ◌∷◌, str_eq, str_is, str,
  contains, format, nat_key, if◌then◌else◌,
}
use akar_ai.Exec.{
  Exec, Result, ok, err, lift, not_found, forbidden, validation, pure, gets, modify, or_raise,
  raise_if, ◌>>=◌, ◌>>◌,
}
use akar_ai.Table.{find, put}
use akar_ai.Database.{Db, Lead, StageResult, DomainEventLog, write_domain_event_log}

-- The keyword arguments of a callback; `label` is `level` at the level stage.
pub record StageUpdate : Type 0 where
  pub status : String
  pub label : Option String
  pub score : Option ℕ
  pub details : Option String
  pub retry_count : ℕ
  pub idempotency_key : Option String

-- `if new is not None: result.x = new`
abbrev pub overwrite {ℓ} : {A : Type ℓ} → Option A → Option A → Option A
overwrite none old = old
overwrite (some new) old = some new

-- The row that `upsert_result` leaves for a lead; the callbacks pass no `last_error`.
unfoldable pub upsert_result : ℕ → StageUpdate → Option StageResult → StageResult
upsert_result tenant_id u none = record {
  agency_tenant_id = tenant_id;
  status = u.status;
  label = u.label;
  score = u.score;
  details = u.details;
  retry_count = u.retry_count;
  last_error = none;
  idempotency_key = u.idempotency_key;
}
upsert_result tenant_id u (some old) = record old {
  status = u.status;
  label = overwrite u.label old.label;
  score = overwrite u.score old.score;
  details = overwrite u.details old.details;
  retry_count = u.retry_count;
  idempotency_key = overwrite u.idempotency_key old.idempotency_key;
}

-- `if idempotency_key`, then `get_by_idempotency`
abbrev pub with_key : Option String → Option StageResult → Option StageResult
with_key none row = none
with_key (some key) none = none
with_key (some key) (some row) =
    if not (str_eq key "")
    then (if str_is row.idempotency_key key then some row else none)
    else none

-- The lead's `processing_status` after a spam callback.
unfoldable pub after_spam : StageUpdate → String → String
after_spam u old =
    if str_eq u.status "completed"
    then (if str_is u.label "spam" then "completed" else "pending_level")
    else if str_eq u.status "failed"
    then "failed"
    else old

unfoldable pub after_level : StageUpdate → String → String
after_level u old =
    if str_eq u.status "completed"
    then "completed"
    else if str_eq u.status "failed"
    then "failed"
    else old

abbrev pub result_event : String → String → ℕ → Lead → StageUpdate → DomainEventLog
result_event event_name label_key lead_id lead u = record {
  event_name = event_name;
  aggregate_type = some "lead";
  aggregate_id = some (str lead_id);
  payload =
      (label_key, u.label)
      ∷ ("status", some u.status)
      ∷ ("idempotency_key", u.idempotency_key)
      ∷ [];
  agency_tenant_id = some lead.agency_tenant_id;
  actor_user_id = none;
}

module _ (lead_id tenant_id : ℕ) (u : StageUpdate) where
  unfoldable pub lead_of_callback : Exec Db Lead
  lead_of_callback = do
    found ← gets (λ db. find lead_id db.leads)
    lead ← or_raise (not_found "Lead not found") found
    raise_if (not (lead.agency_tenant_id == tenant_id))
        (forbidden "Tenant mismatch for lead classification callback")
    pure lead

  unfoldable pub store_spam : Lead → Option StageResult → Exec Db StageResult
  unfolding write_domain_event_log
  store_spam lead (some existing) = pure existing
  store_spam lead none = do
    old ← gets (λ db. find lead_id db.spam_results)
    let result = upsert_result tenant_id u old
    modify λ db. record db { spam_results = put lead_id result db.spam_results }
    modify λ db. record db {
      leads =
          put lead_id (record lead { processing_status = after_spam u lead.processing_status })
            db.leads;
    }
    write_domain_event_log (result_event "lead.processing.spam_result" "label" lead_id lead u)
    pure result

  unfoldable pub process_spam_callback : Exec Db StageResult
  unfolding lead_of_callback store_spam
  process_spam_callback = do
    lead ← lead_of_callback
    existing ← gets (λ db. with_key u.idempotency_key (find lead_id db.spam_results))
    store_spam lead existing

  unfoldable pub store_level : Lead → Option StageResult → Exec Db StageResult
  unfolding write_domain_event_log
  store_level lead (some existing) = pure existing
  store_level lead none = do
    old ← gets (λ db. find lead_id db.level_results)
    let result = upsert_result tenant_id u old
    modify λ db. record db { level_results = put lead_id result db.level_results }
    modify λ db. record db {
      leads =
          put lead_id (record lead { processing_status = after_level u lead.processing_status })
            db.leads;
    }
    write_domain_event_log (result_event "lead.processing.level_result" "level" lead_id lead u)
    pure result

  unfoldable pub process_level_callback : Exec Db StageResult
  unfolding lead_of_callback store_level
  process_level_callback = do
    lead ← lead_of_callback
    existing ← gets (λ db. with_key u.idempotency_key (find lead_id db.level_results))
    store_level lead existing

-- `LeadClassificationCallbackRequest`
pub record CallbackBody : Type 0 where
  pub lead_id : ℕ
  pub tenant_id : ℕ
  pub stage : String
  pub status : String
  pub label : Option String
  pub score : Option ℕ
  pub details : Option String
  pub retry_count : ℕ

abbrev pub callback_key : CallbackBody → String
callback_key body =
    format ("callback_" ∷ str body.lead_id ∷ "_" ∷ body.stage ∷ "_r" ∷ str body.retry_count ∷ [])

abbrev pub update_of : CallbackBody → StageUpdate
update_of body = record {
  status = body.status;
  label = body.label;
  score = body.score;
  details = body.details;
  retry_count = body.retry_count;
  idempotency_key = some (callback_key body);
}

-- The field validators of the body.
abbrev pub is_valid_body : CallbackBody → Bool
is_valid_body body =
    contains ("spam" ∷ "level" ∷ []) body.stage
    && contains ("pending" ∷ "pending_spam" ∷ "pending_level" ∷ "completed" ∷ "failed" ∷ [])
        body.status

-- The body's validation, then the check of the header against the setting
-- `lead_model_service_callback_token`.
unfoldable pub admit_callback : String → String → CallbackBody → Result (Unit {0})
admit_callback token authorization body =
    if not (is_valid_body body)
    then err (validation "Request validation failed")
    else if str_eq token "" || not (str_eq authorization (format ("Bearer " ∷ token ∷ [])))
    then err (forbidden "Invalid callback authorization")
    else ok tt

abbrev pub dispatch_callback : CallbackBody → Exec Db StageResult
dispatch_callback body =
    if str_eq body.stage "spam"
    then process_spam_callback body.lead_id body.tenant_id (update_of body)
    else process_level_callback body.lead_id body.tenant_id (update_of body)

-- The endpoint.
unfoldable pub classification_callback : String → String → CallbackBody → Exec Db StageResult
classification_callback token authorization body =
    lift (admit_callback token authorization body) >> dispatch_callback body
