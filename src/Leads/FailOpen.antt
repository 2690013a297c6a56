-- ===== src/Leads/FailOpen.antt =====
-- What the callbacks of workers/handlers/leads.py leave when the model service cannot be reached.
use akar_ai.Prelude.{
  ℕ, String, ◌≡◌, ◌≢◌, refl, none, some, ◌∷◌, [], arith, nat_key, Option, Option-cases, inl, inr,
  ap, format, str_eq_iff, str_eq_refl, true,
}
use akar_ai.Exec.{ok, transaction}
use akar_ai.Table.{find, find-put_self}
use akar_ai.Database.{Db, Lead, StageResult}
use akar_ai.Leads.Inquiries.{has_text}
use akar_ai.Leads.Callbacks.{
  CallbackBody, StageUpdate, is_valid_body, update_of, with_key, callback_key, after_spam,
  after_level, admit_callback, dispatch_callback,
}
use akar_ai.Leads.Classified.{spam_replays, spam_stores, level_stores}
use akar_ai.Leads.Idempotence.{callback_dispatches}
use akar_ai.Leads.Worker.{
  Reply, failed, fail_open_body, post_fail_open_callback, forward_to_model_service,
  fail_open_completed, handle_lead_created,
}

module _ (token : String) (nonempty : token ≢ "") (fail_reason : String → String)
    (lead_id tenant_id : ℕ) (error : String) where
  abbrev body : String → String → CallbackBody
  body stage label = fail_open_body token token fail_reason lead_id tenant_id stage label error

  admits :
      (stage label : String)
      → is_valid_body (body stage label) ≡ true
      → admit_callback token (format ("Bearer " ∷ token ∷ [])) (body stage label) ≡ ok tt
  unfolding admit_callback
  admits stage label known =
      ground (arith, nonempty, str_eq_iff token "", str_eq_refl (format ("Bearer " ∷ token ∷ [])))

  -- An accepted callback is what the backend's service does with it.
  posts :
      (stage label : String) (db : Db) (r : StageResult)
      → is_valid_body (body stage label) ≡ true
      → (dispatch_callback (body stage label) db).0 ≡ ok r
      → post_fail_open_callback token token fail_reason lead_id tenant_id stage label error db
        ≡ (ok tt, (dispatch_callback (body stage label) db).1)
  unfolding post_fail_open_callback transaction
  posts stage label db r known h =
      rw
        (
          callback_dispatches token (format ("Bearer " ∷ token ∷ [])) (body stage label)
              (admits stage label known) db,
          h,
        )
        refl

  module _ (db : Db) (lead : Lead) (found : find lead_id db.leads ≡ some lead)
      (own : lead.agency_tenant_id ≡ tenant_id) where
    abbrev spam_update : StageUpdate
    spam_update = update_of (body "spam" "not_spam")

    abbrev level_update : StageUpdate
    level_update = update_of (body "level" "normal")

    -- The callback of the spam stage leaves the lead and the level results in place.
    spam_posted :
        (db' : Db) × (post_fail_open_callback token token fail_reason lead_id tenant_id "spam"
            "not_spam" error db
          ≡ (ok tt, db'))
        × ((status : String) × (find lead_id db'.leads
              ≡ some (record lead { processing_status = status })))
        × (db'.level_results ≡ db.level_results)
    spam_posted =
        elim (Option-cases (with_key spam_update.idempotency_key (find lead_id db.spam_results))) [
          | inl fresh ↦
              let (result, wrote) =
                spam_stores lead_id tenant_id spam_update db lead found own fresh in
              (
                _,
                posts "spam" "not_spam" db _ refl result,
                (
                  after_spam spam_update lead.processing_status,
                  rw (wrote.0.leads_are, find-put_self),
                ),
                wrote.0.level_is,
              )
          | inr (row, p) ↦
              let same = spam_replays lead_id tenant_id spam_update db lead found own row p in
              (
                _,
                posts "spam" "not_spam" db row refl (ap (λ x. x.0) same),
                (lead.processing_status, rw same found),
                rw same refl,
              )
        ]

    -- The callback of the level stage, when it is the first of its key, completes the lead.
    level_posted :
        with_key level_update.idempotency_key (find lead_id db.level_results) ≡ none
        → (db' : Db) × (post_fail_open_callback token token fail_reason lead_id tenant_id "level"
              "normal" error db
            ≡ (ok tt, db'))
          × (find lead_id db'.leads ≡ some (record lead { processing_status = "completed" }))
    unfolding after_level
    level_posted fresh =
        let (result, wrote) = level_stores lead_id tenant_id level_update db lead found own fresh in
        (_, posts "level" "normal" db _ refl result, rw (wrote.0.leads_are, find-put_self))

module _ {A : Type 0} (classify : ℕ → Db → Reply A × Db) (max_attempts lead_id tenant_id : ℕ) where
  -- When the attempts are used up, the handler's own callbacks complete the lead: for a message with
  -- text, a model service that failed every attempt and left the lead of the tenant with no level
  -- result under the key of a first callback, and a token that is set and the same on both sides, the
  -- handler returns `fail_open_completed` and the lead is as it was found, but for a processing status
  -- "completed".
  pub handle_lead_created-fail_open :
      (token : String) (fail_reason : String → String) (message : Option String) (db written : Db)
      (error : String) (lead : Lead)
      → token ≢ ""
      → has_text message ≡ true
      → forward_to_model_service classify lead_id max_attempts db ≡ (failed error, written)
      → find lead_id written.leads ≡ some lead
      → lead.agency_tenant_id ≡ tenant_id
      → with_key
          (some (
            callback_key
              (fail_open_body token token fail_reason lead_id tenant_id "level" "normal" error)))
          (find lead_id written.level_results)
        ≡ none
      → ((handle_lead_created token token fail_reason lead_id tenant_id classify max_attempts
            message db).0
          ≡ ok (fail_open_completed error))
        × (find lead_id
              (handle_lead_created token token fail_reason lead_id tenant_id classify max_attempts
                message db).1.leads
            ≡ some (record lead { processing_status = "completed" }))
  unfolding handle_lead_created
  handle_lead_created-fail_open token fail_reason message db written error lead nonempty text
        gave_up found own fresh =
      let (middle, sent, (status, found'), same) =
        spam_posted token nonempty fail_reason lead_id tenant_id error written lead found own in
      let (final, sent', completed) =
        level_posted token nonempty fail_reason lead_id tenant_id error middle
          (record lead { processing_status = status }) found' own (rw same fresh) in
      rw (text, gave_up, sent, sent') (refl, completed)
