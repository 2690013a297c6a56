-- ===== src/Tests/Leads.antt =====
-- Runs of the lead requests.
use akar_ai.Prelude.{
  ℕ, String, str_eq_iff, ◌↔◌, ◌⊎◌, ◌≡◌, ◌≢◌, refl, true, none, some, or_else, List, [], ◌∷◌, arith,
  nat_key, str, strip,
}
use akar_ai.Exec.{ok}
use akar_ai.Table.{find, put}
use akar_ai.Database.{Db, Lead, StageResult}
use akar_ai.Leads.Inquiries.{has_text, new_lead, create_inquiry, pending_result}
use akar_ai.Leads.Callbacks.{
  CallbackBody, admit_callback, classification_callback, process_spam_callback, lead_of_callback,
  store_spam, upsert_result, after_spam, update_of,
}
use akar_ai.Leads.Requests.{
  LeadRequest, inquire, review, move, classify, handle_lead, serve_leads, AreFreshLeads,
}
use akar_ai.Leads.Idempotence.{classification_callback_twice}
use akar_ai.Leads.SoundLead.{LeadsAreSound}
use akar_ai.Leads.Soundness.{serve_leads-LeadsAreSound}
use akar_ai.Leads.Progress.{StillThere, serve_leads-StillThere}
use akar_ai.Leads.Isolation.{foreign_lead_stays}
use akar_ai.Leads.Admission.{create_inquiry-ok_iff}
use akar_ai.Leads.Worker.{
  Reply, failed, attempts_from, forward_to_model_service, fail_open_completed, handle_lead_created,
}
use akar_ai.Leads.FailOpen.{handle_lead_created-fail_open}
use akar_ai.Tests.Data.{agent, villa, buyer, agency}

abbrev spam_body : CallbackBody
spam_body = record {
  lead_id = 3;
  tenant_id = 7;
  stage = "spam";
  status = "completed";
  label = some "not_spam";
  score = some 100;
  details = none;
  retry_count = 0;
}

-- An inquiry, the verdict on it, and a review.
abbrev week : List LeadRequest
week =
    inquire 3 1 9 (some " hello ")
    ∷ classify "secret" "Bearer secret" spam_body
    ∷ review (some agent) 3 50 none none
    ∷ []

agency-AreFreshLeads : AreFreshLeads agency week
unfolding find
agency-AreFreshLeads = (refl, (tt, (tt, tt)))

agency-LeadsAreSound : LeadsAreSound agency
unfolding find
agency-LeadsAreSound = λ id l found. absurd (ground arith)

serve_leads-LeadsAreSound_example : LeadsAreSound (serve_leads agency week)
serve_leads-LeadsAreSound_example =
    serve_leads-LeadsAreSound agency week agency-LeadsAreSound agency-AreFreshLeads

abbrev inquiry : Lead
inquiry = new_lead villa 1 buyer 9 "hello"

abbrev waiting : Db
waiting = record agency {
  leads = (3, inquiry) ∷ [];
  spam_results = (3, pending_result 7) ∷ [];
  level_results = (3, pending_result 7) ∷ [];
}

serve_leads-StillThere_example :
    StillThere 3 inquiry (serve_leads waiting (review (some agent) 3 50 none none ∷ []))
serve_leads-StillThere_example =
    serve_leads-StillThere 3 inquiry waiting (review (some agent) 3 50 none none ∷ [])
      (unfold find in refl) (tt, tt)

first_delivery :
    (r : StageResult) × ((classification_callback "secret" "Bearer secret" spam_body waiting).0
      ≡ ok r)
unfolding find put classification_callback admit_callback process_spam_callback lead_of_callback
    store_spam upsert_result after_spam str
first_delivery = (upsert_result 7 (update_of spam_body) (some (pending_result 7)), refl)

classification_callback_twice_example :
    classification_callback "secret" "Bearer secret" spam_body
      (classification_callback "secret" "Bearer secret" spam_body waiting).1
    ≡ (ok first_delivery.0, (classification_callback "secret" "Bearer secret" spam_body waiting).1)
classification_callback_twice_example =
    classification_callback_twice "secret" "Bearer secret" spam_body waiting first_delivery.0
      first_delivery.1

abbrev foreign : Lead
foreign = record inquiry { agency_tenant_id = 8 }

foreign_lead_stays_example :
    find 3
      (handle_lead
        (move (some agent) 0 3 "closed")
        (record waiting { leads = (3, foreign) ∷ [] })).leads
    ≡ some foreign
foreign_lead_stays_example =
    foreign_lead_stays agent (record waiting { leads = (3, foreign) ∷ [] })
      (move (some agent) 0 3 "closed") 3 foreign refl refl tt (unfold find in refl)
      (λ e. ground arith)

create_inquiry-ok_iff_example :
    ((create_inquiry 3 1 9 (some " hello ") agency).0
      ≡ ok (new_lead villa 1 buyer 9 (strip (or_else (some " hello ") ""))))
    ↔ ((villa.status ≡ "active")
        × (has_text buyer.name ≡ true)
        × ((has_text buyer.email ≡ true) ⊎ (has_text buyer.phone ≡ true))
        × (strip (or_else (some " hello ") "") ≢ ""))
create_inquiry-ok_iff_example =
    create_inquiry-ok_iff 3 1 9 (some " hello ") agency villa buyer (unfold find in refl)
      (unfold find in refl)

abbrev unreachable : ℕ → Db → Reply String × Db
unreachable attempt db = (failed "timeout", db)

abbrev give_up : String
give_up = "Failed to classify lead 3 after 3 attempts: timeout"

three_attempts : forward_to_model_service unreachable 3 3 waiting ≡ (failed give_up, waiting)
unfolding forward_to_model_service attempts_from str
three_attempts = refl

abbrev same_text : String → String
same_text error = error

handle_lead_created-fail_open_example :
    ((handle_lead_created "secret" "secret" same_text 3 7 unreachable 3 (some "hello") waiting).0
      ≡ ok (fail_open_completed give_up))
    × (find 3
          (handle_lead_created "secret" "secret" same_text 3 7 unreachable 3
            (some "hello")
            waiting).1.leads
        ≡ some (record inquiry { processing_status = "completed" }))
handle_lead_created-fail_open_example =
    handle_lead_created-fail_open unreachable 3 3 7 "secret" same_text (some "hello") waiting
      waiting give_up inquiry (λ e. ground (arith, str_eq_iff "secret" "")) (unfold strip in refl)
      three_attempts (unfold find in refl) refl (unfold find str in refl)
