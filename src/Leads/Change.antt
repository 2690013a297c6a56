-- ===== src/Leads/Change.antt =====
-- The requests on leads as a step relation: what each may do to the database.
use akar_ai.Prelude.{
  ℕ, String, ◌≡◌, Option, none, inl, inr, List, [], ◌∷◌, nat_key, Bool-cases, str_eq, sym, ap,
  arith,
}
use akar_ai.Exec.{ok, Raised, transaction-outcome}
use akar_ai.Table.{find}
use akar_ai.Database.{Db, StageResult}
use akar_ai.Tenant.{TenantContext}
use akar_ai.Leads.Inquiries.{create_inquiry}
use akar_ai.Leads.Reviews.{update_lead_status, review_lead}
use akar_ai.Leads.Callbacks.{
  CallbackBody, update_of, classification_callback, dispatch_callback, admit_callback,
}
use akar_ai.Leads.Requests.{
  LeadRequest, inquire, move, review, classify, handle_lead, IsFreshLead, serve_leads,
  AreFreshLeads,
}
use akar_ai.Leads.Effects.{
  Inquired, create_inquiry-Inquired, Moved, update_lead_status-Moved, Reviewed, review_lead_effect,
}
use akar_ai.Leads.Classified.{
  Classified, process_spam_callback-Classified, process_level_callback-Classified,
}
use akar_ai.Leads.Idempotence.{callback_admits, callback_dispatches}

-- The method of the request raises.
abbrev pub LeadRefused : Db → LeadRequest → Type 0
LeadRefused db (inquire lead_id listing_id user_id message) =
    Raised (create_inquiry lead_id listing_id user_id message db).0
LeadRefused db (move tenant now lead_id new_status) =
    Raised (update_lead_status tenant now lead_id new_status db).0
LeadRefused db (review tenant lead_id reviewed_by outcome notes) =
    Raised (review_lead tenant lead_id reviewed_by outcome notes db).0
LeadRefused db (classify token authorization body) =
    Raised (classification_callback token authorization body db).0

pub data LeadChange (db : Db) : LeadRequest → Db → Type 0 where
  failed : (r : LeadRequest) → LeadRefused db r → LeadChange db r db
  inquired :
      {lead_id listing_id user_id : ℕ} {message : Option String} {db' : Db}
      → find lead_id db.leads ≡ none
      → Inquired lead_id listing_id user_id message db db'
      → LeadChange db (inquire lead_id listing_id user_id message) db'
  moved :
      {tenant : Option TenantContext} {now lead_id : ℕ} {new_status : String} {db' : Db}
      → Moved tenant now lead_id new_status db db'
      → LeadChange db (move tenant now lead_id new_status) db'
  reviewed :
      {tenant : Option TenantContext} {lead_id reviewed_by : ℕ} {outcome notes : Option String}
      {db' : Db}
      → Reviewed tenant lead_id reviewed_by outcome notes db db'
      → LeadChange db (review tenant lead_id reviewed_by outcome notes) db'
  classified :
      {token authorization : String} {body : CallbackBody} {db' : Db}
      → admit_callback token authorization body ≡ ok tt
      → Classified body.lead_id body.tenant_id (update_of body) db db'
      → LeadChange db (classify token authorization body) db'

dispatch_callback-Classified :
    (body : CallbackBody) (db : Db) (r : StageResult)
    → (dispatch_callback body db).0 ≡ ok r
    → Classified body.lead_id body.tenant_id (update_of body) db (dispatch_callback body db).1
dispatch_callback-Classified body db r h = elim (Bool-cases (str_eq body.stage "spam")) [
  | inl spam ↦ rw spam (
      process_spam_callback-Classified body.lead_id body.tenant_id (update_of body) db r
        (ground (arith, spam)))
  | inr level ↦ rw level (
      process_level_callback-Classified body.lead_id body.tenant_id (update_of body) db r
        (ground (arith, level)))
]

classification_callback-Classified :
    (token authorization : String) (body : CallbackBody) (db : Db) (r : StageResult)
    → (classification_callback token authorization body db).0 ≡ ok r
    → LeadChange db
        (classify token authorization body)
        (classification_callback token authorization body db).1
classification_callback-Classified token authorization body db r h =
    let admitted = callback_admits token authorization body db r h in
    let runs = callback_dispatches token authorization body admitted db in
    rw runs (
      classified admitted
        (dispatch_callback-Classified body db r (rw (sym (ap (λ x. x.0) runs)) h)))

pub handle_lead-LeadChange :
    (db : Db) (r : LeadRequest) → IsFreshLead db r → LeadChange db r (handle_lead r db)
unfolding handle_lead
handle_lead-LeadChange db (inquire lead_id listing_id user_id message) fresh =
    elim (transaction-outcome (create_inquiry lead_id listing_id user_id message) db) [
      | inl (raised, same) ↦ rw same (failed _ raised)
      | inr (l, e, written) ↦
          rw written
            (inquired fresh (create_inquiry-Inquired lead_id listing_id user_id message db l e))
    ]
handle_lead-LeadChange db (move tenant now lead_id new_status) fresh =
    elim (transaction-outcome (update_lead_status tenant now lead_id new_status) db) [
      | inl (raised, same) ↦ rw same (failed _ raised)
      | inr (l, e, written) ↦
          rw written (moved (update_lead_status-Moved tenant now lead_id new_status db l e))
    ]
handle_lead-LeadChange db (review tenant lead_id reviewed_by outcome notes) fresh =
    elim (transaction-outcome (review_lead tenant lead_id reviewed_by outcome notes) db) [
      | inl (raised, same) ↦ rw same (failed _ raised)
      | inr (r, e, written) ↦
          rw written (reviewed (review_lead_effect tenant lead_id reviewed_by outcome notes db r e))
    ]
handle_lead-LeadChange db (classify token authorization body) fresh =
    elim (transaction-outcome (classification_callback token authorization body) db) [
      | inl (raised, same) ↦ rw same (failed _ raised)
      | inr (r, e, written) ↦
          rw written (classification_callback-Classified token authorization body db r e)
    ]

-- What every change keeps, every sequence of requests keeps.
pub serve_leads_induction :
    {P : Db → Type 0} (step : (db db' : Db) (r : LeadRequest) → P db → LeadChange db r db' → P db')
    (db : Db) (rs : List LeadRequest)
    → P db
    → AreFreshLeads db rs
    → P (serve_leads db rs)
unfolding serve_leads
serve_leads_induction step db [] h fresh = h
serve_leads_induction step db (r ∷ rs) h (fresh, later) =
    serve_leads_induction step (handle_lead r db) rs
      (step db (handle_lead r db) r h (handle_lead-LeadChange db r fresh)) later
