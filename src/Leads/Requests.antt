-- ===== src/Leads/Requests.antt =====
-- The requests that write leads, each in the transaction of `get_db_session`: a user's inquiry, the
-- agency's review and status change, and the callback of the model service.
use akar_ai.Prelude.{ℕ, String, ◌≡◌, Option, none, List, [], ◌∷◌, nat_key}
use akar_ai.Exec.{transaction}
use akar_ai.Table.{find}
use akar_ai.Database.{Db}
use akar_ai.Tenant.{TenantContext}
use akar_ai.Leads.Inquiries.{create_inquiry}
use akar_ai.Leads.Reviews.{update_lead_status, review_lead}
use akar_ai.Leads.Callbacks.{CallbackBody, classification_callback}

pub data LeadRequest : Type 0 where
  inquire : ℕ → ℕ → ℕ → Option String → LeadRequest
  move : Option TenantContext → ℕ → ℕ → String → LeadRequest
  review : Option TenantContext → ℕ → ℕ → Option String → Option String → LeadRequest
  classify : String → String → CallbackBody → LeadRequest

unfoldable pub handle_lead : LeadRequest → Db → Db
handle_lead (inquire lead_id listing_id user_id message) db =
    (transaction (create_inquiry lead_id listing_id user_id message) db).1
handle_lead (move tenant now lead_id new_status) db =
    (transaction (update_lead_status tenant now lead_id new_status) db).1
handle_lead (review tenant lead_id reviewed_by outcome notes) db =
    (transaction (review_lead tenant lead_id reviewed_by outcome notes) db).1
handle_lead (classify token authorization body) db =
    (transaction (classification_callback token authorization body) db).1

unfoldable pub serve_leads : Db → List LeadRequest → Db
serve_leads db [] = db
serve_leads db (r ∷ rs) = serve_leads (handle_lead r db) rs

-- The id of a new lead is drawn fresh.
abbrev pub IsFreshLead : Db → LeadRequest → Type 0
IsFreshLead db (inquire lead_id listing_id user_id message) = find lead_id db.leads ≡ none
IsFreshLead db (move tenant now lead_id new_status) = Unit
IsFreshLead db (review tenant lead_id reviewed_by outcome notes) = Unit
IsFreshLead db (classify token authorization body) = Unit

abbrev pub AreFreshLeads : Db → List LeadRequest → Type 0
AreFreshLeads db [] = Unit
AreFreshLeads db (r ∷ rs) = IsFreshLead db r × AreFreshLeads (handle_lead r db) rs
