-- ===== src/Leads/Inquiries.antt =====
-- `create_inquiry` of leads/service.py, and `get_lead_profile_missing_fields` of users/service.py.
use akar_ai.Prelude.{
  ℕ, String, Bool, true, false, not, ◌||◌, Option, none, some, List, [], ◌∷◌, ◌++◌, str_eq, some_is,
  or_else, str, strip, format, nat_key, if◌then◌else◌,
}
use akar_ai.Exec.{
  Exec, not_found, app_exception, pure, gets, modify, or_raise, raise_if, ◌>>=◌, ◌>>◌,
}
use akar_ai.Table.{Table, find, put, select}
use akar_ai.Database.{
  Db, Listing, Lead, User, StageResult, OutboxEvent, write_domain_event_log,
  publish_outbox_event_in_session,
}

-- `bool(x and x.strip())`
abbrev pub has_text : Option String → Bool
has_text none = false
has_text (some s) = not (str_eq (strip s) "")

-- `x.strip() if x else None`
abbrev pub stripped : Option String → Option String
stripped none = none
stripped (some s) = if str_eq s "" then none else some (strip s)

unfoldable pub get_lead_profile_missing_fields : User → List String
get_lead_profile_missing_fields user =
    (if has_text user.name then [] else "name" ∷ [])
    ++ (if has_text user.email || has_text user.phone then [] else "contact" ∷ [])

abbrev pub is_empty : List String → Bool
is_empty [] = true
is_empty (x ∷ xs) = false

abbrev pub active_listing : Option Listing → Option Listing
active_listing none = none
active_listing (some l) = if str_eq l.status "active" then some l else none

-- The row of `create_pending`.
abbrev pub pending_result : ℕ → StageResult
pending_result tenant_id = record {
  agency_tenant_id = tenant_id;
  status = "pending";
  label = none;
  score = none;
  details = none;
  retry_count = 0;
  last_error = none;
  idempotency_key = none;
}

abbrev pub new_lead : Listing → ℕ → User → ℕ → String → Lead
new_lead listing listing_id user user_id message = record {
  agency_tenant_id = listing.agency_tenant_id;
  listing_id = listing_id;
  user_id = some user_id;
  status = "new";
  processing_status = "pending_spam";
  name = stripped user.name;
  email = stripped user.email;
  phone = stripped user.phone;
  message = some message;
  source = some "web";
  closed_at = none;
}

abbrev pub lead_created : ℕ → Lead → String → OutboxEvent
lead_created lead_id lead message = record {
  event_name = "lead.created";
  aggregate_type = some "lead";
  aggregate_id = some (str lead_id);
  idempotency_key = format ("lead.created." ∷ str lead_id ∷ []);
  payload =
      ("lead_id", some (str lead_id))
      ∷ ("tenant_id", some (str lead.agency_tenant_id))
      ∷ ("listing_id", some (str lead.listing_id))
      ∷ ("message", some message)
      ∷ ("name", lead.name)
      ∷ ("email", lead.email)
      ∷ [];
}

-- The branch for an empty message is left out: `is_empty_message` is the constant `False` there.
unfoldable pub create_inquiry : ℕ → ℕ → ℕ → Option String → Exec Db Lead
unfolding write_domain_event_log publish_outbox_event_in_session
create_inquiry lead_id listing_id user_id message_in = do
  found ← gets (λ db. find listing_id db.listings)
  listing ← or_raise (not_found "Listing not found or not active") (active_listing found)
  found_user ← gets (λ db. find user_id db.users)
  user ← or_raise (not_found "User not found") found_user
  raise_if (not (is_empty (get_lead_profile_missing_fields user))) (
      app_exception 422
        "Complete your profile with your name and at least one contact method before sending a lead."
        "PROFILE_INCOMPLETE_FOR_LEADS")
  let message = strip (or_else message_in "")
  raise_if (str_eq message "")
      (app_exception 422 "Write a short message before sending a lead." "EMPTY_LEAD_MESSAGE")
  let lead = new_lead listing listing_id user user_id message
  modify λ db. record db { leads = put lead_id lead db.leads }
  modify λ db. record db {
    spam_results = put lead_id (pending_result lead.agency_tenant_id) db.spam_results;
  }
  modify λ db. record db {
    level_results = put lead_id (pending_result lead.agency_tenant_id) db.level_results;
  }
  publish_outbox_event_in_session (lead_created lead_id lead message)
  write_domain_event_log (record {
    event_name = "lead.created";
    aggregate_type = some "lead";
    aggregate_id = some (str lead_id);
    payload =
        ("listing_id", some (str listing_id)) ∷ ("email", lead.email) ∷ ("source", some "web") ∷ [];
    agency_tenant_id = some lead.agency_tenant_id;
    actor_user_id = some user_id;
  })
  pure lead

-- `list_user_inquiries`, before paging
unfoldable pub list_user_inquiries : ℕ → Exec Db (Table ℕ Lead)
list_user_inquiries user_id = gets (λ db. select (λ l. some_is l.user_id user_id) db.leads)
