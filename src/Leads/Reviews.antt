-- ===== src/Leads/Reviews.antt =====
-- The agency's reads and writes of a lead, in leads/service.py.
use akar_ai.Prelude.{
  ℕ, String, not, Option, none, some, [], ◌∷◌, ◌++◌, str_eq, some_is, str, contains, format,
  nat_key, if◌then◌else◌,
}
use akar_ai.Exec.{
  Exec, not_found, validation, integrity, pure, lift, gets, modify, or_raise, raise_if, ◌>>=◌, ◌>>◌,
}
use akar_ai.Table.{find, put}
use akar_ai.Database.{Db, Lead, ReviewedLeadRecord, DomainEventLog, write_domain_event_log}
use akar_ai.Tenant.{TenantContext, require_tenant, ensure_tenant_match}
use akar_ai.Domain.{valid_lead_statuses, lead_status_transitions, allows}

abbrev pub lead_event : String → TenantContext → ℕ → Lead → String → DomainEventLog
lead_event event_name ctx lead_id lead status = record {
  event_name = event_name;
  aggregate_type = some "lead";
  aggregate_id = some (str lead_id);
  payload = ("status", some status) ∷ [];
  agency_tenant_id = some lead.agency_tenant_id;
  actor_user_id = ctx.actor_id;
}

abbrev in_tenant : TenantContext → Option Lead → Option Lead
in_tenant ctx none = none
in_tenant ctx (some lead) = if some_is ctx.tenant_id lead.agency_tenant_id then some lead else none

-- The assignments of `update_lead_status`.
abbrev pub with_status : ℕ → String → Lead → Lead
with_status now new_status lead = record lead {
  status = new_status;
  closed_at = if str_eq new_status "closed" then some now else lead.closed_at;
}

-- `if lead.status == LEAD_STATUS_NEW`
unfoldable pub mark_reviewed : TenantContext → ℕ → Lead → Exec Db (Unit {0})
unfolding write_domain_event_log
mark_reviewed ctx lead_id lead =
    if str_eq lead.status "new"
    then (do
      modify λ db. record db { leads = put lead_id (record lead { status = "reviewed" }) db.leads }
      write_domain_event_log (lead_event "lead.reviewed" ctx lead_id lead "reviewed"))
    else pure tt

module _ (tenant : Option TenantContext) where
  unfoldable pub get_lead : ℕ → Exec Db Lead
  get_lead lead_id = do
    ctx ← lift (require_tenant tenant)
    found ← gets (λ db. find lead_id db.leads)
    lead ← or_raise (not_found "Lead not found") found
    lift (ensure_tenant_match tenant lead.agency_tenant_id)
    pure lead

  unfoldable pub read_only_get_lead : ℕ → Exec Db (Option Lead)
  read_only_get_lead lead_id = do
    ctx ← lift (require_tenant tenant)
    gets (λ db. in_tenant ctx (find lead_id db.leads))

  unfoldable pub update_lead_status : ℕ → ℕ → String → Exec Db Lead
  unfolding write_domain_event_log
  update_lead_status now lead_id new_status = do
    ctx ← lift (require_tenant tenant)
    found ← gets (λ db. find lead_id db.leads)
    lead ← or_raise (not_found "Lead not found") found
    lift (ensure_tenant_match tenant lead.agency_tenant_id)
    raise_if (not (contains valid_lead_statuses new_status))
        (validation (format ("Invalid lead status: " ∷ new_status ∷ [])))
    raise_if (not (allows lead_status_transitions lead.status new_status)) (
        validation
          (format ("Cannot transition from '" ∷ lead.status ∷ "' to '" ∷ new_status ∷ "'" ∷ [])))
    modify λ db. record db { leads = put lead_id (with_status now new_status lead) db.leads }
    write_domain_event_log (lead_event "lead.status_changed" ctx lead_id lead new_status)
    pure (with_status now new_status lead)

  unfoldable pub review_lead : ℕ → ℕ → Option String → Option String → Exec Db ReviewedLeadRecord
  unfolding mark_reviewed
  review_lead lead_id reviewed_by outcome notes = do
    ctx ← lift (require_tenant tenant)
    found ← gets (λ db. find lead_id db.leads)
    lead ← or_raise (not_found "Lead not found") found
    lift (ensure_tenant_match tenant lead.agency_tenant_id)
    mark_reviewed ctx lead_id lead
    tenant_id ← or_raise (integrity "agency_tenant_id") ctx.tenant_id
    let review : ReviewedLeadRecord = record {
      lead_id = lead_id;
      agency_tenant_id = tenant_id;
      reviewed_by_user_id = some reviewed_by;
      outcome = outcome;
      notes = notes;
    }
    modify λ db. record db { reviewed = db.reviewed ++ review ∷ [] }
    pure review
