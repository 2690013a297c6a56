-- ===== src/Leads/Isolation.antt =====
-- Tenants do not write one another's leads.
use akar_ai.Prelude.{
  ℕ, nat_beq_iff, ◌≡◌, ◌≢◌, false, Option, none, some, arith, nat_key, Bool-cases, inl, inr, str_eq,
}
use akar_ai.Table.{find, find-put}
use akar_ai.Database.{Db, Lead}
use akar_ai.Exec.{ok}
use akar_ai.Tenant.{TenantContext, ensure_tenant_match}
use akar_ai.Tenant.Laws.{ensure_tenant_match_iff}
use akar_ai.Leads.Requests.{LeadRequest, inquire, move, review, classify, handle_lead, IsFreshLead}
use akar_ai.Leads.Change.{
  LeadChange, failed, inquired, moved, reviewed, classified, handle_lead-LeadChange,
}

-- The context of an agency request on a lead.
abbrev pub lead_context_of : LeadRequest → Option TenantContext
lead_context_of (inquire _ _ _ _) = none
lead_context_of (move tenant _ _ _) = tenant
lead_context_of (review tenant _ _ _ _) = tenant
lead_context_of (classify _ _ _) = none

module _ (ctx : TenantContext) (agency : ctx.is_platform_actor ≡ false) (id : ℕ) (l : Lead)
    (foreign : ctx.tenant_id ≢ some l.agency_tenant_id) where
  tenant_matches : (t : ℕ) → ensure_tenant_match (some ctx) t ≡ ok tt → ctx.tenant_id ≡ some t
  tenant_matches t h = ground (arith, (ensure_tenant_match_iff ctx t).0 h)

  LeadChange-foreign :
      (db db' : Db) (r : LeadRequest)
      → lead_context_of r ≡ some ctx
      → find id db.leads ≡ some l
      → LeadChange db r db'
      → find id db'.leads ≡ some l
  LeadChange-foreign db _ _ own found (failed r refused) = found
  LeadChange-foreign db _ _ own found (inquired fresh c) = absurd (cc)
  LeadChange-foreign db _ _ own found (moved {lead_id = lead_id} c) =
      let own_lead = tenant_matches c.lead.agency_tenant_id (rw own at c.permitted) in
      rw (c.wrote.leads_are, find-put) (ground (arith, own_lead, c.found, nat_beq_iff lead_id id))
  LeadChange-foreign db _ _ own found (reviewed {lead_id = lead_id} c) =
      let own_lead = tenant_matches c.lead.agency_tenant_id (rw own at c.permitted) in
      elim (Bool-cases (str_eq c.lead.status "new")) [
        | inl new ↦
            rw (c.wrote.leads_are, new, find-put)
              (ground (arith, own_lead, c.found, nat_beq_iff lead_id id))
        | inr other ↦ rw (c.wrote.leads_are, other) found
      ]
  LeadChange-foreign db _ _ own found (classified admitted c) = absurd (cc)

-- A review or a status change by an agency's member who is no platform actor leaves every lead of
-- another tenant as it was.
pub foreign_lead_stays :
    (ctx : TenantContext) (db : Db) (r : LeadRequest) (id : ℕ) (l : Lead)
    → ctx.is_platform_actor ≡ false
    → lead_context_of r ≡ some ctx
    → IsFreshLead db r
    → find id db.leads ≡ some l
    → ctx.tenant_id ≢ some l.agency_tenant_id
    → find id (handle_lead r db).leads ≡ some l
foreign_lead_stays ctx db r id l agency own fresh found foreign =
    LeadChange-foreign ctx agency id l foreign db (handle_lead r db) r own found
      (handle_lead-LeadChange db r fresh)
