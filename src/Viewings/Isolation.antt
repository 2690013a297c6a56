-- ===== src/Viewings/Isolation.antt =====
-- Tenants do not write one another's slots and viewings.
use akar_ai.Prelude.{ℕ, nat_beq_iff, ◌≡◌, ◌≢◌, false, Option, none, some, arith, nat_key}
use akar_ai.Exec.{ok}
use akar_ai.Table.{find, find-put}
use akar_ai.Database.{Db, ListingViewingSlot, ScheduledViewing}
use akar_ai.Tenant.{TenantContext, ensure_tenant_match}
use akar_ai.Tenant.Laws.{ensure_tenant_match_iff}
use akar_ai.Viewings.Change.{
  Change, failed, created, updated, deactivated, booked, status_changed, handle-Change,
}
use akar_ai.Viewings.Requests.{
  Request, create, update, deactivate, book, set_status, handle, IsFresh,
}

-- The context of an agency request.
abbrev pub context_of : Request → Option TenantContext
context_of (create tenant _ _ _ _) = tenant
context_of (update tenant _ _ _ _) = tenant
context_of (deactivate tenant _ _) = tenant
context_of (book _ _ _ _ _) = none
context_of (set_status tenant _ _ _) = tenant

pub record StaysInTenant (ctx : TenantContext) (db db' : Db) : Type 0 where
  -- the rows of other tenants are as before
  pub foreign_slots :
      (id : ℕ) (slot : ListingViewingSlot)
      → find id db.slots ≡ some slot
      → ctx.tenant_id ≢ some slot.agency_tenant_id
      → find id db'.slots ≡ some slot
  pub foreign_viewings :
      (id : ℕ) (v : ScheduledViewing)
      → find id db.viewings ≡ some v
      → ctx.tenant_id ≢ some v.agency_tenant_id
      → find id db'.viewings ≡ some v
  -- a row that is new is the tenant's
  pub new_slots :
      (id : ℕ) (slot : ListingViewingSlot)
      → find id db.slots ≡ none
      → find id db'.slots ≡ some slot
      → ctx.tenant_id ≡ some slot.agency_tenant_id

module _ (ctx : TenantContext) (agency : ctx.is_platform_actor ≡ false) where
  tenant_matches : (t : ℕ) → ensure_tenant_match (some ctx) t ≡ ok tt → ctx.tenant_id ≡ some t
  tenant_matches t h = ground (arith, (ensure_tenant_match_iff ctx t).0 h)

  Change-StaysInTenant :
      (db db' : Db) (r : Request)
      → context_of r ≡ some ctx
      → Change db r db'
      → StaysInTenant ctx db db'
  Change-StaysInTenant db _ _ own (failed r refused) = record {
    foreign_slots = λ id s found other. found;
    foreign_viewings = λ id v found other. found;
    new_slots = λ id s missing found. absurd (cc);
  }
  Change-StaysInTenant db _ _ own (created {slot_id} fresh c) = record {
    foreign_slots = λ id s found other.
        rw (c.wrote.slots_are, find-put) (ground (arith, nat_beq_iff slot_id id));
    foreign_viewings = λ id v found other. rw c.wrote.viewings_are found;
    new_slots = λ id s missing found.
        let now_found = rw (c.wrote.slots_are, find-put) at found in
        let same : some c.ctx ≡ some ctx = cc (c.context, own) in
        ground (arith, now_found, c.tenant_is, nat_beq_iff slot_id id);
  }
  Change-StaysInTenant db _ _ own (updated {slot_id} c) =
      let own_slot = tenant_matches c.slot.agency_tenant_id (rw own at c.permitted) in
      record {
        foreign_slots = λ id s found other.
            rw (c.wrote.slots_are, find-put)
              (ground (arith, own_slot, c.found, nat_beq_iff slot_id id));
        foreign_viewings = λ id v found other. rw c.wrote.viewings_are found;
        new_slots = λ id s missing found.
            let now_found = rw (c.wrote.slots_are, find-put) at found in
            ground (arith, now_found, c.found, nat_beq_iff slot_id id);
      }
  Change-StaysInTenant db _ _ own (deactivated {slot_id} c) =
      let own_slot = tenant_matches c.slot.agency_tenant_id (rw own at c.permitted) in
      record {
        foreign_slots = λ id s found other.
            rw (c.wrote.slots_are, find-put)
              (ground (arith, own_slot, c.found, nat_beq_iff slot_id id));
        foreign_viewings = λ id v found other. rw c.wrote.viewings_are found;
        new_slots = λ id s missing found.
            let now_found = rw (c.wrote.slots_are, find-put) at found in
            ground (arith, now_found, c.found, nat_beq_iff slot_id id);
      }
  Change-StaysInTenant db _ _ own (booked fresh b) = absurd (cc)
  Change-StaysInTenant db _ _ own (status_changed {viewing_id} c) =
      let own_viewing = tenant_matches c.viewing.agency_tenant_id (rw own at c.permitted) in
      record {
        foreign_slots = λ id s found other. rw c.wrote.slots_are found;
        foreign_viewings = λ id v found other.
            rw (c.wrote.viewings_are, find-put)
              (ground (arith, own_viewing, c.found, nat_beq_iff viewing_id id));
        new_slots = λ id s missing found. absurd (cc (rw c.wrote.slots_are at found));
      }

-- A request, with a fresh id, of an agency's member who is no platform actor leaves every slot
-- and viewing of another tenant as it was, and what it adds to the slots is its tenant's.
pub handle-StaysInTenant :
    (ctx : TenantContext) (db : Db) (r : Request)
    → ctx.is_platform_actor ≡ false
    → context_of r ≡ some ctx
    → IsFresh db r
    → StaysInTenant ctx db (handle r db)
handle-StaysInTenant ctx db r agency own fresh =
    Change-StaysInTenant ctx agency db (handle r db) r own (handle-Change db r fresh)
