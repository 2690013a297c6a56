-- ===== src/Viewings/Slots.antt =====
-- `ViewingSlotService` of viewings/service.py, with `ViewingSlotRepository`.
use akar_ai.Prelude.{
  ℕ, ◌+◌, ◌*◌, second, String, not, ◌&&◌, Option, some, [], ◌∷◌, ltb, leb, ◌==◌, str_eq, str_is,
  or_else, str, nat_key,
}
use akar_ai.Exec.{
  Exec, not_found, forbidden, validation, integrity, pure, lift, gets, modify, or_raise, raise_if,
  ◌>>=◌, ◌>>◌,
}
use akar_ai.Table.{Table, find, put, select, order_by}
use akar_ai.Database.{Db, Listing, ListingViewingSlot, DomainEventLog, write_domain_event_log}
use akar_ai.Tenant.{TenantContext, require_tenant, ensure_tenant_match}

-- `_MIN_SLOT_LEAD_TIME`
abbrev min_slot_lead_time : ℕ
min_slot_lead_time = 300 * second

-- The bodies of the requests, as `model_dump` hands them on.
pub record SlotCreate : Type 0 where
  pub starts_at : ℕ
  pub ends_at : ℕ
  pub capacity : Option ℕ

pub record SlotUpdate : Type 0 where
  pub starts_at : Option ℕ
  pub ends_at : Option ℕ
  pub capacity : Option ℕ
  pub status : Option String

abbrev pub slot_event : String → TenantContext → ℕ → ℕ → DomainEventLog
slot_event event_name ctx listing_id slot_id = record {
  event_name = event_name;
  aggregate_type = some "listing";
  aggregate_id = some (str listing_id);
  payload = ("slot_id", some (str slot_id)) ∷ [];
  agency_tenant_id = ctx.tenant_id;
  actor_user_id = ctx.actor_id;
}

validate_future_slot_start : ℕ → ℕ → Exec Db Unit
validate_future_slot_start now starts_at =
    raise_if (ltb starts_at (now + min_slot_lead_time))
      (validation "Viewing slot start time must be at least 5 minutes in the future.")

abbrev slots_of_listing : ℕ → Db → Table ℕ ListingViewingSlot
slots_of_listing listing_id db =
    order_by (λ s. s.starts_at) (select (λ s. s.listing_id == listing_id) db.slots)

-- `list_bookable_by_listing`: the slots that the public sees.
unfoldable pub list_bookable_by_listing : ℕ → ℕ → Exec Db (Table ℕ ListingViewingSlot)
list_bookable_by_listing now listing_id = gets λ db.
    order_by (λ s. s.starts_at)
      (select
        (λ s.
          s.listing_id == listing_id
          && str_eq s.status "active"
          && leb now s.starts_at
          && ltb s.reserved_count s.capacity)
        db.slots)

-- The assignments of `update_slot`, which come before its validation.
abbrev pub apply_update : SlotUpdate → ListingViewingSlot → ListingViewingSlot
apply_update u slot = record slot {
  starts_at = or_else u.starts_at slot.starts_at;
  ends_at = or_else u.ends_at slot.ends_at;
  capacity = or_else u.capacity slot.capacity;
  status = or_else u.status slot.status;
}

module _ (tenant : Option TenantContext) where
  listing_of_tenant : ℕ → Exec Db Listing
  listing_of_tenant listing_id = do
    found ← gets (λ db. find listing_id db.listings)
    listing ← or_raise (not_found "Listing not found") found
    lift (ensure_tenant_match tenant listing.agency_tenant_id)
    pure listing

  slot_of_tenant : ℕ → ℕ → Exec Db ListingViewingSlot
  slot_of_tenant listing_id slot_id = do
    found ← gets (λ db. find slot_id db.slots)
    slot ← or_raise (not_found "Viewing slot not found") found
    raise_if (not (slot.listing_id == listing_id)) (not_found "Slot not found for this listing")
    lift (ensure_tenant_match tenant slot.agency_tenant_id)
    pure slot

  unfoldable pub list_slots : ℕ → Exec Db (Table ℕ ListingViewingSlot)
  unfolding listing_of_tenant
  list_slots listing_id = do
    ctx ← lift (require_tenant tenant)
    listing ← listing_of_tenant listing_id
    gets (slots_of_listing listing_id)

  unfoldable pub create_slot : ℕ → ℕ → ℕ → SlotCreate → Exec Db ℕ
  unfolding listing_of_tenant validate_future_slot_start write_domain_event_log
  create_slot now slot_id listing_id data_in = do
    ctx ← lift (require_tenant tenant)
    raise_if (str_is ctx.role "support_employee")
        (forbidden "Support employees cannot create viewing slots")
    listing ← listing_of_tenant listing_id
    raise_if (leb data_in.ends_at data_in.starts_at) (validation "ends_at must be after starts_at")
    validate_future_slot_start now data_in.starts_at
    tenant_id ← or_raise (integrity "agency_tenant_id") ctx.tenant_id
    modify λ db. record db {
      slots =
          put slot_id
            (record {
              listing_id = listing_id;
              agency_tenant_id = tenant_id;
              starts_at = data_in.starts_at;
              ends_at = data_in.ends_at;
              capacity = or_else data_in.capacity 1;
              reserved_count = 0;
              status = "active";
              created_by_user_id = ctx.actor_id;
            })
            db.slots;
    }
    write_domain_event_log (slot_event "listing.viewing_slot_created" ctx listing_id slot_id)
    pure slot_id

  unfoldable pub update_slot : ℕ → ℕ → ℕ → SlotUpdate → Exec Db ListingViewingSlot
  unfolding slot_of_tenant validate_future_slot_start write_domain_event_log
  update_slot now listing_id slot_id data_in = do
    ctx ← lift (require_tenant tenant)
    old ← slot_of_tenant listing_id slot_id
    let slot = apply_update data_in old
    modify λ db. record db { slots = put slot_id slot db.slots }
    raise_if (leb slot.ends_at slot.starts_at) (validation "ends_at must be after starts_at")
    validate_future_slot_start now slot.starts_at
    write_domain_event_log (slot_event "listing.viewing_slot_updated" ctx listing_id slot_id)
    pure slot

  unfoldable pub deactivate_slot : ℕ → ℕ → Exec Db Unit
  unfolding slot_of_tenant write_domain_event_log
  deactivate_slot listing_id slot_id = do
    ctx ← lift (require_tenant tenant)
    slot ← slot_of_tenant listing_id slot_id
    modify λ db. record db { slots = put slot_id (record slot { status = "inactive" }) db.slots }
    write_domain_event_log (slot_event "listing.viewing_slot_deactivated" ctx listing_id slot_id)
