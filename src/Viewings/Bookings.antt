-- ===== src/Viewings/Bookings.antt =====
-- `ViewingBookingService` of viewings/service.py, with `ScheduledViewingRepository` and
-- `increment_reserved_count` of `ViewingSlotRepository`.
use akar_ai.Prelude.{
  ℕ, ◌+◌, String, false, not, Option, none, some, [], ◌∷◌, ◌++◌, ltb, leb, ◌==◌, str_eq, str_is,
  some_is, str, contains, format, if◌then◌else◌, nat_key,
}
use akar_ai.Exec.{
  Exec, not_found, forbidden, validation, conflict, pure, lift, gets, modify, or_raise, raise_if,
  ◌>>=◌, ◌>>◌,
}
use akar_ai.Table.{Table, find, put, select}
use akar_ai.Database.{
  Db, Listing, ListingViewingSlot, ScheduledViewing, ScheduledViewingStatusHistory,
  write_domain_event_log, apply_rls_context_to_session,
}
use akar_ai.Tenant.{TenantContext, require_tenant, ensure_tenant_match}
use akar_ai.Domain.{valid_viewing_statuses, viewing_status_transitions, allows}

abbrev pub increment : ListingViewingSlot → ListingViewingSlot
increment slot = record slot { reserved_count = slot.reserved_count + 1 }

write_increment : ℕ → Option ListingViewingSlot → Exec Db (Option ListingViewingSlot)
write_increment slot_id none = pure none
write_increment slot_id (some slot) = do
  modify (λ db. record db { slots = put slot_id (increment slot) db.slots })
  pure (some (increment slot))

unfoldable pub increment_reserved_count : ℕ → Exec Db (Option ListingViewingSlot)
unfolding write_increment
increment_reserved_count slot_id = do
  slot ← gets (λ db. find slot_id db.slots)
  write_increment slot_id slot

-- `x is None or x.status != "active"`
abbrev active_listing : Option Listing → Option Listing
active_listing none = none
active_listing (some l) = if str_eq l.status "active" then some l else none

abbrev active_slot : Option ListingViewingSlot → Option ListingViewingSlot
active_slot none = none
active_slot (some s) = if str_eq s.status "active" then some s else none

add_history : ScheduledViewingStatusHistory → Exec Db Unit
add_history row = modify (λ db. record db { viewing_history = db.viewing_history ++ row ∷ [] })

abbrev pub new_viewing : Listing → ℕ → ListingViewingSlot → ℕ → ℕ → Option String → ScheduledViewing
new_viewing listing listing_id slot slot_id user_id notes = record {
  agency_tenant_id = listing.agency_tenant_id;
  listing_id = listing_id;
  viewing_slot_id = slot_id;
  user_id = some user_id;
  status = "scheduled";
  scheduled_start_at = slot.starts_at;
  scheduled_end_at = slot.ends_at;
  notes = notes;
}

unfoldable pub book_viewing : ℕ → ℕ → ℕ → ℕ → Option String → Exec Db ScheduledViewing
unfolding increment_reserved_count add_history write_domain_event_log apply_rls_context_to_session
book_viewing viewing_id listing_id user_id slot_id notes = do
  found ← gets (λ db. find listing_id db.listings)
  listing ← or_raise (not_found "Listing not found or not active") (active_listing found)
  found_slot ← gets (λ db. find slot_id db.slots)
  slot ← or_raise (not_found "Viewing slot not available") (active_slot found_slot)
  raise_if (not (slot.listing_id == listing_id))
      (not_found "Viewing slot not found for this listing")
  raise_if (leb slot.capacity slot.reserved_count) (conflict "Viewing slot is fully booked")
  apply_rls_context_to_session (record {
    tenant_id = some listing.agency_tenant_id;
    user_id = some user_id;
    role = "user";
    is_platform_admin = false;
  })
  incremented ← increment_reserved_count slot_id
  reserved ← or_raise (conflict "Viewing slot became unavailable") incremented
  raise_if (ltb reserved.capacity reserved.reserved_count)
      (conflict "Viewing slot became unavailable")
  let viewing = new_viewing listing listing_id reserved slot_id user_id notes
  modify (λ db. record db { viewings = put viewing_id viewing db.viewings })
  add_history (record {
    scheduled_viewing_id = viewing_id;
    agency_tenant_id = listing.agency_tenant_id;
    old_status = none;
    new_status = "scheduled";
    changed_by_user_id = some user_id;
    reason = some "Booking created";
  })
  write_domain_event_log (record {
    event_name = "viewing.scheduled";
    aggregate_type = some "viewing";
    aggregate_id = some (str viewing_id);
    payload = ("listing_id", some (str listing_id)) ∷ ("slot_id", some (str slot_id)) ∷ [];
    agency_tenant_id = some listing.agency_tenant_id;
    actor_user_id = some user_id;
  })
  pure viewing

-- `list_by_user`, before paging
unfoldable pub list_user_viewings : ℕ → Exec Db (Table ℕ ScheduledViewing)
list_user_viewings user_id = gets (λ db. select (λ v. some_is v.user_id user_id) db.viewings)

unfoldable pub get_user_viewing : ℕ → ℕ → Exec Db ScheduledViewing
get_user_viewing viewing_id user_id = do
  found ← gets (λ db. find viewing_id db.viewings)
  viewing ← or_raise (not_found "Scheduled viewing not found") found
  raise_if (not (some_is viewing.user_id user_id)) (forbidden "Not your scheduled viewing")
  pure viewing

module _ (tenant : Option TenantContext) where
  -- `get_tenant_viewing`, without the listing summary that it attaches
  unfoldable pub get_tenant_viewing : ℕ → Exec Db ScheduledViewing
  get_tenant_viewing viewing_id = do
    ctx ← lift (require_tenant tenant)
    found ← gets (λ db. find viewing_id db.viewings)
    viewing ← or_raise (not_found "Scheduled viewing not found") found
    lift (ensure_tenant_match tenant viewing.agency_tenant_id)
    pure viewing

  unfoldable pub update_viewing_status : ℕ → String → Option String → Exec Db ScheduledViewing
  unfolding get_tenant_viewing add_history write_domain_event_log
  update_viewing_status viewing_id new_status reason = do
    ctx ← lift (require_tenant tenant)
    raise_if (str_is ctx.role "support_employee")
        (forbidden "Support employees cannot modify viewing schedules")
    found ← gets (λ db. find viewing_id db.viewings)
    viewing ← or_raise (not_found "Scheduled viewing not found") found
    lift (ensure_tenant_match tenant viewing.agency_tenant_id)
    raise_if (not (contains valid_viewing_statuses new_status))
        (validation (format ("Invalid viewing status: " ∷ new_status ∷ [])))
    raise_if (not (allows viewing_status_transitions viewing.status new_status)) (
        validation
          (format ("Cannot transition from '" ∷ viewing.status ∷ "' to '" ∷ new_status ∷ "'" ∷ [])))
    modify λ db. record db {
      viewings = put viewing_id (record viewing { status = new_status }) db.viewings;
    }
    add_history (record {
      scheduled_viewing_id = viewing_id;
      agency_tenant_id = viewing.agency_tenant_id;
      old_status = some viewing.status;
      new_status = new_status;
      changed_by_user_id = ctx.actor_id;
      reason = reason;
    })
    write_domain_event_log (record {
      event_name = "viewing.status_changed";
      aggregate_type = some "viewing";
      aggregate_id = some (str viewing_id);
      payload = ("old_status", some viewing.status) ∷ ("new_status", some new_status) ∷ [];
      agency_tenant_id = some viewing.agency_tenant_id;
      actor_user_id = ctx.actor_id;
    })
    pure (record viewing { status = new_status })
