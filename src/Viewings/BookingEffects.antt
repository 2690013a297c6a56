-- ===== src/Viewings/BookingEffects.antt =====
-- What a successful booking of viewings/service.py has found and what it has written.
use akar_ai.Prelude.{
  nat_key, ℕ, ◌<◌, String, ◌≡◌, true, false, Option, none, some, [], ◌∷◌, ◌++◌, arith, Option-cases,
  Bool-cases, inl, inr, ◌⊎◌, ◌==◌, str, str_eq, str_eq_iff, leb,
}
use akar_ai.Exec.{ok, Raised, passed_guards, not_found, conflict}
use akar_ai.Table.{find, put}
use akar_ai.Database.{
  Db, Listing, ListingViewingSlot, ScheduledViewing, ScheduledViewingStatusHistory, RlsContext,
  DomainEventLog,
}
use akar_ai.Viewings.Bookings.{increment, new_viewing, book_viewing}
use akar_ai.Viewings.Effects.{Wrote}

abbrev pub booking_context : Listing → ℕ → RlsContext
booking_context listing user_id = record {
  tenant_id = some listing.agency_tenant_id;
  user_id = some user_id;
  role = "user";
  is_platform_admin = false;
}

abbrev pub created_row : ℕ → Listing → ℕ → ScheduledViewingStatusHistory
created_row viewing_id listing user_id = record {
  scheduled_viewing_id = viewing_id;
  agency_tenant_id = listing.agency_tenant_id;
  old_status = none;
  new_status = "scheduled";
  changed_by_user_id = some user_id;
  reason = some "Booking created";
}

abbrev pub booking_log : ℕ → Listing → ℕ → ℕ → ℕ → DomainEventLog
booking_log viewing_id listing listing_id user_id slot_id = record {
  event_name = "viewing.scheduled";
  aggregate_type = some "viewing";
  aggregate_id = some (str viewing_id);
  payload = ("listing_id", some (str listing_id)) ∷ ("slot_id", some (str slot_id)) ∷ [];
  agency_tenant_id = some listing.agency_tenant_id;
  actor_user_id = some user_id;
}

pub record Booked (viewing_id listing_id user_id slot_id : ℕ) (notes : Option String) (db db' : Db)
    : Type 0 where
  pub listing : Listing
  pub listed : find listing_id db.listings ≡ some listing
  pub listing_is_active : listing.status ≡ "active"
  pub slot : ListingViewingSlot
  pub found : find slot_id db.slots ≡ some slot
  pub slot_is_active : slot.status ≡ "active"
  pub on_listing : slot.listing_id ≡ listing_id
  pub room : slot.reserved_count < slot.capacity
  pub context_is : db'.rls ≡ booking_context listing user_id
  pub wrote :
      Wrote db db'
        (put slot_id (increment slot) db.slots)
        (put viewing_id (new_viewing listing listing_id slot slot_id user_id notes) db.viewings)
        (db.viewing_history ++ created_row viewing_id listing user_id ∷ [])
        (booking_log viewing_id listing listing_id user_id slot_id)
        (booking_context listing user_id)

module _ (viewing_id listing_id user_id slot_id : ℕ) (notes : Option String) (db : Db) where
  record BookGuards : Type 0 where
    listing : Listing
    listed : find listing_id db.listings ≡ some listing
    listing_is_active : str_eq listing.status "active" ≡ true
    slot : ListingViewingSlot
    found : find slot_id db.slots ≡ some slot
    slot_is_active : str_eq slot.status "active" ≡ true
    on_listing : (slot.listing_id == listing_id) ≡ true
    room : leb slot.capacity slot.reserved_count ≡ false

  book_viewing-guards :
      Raised (book_viewing viewing_id listing_id user_id slot_id notes db).0 ⊎ BookGuards
  unfolding book_viewing
  book_viewing-guards = elim (Option-cases (find listing_id db.listings)) [
    | inl missing ↦ inl (not_found "Listing not found or not active", ground (arith, missing))
    | inr (listing, e) ↦ elim (Bool-cases (str_eq listing.status "active")) [
      | inr closed ↦ inl (not_found "Listing not found or not active", ground (arith, e, closed))
      | inl active ↦ elim (Option-cases (find slot_id db.slots)) [
        | inl missing ↦
            inl (not_found "Viewing slot not available", ground (arith, e, active, missing))
        | inr (slot, p) ↦ elim (Bool-cases (str_eq slot.status "active")) [
          | inr closed ↦
              inl (not_found "Viewing slot not available", ground (arith, e, active, p, closed))
          | inl live ↦ elim (Bool-cases (slot.listing_id == listing_id)) [
            | inr other ↦ inl (
              not_found "Viewing slot not found for this listing",
              ground (arith, e, active, p, live, other),
            )
            | inl on ↦ elim (Bool-cases (leb slot.capacity slot.reserved_count)) [
              | inl full ↦ inl (
                conflict "Viewing slot is fully booked",
                ground (arith, e, active, p, live, on, full),
              )
              | inr room ↦ inr record {
                listing = listing;
                listed = e;
                listing_is_active = active;
                slot = slot;
                found = p;
                slot_is_active = live;
                on_listing = on;
                room = room;
              }
            ]
          ]
        ]
      ]
    ]
  ]

  book_viewing-context :
      (g : BookGuards)
      → (book_viewing viewing_id listing_id user_id slot_id notes db).1.rls
        ≡ booking_context g.listing user_id
  unfolding book_viewing
  book_viewing-context g =
      ground (arith, g.listed, g.listing_is_active, g.found, g.slot_is_active, g.on_listing, g.room)

  book_viewing-writes :
      (g : BookGuards)
      → Wrote db
          (book_viewing viewing_id listing_id user_id slot_id notes db).1
          (put slot_id (increment g.slot) db.slots)
          (put viewing_id
            (new_viewing g.listing listing_id g.slot slot_id user_id notes)
            db.viewings)
          (db.viewing_history ++ created_row viewing_id g.listing user_id ∷ [])
          (booking_log viewing_id g.listing listing_id user_id slot_id)
          (booking_context g.listing user_id)
  unfolding book_viewing
  book_viewing-writes g =
      ground (arith, g.listed, g.listing_is_active, g.found, g.slot_is_active, g.on_listing, g.room)

  -- A booking that succeeds has found an active listing and an active slot of it with a free seat;
  -- it has taken one seat, added the viewing at the slot's times for the user under the listing's
  -- tenant, and opened its history. It has written no other row of these tables.
  pub book_viewing-Booked :
      (v : ScheduledViewing)
      → (book_viewing viewing_id listing_id user_id slot_id notes db).0 ≡ ok v
      → Booked viewing_id listing_id user_id slot_id notes db
          (book_viewing viewing_id listing_id user_id slot_id notes db).1
  book_viewing-Booked v h =
      let g = passed_guards book_viewing-guards h in
      record {
        listing = g.listing;
        listed = g.listed;
        listing_is_active = (str_eq_iff g.listing.status "active").0 g.listing_is_active;
        slot = g.slot;
        found = g.found;
        slot_is_active = (str_eq_iff g.slot.status "active").0 g.slot_is_active;
        on_listing = ground (arith, g.on_listing);
        room = ground (arith, g.room);
        context_is = book_viewing-context g;
        wrote = book_viewing-writes g;
      }
