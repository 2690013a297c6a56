-- ===== src/Viewings/Capacity.antt =====
-- No slot is booked beyond its capacity, as long as no update lowers the capacity below what is
-- reserved: `update_slot` makes no such check.
use akar_ai.Prelude.{
  second, ◌*◌, ◌↔◌, ℕ, ◌+◌, ◌≤◌, ◌<◌, nat_beq_iff, ◌≡◌, Option, none, some, or_else, List, [], ◌∷◌,
  arith, nat_key, String, str_eq_iff,
}
use akar_ai.Exec.{ok, err, conflict, transaction}
use akar_ai.Table.{find, put, find-put}
use akar_ai.Database.{Db, Listing, ListingViewingSlot, ScheduledViewing}
use akar_ai.Tenant.{TenantContext, require_tenant, ensure_tenant_match}
use akar_ai.Viewings.Slots.{update_slot}
use akar_ai.Viewings.Bookings.{new_viewing, book_viewing, update_viewing_status}
use akar_ai.Viewings.StatusEffects.{update_viewing_status_effect}
use akar_ai.Viewings.Change.{
  Change, failed, created, updated, deactivated, booked, status_changed, handle-Change,
}
use akar_ai.Viewings.Requests.{Request, update, handle, serve, AreFresh}

pub record WithinCapacity (db : Db) : Type 0 where
  pub at_slot :
      (slot_id : ℕ) (slot : ListingViewingSlot)
      → find slot_id db.slots ≡ some slot
      → slot.reserved_count ≤ slot.capacity

-- An update that sets a capacity sets one that covers what the slot has reserved.
abbrev pub CoversReserved : Db → Request → Type 0
CoversReserved db (update _ _ _ slot_id body) =
    (slot : ListingViewingSlot)
    → find slot_id db.slots ≡ some slot
    → slot.reserved_count ≤ or_else body.capacity slot.capacity
CoversReserved db _ = Unit

slot_put :
    (db db' : Db) (slot_id : ℕ) (slot : ListingViewingSlot)
    → WithinCapacity db
    → db'.slots ≡ put slot_id slot db.slots
    → slot.reserved_count ≤ slot.capacity
    → WithinCapacity db'
slot_put db db' slot_id slot h e fits = record {
  at_slot = λ id s found.
      ground (arith, h.at_slot id s, rw (e, find-put) at found, nat_beq_iff slot_id id);
}

Change-WithinCapacity :
    (db db' : Db) (r : Request)
    → WithinCapacity db
    → CoversReserved db r
    → Change db r db'
    → WithinCapacity db'
Change-WithinCapacity db _ _ h covers (failed r refused) = h
Change-WithinCapacity db db' _ h covers (created fresh c) =
    slot_put db db' _ _ h c.wrote.slots_are (omega arith)
Change-WithinCapacity db db' _ h covers (updated c) =
    slot_put db db' _ _ h c.wrote.slots_are (covers c.slot c.found)
Change-WithinCapacity db db' _ h covers (deactivated c) =
    slot_put db db' _ _ h c.wrote.slots_are (h.at_slot _ c.slot c.found)
Change-WithinCapacity db db' _ h covers (booked fresh b) =
    slot_put db db' _ _ h b.wrote.slots_are (omega (arith, b.room))
Change-WithinCapacity db db' _ h covers (status_changed c) = record {
  at_slot = λ id s found. h.at_slot id s (rw c.wrote.slots_are at found);
}

abbrev pub AllCover : Db → List Request → Type 0
AllCover db [] = Unit
AllCover db (r ∷ rs) = CoversReserved db r × AllCover (handle r db) rs

-- Whatever requests are served from a database where this holds, with fresh ids and no update
-- that sets a capacity below the seats reserved at that moment: no slot ever has more seats
-- reserved than its capacity.
pub serve-WithinCapacity :
    (db : Db) (rs : List Request)
    → WithinCapacity db
    → AreFresh db rs
    → AllCover db rs
    → WithinCapacity (serve db rs)
unfolding serve
serve-WithinCapacity db [] h fresh covers = h
serve-WithinCapacity db (r ∷ rs) h (fresh, later) (covers, others) =
    serve-WithinCapacity (handle r db) rs
      (Change-WithinCapacity db (handle r db) r h covers (handle-Change db r fresh)) later others

-- A booking succeeds exactly when the listing and the slot are active, the slot is the listing's
-- and it has a free seat.
pub book_viewing-ok_iff :
    (viewing_id listing_id user_id slot_id : ℕ) (notes : Option String) (db : Db)
    (listing : Listing) (slot : ListingViewingSlot)
    → find listing_id db.listings ≡ some listing
    → find slot_id db.slots ≡ some slot
    → ((book_viewing viewing_id listing_id user_id slot_id notes db).0
        ≡ ok (new_viewing listing listing_id slot slot_id user_id notes))
      ↔ ((listing.status ≡ "active")
          × (slot.status ≡ "active")
          × (slot.listing_id ≡ listing_id)
          × (slot.reserved_count < slot.capacity))
unfolding book_viewing
book_viewing-ok_iff viewing_id listing_id user_id slot_id notes db listing slot e p =
    ground (arith, e, p, str_eq_iff listing.status "active", str_eq_iff slot.status "active")

module _ (viewing_id listing_id user_id slot_id : ℕ) (notes : Option String) where
  full_slot-conflict :
      (db : Db) (listing : Listing) (slot : ListingViewingSlot)
      → find listing_id db.listings ≡ some listing
      → listing.status ≡ "active"
      → find slot_id db.slots ≡ some slot
      → slot.status ≡ "active"
      → slot.listing_id ≡ listing_id
      → slot.capacity ≤ slot.reserved_count
      → (book_viewing viewing_id listing_id user_id slot_id notes db).0
        ≡ err (conflict "Viewing slot is fully booked")
  unfolding book_viewing
  full_slot-conflict db listing slot e a p b on full =
      ground (arith, e, p, str_eq_iff listing.status "active", str_eq_iff slot.status "active")

-- Cancelling does not free the seat: after a viewing was cancelled, or got any other status, a
-- booking of its full slot is refused as before.
pub cancelled_seat_stays_taken :
    (tenant : Option TenantContext) (cancelled : ℕ) (new_status : String) (reason : Option String)
    (db : Db) (v : ScheduledViewing) (viewing_id listing_id user_id slot_id : ℕ)
    (notes : Option String) (listing : Listing) (slot : ListingViewingSlot)
    → (update_viewing_status tenant cancelled new_status reason db).0 ≡ ok v
    → find listing_id db.listings ≡ some listing
    → listing.status ≡ "active"
    → find slot_id db.slots ≡ some slot
    → slot.status ≡ "active"
    → slot.listing_id ≡ listing_id
    → slot.capacity ≤ slot.reserved_count
    → (book_viewing viewing_id listing_id user_id slot_id notes
        (update_viewing_status tenant cancelled new_status reason db).1).0
      ≡ err (conflict "Viewing slot is fully booked")
cancelled_seat_stays_taken tenant cancelled new_status reason db v viewing_id listing_id user_id
      slot_id notes listing slot done e a p b on full =
    let c = update_viewing_status_effect tenant cancelled new_status reason db v done in
    full_slot-conflict viewing_id listing_id user_id slot_id notes
      (update_viewing_status tenant cancelled new_status reason db).1 listing slot
      (rw c.wrote.listings_are e) a (rw c.wrote.slots_are p) b on full

-- `update_slot` accepts any capacity: from a slot with more seats reserved than the new capacity,
-- an update of the capacity alone, permitted and in time, leaves the slot overbooked.
pub update_slot_overbooks :
    (ctx : TenantContext) (now listing_id slot_id capacity : ℕ) (db : Db)
    (slot : ListingViewingSlot)
    → require_tenant (some ctx) ≡ ok ctx
    → ensure_tenant_match (some ctx) slot.agency_tenant_id ≡ ok tt
    → find slot_id db.slots ≡ some slot
    → slot.listing_id ≡ listing_id
    → slot.starts_at < slot.ends_at
    → now + 300 * second ≤ slot.starts_at
    → capacity < slot.reserved_count
    → ¬ WithinCapacity (
        handle
          (update
            (some ctx)
            now
            listing_id
            slot_id
            (record { starts_at = none; ends_at = none; capacity = some capacity; status = none }))
          db)
unfolding handle transaction update_slot
update_slot_overbooks ctx now listing_id slot_id capacity db slot t m p on ordered soon low w =
    ground (
      arith,
      t,
      m,
      p,
      w.at_slot slot_id (record slot { capacity = capacity })
          (ground (
            arith,
            t,
            m,
            p,
            find-put slot_id slot_id (record slot { capacity = capacity }) db.slots,
            nat_beq_iff slot_id slot_id,
          )),
    )
