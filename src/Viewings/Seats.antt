-- ===== src/Viewings/Seats.antt =====
-- The seats of a slot: `reserved_count` against the viewings that are booked on the slot.
use akar_ai.Prelude.{
  ℕ, ◌==◌, nat_beq_iff, ◌≡◌, sym, ◌∙◌, Bool, Option, none, some, List, arith, nat_key, String, ◌==◌,
}
use akar_ai.Table.{Table, find, put, count, find-put, count-put_new, count-put_old}
use akar_ai.Database.{
  Db, ListingViewingSlot, ScheduledViewing, ScheduledViewingStatusHistory, DomainEventLog,
  RlsContext,
}
use akar_ai.Tenant.{TenantContext}
use akar_ai.Viewings.Bookings.{new_viewing}
use akar_ai.Viewings.Change.{
  Change, failed, created, updated, deactivated, booked, status_changed, serve_induction,
}
use akar_ai.Viewings.Requests.{Request, serve, AreFresh}
use akar_ai.Viewings.Effects.{Wrote}
use akar_ai.Viewings.BookingEffects.{Booked}
use akar_ai.Viewings.StatusEffects.{StatusChanged}

abbrev pub reserved_seats : Option ListingViewingSlot → ℕ
reserved_seats none = 0
reserved_seats (some slot) = slot.reserved_count

abbrev pub is_on : ℕ → ScheduledViewing → Bool
is_on slot_id v = v.viewing_slot_id == slot_id

-- As many viewings are booked on a slot, cancelled ones included, as its row says.
pub record SeatsAreCounted (db : Db) : Type 0 where
  pub seats :
      (slot_id : ℕ) → count (is_on slot_id) db.viewings ≡ reserved_seats (find slot_id db.slots)

-- A slot is written, and keeps its count.
put_slot-seats :
    (slots : Table ℕ ListingViewingSlot) (slot_id : ℕ) (slot : ListingViewingSlot)
    → slot.reserved_count ≡ reserved_seats (find slot_id slots)
    → (id : ℕ) → reserved_seats (find id (put slot_id slot slots)) ≡ reserved_seats (find id slots)
put_slot-seats slots slot_id slot h id = rw find-put (ground (arith, nat_beq_iff slot_id id))

module _ (db : Db) (h : SeatsAreCounted db) where
  slots_written :
      {db' : Db} (slot_id : ℕ) (slot : ListingViewingSlot)
      {history : List ScheduledViewingStatusHistory} {log : DomainEventLog} {context : RlsContext}
      → Wrote db db' (put slot_id slot db.slots) db.viewings history log context
      → slot.reserved_count ≡ reserved_seats (find slot_id db.slots)
      → SeatsAreCounted db'
  slots_written slot_id slot w same = record {
    seats = λ id.
        rw (w.slots_are, w.viewings_are)
          (h.seats id ∙ sym (put_slot-seats db.slots slot_id slot same id));
  }

  seat_taken :
      {viewing_id listing_id user_id slot_id : ℕ} {notes : Option String} {db' : Db}
      → find viewing_id db.viewings ≡ none
      → Booked viewing_id listing_id user_id slot_id notes db db'
      → SeatsAreCounted db'
  seat_taken {viewing_id} {listing_id} {user_id} {slot_id} {notes} fresh b =
      let viewing = new_viewing b.listing listing_id b.slot slot_id user_id notes in
      record {
        seats = λ id.
            rw (b.wrote.slots_are, b.wrote.viewings_are, find-put)
              (ground (
                arith,
                h.seats id,
                b.found,
                nat_beq_iff slot_id id,
                count-put_new (is_on id) viewing_id viewing db.viewings fresh,
              ));
      }

  status_written :
      {tenant : Option TenantContext} {viewing_id : ℕ} {new_status : String}
      {reason : Option String} {db' : Db}
      → StatusChanged tenant viewing_id new_status reason db db'
      → SeatsAreCounted db'
  status_written {viewing_id} {new_status} c =
      let changed : ScheduledViewing = record c.viewing { status = new_status } in
      record {
        seats = λ id.
            rw (c.wrote.slots_are, c.wrote.viewings_are)
              (omega (
                arith,
                h.seats id,
                count-put_old (is_on id) viewing_id changed c.viewing db.viewings c.found,
              ));
      }

Change-SeatsAreCounted :
    (db db' : Db) (r : Request) → SeatsAreCounted db → Change db r db' → SeatsAreCounted db'
Change-SeatsAreCounted db _ _ h (failed r refused) = h
Change-SeatsAreCounted db _ _ h (created fresh c) = slots_written db h _ _ c.wrote (rw fresh)
Change-SeatsAreCounted db _ _ h (updated c) = slots_written db h _ _ c.wrote (rw c.found)
Change-SeatsAreCounted db _ _ h (deactivated c) = slots_written db h _ _ c.wrote (rw c.found)
Change-SeatsAreCounted db _ _ h (booked fresh b) = seat_taken db h fresh b
Change-SeatsAreCounted db _ _ h (status_changed c) = status_written db h c

-- Whatever requests are served from a database whose counts are right, with ids that are new where
-- they come: on every slot as many viewings are booked, cancelled ones included, as its
-- `reserved_count` says.
pub serve-SeatsAreCounted :
    (db : Db) (rs : List Request)
    → SeatsAreCounted db
    → AreFresh db rs
    → SeatsAreCounted (serve db rs)
serve-SeatsAreCounted = serve_induction Change-SeatsAreCounted
