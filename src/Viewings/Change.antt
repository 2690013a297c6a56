-- ===== src/Viewings/Change.antt =====
-- The requests as a step relation: what each may do to the database.
use akar_ai.Prelude.{ℕ, String, ◌≡◌, Option, none, inl, inr, List, [], ◌∷◌, nat_key}
use akar_ai.Exec.{Raised, transaction-outcome}
use akar_ai.Table.{find}
use akar_ai.Database.{Db}
use akar_ai.Tenant.{TenantContext}
use akar_ai.Viewings.Slots.{SlotCreate, SlotUpdate, create_slot, update_slot, deactivate_slot}
use akar_ai.Viewings.Bookings.{book_viewing, update_viewing_status}
use akar_ai.Viewings.Requests.{
  Request, create, update, deactivate, book, set_status, handle, IsFresh, serve, AreFresh,
}
use akar_ai.Viewings.Effects.{
  SlotCreated, create_slot_effect, SlotUpdated, update_slot-SlotUpdated, Deactivated,
  deactivate_slot-Deactivated,
}
use akar_ai.Viewings.BookingEffects.{Booked, book_viewing-Booked}
use akar_ai.Viewings.StatusEffects.{StatusChanged, update_viewing_status_effect}

-- The method of the request raises.
abbrev pub Refused : Db → Request → Type 0
Refused db (create tenant now slot_id listing_id body) =
    Raised (create_slot tenant now slot_id listing_id body db).0
Refused db (update tenant now listing_id slot_id body) =
    Raised (update_slot tenant now listing_id slot_id body db).0
Refused db (deactivate tenant listing_id slot_id) =
    Raised (deactivate_slot tenant listing_id slot_id db).0
Refused db (book viewing_id listing_id user_id slot_id notes) =
    Raised (book_viewing viewing_id listing_id user_id slot_id notes db).0
Refused db (set_status tenant viewing_id new_status reason) =
    Raised (update_viewing_status tenant viewing_id new_status reason db).0

pub data Change (db : Db) : Request → Db → Type 0 where
  failed : (r : Request) → Refused db r → Change db r db
  created :
      {tenant : Option TenantContext} {now slot_id listing_id : ℕ} {body : SlotCreate} {db' : Db}
      → find slot_id db.slots ≡ none
      → SlotCreated tenant now slot_id listing_id body db db'
      → Change db (create tenant now slot_id listing_id body) db'
  updated :
      {tenant : Option TenantContext} {now listing_id slot_id : ℕ} {body : SlotUpdate} {db' : Db}
      → SlotUpdated tenant now listing_id slot_id body db db'
      → Change db (update tenant now listing_id slot_id body) db'
  deactivated :
      {tenant : Option TenantContext} {listing_id slot_id : ℕ} {db' : Db}
      → Deactivated tenant listing_id slot_id db db'
      → Change db (deactivate tenant listing_id slot_id) db'
  booked :
      {viewing_id listing_id user_id slot_id : ℕ} {notes : Option String} {db' : Db}
      → find viewing_id db.viewings ≡ none
      → Booked viewing_id listing_id user_id slot_id notes db db'
      → Change db (book viewing_id listing_id user_id slot_id notes) db'
  status_changed :
      {tenant : Option TenantContext} {viewing_id : ℕ} {new_status : String}
      {reason : Option String} {db' : Db}
      → StatusChanged tenant viewing_id new_status reason db db'
      → Change db (set_status tenant viewing_id new_status reason) db'

pub handle-Change : (db : Db) (r : Request) → IsFresh db r → Change db r (handle r db)
unfolding handle
handle-Change db (create tenant now slot_id listing_id body) fresh =
    elim (transaction-outcome (create_slot tenant now slot_id listing_id body) db) [
      | inl (raised, same) ↦ rw same (failed _ raised)
      | inr (id, e, written) ↦
          rw written (created fresh (create_slot_effect tenant now slot_id listing_id body db id e))
    ]
handle-Change db (update tenant now listing_id slot_id body) fresh =
    elim (transaction-outcome (update_slot tenant now listing_id slot_id body) db) [
      | inl (raised, same) ↦ rw same (failed _ raised)
      | inr (s, e, written) ↦
          rw written (updated (update_slot-SlotUpdated tenant now listing_id slot_id body db s e))
    ]
handle-Change db (deactivate tenant listing_id slot_id) fresh =
    elim (transaction-outcome (deactivate_slot tenant listing_id slot_id) db) [
      | inl (raised, same) ↦ rw same (failed _ raised)
      | inr (u, e, written) ↦
          rw written (deactivated (deactivate_slot-Deactivated tenant listing_id slot_id db u e))
    ]
handle-Change db (book viewing_id listing_id user_id slot_id notes) fresh =
    elim (transaction-outcome (book_viewing viewing_id listing_id user_id slot_id notes) db) [
      | inl (raised, same) ↦ rw same (failed _ raised)
      | inr (v, e, written) ↦
          rw written
            (booked fresh (book_viewing-Booked viewing_id listing_id user_id slot_id notes db v e))
    ]
handle-Change db (set_status tenant viewing_id new_status reason) fresh =
    elim (transaction-outcome (update_viewing_status tenant viewing_id new_status reason) db) [
      | inl (raised, same) ↦ rw same (failed _ raised)
      | inr (v, e, written) ↦
          rw written (
            status_changed
              (update_viewing_status_effect tenant viewing_id new_status reason db v e))
    ]

-- What every change keeps, every sequence of requests keeps.
pub serve_induction :
    {P : Db → Type 0} (step : (db db' : Db) (r : Request) → P db → Change db r db' → P db')
    (db : Db) (rs : List Request)
    → P db
    → AreFresh db rs
    → P (serve db rs)
unfolding serve
serve_induction step db [] h fresh = h
serve_induction step db (r ∷ rs) h (fresh, later) =
    serve_induction step (handle r db) rs (step db (handle r db) r h (handle-Change db r fresh))
      later
