-- ===== src/Viewings/Requests.antt =====
-- The requests of viewings/router.py that write: each runs its service method in the request's
-- transaction.
use akar_ai.Prelude.{ℕ, String, ◌≡◌, Option, none, List, [], ◌∷◌, nat_key}
use akar_ai.Exec.{transaction}
use akar_ai.Table.{find}
use akar_ai.Database.{Db}
use akar_ai.Tenant.{TenantContext}
use akar_ai.Viewings.Slots.{SlotCreate, SlotUpdate, create_slot, update_slot, deactivate_slot}
use akar_ai.Viewings.Bookings.{book_viewing, update_viewing_status}

-- The ids and the time come with the request: `uuid4` and the clock choose them.
pub data Request : Type 0 where
  create : Option TenantContext → (now slot_id listing_id : ℕ) → SlotCreate → Request
  update : Option TenantContext → (now listing_id slot_id : ℕ) → SlotUpdate → Request
  deactivate : Option TenantContext → (listing_id slot_id : ℕ) → Request
  book : (viewing_id listing_id user_id slot_id : ℕ) → Option String → Request
  set_status : Option TenantContext → (viewing_id : ℕ) → String → Option String → Request

unfoldable pub handle : Request → Db → Db
handle (create tenant now slot_id listing_id body) db =
    (transaction (create_slot tenant now slot_id listing_id body) db).1
handle (update tenant now listing_id slot_id body) db =
    (transaction (update_slot tenant now listing_id slot_id body) db).1
handle (deactivate tenant listing_id slot_id) db =
    (transaction (deactivate_slot tenant listing_id slot_id) db).1
handle (book viewing_id listing_id user_id slot_id notes) db =
    (transaction (book_viewing viewing_id listing_id user_id slot_id notes) db).1
handle (set_status tenant viewing_id new_status reason) db =
    (transaction (update_viewing_status tenant viewing_id new_status reason) db).1

-- `uuid4` does not repeat an id.
abbrev pub IsFresh : Db → Request → Type 0
IsFresh db (create _ _ slot_id _ _) = find slot_id db.slots ≡ none
IsFresh db (book viewing_id _ _ _ _) = find viewing_id db.viewings ≡ none
IsFresh db _ = Unit

unfoldable pub serve : Db → List Request → Db
serve db [] = db
serve db (r ∷ rs) = serve (handle r db) rs

-- Every request of the sequence has a fresh id where it comes.
abbrev pub AreFresh : Db → List Request → Type 0
AreFresh db [] = Unit
AreFresh db (r ∷ rs) = IsFresh db r × AreFresh (handle r db) rs
