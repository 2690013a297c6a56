-- ===== src/Viewings/History.antt =====
-- The status history of viewings: it replays to the statuses, and no viewing leaves a final status.
use akar_ai.Prelude.{
  ℕ, ◌+◌, ◌==◌, nat_beq_iff, ◌≡◌, ◌≢◌, refl, String, Option, none, some, List, [], ◌∷◌, ◌++◌, arith,
  nat_key, if◌then◌else◌, str_eq, str_eq_iff,
}
use akar_ai.Table.{find, find-put, bit}
use akar_ai.Database.{Db, ScheduledViewing, ScheduledViewingStatusHistory}
use akar_ai.Tenant.{TenantContext}
use akar_ai.Domain.Laws.{viewing_allows_iff, viewing_allows-final}
use akar_ai.Viewings.BookingEffects.{Booked}
use akar_ai.Viewings.StatusEffects.{StatusChanged}
use akar_ai.Viewings.Change.{
  Change, failed, created, updated, deactivated, booked, status_changed, serve_induction,
}
use akar_ai.Viewings.Requests.{Request, serve, AreFresh}

-- The status that the last row about a viewing gives it.
unfoldable pub last_status : ℕ → List ScheduledViewingStatusHistory → Option String
last_status viewing_id [] = none
last_status viewing_id (row ∷ rows) = elim (last_status viewing_id rows) [
  | some status ↦ some status
  | none ↦ if row.scheduled_viewing_id == viewing_id then some row.new_status else none
]

unfoldable pub rows_about : ℕ → List ScheduledViewingStatusHistory → ℕ
rows_about viewing_id [] = 0
rows_about viewing_id (row ∷ rows) =
    bit (row.scheduled_viewing_id == viewing_id) + rows_about viewing_id rows

last_status-append :
    (id : ℕ) (rows : List ScheduledViewingStatusHistory) (row : ScheduledViewingStatusHistory)
    → last_status id (rows ++ row ∷ [])
      ≡ (if row.scheduled_viewing_id == id then some row.new_status else last_status id rows)
unfolding last_status
last_status-append id [] row = refl
last_status-append id (r ∷ rows) row = rw (last_status-append id rows row) (ground arith)

rows_about-append :
    (id : ℕ) (rows : List ScheduledViewingStatusHistory) (row : ScheduledViewingStatusHistory)
    → rows_about id (rows ++ row ∷ []) ≡ rows_about id rows + bit (row.scheduled_viewing_id == id)
unfolding rows_about
rows_about-append id [] row = omega arith
rows_about-append id (r ∷ rows) row = omega (arith, rows_about-append id rows row)

abbrev pub status_of : Option ScheduledViewing → Option String
status_of none = none
status_of (some v) = some v.status

-- One row when it is booked, and one more when it leaves "scheduled".
abbrev pub expected_rows : Option ScheduledViewing → ℕ
expected_rows none = 0
expected_rows (some v) = if str_eq v.status "scheduled" then 1 else 2

pub record HistoryReplays (db : Db) : Type 0 where
  pub statuses : (id : ℕ) → last_status id db.viewing_history ≡ status_of (find id db.viewings)
  pub rows : (id : ℕ) → rows_about id db.viewing_history ≡ expected_rows (find id db.viewings)

module _ (db : Db) (h : HistoryReplays db) where
  Booked-HistoryReplays :
      {viewing_id listing_id user_id slot_id : ℕ} {notes : Option String} {db' : Db}
      → find viewing_id db.viewings ≡ none
      → Booked viewing_id listing_id user_id slot_id notes db db'
      → HistoryReplays db'
  Booked-HistoryReplays {viewing_id} fresh b = record {
    statuses = λ id.
        rw (b.wrote.history_is, b.wrote.viewings_are, last_status-append, find-put)
          (ground (arith, h.statuses id, nat_beq_iff viewing_id id));
    rows = λ id.
        rw (b.wrote.history_is, b.wrote.viewings_are, rows_about-append, find-put)
          (ground (arith, h.rows id, fresh, nat_beq_iff viewing_id id));
  }

  changed-HistoryReplays :
      {tenant : Option TenantContext} {viewing_id : ℕ} {new_status : String}
      {reason : Option String} {db' : Db}
      → StatusChanged tenant viewing_id new_status reason db db'
      → HistoryReplays db'
  changed-HistoryReplays {viewing_id} {new_status} c =
      let legal = (viewing_allows_iff c.viewing.status new_status).0 c.allowed in
      record {
        statuses = λ id.
            rw (c.wrote.history_is, c.wrote.viewings_are, last_status-append, find-put)
              (ground (arith, h.statuses id, nat_beq_iff viewing_id id));
        rows = λ id.
            rw (c.wrote.history_is, c.wrote.viewings_are, rows_about-append, find-put)
              (ground (
                arith,
                h.rows id,
                c.found,
                nat_beq_iff viewing_id id,
                viewing_allows-final c.viewing.status new_status c.allowed,
                str_eq_iff c.viewing.status "scheduled",
              ));
      }

Change-HistoryReplays :
    (db db' : Db) (r : Request) → HistoryReplays db → Change db r db' → HistoryReplays db'
Change-HistoryReplays db _ _ h (failed r refused) = h
Change-HistoryReplays db _ _ h (created fresh c) = record {
  statuses = rw (c.wrote.history_is, c.wrote.viewings_are) h.statuses;
  rows = rw (c.wrote.history_is, c.wrote.viewings_are) h.rows;
}
Change-HistoryReplays db _ _ h (updated c) = record {
  statuses = rw (c.wrote.history_is, c.wrote.viewings_are) h.statuses;
  rows = rw (c.wrote.history_is, c.wrote.viewings_are) h.rows;
}
Change-HistoryReplays db _ _ h (deactivated c) = record {
  statuses = rw (c.wrote.history_is, c.wrote.viewings_are) h.statuses;
  rows = rw (c.wrote.history_is, c.wrote.viewings_are) h.rows;
}
Change-HistoryReplays db _ _ h (booked fresh b) = Booked-HistoryReplays db h fresh b
Change-HistoryReplays db _ _ h (status_changed c) = changed-HistoryReplays db h c

-- Whatever requests are served from a database where this holds, with fresh ids: the last history
-- row about a viewing carries its current status, and a viewing has one row while it is scheduled
-- and two after that.
pub serve-HistoryReplays :
    (db : Db) (rs : List Request)
    → HistoryReplays db
    → AreFresh db rs
    → HistoryReplays (serve db rs)
serve-HistoryReplays = serve_induction Change-HistoryReplays

module _ (id : ℕ) (v : ScheduledViewing) (final : v.status ≢ "scheduled") where
  Change-final :
      (db db' : Db) (r : Request)
      → find id db.viewings ≡ some v
      → Change db r db'
      → find id db'.viewings ≡ some v
  Change-final db _ _ h (failed r refused) = h
  Change-final db _ _ h (created fresh c) = rw c.wrote.viewings_are h
  Change-final db _ _ h (updated c) = rw c.wrote.viewings_are h
  Change-final db _ _ h (deactivated c) = rw c.wrote.viewings_are h
  Change-final db _ _ h (booked {viewing_id} fresh b) =
      rw (b.wrote.viewings_are, find-put) (ground (arith, nat_beq_iff viewing_id id))
  Change-final db _ _ h (status_changed {viewing_id} {new_status} c) =
      let scheduled = ((viewing_allows_iff c.viewing.status new_status).0 c.allowed).0 in
      rw (c.wrote.viewings_are, find-put) (ground (arith, c.found, nat_beq_iff viewing_id id))

-- A viewing that has left "scheduled" is never written again, whatever requests are served with
-- fresh ids.
pub final_viewing_stays :
    (id : ℕ) (v : ScheduledViewing) (db : Db) (rs : List Request)
    → v.status ≢ "scheduled"
    → find id db.viewings ≡ some v
    → AreFresh db rs
    → find id (serve db rs).viewings ≡ some v
final_viewing_stays id v db rs final = serve_induction (Change-final id v final) db rs
