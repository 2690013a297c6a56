-- ===== src/Tests/Viewings.antt =====
-- Runs of the viewing requests.
use akar_ai.Prelude.{◌<◌, ◌↔◌, ◌≡◌, refl, none, some, List, [], ◌∷◌, arith, nat_key}
use akar_ai.Exec.{ok}
use akar_ai.Table.{find, put, count}
use akar_ai.Database.{Db, ScheduledViewing, ListingViewingSlot}
use akar_ai.Exec.{transaction}
use akar_ai.Tenant.{require_tenant, ensure_tenant_match}
use akar_ai.Domain.{valid_viewing_statuses, viewing_status_transitions, allows}
use akar_ai.Viewings.Requests.{Request, update, book, set_status, handle, serve, AreFresh}
use akar_ai.Viewings.Capacity.{WithinCapacity, serve-WithinCapacity}
use akar_ai.Viewings.Capacity.{book_viewing-ok_iff, update_slot_overbooks}
use akar_ai.Viewings.Seats.{SeatsAreCounted, serve-SeatsAreCounted}
use akar_ai.Viewings.History.{HistoryReplays, last_status, rows_about, serve-HistoryReplays}
use akar_ai.Viewings.Isolation.{StaysInTenant, handle-StaysInTenant}
use akar_ai.Viewings.Change.{Change}
use akar_ai.Viewings.Bookings.{new_viewing, book_viewing, update_viewing_status}
use akar_ai.Tests.Data.{agent, villa, morning, agency}

-- Two bookings of the last seats, and a cancellation between them.
abbrev day_at_the_agency : List Request
day_at_the_agency =
    book 3 1 9 2 none
    ∷ set_status (some agent) 3 "cancelled_by_agency" none
    ∷ book 4 1 9 2 (some "again")
    ∷ []

agency-WithinCapacity : WithinCapacity agency
unfolding find
agency-WithinCapacity = record { at_slot = λ id slot found. ground arith }

agency-AreFresh : AreFresh agency day_at_the_agency
unfolding find put handle transaction serve book_viewing update_viewing_status require_tenant
    ensure_tenant_match valid_viewing_statuses viewing_status_transitions allows
agency-AreFresh = (refl, (tt, (refl, tt)))

serve-WithinCapacity_example : WithinCapacity (serve agency day_at_the_agency)
serve-WithinCapacity_example =
    serve-WithinCapacity agency day_at_the_agency agency-WithinCapacity agency-AreFresh
      (tt, (tt, (tt, tt)))

agency-SeatsAreCounted : SeatsAreCounted agency
unfolding find count
agency-SeatsAreCounted = record { seats = λ id. ground arith }

serve-SeatsAreCounted_example : SeatsAreCounted (serve agency day_at_the_agency)
serve-SeatsAreCounted_example =
    serve-SeatsAreCounted agency day_at_the_agency agency-SeatsAreCounted agency-AreFresh

agency-HistoryReplays : HistoryReplays agency
unfolding find last_status rows_about
agency-HistoryReplays = record { statuses = λ id. refl; rows = λ id. refl }

serve-HistoryReplays_example : HistoryReplays (serve agency day_at_the_agency)
serve-HistoryReplays_example =
    serve-HistoryReplays agency day_at_the_agency agency-HistoryReplays agency-AreFresh

-- A slot whose two seats are taken, one by a viewing that is cancelled in a moment.
abbrev taken : ListingViewingSlot
taken = record morning { reserved_count = 2 }

abbrev visit : ScheduledViewing
visit = new_viewing villa 1 morning 2 9 none

abbrev full : Db
full = record agency { slots = (2, taken) ∷ []; viewings = (3, visit) ∷ (4, visit) ∷ [] }

abbrev over : ScheduledViewing
over = record visit { status = "completed" }

abbrev after_visits : Db
after_visits = record full { viewings = (3, over) ∷ (4, visit) ∷ [] }

handle-StaysInTenant_example :
    StaysInTenant agent full (handle (set_status (some agent) 3 "completed" none) full)
handle-StaysInTenant_example =
    handle-StaysInTenant agent full (set_status (some agent) 3 "completed" none) refl refl tt

book_viewing-ok_iff_example : ((book_viewing 3 1 9 2 none agency).0 ≡ ok visit) ↔ (
    (villa.status ≡ "active")
    × (morning.status ≡ "active")
    × (morning.listing_id ≡ 1)
    × (morning.reserved_count < morning.capacity))
book_viewing-ok_iff_example =
    book_viewing-ok_iff 3 1 9 2 none agency villa morning (unfold find in refl)
      (unfold find in refl)

booked_now : (v : ScheduledViewing) × ((book_viewing 3 1 9 2 none agency).0 ≡ ok v)
unfolding find put book_viewing
booked_now = (visit, refl)

cancel_now :
    (update_viewing_status (some agent) 3 "cancelled_by_user" none full).0
    ≡ ok (record visit { status = "cancelled_by_user" })
unfolding find put update_viewing_status require_tenant ensure_tenant_match valid_viewing_statuses
    viewing_status_transitions allows
cancel_now = refl

update_slot_overbooks_example : ¬ WithinCapacity (
    handle
      (update
        (some agent)
        0
        1
        2
        (record { starts_at = none; ends_at = none; capacity = some 1; status = none }))
      full)
update_slot_overbooks_example =
    update_slot_overbooks agent 0 1 2 1 full taken (unfold require_tenant in refl)
      (unfold ensure_tenant_match in refl) (unfold find in refl) refl (omega arith) (omega arith)
      (omega arith)
