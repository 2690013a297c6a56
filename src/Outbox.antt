-- ===== src/Outbox.antt =====
-- workers/outbox.py and the polling loop of workers/main.py, over the outbox rows of
-- backend/app/common/events.py.
pub mod Claiming
pub mod Attempts
use akar_ai.Prelude.{
  ℕ, zero, suc, ◌+◌, ◌*◌, ◌/◌, ◌^◌, min, second, String, Bool, true, false, ◌&&◌, leb, Option, none,
  some, List, [], ◌∷◌, ◌++◌, str_eq, format, nat_key, if◌then◌else◌,
}
use akar_ai.Table.{Table, put}
use akar_ai.Database.{OutboxEvent}

-- An outbox row: the event and the columns that the worker reads and writes.
pub record OutboxRow : Type 0 where
  pub event : OutboxEvent
  pub status : String
  pub available_at : ℕ
  pub processed_at : Option ℕ
  pub retry_count : ℕ
  pub max_retries : ℕ
  pub last_error : Option String

-- The columns' defaults.
unfoldable pub new_row : ℕ → OutboxEvent → OutboxRow
new_row started event = record {
  event = event;
  status = "pending";
  available_at = started;
  processed_at = none;
  retry_count = 0;
  max_retries = 3;
  last_error = none;
}

-- A handler is given the time and the event, and raises an error or none. The rows that it inserts into
-- the outbox on its connection come with those of the next round (`poll`).
abbrev pub Handler : Type 0
Handler = ℕ → OutboxEvent → Option String

-- `where status = 'pending' and available_at <= now()`
abbrev pub is_ready : ℕ → OutboxRow → Bool
is_ready now row = str_eq row.status "pending" && leb row.available_at now

abbrev earlier : ℕ → OutboxRow → Option (ℕ × OutboxRow) → Option (ℕ × OutboxRow)
earlier id row none = some (id, row)
earlier id row (some (j, other)) =
    if leb row.available_at other.available_at then some (id, row) else some (j, other)

-- `order by available_at limit 1`
unfoldable pub earliest : ℕ → Table ℕ OutboxRow → Option (ℕ × OutboxRow)
earliest now [] = none
earliest now ((id, row) ∷ rows) =
    let rest = earliest now rows in if is_ready now row then earlier id row rest else rest

-- `_claim_pending_event` on the row that it selects
abbrev pub claimed : OutboxRow → OutboxRow
claimed row = record row { status = "processing" }

-- `_mark_delivered`
abbrev pub delivered : ℕ → OutboxRow → OutboxRow
delivered now row = record row { status = "delivered"; processed_at = some now }

abbrev pub delay_seconds : ℕ → ℕ
delay_seconds retry_count = min 300 (5 * 2 ^ retry_count)

-- `_mark_retry`; `uniform lo hi` is the number that `random.uniform` draws.
unfoldable pub mark_retry : (ℕ → ℕ → ℕ) → ℕ → String → OutboxRow → OutboxRow
mark_retry uniform now last_error row =
    let new_retry = row.retry_count + 1 in
    let delay = delay_seconds row.retry_count * second in
    if leb row.max_retries new_retry
    then record row {
      status = "dead_letter";
      available_at = now;
      retry_count = new_retry;
      last_error = some last_error;
    }
    else record row {
      status = "pending";
      available_at = now + uniform (delay * 3 / 4) (delay * 5 / 4);
      retry_count = new_retry;
      last_error = some last_error;
    }

module _ (uniform : ℕ → ℕ → ℕ) (handlers : String → Option Handler) where
  finish : ℕ → OutboxRow → Option String → OutboxRow
  finish now row none = delivered now row
  finish now row (some error) = mark_retry uniform now error row

  -- What becomes of a claimed row: no handler, a handler that raises, a handler that returns.
  unfoldable pub dispatch : ℕ → OutboxRow → OutboxRow
  unfolding finish
  dispatch now row = elim (handlers row.event.event_name) [
    | none ↦
        mark_retry uniform now
          (format ("no handler registered for '" ∷ row.event.event_name ∷ "'" ∷ [])) row
    | some handler ↦ finish now row (handler now row.event)
  ]

  unfoldable pub claim_and_dispatch : ℕ → Table ℕ OutboxRow → Bool × Table ℕ OutboxRow
  claim_and_dispatch now rows = elim (earliest now rows) [
    | none ↦ (false, rows)
    | some (id, row) ↦ (true, put id (dispatch now (claimed row)) (put id (claimed row) rows))
  ]

  -- The polling loop: one call in each round, and how many of them found an event. A round has its
  -- time and the rows that were inserted since the last one, by the backend or by a handler.
  unfoldable pub poll : List (ℕ × Table ℕ OutboxRow) → Table ℕ OutboxRow → ℕ × Table ℕ OutboxRow
  poll [] rows = (0, rows)
  poll ((now, new) ∷ rounds) rows =
      let (processed, rows') = claim_and_dispatch now (rows ++ new) in
      let (n, last) = poll rounds rows' in (if processed then n + 1 else n, last)
