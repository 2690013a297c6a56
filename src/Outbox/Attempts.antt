-- ===== src/Outbox/Attempts.antt =====
-- How often an event is tried, and when.
use akar_ai.Prelude.{
  ℕ, ◌+◌, ◌-◌, ◌*◌, ◌/◌, ◌≤◌, ◌<◌, ◌↔◌, max, second, String, true, leb, ◌≡◌, refl, Option, List, [],
  ◌∷◌, ◌++◌, arith, str_eq, str_eq_iff, nat_key, Bool-cases, Option-cases, inl, inr, if◌then◌else◌,
}
use akar_ai.Table.{Table, put, find-put_self, total, total-put_old, IsKeyed}
use akar_ai.Outbox.{
  OutboxRow, Handler, claimed, delay_seconds, mark_retry, dispatch, claim_and_dispatch, poll,
}
use akar_ai.Outbox.Claiming.{claim_and_dispatch-cases}

-- The rounds that a row can still take.
abbrev pub attempts_left : OutboxRow → ℕ
attempts_left row =
    if str_eq row.status "pending" then max 1 (row.max_retries - row.retry_count) else 0

-- The rounds that the rows that arrive can take.
abbrev pub attempts_published : List (ℕ × Table ℕ OutboxRow) → ℕ
attempts_published [] = 0
attempts_published ((now, new) ∷ rounds) = total attempts_left new + attempts_published rounds

total-append :
    (f : OutboxRow → ℕ) (rows new : Table ℕ OutboxRow)
    → total f (rows ++ new) ≡ total f rows + total f new
unfolding total
total-append f [] new = omega arith
total-append f ((id, row) ∷ rows) new = ground (arith, total-append f rows new)

mark_retry-attempts_left :
    (uniform : ℕ → ℕ → ℕ) (now : ℕ) (error : String) (row : OutboxRow)
    → attempts_left (mark_retry uniform now error row) + 1
      ≤ max 1 (row.max_retries - row.retry_count)
unfolding mark_retry
mark_retry-attempts_left uniform now error row =
    elim (Bool-cases (leb row.max_retries (row.retry_count + 1))) [
      | inl used_up ↦ rw used_up (omega arith)
      | inr more ↦ rw more (ground arith)
    ]

module _ (uniform : ℕ → ℕ → ℕ) (handlers : String → Option Handler) where
  dispatch-attempts_left :
      (now : ℕ) (row : OutboxRow)
      → str_eq row.status "pending" ≡ true
      → attempts_left (dispatch uniform handlers now (claimed row)) + 1 ≤ attempts_left row
  unfolding dispatch
  dispatch-attempts_left now row h = elim (Option-cases (handlers row.event.event_name)) [
    | inl missing ↦
        rw (missing, dispatch) (rw h (mark_retry-attempts_left uniform now _ (claimed row)))
    | inr (handler, registered) ↦ elim (Option-cases (handler now row.event)) [
      | inl returned ↦ rw (registered, returned, dispatch) (rw h (omega arith))
      | inr (error, raised) ↦
          rw (registered, raised, dispatch)
            (rw h (mark_retry-attempts_left uniform now error (claimed row)))
    ]
  ]

  claim-attempts_left :
      (now : ℕ) (rows : Table ℕ OutboxRow)
      → IsKeyed rows
      → (if (claim_and_dispatch uniform handlers now rows).0 then 1 else 0)
          + total attempts_left (claim_and_dispatch uniform handlers now rows).1
        ≤ total attempts_left rows
  claim-attempts_left now rows h = elim (claim_and_dispatch-cases uniform handlers now rows h) [
    | inl (nothing, e) ↦ rw e (omega arith)
    | inr c ↦
        let once = total-put_old attempts_left c.id (claimed c.row) c.row rows c.found in
        let twice =
          total-put_old attempts_left c.id (dispatch uniform handlers now (claimed c.row))
            (claimed c.row) (put c.id (claimed c.row) rows)
            (find-put_self c.id (claimed c.row) rows) in
        rw c.result
          (omega (arith, once, twice, dispatch-attempts_left now c.row (ground (arith, c.ready))))
  ]

  -- New rows have keys that are not in the table.
  abbrev pub AreNew : List (ℕ × Table ℕ OutboxRow) → Table ℕ OutboxRow → Type 0
  AreNew [] rows = Unit
  AreNew ((now, new) ∷ rounds) rows =
      IsKeyed (rows ++ new)
      × AreNew rounds (claim_and_dispatch uniform handlers now (rows ++ new)).1

  poll-attempts_left :
      (rounds : List (ℕ × Table ℕ OutboxRow)) (rows : Table ℕ OutboxRow)
      → AreNew rounds rows
      → (poll uniform handlers rounds rows).0 ≤ total attempts_left rows + attempts_published rounds
  unfolding poll
  poll-attempts_left [] rows h = omega arith
  poll-attempts_left ((now, new) ∷ rounds) rows (keyed, later) = ground (
    arith,
    total-append attempts_left rows new,
    claim-attempts_left now (rows ++ new) keyed,
    poll-attempts_left rounds (claim_and_dispatch uniform handlers now (rows ++ new)).1 later,
  )

-- While the worker polls and rows arrive between its rounds, from the backend or from the handlers, it
-- has at most as many rounds that find an event as the pending rows, those of the beginning and those
-- that arrive, have attempts left: each `max_retries` less what it has used, and at least one. A row
-- that arrives has a key that is not in the table, and nothing else changes rows of the outbox.
pub poll_bound :
    (uniform : ℕ → ℕ → ℕ) (handlers : String → Option Handler)
    (rounds : List (ℕ × Table ℕ OutboxRow)) (rows : Table ℕ OutboxRow)
    → AreNew uniform handlers rounds rows
    → (poll uniform handlers rounds rows).0 ≤ total attempts_left rows + attempts_published rounds
poll_bound uniform handlers rounds rows h = poll-attempts_left uniform handlers rounds rows h

-- A failed attempt is counted, and makes the event dead exactly when its retries are used up.
pub mark_retry-dead_iff :
    (uniform : ℕ → ℕ → ℕ) (now : ℕ) (error : String) (row : OutboxRow)
    → ((mark_retry uniform now error row).retry_count ≡ row.retry_count + 1)
      × ((mark_retry uniform now error row).status ≡ "dead_letter"
          ↔ (row.max_retries ≤ row.retry_count + 1))
unfolding mark_retry
mark_retry-dead_iff uniform now error row =
    elim (Bool-cases (leb row.max_retries (row.retry_count + 1))) [
      | inl used_up ↦ rw used_up (refl, (λ e. ground arith, λ h. refl))
      | inr more ↦
          rw more
            (refl, (λ e. ground (arith, str_eq_iff "pending" "dead_letter"), λ h. ground arith))
    ]

-- An event with retries left is pending again after a failed attempt, and due after three
-- quarters of the delay at the earliest and, however many retries there were, after 375 seconds
-- at the latest, when the random number drawn lies between its bounds.
pub mark_retry_backoff :
    (uniform : ℕ → ℕ → ℕ) (now : ℕ) (error : String) (row : OutboxRow)
    → ((lo hi : ℕ) → lo ≤ hi → (lo ≤ uniform lo hi) × (uniform lo hi ≤ hi))
    → row.retry_count + 1 < row.max_retries
    → ((mark_retry uniform now error row).status ≡ "pending")
      × (now + delay_seconds row.retry_count * second * 3 / 4
          ≤ (mark_retry uniform now error row).available_at)
      × ((mark_retry uniform now error row).available_at ≤ now + 375 * second)
unfolding mark_retry
mark_retry_backoff uniform now error row drawn alive =
    let d : ℕ = delay_seconds row.retry_count * second in
    let (lo, hi) = drawn (d * 3 / 4) (d * 5 / 4) (omega arith) in
    elim (Bool-cases (leb row.max_retries (row.retry_count + 1))) [
      | inl used_up ↦ absurd (ground arith)
      | inr more ↦ rw more (refl, omega (arith, lo), omega (arith, hi))
    ]
