-- ===== src/Tests/Common.antt =====
-- Runs of the shared components: the rate limiter, the outbox, the transition tables, the tenant
-- check and the request transaction.
use akar_ai.Prelude.{
  ℕ, ◌+◌, ◌≡◌, ◌≤◌, ◌⊎◌, min, suc, refl, false, String, Option, none, some, List, [], ◌∷◌, length,
  arith, nat_key, text_key,
}
use akar_ai.Table.{Table, find, put, total, IsKeyed}
use akar_ai.Database.{OutboxEvent}
use akar_ai.Redis.{redis_get}
use akar_ai.RateLimit.{Limits}
use akar_ai.RateLimit.Bounds.{let_through, let_through_window}
use akar_ai.Outbox.{OutboxRow, Handler, earliest, dispatch, mark_retry, poll, claim_and_dispatch}
use akar_ai.Outbox.Claiming.{NoneReady, Claimed, claim_and_dispatch-cases}
use akar_ai.Outbox.Attempts.{attempts_left, attempts_published, AreNew, poll_bound}

abbrev twice : Limits
twice = record { max_requests = 2; window_seconds = 60 }

abbrev calls : List ℕ
calls = 101 ∷ 102 ∷ []

let_through_window_example : let_through "k" twice (100 ∷ calls) [] ≡ min (suc (length calls)) 2
let_through_window_example =
    let_through_window "k" twice 100 calls [] (omega arith) (unfold redis_get find in refl)
      ((omega arith, omega arith), ((omega arith, omega arith), tt))

abbrev event : OutboxEvent
event = record {
  event_name = "lead.created";
  aggregate_type = none;
  aggregate_id = none;
  idempotency_key = "k";
  payload = [];
}

abbrev failing : String → Option Handler
failing name = some (λ now e. some "boom")

abbrev midpoint : ℕ → ℕ → ℕ
midpoint lo hi = lo

abbrev fresh_row : OutboxRow
fresh_row = record {
  event = event;
  status = "pending";
  available_at = 0;
  processed_at = none;
  retry_count = 0;
  max_retries = 3;
  last_error = none;
}

abbrev stuck_row : OutboxRow
stuck_row = record fresh_row { status = "processing" }

abbrev queue : Table ℕ OutboxRow
queue = (1, fresh_row) ∷ (2, stuck_row) ∷ []

queue-IsKeyed : IsKeyed queue
unfolding find
queue-IsKeyed = (refl, (refl, tt))

-- An event arrives before the second round.
abbrev two_rounds : List (ℕ × Table ℕ OutboxRow)
two_rounds = (1, []) ∷ (2, (3, fresh_row) ∷ []) ∷ []

two_rounds-AreNew : AreNew midpoint failing two_rounds queue
unfolding find put earliest dispatch claim_and_dispatch mark_retry
two_rounds-AreNew = ((refl, (refl, tt)), ((refl, (refl, (refl, tt))), tt))

poll_bound_example :
    (poll midpoint failing two_rounds queue).0
    ≤ total attempts_left queue + attempts_published two_rounds
poll_bound_example = poll_bound midpoint failing two_rounds queue two_rounds-AreNew

claim_and_dispatch-cases_example :
    (NoneReady 1 queue × (claim_and_dispatch midpoint failing 1 queue ≡ (false, queue)))
    ⊎ Claimed midpoint failing 1 queue
claim_and_dispatch-cases_example = claim_and_dispatch-cases midpoint failing 1 queue queue-IsKeyed
