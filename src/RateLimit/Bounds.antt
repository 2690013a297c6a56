-- ===== src/RateLimit/Bounds.antt =====
-- How many calls a limit lets through.
use akar_ai.Prelude.{
  ℕ, suc, ◌+◌, ◌*◌, ◌≤◌, ◌<◌, second, String, true, leb, ◌≡◌, none, some, List, [], ◌∷◌, All, arith,
  str_eq_refl, ◌-◌, min, length, Bool-cases, Option-cases, inl, inr,
}
use akar_ai.Redis.{Redis, redis_get, redis_set, redis_get-redis_set}
use akar_ai.RateLimit.{Limits, check_key}
use akar_ai.Table.{bit}

module _ (key : String) (limits : Limits) where
  -- The calls of one key at the times given, and how many were let through.
  unfoldable pub let_through : List ℕ → Redis → ℕ
  let_through [] redis = 0
  let_through (now ∷ times) redis =
      bit (check_key now key limits redis).0 + let_through times (check_key now key limits redis).1

  -- Within the window that begins at `start` the counter is `n`.
  abbrev Counts : ℕ → ℕ → Redis → Type 0
  Counts start n redis =
      (t : ℕ) → t < start + limits.window_seconds * second → redis_get t key redis ≡ some n

  abbrev pub InWindow : ℕ → ℕ → Type 0
  InWindow start t = (start ≤ t) × (t < start + limits.window_seconds * second)

  Counts-redis_set :
      (start now n : ℕ) (redis : Redis)
      → start ≤ now
      → Counts start n (redis_set now key n limits.window_seconds redis)
  Counts-redis_set start now n redis h t early =
      rw (redis_get-redis_set, str_eq_refl) (ground arith)

  let_through_counted :
      (start n : ℕ) (times : List ℕ) (redis : Redis)
      → Counts start n redis
      → All (InWindow start) times
      → let_through times redis ≡ min (length times) (limits.max_requests - n)
  unfolding let_through check_key
  let_through_counted start n [] redis h w = omega arith
  let_through_counted start n (now ∷ times) redis h ((begun, early), w) =
      let counted : redis_get now key redis ≡ some n = h now early in
      let refused = let_through_counted start n times redis h w in
      let passed =
        let_through_counted start (n + 1) times
          (redis_set now key (n + 1) limits.window_seconds redis)
          (Counts-redis_set start now (n + 1) redis begun) w in
      elim (Bool-cases (leb limits.max_requests n)) [
        | inl full ↦ ground (arith, counted, full, refused)
        | inr room ↦ ground (arith, counted, room, passed)
      ]

-- Of any calls in one window from `start` on, whose first finds no counter, exactly the first
-- `max_requests` are let through.
pub let_through_window :
    (key : String) (limits : Limits) (start : ℕ) (times : List ℕ) (redis : Redis)
    → 0 < limits.max_requests
    → redis_get start key redis ≡ none
    → All (InWindow key limits start) times
    → let_through key limits (start ∷ times) redis ≡ min (suc (length times)) limits.max_requests
unfolding let_through check_key
let_through_window key limits start times redis some_allowed fresh w =
    let counted =
      let_through_counted key limits start 1 times
        (redis_set start key 1 limits.window_seconds redis)
        (Counts-redis_set key limits start start 1 redis (omega arith)) w in
    ground (arith, fresh, counted)

-- After a call that was let through, a next call that comes at least one window later is let
-- through.
pub check_key-after_window :
    (key : String) (limits : Limits) (now later : ℕ) (redis : Redis)
    → (check_key now key limits redis).0 ≡ true
    → now + limits.window_seconds * second ≤ later
    → (check_key later key limits (check_key now key limits redis).1).0 ≡ true
unfolding check_key
check_key-after_window key limits now later redis passed waited =
    elim (Option-cases (redis_get now key redis)) [
      | inl none_yet ↦
          let gone : redis_get later key (redis_set now key 1 limits.window_seconds redis) ≡ none =
            rw (redis_get-redis_set, str_eq_refl) (ground arith) in
          ground (arith, none_yet, gone)
      | inr (n, counted) ↦ elim (Bool-cases (leb limits.max_requests n)) [
        | inl full ↦ absurd (ground (arith, counted, full))
        | inr room ↦
            let gone : redis_get later key (redis_set now key (n + 1) limits.window_seconds redis)
                ≡ none =
              rw (redis_get-redis_set, str_eq_refl) (ground arith) in
            ground (arith, counted, room, gone)
      ]
    ]
