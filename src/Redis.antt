-- ===== src/Redis.antt =====
-- backend/app/common/redis.py: `set` with a time to live, `get` and `delete`. Every value that the
-- modelled callers store is the decimal text of a number, and is kept as that number.
use akar_ai.Prelude.{
  ℕ, ◌+◌, ◌*◌, second, String, ltb, ◌≡◌, Option, none, some, arith, str_eq, text_key, str_eq_iff,
  if◌then◌else◌,
}
use akar_ai.Table.{Table, find, put, find-put}

pub record Entry : Type 0 where
  pub value : ℕ
  pub expires_at : ℕ

abbrev pub Redis : Type 0
Redis = Table String Entry

abbrev live : ℕ → Option Entry → Option ℕ
live now none = none
live now (some e) = if ltb now e.expires_at then some e.value else none

unfoldable pub redis_set : ℕ → String → ℕ → ℕ → Redis → Redis
redis_set now key value ttl redis =
    put key (record { value = value; expires_at = now + ttl * second }) redis

unfoldable pub redis_get : ℕ → String → Redis → Option ℕ
redis_get now key redis = live now (find key redis)

-- A key is readable until its time to live has passed; other keys are untouched.
pub redis_get-redis_set :
    (now later : ℕ) (key k : String) (value ttl : ℕ) (redis : Redis)
    → redis_get later k (redis_set now key value ttl redis) ≡ (
        if str_eq key k
        then (if ltb later (now + ttl * second) then some value else none)
        else redis_get later k redis)
unfolding redis_get redis_set
redis_get-redis_set now later key k value ttl redis = rw find-put (ground (arith, str_eq_iff key k))
