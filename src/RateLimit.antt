-- ===== src/RateLimit.antt =====
-- backend/app/common/rate_limit.py. The counter of a key lives in Redis; each call that is let
-- through writes it anew with the full window as its time to live.
pub mod Bounds
use akar_ai.Prelude.{
  ℕ, zero, suc, ◌+◌, String, Bool, true, false, leb, Option, none, some, List, [], ◌∷◌, or_else,
  format, str, lookup, if◌then◌else◌,
}
use akar_ai.Redis.{Redis, redis_get, redis_set}

-- `settings`, as far as the limits read it
pub record Settings : Type 0 where
  pub rate_limit_default_max_requests : ℕ
  pub rate_limit_default_window_seconds : ℕ

pub record Limits : Type 0 where
  pub max_requests : ℕ
  pub window_seconds : ℕ

-- `x or default`: 0 counts as absent
abbrev pub or_default : Option ℕ → ℕ → ℕ
or_default none d = d
or_default (some zero) d = d
or_default (some (suc n)) d = suc n

unfoldable pub rate_limit_key : String → String → ℕ → String
rate_limit_key key_type identifier window =
    format ("ratelimit:" ∷ key_type ∷ ":" ∷ identifier ∷ ":" ∷ str window ∷ [])

-- The part of `check_rate_limit` behind the key: whether the call is let through.
unfoldable pub check_key : ℕ → String → Limits → Redis → Bool × Redis
check_key now key limits redis = elim (redis_get now key redis) [
  | none ↦ (true, redis_set now key 1 limits.window_seconds redis)
  | some current ↦
      if leb limits.max_requests current
      then (false, redis)
      else (true, redis_set now key (current + 1) limits.window_seconds redis)
]

unfoldable pub check_rate_limit :
    Settings → ℕ → String → String → Option ℕ → Option ℕ → Redis → Bool × Redis
unfolding check_key
check_rate_limit settings now key_type identifier max_requests window_seconds redis =
    let max_req = or_default max_requests settings.rate_limit_default_max_requests in
    let window = or_default window_seconds settings.rate_limit_default_window_seconds in
    check_key now (rate_limit_key key_type identifier window)
      (record { max_requests = max_req; window_seconds = window }) redis

abbrev limits_of : ℕ → ℕ → Limits
limits_of max_requests window_seconds = record {
  max_requests = max_requests;
  window_seconds = window_seconds;
}

unfoldable pub auth_rate_limits : List (String × Limits)
auth_rate_limits =
    ("login", limits_of 10 300)
    ∷ ("refresh", limits_of 30 300)
    ∷ ("logout", limits_of 30 300)
    ∷ ("password_reset", limits_of 5 600)
    ∷ ("session_revoke", limits_of 20 300)
    ∷ ("employee_deactivate", limits_of 10 300)
    ∷ []

unfoldable pub phase4_rate_limits : List (String × Limits)
phase4_rate_limits =
    ("search", limits_of 30 60)
    ∷ ("inquiry", limits_of 5 600)
    ∷ ("viewing_booking", limits_of 10 300)
    ∷ []

unfoldable pub lead_processing_rate_limits : List (String × Limits)
lead_processing_rate_limits =
    ("lead_callback", limits_of 60 60) ∷ ("lead_inquiry", limits_of 10 60) ∷ []

module _ (settings : Settings) (now : ℕ) (action identifier : String) (redis : Redis) where
  check_with : String → Limits → Bool × Redis
  check_with prefix limits =
      check_rate_limit settings now (format (prefix ∷ ":" ∷ action ∷ [])) identifier
        (some limits.max_requests) (some limits.window_seconds) redis

  unfoldable pub check_auth_rate_limit : Bool × Redis
  unfolding check_with
  check_auth_rate_limit =
      check_with "auth" (or_else (lookup action auth_rate_limits) (limits_of 30 300))

  unfoldable pub check_phase4_rate_limit : Bool × Redis
  unfolding check_with
  check_phase4_rate_limit =
      check_with "phase4" (or_else (lookup action phase4_rate_limits) (limits_of 30 60))

  unfoldable pub check_lead_processing_rate_limit : Bool × Redis
  unfolding check_with
  check_lead_processing_rate_limit = check_with "lead_processing" (
      or_else (lookup action lead_processing_rate_limits) (
        limits_of settings.rate_limit_default_max_requests
          settings.rate_limit_default_window_seconds))
